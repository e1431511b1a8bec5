-- ===== src/Jobs/Compatibility.antt =====
-- app/jobs/domain: value_objects/compatibility_score.py, policies/job_compatibility_policy.py,
-- policies/automatic_match_policy.py and policies/skill_match.py. A set of identifiers is a list
-- without repetitions.
pub mod Ranking
use seniors_empregabilidade.Prelude.{
  Bool, List, [], difference, if◌then◌else◌, intersection, is_none_of, leb, length, ltb, not, suc,
  to_set, zero, ℕ, ◌%◌, ◌&&◌, ◌*◌, ◌+◌, ◌/◌, ◌^◌, ◌∷◌,
}

pub record CompatibilityScore : Type 0 where
  pub candidate_id : ℕ
  pub matched_skill_ids : List ℕ
  pub missing_skill_ids : List ℕ

-- Whether `__post_init__` lets the value through.
abbrev pub post_init_passes : CompatibilityScore → Bool
post_init_passes s =
    not (is_none_of s.matched_skill_ids && is_none_of s.missing_skill_ids)
    && is_none_of (intersection s.matched_skill_ids s.missing_skill_ids)

abbrev pub matched_count : CompatibilityScore → ℕ
matched_count s = length s.matched_skill_ids

abbrev pub required_count : CompatibilityScore → ℕ
required_count s = length s.matched_skill_ids + length s.missing_skill_ids

abbrev pub highlight_threshold_percent : ℕ
highlight_threshold_percent = 50

abbrev pub is_highlighted : CompatibilityScore → Bool
is_highlighted s = leb (highlight_threshold_percent * required_count s) (matched_count s * 100)

-- `is_automatic_match`
abbrev pub is_automatic_match : CompatibilityScore → Bool
is_automatic_match s = is_highlighted s

-- The number of decimal places at which the quotient of two positive numbers has 28 digits, which
-- is the precision of `decimal`'s default context.
unfoldable pub places : (fuel m r : ℕ) → ℕ
places zero m r = 0
places (suc fuel) m r =
    let more = suc (places fuel (m * 10) r) in if leb (10 ^ 27 * r) m then 0 else more

-- A quotient rounded to the nearest whole number, a half to the even one.
unfoldable pub half_even : (n d : ℕ) → ℕ
half_even n d =
    let q = n / d in
    let twice = 2 * (n % d) in if ltb twice d then q else if ltb d twice then q + 1 else q + q % 2

-- A quotient rounded to the nearest whole number, a half up.
unfoldable pub half_up : (n d : ℕ) → ℕ
half_up n d = (2 * n + d) / (2 * d)

-- `percentage`, in hundredths of a percent: the quotient of `decimal` with 28 digits, times 100,
-- rounded half up to two places.
unfoldable pub percentage : CompatibilityScore → ℕ
percentage s = elim (matched_count s) [
  | zero ↦ 0
  | suc k ↦
      let p = places 60 (suc k) (required_count s) in
      half_up (half_even (suc k * 10 ^ p) (required_count s) * 10000) (10 ^ p)
]

-- `JobCompatibilityPolicy(ids).score(...)`, where `required` is the policy's set.
unfoldable pub score :
    (required : List ℕ) (candidate_id : ℕ) (candidate_skill_ids : List ℕ) → CompatibilityScore
score required candidate_id candidate_skill_ids =
    let matched = intersection required (to_set candidate_skill_ids) in
    record {
      candidate_id = candidate_id;
      matched_skill_ids = matched;
      missing_skill_ids = difference required matched;
    }

-- One step of the stable sort: in front of the scores that are not higher.
abbrev pub insert_score : CompatibilityScore → List CompatibilityScore → List CompatibilityScore
insert_score s [] = s ∷ []
insert_score s (t ∷ ts) =
    let rest = insert_score s ts in
    if leb (percentage t) (percentage s) then s ∷ t ∷ ts else t ∷ rest

-- `sorted(scores, key=lambda score: -score.percentage)`
abbrev pub sorted_scores : List CompatibilityScore → List CompatibilityScore
sorted_scores [] = []
sorted_scores (s ∷ ss) = insert_score s (sorted_scores ss)

abbrev pub all_scores : (required : List ℕ) → List (ℕ × List ℕ) → List CompatibilityScore
all_scores required [] = []
all_scores required ((candidate_id, skill_ids) ∷ rest) =
    score required candidate_id skill_ids ∷ all_scores required rest

-- `JobCompatibilityPolicy(ids).rank(...)`
abbrev pub rank : (required : List ℕ) → List (ℕ × List ℕ) → List CompatibilityScore
rank required skill_ids_by_candidate = sorted_scores (all_scores required skill_ids_by_candidate)

-- `SkillMatch`
pub record SkillMatch : Type 0 where
  pub matched_count : ℕ
  pub required_count : ℕ
  pub missing_skill_ids : List ℕ

unfoldable pub match_skills : (candidate_skill_ids required_skill_ids : List ℕ) → SkillMatch
match_skills candidate_skill_ids required_skill_ids = record {
  matched_count = length (intersection required_skill_ids candidate_skill_ids);
  required_count = length required_skill_ids;
  missing_skill_ids = difference required_skill_ids candidate_skill_ids;
}
