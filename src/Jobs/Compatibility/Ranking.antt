-- ===== src/Jobs/Compatibility/Ranking.antt =====
-- What the ranking promises: highest percentage first, and ties in the caller's order.
use seniors_empregabilidade.Prelude.{
  All, All-map_implies, Bool, Bool-cases, IsSubset, List, [], ap, arith, difference,
  difference-intersection, disjoint_lem, exists_where, false, full_intersection, if◌then◌else◌, inl,
  inr, intersection, is_none_of, is_none_of-length, leb, leb→le, length,
  length-intersection-add-difference, not, refl, select_where, to_set, true, ℕ, ◌&&◌, ◌*◌, ◌+◌,
  ◌==◌, ◌||◌, ◌↔◌, ◌∙◌, ◌∷◌, ◌≡◌, ◌≤◌,
}
use seniors_empregabilidade.Jobs.Compatibility.{
  CompatibilityScore, all_scores, insert_score, is_highlighted, match_skills, matched_count,
  percentage, post_init_passes, rank, required_count, score, sorted_scores,
}

-- Each score is at least as high as all that follow.
abbrev pub IsDescending : List CompatibilityScore → Type 0
IsDescending [] = Unit
IsDescending (s ∷ ss) = All (λ t. percentage t ≤ percentage s) ss × IsDescending ss

-- The scores with one percentage.
abbrev pub tied : ℕ → List CompatibilityScore → List CompatibilityScore
tied p = select_where (λ s. percentage s == p)

pub All-insert_score :
    (P : CompatibilityScore → Type 0) (s : CompatibilityScore) (ss : List CompatibilityScore)
    → P s
    → All P ss
    → All P (insert_score s ss)
All-insert_score P s [] h all = (h, tt)
All-insert_score P s (t ∷ ts) h all = elim (Bool-cases (leb (percentage t) (percentage s))) [
  | inl c ↦ rw c (h, all)
  | inr c ↦ rw c (all.0, All-insert_score P s ts h all.1)
]

insert_score-IsDescending :
    (s : CompatibilityScore) (ss : List CompatibilityScore)
    → IsDescending ss
    → IsDescending (insert_score s ss)
insert_score-IsDescending s [] d = (tt, tt)
insert_score-IsDescending s (t ∷ ts) d = elim (Bool-cases (leb (percentage t) (percentage s))) [
  | inl c ↦ rw c (
      let le : percentage t ≤ percentage s = leb→le _ _ c in
      ((le, All-map_implies _ _ ts (λ u h. omega (arith, h, le)) d.0), d))
  | inr c ↦ rw c (
    All-insert_score (λ u. percentage u ≤ percentage t) s ts (ground arith) d.0,
    insert_score-IsDescending s ts d.1,
  )
]

sorted_scores-IsDescending : (ss : List CompatibilityScore) → IsDescending (sorted_scores ss)
sorted_scores-IsDescending [] = tt
sorted_scores-IsDescending (s ∷ ss) =
    insert_score-IsDescending s (sorted_scores ss) (sorted_scores-IsDescending ss)

tied-insert_score :
    (p : ℕ) (s : CompatibilityScore) (ss : List CompatibilityScore)
    → tied p (insert_score s ss) ≡ tied p (s ∷ ss)
tied-insert_score p s [] = refl
tied-insert_score p s (t ∷ ts) = ground (arith, tied-insert_score p s ts)

tied-sorted_scores : (p : ℕ) (ss : List CompatibilityScore) → tied p (sorted_scores ss) ≡ tied p ss
tied-sorted_scores p [] = refl
tied-sorted_scores p (s ∷ ss) =
    tied-insert_score p s (sorted_scores ss)
    ∙ ap (λ r. if percentage s == p then s ∷ r else r) (tied-sorted_scores p ss)

exists_insert :
    (q : CompatibilityScore → Bool) (s : CompatibilityScore) (ss : List CompatibilityScore)
    → exists_where q (insert_score s ss) ≡ (q s || exists_where q ss)
exists_insert q s [] = refl
exists_insert q s (t ∷ ts) = ground (arith, exists_insert q s ts)

pub exists_where-sorted_scores :
    (q : CompatibilityScore → Bool) (ss : List CompatibilityScore)
    → exists_where q (sorted_scores ss) ≡ exists_where q ss
exists_where-sorted_scores q [] = refl
exists_where-sorted_scores q (s ∷ ss) =
    exists_insert q s (sorted_scores ss) ∙ ap (λ r. q s || r) (exists_where-sorted_scores q ss)

-- The ranking lists the scores by percentage, the highest first, and the scores with any one
-- percentage are exactly the given ones in the given order: no candidate is lost or repeated, and
-- ties keep the caller's order.
pub rank_lem :
    (required : List ℕ) (skill_ids_by_candidate : List (ℕ × List ℕ))
    → IsDescending (rank required skill_ids_by_candidate)
      × ((p : ℕ)
          → tied p (rank required skill_ids_by_candidate)
            ≡ tied p (all_scores required skill_ids_by_candidate))
rank_lem required skill_ids_by_candidate = (
  sorted_scores-IsDescending (all_scores required skill_ids_by_candidate),
  λ p. tied-sorted_scores p (all_scores required skill_ids_by_candidate),
)

pub required_count-score :
    (required : List ℕ) (candidate_id : ℕ) (skill_ids : List ℕ)
    → required_count (score required candidate_id skill_ids) ≡ length required
unfolding score
required_count-score required candidate_id skill_ids =
    let held = to_set skill_ids in
    ap (λ m. length (intersection required held) + length m) (difference-intersection required held)
    ∙ length-intersection-add-difference required held

passes_checks :
    (required : List ℕ) (candidate_id : ℕ) (skill_ids : List ℕ)
    → is_none_of required ≡ false
    → required_count (score required candidate_id skill_ids) ≡ length required
    → post_init_passes (score required candidate_id skill_ids) ≡ true
unfolding score
passes_checks required candidate_id skill_ids h sizes =
    let m = intersection required (to_set skill_ids) in
    ap (λ b. not (is_none_of m && is_none_of (difference required m)) && b)
      (disjoint_lem required (to_set skill_ids))
    ∙ ground (
      arith,
      sizes,
      h,
      is_none_of-length required,
      is_none_of-length m,
      is_none_of-length (difference required m),
    )

-- A score that the policy computes for a non-empty requirement passes the checks of
-- `CompatibilityScore`: matched and missing skills are not both empty and share no skill. Together
-- they are as many as the required skills, and the candidate is highlighted exactly when at least
-- half of the required skills are matched.
pub score_lem :
    (required : List ℕ) (candidate_id : ℕ) (skill_ids : List ℕ)
    → is_none_of required ≡ false
    → let s = score required candidate_id skill_ids in
      (post_init_passes s ≡ true)
      × (required_count s ≡ length required)
      × ((is_highlighted s ≡ true) ↔ (length required ≤ 2 * matched_count s))
unfolding score
score_lem required candidate_id skill_ids h =
    let sizes = required_count-score required candidate_id skill_ids in
    (passes_checks required candidate_id skill_ids h sizes, sizes, ground (arith, sizes))

-- A skill match splits the required skills: the matched ones and the missing ones are together as
-- many as the required ones, and all are matched exactly when the candidate has every required
-- skill.
pub match_skills_lem :
    (candidate_skill_ids required_skill_ids : List ℕ)
    → let m = match_skills candidate_skill_ids required_skill_ids in
      (m.matched_count + length m.missing_skill_ids ≡ m.required_count)
      × ((m.matched_count ≡ m.required_count) ↔ IsSubset required_skill_ids candidate_skill_ids)
unfolding match_skills
match_skills_lem candidate_skill_ids required_skill_ids = (
  length-intersection-add-difference required_skill_ids candidate_skill_ids,
  full_intersection required_skill_ids candidate_skill_ids,
)
