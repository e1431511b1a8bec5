-- ===== src/Applications/Policies.antt =====
-- app/applications/domain/policies: requirement_match.py and days_in_process.py.
use seniors_empregabilidade.Prelude.{
  IsSubset, List, Option, SameMembers, ap, covered_iff, intersection, intersection_same, length,
  length-select_where-le, none, some, sym, to_set, ℕ, ◌-◌, ◌↔◌, ◌≡◌, ◌≤◌,
}

pub record RequirementMatch : Type 0 where
  pub matched : ℕ
  pub total : ℕ

unfoldable pub match_requirements :
    (required_skill_ids candidate_skill_ids : List ℕ) → RequirementMatch
match_requirements required_skill_ids candidate_skill_ids =
    let required = to_set required_skill_ids in
    record {
      matched = length (intersection required (to_set candidate_skill_ids));
      total = length required;
    }

-- The calendar day of an instant in `LOCAL_TIMEZONE` is a parameter: it comes from the time zone
-- database. The days between two dates, cut off at zero.
abbrev pub days_in_process :
    (to_local_date : ℕ → ℕ) (submitted_at : ℕ) (closed_at : Option ℕ) (now : ℕ) → ℕ
days_in_process to_local_date submitted_at closed_at now =
    to_local_date (elim closed_at [ none ↦ now | some t ↦ t ]) - to_local_date submitted_at

-- The match never exceeds the total, and it is full exactly when the candidate has every required
-- skill.
pub match_requirements_lem :
    (required candidate : List ℕ)
    → let m = match_requirements required candidate in
      (m.matched ≤ m.total) × ((m.matched ≡ m.total) ↔ IsSubset required candidate)
unfolding match_requirements
match_requirements_lem required candidate =
    (length-select_where-le _ (to_set required), covered_iff required candidate)

-- Two candidate lists with the same members match a job equally: order and repetition on the
-- candidate's side do not count.
pub match_requirements_same :
    (required candidate candidate' : List ℕ)
    → SameMembers candidate candidate'
    → match_requirements required candidate' ≡ match_requirements required candidate
unfolding match_requirements
match_requirements_same required candidate candidate' same =
    ap (λ matched. record { matched = length matched; total = length (to_set required) })
      (sym (intersection_same (to_set required) candidate candidate' same))
