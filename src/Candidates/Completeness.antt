-- ===== src/Candidates/Completeness.antt =====
-- app/candidates/domain/resume_completeness.py
use seniors_empregabilidade.Prelude.{
  Bool, List, Option, Str, [], arith, false, if◌then◌else◌, is_empty, length, none, not, some,
  strip, true, ℕ, ◌*◌, ◌+◌, ◌-◌, ◌/◌, ◌||◌, ◌↔◌, ◌∷◌, ◌≡◌, ◌≤◌,
}

-- `RESUME_FIELDS`
pub data ResumeField : Type 0 where
  city state summary experiences education skills : ResumeField

abbrev pub resume_fields : List ResumeField
resume_fields =
    ResumeField.city ∷ ResumeField.state ∷ ResumeField.summary ∷ ResumeField.experiences
    ∷ ResumeField.education ∷ ResumeField.skills ∷ []

-- `not text or not text.strip()`
abbrev pub is_blank : Option Str → Bool
is_blank none = true
is_blank (some text) = is_empty text || is_empty (strip text)

-- `if lacking: missing.append(field)`, in front of the fields that come later.
abbrev pub append_if : Bool → ResumeField → List ResumeField → List ResumeField
append_if lacking field rest = if lacking then field ∷ rest else rest

unfoldable pub missing_resume_fields :
    (its_city its_state its_summary : Option Str) (has_experience has_education has_skill : Bool)
    → List ResumeField
missing_resume_fields its_city its_state its_summary has_experience has_education has_skill =
    append_if (is_blank its_city) ResumeField.city (
      append_if (is_blank its_state) ResumeField.state (
        append_if (is_blank its_summary) ResumeField.summary (
          append_if (not has_experience) ResumeField.experiences (
            append_if (not has_education) ResumeField.education
              (append_if (not has_skill) ResumeField.skills [])))))

unfoldable pub resume_completion_percentage : List ResumeField → ℕ
resume_completion_percentage missing_fields =
    let filled = length resume_fields - length missing_fields in
    (filled * 200 + length resume_fields) / (2 * length resume_fields)

-- The percentage of a résumé is at most 100. It is 100 exactly when city, state and summary have
-- text, and an experience, an education entry and a skill are there.
pub completion_lem :
    (its_city its_state its_summary : Option Str) (has_experience has_education has_skill : Bool)
    → let p = resume_completion_percentage (
        missing_resume_fields its_city its_state its_summary has_experience has_education
          has_skill) in
      (p ≤ 100)
      × ((p ≡ 100) ↔ (
          (is_blank its_city ≡ false)
          × (is_blank its_state ≡ false)
          × (is_blank its_summary ≡ false)
          × (has_experience ≡ true)
          × (has_education ≡ true)
          × (has_skill ≡ true)))
unfolding missing_resume_fields resume_completion_percentage
completion_lem its_city its_state its_summary e d s = ground arith
