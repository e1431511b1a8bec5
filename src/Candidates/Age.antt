-- ===== src/Candidates/Age.antt =====
-- app/candidates/domain/minimum_age.py
use seniors_empregabilidade.Prelude.{
  Bool, arith, false, if◌then◌else◌, leb, ltb, true, ℕ, ◌&&◌, ◌+◌, ◌-◌, ◌<◌, ◌==◌, ◌||◌, ◌↔◌, ◌≡◌,
  ◌≤◌, ◌⊎◌,
}

-- A `date`.
pub record Date : Type 0 where
  pub year : ℕ
  pub month : ℕ
  pub day : ℕ

-- Python's `int`: `pos n` is n and `negsuc n` is -n - 1.
pub data ℤ : Type 0 where
  pos negsuc : ℕ → ℤ

abbrev pub difference_of : ℕ → ℕ → ℤ
difference_of a b = if leb b a then pos (a - b) else negsuc (b - a - 1)

-- `a >= n` for a natural number `n`.
abbrev pub at_least : ℤ → ℕ → Bool
at_least (pos a) n = leb n a
at_least (negsuc a) n = false

-- `(a, b) >= (c, d)`
abbrev pub pair_at_least : (a b c d : ℕ) → Bool
pair_at_least a b c d = ltb c a || (a == c && leb d b)

abbrev pub minimum_candidate_age : ℕ
minimum_candidate_age = 45

-- `year - year - (not birthday_has_passed)`
unfoldable pub age_on : (birth_date reference_date : Date) → ℤ
age_on birth_date reference_date =
    let birthday_has_passed =
      pair_at_least reference_date.month reference_date.day birth_date.month birth_date.day in
    difference_of reference_date.year (birth_date.year + (if birthday_has_passed then 0 else 1))

unfoldable pub meets_minimum_age : (birth_date reference_date : Date) → Bool
meets_minimum_age birth_date reference_date =
    at_least (age_on birth_date reference_date) minimum_candidate_age

-- The order of the calendar.
abbrev pub IsOnOrBefore : Date → Date → Type 0
IsOnOrBefore a b =
    (a.year < b.year)
    ⊎ ((a.year ≡ b.year) × ((a.month < b.month) ⊎ ((a.month ≡ b.month) × (a.day ≤ b.day))))

-- A candidate meets the minimum age on a date exactly when the day of the forty-fifth birthday has
-- come: 45 years after the birth, the same month and day.
pub meets_minimum_age_lem :
    (birth_date reference_date : Date)
    → (meets_minimum_age birth_date reference_date ≡ true)
      ↔ IsOnOrBefore
          (record { year = birth_date.year + 45; month = birth_date.month; day = birth_date.day })
          reference_date
unfolding meets_minimum_age age_on
meets_minimum_age_lem birth_date reference_date = ground arith
