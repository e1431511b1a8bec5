-- ===== src/Candidates/Cpf.antt =====
-- app/candidates/domain/cpf.py
pub mod Check
pub mod Laws
use seniors_empregabilidade.Prelude.{
  Bool, Option, Str, [], all_where, drop, false, if◌then◌else◌, is_ascii_digit, length, none, not,
  select_where, some, str_eq, take, ℕ, ◌%◌, ◌&&◌, ◌*◌, ◌++◌, ◌+◌, ◌-◌, ◌==◌, ◌||◌, ◌∷◌,
}

-- `translate(str.maketrans("", "", ".- "))`
abbrev pub is_kept : ℕ → Bool
is_kept c = not (c == 46 || (c == 45 || c == 32))

-- `digits == digits[0] * 11` for eleven digits.
abbrev pub is_repeated : Str → Bool
is_repeated [] = false
is_repeated (c ∷ s) = all_where (λ d. d == c) s

-- `sum(int(digit) * weight ...)` with weights that fall by one. Both calls pass as many digits as
-- there are weights, which is what `strict=True` checks.
abbrev pub weighted_sum : (digits : Str) (first_weight : ℕ) → ℕ
weighted_sum [] first_weight = 0
weighted_sum (c ∷ s) first_weight = (c - 48) * first_weight + weighted_sum s (first_weight - 1)

-- `_verification_digit`, as the character of its `str`.
unfoldable pub verification_digit : (digits : Str) (first_weight : ℕ) → ℕ
verification_digit digits first_weight =
    let result = (weighted_sum digits first_weight * 10) % 11 in
    48 + (if result == 10 then 0 else result)

-- The two characters that must follow nine digits.
unfoldable pub verification_digits : Str → Str
verification_digits base =
    let first_digit = verification_digit base 10 in
    first_digit ∷ verification_digit (base ++ (first_digit ∷ [])) 11 ∷ []

unfoldable pub is_valid_cpf : Str → Bool
is_valid_cpf digits =
    (length digits == 11 && (all_where is_ascii_digit digits && not (is_repeated digits)))
    && str_eq (drop 9 digits) (verification_digits (take 9 digits))

-- `Cpf.parse`: no value stands for `InvalidCpfValueError`.
unfoldable pub parse_cpf : (raw_value : Str) → Option Str
parse_cpf raw_value =
    let digits = select_where is_kept raw_value in if is_valid_cpf digits then some digits else none
