-- ===== src/Companies/Cnpj.antt =====
-- app/companies/domain/value_objects/cnpj.py
pub mod Check
pub mod Laws
use seniors_empregabilidade.Prelude.{
  Bool, List, Option, Str, [], all_where, drop, if◌then◌else◌, is_ascii_digit, is_empty, length,
  ltb, none, not, select_where, some, str_eq, take, to_set, ℕ, ◌%◌, ◌&&◌, ◌*◌, ◌++◌, ◌+◌, ◌-◌, ◌==◌,
  ◌||◌, ◌∷◌,
}

-- `translate(str.maketrans("", "", ".-/"))`
abbrev pub is_cnpj_kept : ℕ → Bool
is_cnpj_kept c = not (c == 46 || (c == 45 || c == 47))

abbrev pub first_weights : List ℕ
first_weights = 5 ∷ 4 ∷ 3 ∷ 2 ∷ 9 ∷ 8 ∷ 7 ∷ 6 ∷ 5 ∷ 4 ∷ 3 ∷ 2 ∷ []

abbrev pub second_weights : List ℕ
second_weights = 6 ∷ first_weights

-- `sum(int(digit) * weight ...)`. Both rounds pass as many digits as there are weights, which is
-- what `strict=True` checks.
abbrev pub weighted_total : (digits : Str) (weights : List ℕ) → ℕ
weighted_total [] weights = 0
weighted_total (c ∷ s) [] = 0
weighted_total (c ∷ s) (w ∷ ws) = (c - 48) * w + weighted_total s ws

-- One check digit, as the character of its `str`.
unfoldable pub check_digit : (total : ℕ) → ℕ
check_digit total =
    let remainder = total % 11 in 48 + (if ltb remainder 2 then 0 else 11 - remainder)

-- `_check_digits`
unfoldable pub check_digits : (base : Str) → Str
check_digits base =
    let first = check_digit (weighted_total base first_weights) in
    first ∷ check_digit (weighted_total (base ++ (first ∷ [])) second_weights) ∷ []

-- None of the three tests of the constructor raises.
unfoldable pub is_valid_cnpj : Str → Bool
is_valid_cnpj normalized =
    (not (is_empty normalized) && all_where is_ascii_digit normalized)
    && ((length normalized == 14 && not (length (to_set normalized) == 1))
        && str_eq (drop 12 normalized) (check_digits (take 12 normalized)))

-- `CNPJ(raw_value).value`: no value stands for `InvalidCNPJError`.
unfoldable pub parse_cnpj : (raw_value : Str) → Option Str
parse_cnpj raw_value =
    let normalized = select_where is_cnpj_kept raw_value in
    if is_valid_cnpj normalized then some normalized else none
