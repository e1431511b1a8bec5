-- ===== src/Companies/Cnpj/Laws.antt =====
-- What an accepted CNPJ is, and that the check digits decide it.
use mathlib.Core.Option.{some_inj}
use seniors_empregabilidade.Prelude.{
  ==_iff, Bool, Bool-cases, Str, [], all_where, all_where-append, ap, arith, drop, drop-append,
  false, if◌then◌else◌, inl, inr, is_ascii_digit, is_empty, is_empty-length, length, length-append,
  none, not, refl, select_where, some, str_eq, str_eq_refl, str_eq→eq, subst, sym, take,
  take-append, take-append-drop, to_set, true, ℕ, ◌&&◌, ◌++◌, ◌+◌, ◌==◌, ◌∙◌, ◌∷◌, ◌≡◌,
}
use seniors_empregabilidade.Companies.Cnpj.{
  check_digit, check_digits, first_weights, is_cnpj_kept, is_valid_cnpj, parse_cnpj, second_weights,
  weighted_total,
}

digit_kept : (c : ℕ) → is_ascii_digit c ≡ true → is_cnpj_kept c ≡ true
digit_kept c h = ground arith

select_where-digits :
    (s : Str) → all_where is_ascii_digit s ≡ true → select_where is_cnpj_kept s ≡ s
select_where-digits [] h = refl
select_where-digits (c ∷ s) h = ground (arith, digit_kept c, select_where-digits s)

-- A check digit is a digit.
check_digit-digit : (total : ℕ) → is_ascii_digit (check_digit total) ≡ true
unfolding check_digit
check_digit-digit total = ground arith

all_pass :
    (a b c d e : Bool)
    → (not a && b) && ((c && not d) && e) ≡ true
    → (b ≡ true) × (c ≡ true) × (d ≡ false) × (e ≡ true)
all_pass a b c d e h = (ground arith, ground arith, ground arith, ground arith)

-- The parts of the test, from the test.
pub valid_parts :
    (v : Str)
    → is_valid_cnpj v ≡ true
    → (length v ≡ 14)
      × (all_where is_ascii_digit v ≡ true)
      × ((length (to_set v) == 1) ≡ false)
      × (drop 12 v ≡ check_digits (take 12 v))
unfolding is_valid_cnpj
valid_parts v h =
    let (digits, size, distinct, checks) =
      all_pass (is_empty v) (all_where is_ascii_digit v) (length v == 14) (length (to_set v) == 1)
        (str_eq (drop 12 v) (check_digits (take 12 v))) h in
    (
      (==_iff (length v) 14).0 size,
      digits,
      distinct,
      str_eq→eq (drop 12 v) (check_digits (take 12 v)) checks,
    )

pub parse_cnpj-is_valid_cnpj :
    (raw v : Str)
    → parse_cnpj raw ≡ some v
    → (v ≡ select_where is_cnpj_kept raw) × (is_valid_cnpj v ≡ true)
unfolding parse_cnpj
parse_cnpj-is_valid_cnpj raw v h =
    elim (Bool-cases (is_valid_cnpj (select_where is_cnpj_kept raw))) [
      | inl good ↦
          let e : select_where is_cnpj_kept raw ≡ v =
            some_inj.0
              (sym (ap (λ b. if b then some (select_where is_cnpj_kept raw) else none) good) ∙ h) in
          (sym e, subst (λ t. is_valid_cnpj t ≡ true) e good)
      | inr bad ↦ ground (arith, h, bad)
    ]

-- An accepted CNPJ is the given text without dots, dashes and slashes. It has fourteen digits that are
-- not all the same, and parsing it again gives it back.
pub parse_cnpj_canonical :
    (raw v : Str)
    → parse_cnpj raw ≡ some v
    → (v ≡ select_where is_cnpj_kept raw)
      × (length v ≡ 14)
      × (all_where is_ascii_digit v ≡ true)
      × ((length (to_set v) == 1) ≡ false)
      × (parse_cnpj v ≡ some v)
unfolding parse_cnpj
parse_cnpj_canonical raw v h =
    let (e, good) = parse_cnpj-is_valid_cnpj raw v h in
    let parts = valid_parts v good in
    (e, parts.0, parts.1, parts.2, rw (select_where-digits v parts.1, good))

-- The first twelve digits decide an accepted CNPJ: two accepted texts with the same first twelve digits
-- are the same CNPJ.
pub parse_cnpj_unique :
    (raw raw' v w : Str)
    → parse_cnpj raw ≡ some v
    → parse_cnpj raw' ≡ some w
    → take 12 v ≡ take 12 w
    → v ≡ w
parse_cnpj_unique raw raw' v w h h' e =
    let pv = valid_parts v (parse_cnpj-is_valid_cnpj raw v h).1 in
    let pw = valid_parts w (parse_cnpj-is_valid_cnpj raw' w h').1 in
    sym (take-append-drop 12 v)
    ∙ ap (λ s. take 12 v ++ s) (pv.3 ∙ ap check_digits e ∙ sym pw.3)
    ∙ ap (λ s. s ++ drop 12 w) e
    ∙ take-append-drop 12 w

accepted_digits :
    (base : Str)
    → all_where is_ascii_digit base ≡ true
    → all_where is_ascii_digit (base ++ check_digits base) ≡ true
unfolding check_digits
accepted_digits base digits =
    all_where-append is_ascii_digit base (check_digits base)
    ∙ ground (
      arith,
      digits,
      check_digit-digit (weighted_total base first_weights),
      check_digit-digit (
          weighted_total (base ++ (check_digit (weighted_total base first_weights) ∷ []))
            second_weights),
    )

fourteen : (base : Str) → length base ≡ 12 → length base + length (check_digits base) ≡ 14
unfolding check_digits
fourteen base len = ground (arith, len)

pub accepted_valid :
    (base : Str)
    → length base ≡ 12
    → all_where is_ascii_digit base ≡ true
    → (length (to_set (base ++ check_digits base)) == 1) ≡ false
    → is_valid_cnpj (base ++ check_digits base) ≡ true
unfolding is_valid_cnpj
accepted_valid base len digits distinct =
    let tail = check_digits base in
    let size : length (base ++ tail) ≡ 14 = length-append base tail ∙ fourteen base len in
    let front : take 12 (base ++ tail) ≡ base =
      subst (λ n. take n (base ++ tail) ≡ base) len (take-append base tail) in
    let back : drop 12 (base ++ tail) ≡ tail =
      subst (λ n. drop n (base ++ tail) ≡ tail) len (drop-append base tail) in
    rw (is_empty-length (base ++ tail), size, accepted_digits base digits, distinct, front, back)
      (str_eq_refl tail)
