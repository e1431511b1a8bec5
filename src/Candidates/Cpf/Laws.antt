-- ===== src/Candidates/Cpf/Laws.antt =====
-- What an accepted CPF is, and that the check digits decide it.
use mathlib.Core.Option.{some_inj}
use seniors_empregabilidade.Prelude.{
  Bool-cases, Str, [], all_where, all_where-append, ap, arith, drop, drop-append, false,
  if◌then◌else◌, inl, inr, is_ascii_digit, length, length-append, none, refl, select_where, some,
  str_eq_refl, str_eq→eq, subst, sym, take, take-append, take-append-drop, true, ℕ, ◌%◌, ◌*◌, ◌++◌,
  ◌+◌, ◌==◌, ◌∙◌, ◌∷◌, ◌≡◌,
}
use seniors_empregabilidade.Candidates.Cpf.{
  is_kept, is_repeated, is_valid_cpf, parse_cpf, verification_digit, verification_digits,
  weighted_sum,
}

digit_kept : (c : ℕ) → is_ascii_digit c ≡ true → is_kept c ≡ true
digit_kept c h = ground arith

pub select_where-digits : (s : Str) → all_where is_ascii_digit s ≡ true → select_where is_kept s ≡ s
select_where-digits [] h = refl
select_where-digits (c ∷ s) h = ground (arith, digit_kept c, select_where-digits s)

digit_of : (n : ℕ) → is_ascii_digit (48 + (if n % 11 == 10 then 0 else n % 11)) ≡ true
digit_of n = ground arith

-- A check digit is a digit.
verification_digit-digit : (s : Str) (w : ℕ) → is_ascii_digit (verification_digit s w) ≡ true
unfolding verification_digit
verification_digit-digit s w = digit_of (weighted_sum s w * 10)

-- The parts of the test, from the test.
pub valid_parts :
    (v : Str)
    → is_valid_cpf v ≡ true
    → (length v ≡ 11)
      × (all_where is_ascii_digit v ≡ true)
      × (is_repeated v ≡ false)
      × (drop 9 v ≡ verification_digits (take 9 v))
unfolding is_valid_cpf
valid_parts v h = (
  ground (arith, h),
  ground (arith, h),
  ground (arith, h),
  str_eq→eq (drop 9 v) (verification_digits (take 9 v)) (ground (arith, h)),
)

pub parse_cpf-is_valid_cpf :
    (raw v : Str)
    → parse_cpf raw ≡ some v
    → (v ≡ select_where is_kept raw) × (is_valid_cpf v ≡ true)
unfolding parse_cpf
parse_cpf-is_valid_cpf raw v h = elim (Bool-cases (is_valid_cpf (select_where is_kept raw))) [
  | inl good ↦
      let e : select_where is_kept raw ≡ v =
        some_inj.0 (sym (ap (λ b. if b then some (select_where is_kept raw) else none) good) ∙ h) in
      (sym e, subst (λ t. is_valid_cpf t ≡ true) e good)
  | inr bad ↦ ground (arith, h, bad)
]

-- An accepted CPF is the given text without dots, dashes and spaces. It has eleven digits that are
-- not all the same, and parsing it again gives it back.
pub parse_cpf_canonical :
    (raw v : Str)
    → parse_cpf raw ≡ some v
    → (v ≡ select_where is_kept raw)
      × (length v ≡ 11)
      × (all_where is_ascii_digit v ≡ true)
      × (is_repeated v ≡ false)
      × (parse_cpf v ≡ some v)
unfolding parse_cpf
parse_cpf_canonical raw v h =
    let (e, good) = parse_cpf-is_valid_cpf raw v h in
    let parts = valid_parts v good in
    (e, parts.0, parts.1, parts.2, rw (select_where-digits v parts.1, good))

-- The first nine digits decide an accepted CPF: two accepted texts with the same first nine digits
-- are the same CPF.
pub parse_cpf_unique :
    (raw raw' v w : Str)
    → parse_cpf raw ≡ some v
    → parse_cpf raw' ≡ some w
    → take 9 v ≡ take 9 w
    → v ≡ w
parse_cpf_unique raw raw' v w h h' e =
    let pv = valid_parts v (parse_cpf-is_valid_cpf raw v h).1 in
    let pw = valid_parts w (parse_cpf-is_valid_cpf raw' w h').1 in
    sym (take-append-drop 9 v)
    ∙ ap (λ s. take 9 v ++ s) (pv.3 ∙ ap verification_digits e ∙ sym pw.3)
    ∙ ap (λ s. s ++ drop 9 w) e
    ∙ take-append-drop 9 w

accepted_digits :
    (base : Str)
    → all_where is_ascii_digit base ≡ true
    → all_where is_ascii_digit (base ++ verification_digits base) ≡ true
unfolding verification_digits
accepted_digits base digits =
    all_where-append is_ascii_digit base (verification_digits base)
    ∙ ground (
      arith,
      digits,
      verification_digit-digit base 10,
      verification_digit-digit (base ++ (verification_digit base 10 ∷ [])) 11,
    )

eleven : (base : Str) → length base ≡ 9 → length base + length (verification_digits base) ≡ 11
unfolding verification_digits
eleven base len = ground (arith, len)

pub accepted_valid :
    (base : Str)
    → length base ≡ 9
    → all_where is_ascii_digit base ≡ true
    → is_repeated (base ++ verification_digits base) ≡ false
    → is_valid_cpf (base ++ verification_digits base) ≡ true
unfolding is_valid_cpf
accepted_valid base len digits distinct =
    let tail = verification_digits base in
    let size : length (base ++ tail) ≡ 11 = length-append base tail ∙ eleven base len in
    let front : take 9 (base ++ tail) ≡ base =
      subst (λ n. take n (base ++ tail) ≡ base) len (take-append base tail) in
    let back : drop 9 (base ++ tail) ≡ tail =
      subst (λ n. drop n (base ++ tail) ≡ tail) len (drop-append base tail) in
    rw (size, accepted_digits base digits, distinct, front, back) (str_eq_refl tail)
