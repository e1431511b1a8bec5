-- ===== src/Candidates/Cpf/Check.antt =====
-- What a CPF is, without the code's rule for its check digits.
use seniors_empregabilidade.Prelude.{
  ==_iff, ==_refl, Bool-cases, IsCheckDigit, IsVaried, Str, [], all_where, all_where-append, ap,
  arith, false, if◌then◌else◌, inl, inr, is_ascii_digit, length, length-append, length-take, refl,
  select_where, some, subst, suc, sym, take, take-append-drop, true, ℕ, ◌%◌, ◌&&◌, ◌*◌, ◌++◌, ◌+◌,
  ◌-◌, ◌==◌, ◌↔◌, ◌∙◌, ◌∷◌, ◌≡◌,
}
use seniors_empregabilidade.Candidates.Cpf.{
  is_kept, is_repeated, is_valid_cpf, parse_cpf, verification_digit, verification_digits,
  weighted_sum,
}
use seniors_empregabilidade.Candidates.Cpf.Laws.{
  accepted_valid, parse_cpf-is_valid_cpf, valid_parts,
}

-- The weight of a digit is one more than its distance to the check digit, which has weight 1.
abbrev pub cpf_total : (base : Str) → ℕ
cpf_total [] = 0
cpf_total (c ∷ s) = (c - 48) * (2 + length s) + cpf_total s

-- Nine digits and two check digits, not all the same: the first is the check digit of the nine, and
-- the second that of the ten before it.
pub record IsCpf (v : Str) : Type 0 where
  pub base : Str
  pub first : ℕ
  pub second : ℕ
  pub form : v ≡ base ++ (first ∷ second ∷ [])
  pub nine : length base ≡ 9
  pub digits : all_where is_ascii_digit v ≡ true
  pub varied : IsVaried v
  pub checks_first : IsCheckDigit (cpf_total base) first
  pub checks_second : IsCheckDigit (cpf_total (base ++ (first ∷ []))) second

weighted_sum-cpf_total : (s : Str) (w : ℕ) → w ≡ suc (length s) → weighted_sum s w ≡ cpf_total s
weighted_sum-cpf_total [] w e = refl
weighted_sum-cpf_total (c ∷ s) w e =
    ap (λ n. (c - 48) * w + n) (weighted_sum-cpf_total s (w - 1) (omega (arith, e)))
    ∙ ap (λ k. (c - 48) * k + cpf_total s) (omega (arith, e))

rule_holds : (n : ℕ) → IsCheckDigit n (48 + (if (n * 10) % 11 == 10 then 0 else (n * 10) % 11))
rule_holds n = elim (Bool-cases ((n * 10) % 11 == 10)) [
  | inl ten ↦ rw ten (inr (ground (arith, ten), refl))
  | inr less ↦ rw less (inl (omega arith))
]

one_check_digit :
    (n c : ℕ)
    → is_ascii_digit c ≡ true
    → IsCheckDigit n c
    → c ≡ 48 + (if (n * 10) % 11 == 10 then 0 else (n * 10) % 11)
one_check_digit n c d (inl e) = ground arith
one_check_digit n c d (inr e) = ground arith

verification_digit-IsCheckDigit :
    (s : Str) (w : ℕ) → w ≡ suc (length s) → IsCheckDigit (cpf_total s) (verification_digit s w)
unfolding verification_digit
verification_digit-IsCheckDigit s w e =
    subst (λ n. IsCheckDigit n (verification_digit s w)) (weighted_sum-cpf_total s w e)
      (rule_holds (weighted_sum s w))

verification_digit_unique :
    (s : Str) (w c : ℕ)
    → w ≡ suc (length s)
    → is_ascii_digit c ≡ true
    → IsCheckDigit (cpf_total s) c
    → c ≡ verification_digit s w
unfolding verification_digit
verification_digit_unique s w c e d k =
    one_check_digit (weighted_sum s w) c d
      (subst (λ n. IsCheckDigit n c) (sym (weighted_sum-cpf_total s w e)) k)

repeated_iff : (v : Str) → length v ≡ 11 → (is_repeated v ≡ false) ↔ IsVaried v
repeated_iff [] e = cc
repeated_iff (c ∷ s) e = (
  λ h d. elim (Bool-cases (c == d)) [
    | inl hit ↦
        subst (λ x. all_where (λ y. y == x) (c ∷ s) ≡ false) ((==_iff c d).0 hit)
          (ground (arith, h, ==_refl c))
    | inr miss ↦ ground (arith, miss)
  ],
  λ h. ground (arith, h c, ==_refl c),
)

after_nine : (base : Str) (a : ℕ) → length base ≡ 9 → 11 ≡ suc (length (base ++ (a ∷ [])))
after_nine base a nine = rw (length-append base (a ∷ [])) (omega (arith, nine))

-- The fields of an accepted text.
valid-IsCpf : (v : Str) → is_valid_cpf v ≡ true → IsCpf v
unfolding verification_digits
valid-IsCpf v good =
    let (size, digits, varied, checks) = valid_parts v good in
    let base : Str = take 9 v in
    let nine : length base ≡ 9 = length-take 9 v (omega (arith, size)) in
    let a : ℕ = verification_digit base 10 in
    record {
      base = base;
      first = a;
      second = verification_digit (base ++ (a ∷ [])) 11;
      form = sym (take-append-drop 9 v) ∙ ap (λ t. base ++ t) checks;
      nine = nine;
      digits = digits;
      varied = (repeated_iff v size).0 varied;
      checks_first = verification_digit-IsCheckDigit base 10 (omega (arith, nine));
      checks_second =
          verification_digit-IsCheckDigit (base ++ (a ∷ [])) 11 (after_nine base a nine);
    }

IsCpf-valid : (v : Str) → IsCpf v → is_valid_cpf v ≡ true
unfolding is_valid_cpf verification_digits
IsCpf-valid v k =
    let tail : Str = k.first ∷ k.second ∷ [] in
    let size : length v ≡ 11 =
      ap length k.form ∙ length-append k.base tail ∙ omega (arith, k.nine) in
    let all : (all_where is_ascii_digit k.base && all_where is_ascii_digit tail) ≡ true =
      sym (all_where-append is_ascii_digit k.base tail)
      ∙ ap (all_where is_ascii_digit) (sym k.form)
      ∙ k.digits in
    let e : k.first ≡ verification_digit k.base 10 =
      verification_digit_unique k.base 10 k.first (omega (arith, k.nine)) (ground (arith, all))
        k.checks_first in
    let f : k.second ≡ verification_digit (k.base ++ (k.first ∷ [])) 11 =
      verification_digit_unique (k.base ++ (k.first ∷ [])) 11 k.second
        (after_nine k.base k.first k.nine) (ground (arith, all)) k.checks_second in
    let same : v ≡ k.base ++ verification_digits k.base =
      k.form
      ∙ ap (λ t. k.base ++ t)
          (ap (λ x. x ∷ k.second ∷ []) e
            ∙ ap (λ y. verification_digit k.base 10 ∷ y ∷ [])
                (f ∙ ap (λ x. verification_digit (k.base ++ (x ∷ [])) 11) e)) in
    subst (λ t. is_valid_cpf t ≡ true) (sym same)
      (accepted_valid k.base k.nine (ground (arith, all))
        (subst (λ t. is_repeated t ≡ false) same ((repeated_iff v size).1 k.varied)))

-- A text is accepted exactly if what is left of it without dots, dashes and spaces is a CPF, which is
-- then the answer: eleven digits, not all the same, in which the tenth is the check digit of the
-- first nine and the eleventh that of the first ten. In both the digits before the check digit are
-- weighted with 2, 3, 4 and so on from right to left, and their total with the check digit is a
-- multiple of 11, or the check digit is 0 where only 10 would do.
pub parse_cpf_iff :
    (raw v : Str) → (parse_cpf raw ≡ some v) ↔ ((v ≡ select_where is_kept raw) × IsCpf v)
unfolding parse_cpf
parse_cpf_iff raw v = (
  λ h. let (e, good) = parse_cpf-is_valid_cpf raw v h in (e, valid-IsCpf v good),
  λ (e, k). rw (sym e, IsCpf-valid v k) refl,
)
