-- ===== src/Companies/Cnpj/Check.antt =====
-- What a CNPJ is, without the code's rule for its check digits.
use seniors_empregabilidade.Prelude.{
  ==_iff, ==_refl, Bool, Bool-cases, IsCheckDigit, IsVaried, List, Str, [], all_where,
  all_where-append, ap, arith, false, false≢true, if◌then◌else◌, inl, inr, is_ascii_digit, length,
  length-append, length-take, ltb, mem, mem-to_set, refl, select_where, some, subst, suc, sym, take,
  take-append-drop, to_set, true, zero, ℕ, ◌%◌, ◌&&◌, ◌*◌, ◌++◌, ◌+◌, ◌-◌, ◌==◌, ◌↔◌, ◌∙◌, ◌∷◌, ◌≡◌,
  ◌≤◌,
}
use seniors_empregabilidade.Companies.Cnpj.{
  check_digit, check_digits, first_weights, is_cnpj_kept, is_valid_cnpj, parse_cnpj, second_weights,
  weighted_total,
}
use seniors_empregabilidade.Companies.Cnpj.Laws.{
  accepted_valid, parse_cnpj-is_valid_cnpj, valid_parts,
}

-- From right to left the digits have the weights 2 to 9, again and again.
abbrev pub cnpj_total : (base : Str) → ℕ
cnpj_total [] = 0
cnpj_total (c ∷ s) = (c - 48) * (2 + length s % 8) + cnpj_total s

-- Twelve digits and two check digits, not all the same: the first is the check digit of the twelve,
-- and the second that of the thirteen before it.
pub record IsCnpj (v : Str) : Type 0 where
  pub base : Str
  pub first : ℕ
  pub second : ℕ
  pub form : v ≡ base ++ (first ∷ second ∷ [])
  pub twelve : length base ≡ 12
  pub digits : all_where is_ascii_digit v ≡ true
  pub varied : IsVaried v
  pub checks_first : IsCheckDigit (cnpj_total base) first
  pub checks_second : IsCheckDigit (cnpj_total (base ++ (first ∷ []))) second

-- The weights of so many digits.
abbrev weights_for : ℕ → List ℕ
weights_for zero = []
weights_for (suc n) = (2 + n % 8) ∷ weights_for n

total_for : (s : Str) (n : ℕ) → n ≡ length s → weighted_total s (weights_for n) ≡ cnpj_total s
total_for [] n e = refl
total_for (c ∷ s) zero e = omega (arith, e)
total_for (c ∷ s) (suc n) e =
    ap (λ t. (c - 48) * (2 + n % 8) + t) (total_for s n (omega (arith, e)))
    ∙ ap (λ k. (c - 48) * (2 + k % 8) + cnpj_total s) (omega (arith, e))

first_total : (s : Str) → length s ≡ 12 → weighted_total s first_weights ≡ cnpj_total s
first_total s e = total_for s 12 (sym e)

second_total : (s : Str) → length s ≡ 13 → weighted_total s second_weights ≡ cnpj_total s
second_total s e = total_for s 13 (sym e)

full_total : (n : ℕ) → 2 ≤ n % 11 → (n + ((48 + (11 - n % 11)) - 48)) % 11 ≡ 0
full_total n h = omega (arith, h)

check_digit-IsCheckDigit : (n : ℕ) → IsCheckDigit n (check_digit n)
unfolding check_digit
check_digit-IsCheckDigit n = elim (Bool-cases (ltb (n % 11) 2)) [
  | inl small ↦ rw small (elim (Bool-cases (n % 11 == 0)) [
    | inl none_left ↦ inl (omega (arith, (==_iff (n % 11) 0).0 none_left))
    | inr one_left ↦ inr (ground (arith, small, one_left), refl)
  ])
  | inr large ↦ rw large (inl (full_total n (ground (arith, large))))
]

check_digit_unique : (n c : ℕ) → is_ascii_digit c ≡ true → IsCheckDigit n c → c ≡ check_digit n
unfolding check_digit
check_digit_unique n c d (inl e) = ground arith
check_digit_unique n c d (inr e) = ground arith

same_set : (c x : ℕ) (s : Str) → all_where (λ d. d == c) (x ∷ s) ≡ true → to_set (x ∷ s) ≡ c ∷ []
same_set c x [] h = ap (λ y. y ∷ []) ((==_iff x c).0 (ground (arith, h)))
same_set c x (y ∷ s) h =
    let rest : to_set (y ∷ s) ≡ c ∷ [] = same_set c y s (ground (arith, h)) in
    ap (λ (r : List ℕ). if mem x r then r else x ∷ r) rest ∙ ground (arith, h)

all_members :
    (p : ℕ → Bool) (v : Str) → ((d : ℕ) → mem d v ≡ true → p d ≡ true) → all_where p v ≡ true
all_members p [] h = refl
all_members p (c ∷ v) h =
    rw (h c (ground (arith, ==_refl c))) (all_members p v (λ d m. h d (ground (arith, m))))

set_same : (v : Str) (c : ℕ) → to_set v ≡ c ∷ [] → all_where (λ d. d == c) v ≡ true
set_same v c e =
    all_members (λ d. d == c) v
      (λ d m.
        let found : mem d (c ∷ []) ≡ true = sym (ap (mem d) e) ∙ mem-to_set d v ∙ m in
        ground (arith, found))

single : (ys : List ℕ) → (length ys == 1) ≡ true → (c : ℕ) × (ys ≡ c ∷ [])
single [] h = cc
single (c ∷ []) h = (c, refl)
single (c ∷ d ∷ ys) h = ground (arith, h)

to_set-IsVaried : (v : Str) → length v ≡ 14 → (length (to_set v) == 1) ≡ false → IsVaried v
to_set-IsVaried [] size h c = cc
to_set-IsVaried (x ∷ s) size h c = elim (Bool-cases (all_where (λ d. d == c) (x ∷ s))) [
  | inl all ↦ absurd (false≢true (sym h ∙ ap (λ (r : List ℕ). length r == 1) (same_set c x s all)))
  | inr other ↦ other
]

IsVaried-to_set : (v : Str) → IsVaried v → (length (to_set v) == 1) ≡ false
IsVaried-to_set v h = elim (Bool-cases (length (to_set v) == 1)) [
  | inl one ↦ let (c, e) = single (to_set v) one in absurd (false≢true (sym (h c) ∙ set_same v c e))
  | inr more ↦ more
]

after_twelve : (base : Str) (a : ℕ) → length base ≡ 12 → length (base ++ (a ∷ [])) ≡ 13
after_twelve base a twelve = rw (length-append base (a ∷ [])) (omega (arith, twelve))

-- The fields of an accepted text.
valid-IsCnpj : (v : Str) → is_valid_cnpj v ≡ true → IsCnpj v
unfolding check_digits
valid-IsCnpj v good =
    let (size, digits, varied, checks) = valid_parts v good in
    let base : Str = take 12 v in
    let twelve : length base ≡ 12 = length-take 12 v (omega (arith, size)) in
    let a : ℕ = check_digit (weighted_total base first_weights) in
    record {
      base = base;
      first = a;
      second = check_digit (weighted_total (base ++ (a ∷ [])) second_weights);
      form = sym (take-append-drop 12 v) ∙ ap (λ t. base ++ t) checks;
      twelve = twelve;
      digits = digits;
      varied = to_set-IsVaried v size varied;
      checks_first =
          subst (λ n. IsCheckDigit n a) (first_total base twelve)
            (check_digit-IsCheckDigit (weighted_total base first_weights));
      checks_second =
          subst
            (λ n. IsCheckDigit n (check_digit (weighted_total (base ++ (a ∷ [])) second_weights)))
            (second_total (base ++ (a ∷ [])) (after_twelve base a twelve))
            (check_digit-IsCheckDigit (weighted_total (base ++ (a ∷ [])) second_weights));
    }

IsCnpj-valid : (v : Str) → IsCnpj v → is_valid_cnpj v ≡ true
unfolding check_digits
IsCnpj-valid v k =
    let tail : Str = k.first ∷ k.second ∷ [] in
    let all : (all_where is_ascii_digit k.base && all_where is_ascii_digit tail) ≡ true =
      sym (all_where-append is_ascii_digit k.base tail)
      ∙ ap (all_where is_ascii_digit) (sym k.form)
      ∙ k.digits in
    let e : k.first ≡ check_digit (weighted_total k.base first_weights) =
      check_digit_unique (weighted_total k.base first_weights) k.first (ground (arith, all))
        (subst (λ n. IsCheckDigit n k.first) (sym (first_total k.base k.twelve)) k.checks_first) in
    let thirteen : Str = k.base ++ (k.first ∷ []) in
    let f : k.second ≡ check_digit (weighted_total thirteen second_weights) =
      check_digit_unique (weighted_total thirteen second_weights) k.second (ground (arith, all)) (
        subst (λ n. IsCheckDigit n k.second)
          (sym (second_total thirteen (after_twelve k.base k.first k.twelve))) k.checks_second) in
    let same : v ≡ k.base ++ check_digits k.base =
      k.form
      ∙ ap (λ t. k.base ++ t)
          (ap (λ x. x ∷ k.second ∷ []) e
            ∙ ap (λ y. check_digit (weighted_total k.base first_weights) ∷ y ∷ [])
                (f
                  ∙ ap (λ x. check_digit (weighted_total (k.base ++ (x ∷ [])) second_weights))
                      e)) in
    subst (λ t. is_valid_cnpj t ≡ true) (sym same)
      (accepted_valid k.base k.twelve (ground (arith, all))
        (subst (λ t. (length (to_set t) == 1) ≡ false) same (IsVaried-to_set v k.varied)))

-- A text is accepted exactly if what is left of it without dots, dashes and slashes is a CNPJ, which
-- is then the answer: fourteen digits, not all the same, in which the thirteenth is the check digit
-- of the first twelve and the fourteenth that of the first thirteen. In both the digits before the
-- check digit are weighted with 2 to 9, again and again, from right to left, and their total with the
-- check digit is a multiple of 11, or the check digit is 0 where only 10 would do.
pub parse_cnpj_iff :
    (raw v : Str) → (parse_cnpj raw ≡ some v) ↔ ((v ≡ select_where is_cnpj_kept raw) × IsCnpj v)
unfolding parse_cnpj
parse_cnpj_iff raw v = (
  λ h. let (e, good) = parse_cnpj-is_valid_cnpj raw v h in (e, valid-IsCnpj v good),
  λ (e, k). rw (sym e, IsCnpj-valid v k) refl,
)
