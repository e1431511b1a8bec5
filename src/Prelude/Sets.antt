-- ===== src/Prelude/Sets.antt =====
-- Python sets of identifiers as lists without repetitions.
use Prim.Native.Nat.{ℕ, ◌+◌, ◌≤◌}
use mathlib.Core.Path.{◌≡◌, refl, sym, subst, ◌∙◌}
use mathlib.Core.Logic.{◌↔◌, inl, inr}
use mathlib.Core.Bool.{Bool, true, false, not, ◌&&◌, ◌||◌, false≢true}
use mathlib.Core.List.{List, [], ◌∷◌}
use native.Mathlib.Omega.{arith}
use seniors_empregabilidade.Prelude.Tests.{◌==◌, if◌then◌else◌, ==_iff, Bool-cases}
use seniors_empregabilidade.Prelude.Lists.{length, mem, select_where, All}

-- `set(ids)`: the last of each repeated identifier stays.
abbrev pub to_set : List ℕ → List ℕ
to_set [] = []
to_set (x ∷ xs) = let rest = to_set xs in if mem x rest then rest else x ∷ rest

-- `not ids`
abbrev pub is_none_of : List ℕ → Bool
is_none_of [] = true
is_none_of (x ∷ xs) = false

-- `a & b` and `a - b`.
abbrev pub intersection : List ℕ → List ℕ → List ℕ
intersection a b = select_where (λ x. mem x b) a

abbrev pub difference : List ℕ → List ℕ → List ℕ
difference a b = select_where (λ x. not (mem x b)) a

pub mem-to_set : (a : ℕ) (xs : List ℕ) → mem a (to_set xs) ≡ mem a xs
mem-to_set a [] = refl
mem-to_set a (x ∷ xs) = ground (arith, mem-to_set a xs, mem-to_set x xs)

pub length-select_where-le : (p : ℕ → Bool) (xs : List ℕ) → length (select_where p xs) ≤ length xs
length-select_where-le p [] = omega arith
length-select_where-le p (x ∷ xs) = ground (arith, length-select_where-le p xs)

-- A set splits into the part in another set and the rest.
pub length-intersection-add-difference :
    (a b : List ℕ) → length (intersection a b) + length (difference a b) ≡ length a
length-intersection-add-difference [] b = omega arith
length-intersection-add-difference (x ∷ a) b =
    ground (arith, length-intersection-add-difference a b)

-- Every identifier of the first list is in the second.
abbrev pub IsSubset : List ℕ → List ℕ → Type 0
IsSubset xs ys = All (λ x. mem x ys ≡ true) xs

pub full_intersection : (a b : List ℕ) → (length (intersection a b) ≡ length a) ↔ IsSubset a b
full_intersection [] b = (λ h. tt, λ h. refl)
full_intersection (x ∷ a) b = (
  λ h. ground (arith, (full_intersection a b).0, length-select_where-le (λ y. mem y b) a),
  λ h. ground (arith, (full_intersection a b).1),
)

pub All-mem {κ} : (P : ℕ → Type κ) (xs : List ℕ) → All P xs → (a : ℕ) → mem a xs ≡ true → P a
All-mem P [] all a m = absurd (false≢true m)
All-mem P (x ∷ xs) all a m = elim (Bool-cases (a == x)) [
  | inl hit ↦ subst P (sym ((==_iff a x).0 hit)) all.0
  | inr miss ↦ All-mem P xs all.1 a (ground arith)
]

pub mem-All {κ} : (P : ℕ → Type κ) (xs : List ℕ) → ((a : ℕ) → mem a xs ≡ true → P a) → All P xs
mem-All P [] h = tt
mem-All P (x ∷ xs) h = (h x (ground arith), mem-All P xs (λ a m. h a (ground (arith, m))))

pub IsSubset-to_set : (xs ys : List ℕ) → IsSubset (to_set xs) ys ↔ IsSubset xs ys
IsSubset-to_set xs ys = (
  λ h.
      mem-All (λ x. mem x ys ≡ true) xs
        (λ a m. All-mem (λ x. mem x ys ≡ true) (to_set xs) h a (mem-to_set a xs ∙ m)),
  λ h.
      mem-All (λ x. mem x ys ≡ true) (to_set xs)
        (λ a m. All-mem (λ x. mem x ys ≡ true) xs h a (sym (mem-to_set a xs) ∙ m)),
)

-- The library's sets are compared through membership: two lists with the same members.
abbrev pub SameMembers : List ℕ → List ℕ → Type 0
SameMembers xs ys = (a : ℕ) → mem a xs ≡ mem a ys

pub select_where_same :
    (p q : ℕ → Bool) (xs : List ℕ) → ((a : ℕ) → p a ≡ q a) → select_where p xs ≡ select_where q xs
select_where_same p q [] h = refl
select_where_same p q (x ∷ xs) h = ground (arith, h x, select_where_same p q xs h)

pub intersection-to_set : (a b : List ℕ) → intersection a (to_set b) ≡ intersection a b
intersection-to_set a b = select_where_same _ _ a (λ x. mem-to_set x b)

-- A set is covered by another exactly when each of its members is there.
pub covered_iff :
    (a b : List ℕ)
    → (length (intersection (to_set a) (to_set b)) ≡ length (to_set a)) ↔ IsSubset a b
covered_iff a b = rw (intersection-to_set (to_set a) b) (
  λ h. (IsSubset-to_set a b).0 ((full_intersection (to_set a) b).0 h),
  λ h. (full_intersection (to_set a) b).1 ((IsSubset-to_set a b).1 h),
)

pub intersection_same :
    (a b c : List ℕ) → SameMembers b c → intersection a (to_set b) ≡ intersection a (to_set c)
intersection_same a b c same =
    intersection-to_set a b ∙ select_where_same _ _ a same ∙ sym (intersection-to_set a c)

pub mem-select_where :
    (p : ℕ → Bool) (a : ℕ) (xs : List ℕ) → mem a (select_where p xs) ≡ (p a && mem a xs)
mem-select_where p a [] = ground arith
mem-select_where p a (x ∷ xs) = elim (Bool-cases (a == x)) [
  | inl hit ↦
      let e : a ≡ x = (==_iff a x).0 hit in
      subst
        (λ z.
          mem a (if p z then z ∷ select_where p xs else select_where p xs)
          ≡ (p a && (a == z || mem a xs)))
        e
        (elim (Bool-cases (p a)) [
          | inl c ↦ ground (arith, c)
          | inr c ↦ ground (arith, c, mem-select_where p a xs)
        ])
  | inr miss ↦ ground (arith, miss, mem-select_where p a xs)
]

pub select_where_on :
    (p q : ℕ → Bool) (xs : List ℕ) → All (λ x. p x ≡ q x) xs → select_where p xs ≡ select_where q xs
select_where_on p q [] h = refl
select_where_on p q (x ∷ xs) h = ground (arith, h.0, select_where_on p q xs h.1)

pub is_none_of-select_where :
    (p : ℕ → Bool) (xs : List ℕ) → All (λ x. p x ≡ false) xs → is_none_of (select_where p xs) ≡ true
is_none_of-select_where p [] h = refl
is_none_of-select_where p (x ∷ xs) h = ground (arith, h.0, is_none_of-select_where p xs h.1)

-- What a set lacks of its part in another set is what it lacks of that set.
pub difference-intersection : (a b : List ℕ) → difference a (intersection a b) ≡ difference a b
difference-intersection a b = select_where_on _ _ a (
    mem-All (λ x. not (mem x (intersection a b)) ≡ not (mem x b)) a
      (λ x m. rw (mem-select_where (λ y. mem y b) x a, m) (ground arith)))

pub disjoint_lem :
    (a b : List ℕ)
    → is_none_of (intersection (intersection a b) (difference a (intersection a b))) ≡ true
disjoint_lem a b = is_none_of-select_where _ (intersection a b) (
    mem-All (λ x. mem x (difference a (intersection a b)) ≡ false) (intersection a b)
      (λ x m. mem-select_where (λ y. not (mem y (intersection a b))) x a ∙ rw m))

pub is_none_of-length : (xs : List ℕ) → is_none_of xs ≡ (length xs == 0)
is_none_of-length [] = refl
is_none_of-length (x ∷ xs) = ground arith
