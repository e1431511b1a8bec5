-- ===== src/Prelude/Keys.antt =====
-- Tables whose rows have a primary key: look-ups and updates by key.
use Prim.Native.Nat.{ℕ, suc}
use mathlib.Core.Path.{◌≡◌, refl, sym, ap, subst, ◌∙◌}
use mathlib.Core.Logic.{inl, inr, ◌≢◌}
use mathlib.Core.Bool.{Bool, true, false, ◌&&◌}
use mathlib.Core.Option
use mathlib.Core.Option.{Option, some, none, some_inj}
use mathlib.Core.List.{List, [], ◌∷◌}
use native.Mathlib.Omega.{arith}
use seniors_empregabilidade.Prelude.Tests.{◌==◌, if◌then◌else◌, Bool-cases, ==_refl, ==_iff}
use seniors_empregabilidade.Prelude.Lists.{
  All, IsIn, first_where, update_where, count_where, All-IsIn, exists_where, select_where,
}

module _ {A : Type 0} where
  pub All-update_where {κ} :
      (P : A → Type κ) (p : A → Bool) (f : A → A) (xs : List A)
      → ((x : A) → p x ≡ true → P x → P (f x))
      → All P xs
      → All P (update_where p f xs)
  All-update_where P p f [] keep all = tt
  All-update_where P p f (x ∷ xs) keep all = (
    elim (Bool-cases (p x)) [ inl hit ↦ rw hit (keep x hit all.0) | inr miss ↦ rw miss all.0 ],
    All-update_where P p f xs keep all.1,
  )

  -- Every row of a table has its place in the updated table.
  pub IsIn-update_where :
      (p : A → Bool) (f : A → A) (xs : List A) (x : A)
      → IsIn x xs
      → IsIn (if p x then f x else x) (update_where p f xs)
  IsIn-update_where p f [] x m = absurd m
  IsIn-update_where p f (y ∷ xs) x (inl e) = inl (ap (λ z. if p z then f z else z) e)
  IsIn-update_where p f (y ∷ xs) x (inr m) = inr (IsIn-update_where p f xs x m)

  pub All-map_implies {κ μ} :
      (P : A → Type κ) (Q : A → Type μ) (xs : List A) → ((x : A) → P x → Q x) → All P xs → All Q xs
  All-map_implies P Q [] h all = tt
  All-map_implies P Q (x ∷ xs) h all = (h x all.0, All-map_implies P Q xs h all.1)

module _ {A : Type 0} (key : A → ℕ) where
  -- No two rows share their key.
  abbrev pub IsKeyed : List A → Type 0
  IsKeyed [] = Unit
  IsKeyed (x ∷ xs) = All (λ y. key y ≢ key x) xs × IsKeyed xs

  abbrev pub by_key : ℕ → A → Bool
  by_key k x = key x == k

  -- The row with a key.
  abbrev pub row : ℕ → List A → Option A
  row k = first_where (by_key k)

  pub row-IsIn : (xs : List A) (a : A) → IsKeyed xs → IsIn a xs → row (key a) xs ≡ some a
  row-IsIn [] a k m = absurd m
  row-IsIn (x ∷ xs) a k (inl e) = rw e (rw (==_refl (key x)))
  row-IsIn (x ∷ xs) a k (inr m) =
      ground (arith, All-IsIn (λ y. key y ≢ key x) xs a k.0 m, row-IsIn xs a k.1 m)

  -- Two rows with the same key are the same row.
  pub IsKeyed-same :
      (xs : List A) (a b : A) → IsKeyed xs → IsIn a xs → IsIn b xs → key a ≡ key b → a ≡ b
  IsKeyed-same xs a b k m n e =
      some_inj.0 (sym (row-IsIn xs a k m) ∙ ap (λ j. row j xs) e ∙ row-IsIn xs b k n)

  pub row_key : (k : ℕ) (xs : List A) (a : A) → row k xs ≡ some a → key a ≡ k
  row_key k [] a h = cc
  row_key k (x ∷ xs) a h = ground (arith, row_key k xs a)

  pub IsIn-row : (k : ℕ) (xs : List A) (a : A) → row k xs ≡ some a → IsIn a xs
  IsIn-row k [] a h = cc
  IsIn-row k (x ∷ xs) a h = ground (arith, IsIn-row k xs a)

  -- An update of the row with key `k` that keeps its key.
  module _ (f : A → A) (k : ℕ) (same : (x : A) → key x ≡ k → key (f x) ≡ k) where
    pub row-update_where :
        (j : ℕ) (xs : List A)
        → row j (update_where (by_key k) f xs)
          ≡ (if j == k then Option.map f (row j xs) else row j xs)
    row-update_where j [] = ground arith
    row-update_where j (x ∷ xs) = ground (arith, same x, row-update_where j xs)

    same_if : (x : A) → key (if by_key k x then f x else x) ≡ key x
    same_if x = elim (Bool-cases (by_key k x)) [
      | inl hit ↦ rw hit (let e : key x ≡ k = (==_iff _ _).0 hit in same x e ∙ sym e)
      | inr miss ↦ rw miss
    ]

    pub IsKeyed-update_where : (xs : List A) → IsKeyed xs → IsKeyed (update_where (by_key k) f xs)
    IsKeyed-update_where [] d = tt
    IsKeyed-update_where (x ∷ xs) d = (
      rw (same_if x) (
          All-update_where (λ y. key y ≢ key x) (by_key k) f xs
            (λ y hit h. let e : key y ≡ k = (==_iff _ _).0 hit in rw (same y e ∙ sym e) h) d.0),
      IsKeyed-update_where xs d.1,
    )

  -- Replacing the row of a key by one with that key keeps which keys there are.
  pub exists_where-replace :
      (k j : ℕ) (b : A) (xs : List A)
      → key b ≡ j
      → exists_where (by_key k) (update_where (by_key j) (λ _. b) xs) ≡ exists_where (by_key k) xs
  exists_where-replace k j b [] e = refl
  exists_where-replace k j b (x ∷ xs) e = ground (arith, exists_where-replace k j b xs e)

  pub update_where_miss :
      (k : ℕ) (f : A → A) (xs : List A)
      → All (λ y. key y ≢ k) xs
      → update_where (by_key k) f xs ≡ xs
  update_where_miss k f [] all = refl
  update_where_miss k f (x ∷ xs) all = ground (arith, all.0, update_where_miss k f xs all.1)

  -- Replacing a row that passes a test by one that fails it lowers the count of rows that pass.
  pub count_where-replace :
      (t : A → Bool) (a b : A) (k : ℕ) (xs : List A)
      → IsKeyed xs
      → IsIn a xs
      → key a ≡ k
      → t a ≡ true
      → t b ≡ false
      → suc (count_where t (update_where (by_key k) (λ _. b) xs)) ≡ count_where t xs
  count_where-replace t a b k [] d m e p q = absurd m
  count_where-replace t a b k (x ∷ xs) d (inl same) e p q =
      ground (arith, update_where_miss k (λ _. b) xs (rw (← e, same) d.0))
  count_where-replace t a b k (x ∷ xs) d (inr m) e p q =
      ground (
        arith,
        All-IsIn (λ y. key y ≢ key x) xs a d.0 m,
        count_where-replace t a b k xs d.1 m e p q,
      )

  -- Where keys are unique, updating the row with a's key is replacing `a`.
  pub update_where_const :
      (f : A → A) (a : A) (xs : List A)
      → IsKeyed xs
      → IsIn a xs
      → update_where (by_key (key a)) (λ _. f a) xs ≡ update_where (by_key (key a)) f xs
  update_where_const f a [] d m = absurd m
  update_where_const f a (x ∷ xs) d (inl e) =
      let missed : All (λ y. key y ≢ key a) xs =
        subst (λ z. All (λ y. key y ≢ key z) xs) (sym e) d.0 in
      ground (
        arith,
        ap f e,
        ap key e,
        update_where_miss (key a) (λ _. f a) xs missed,
        update_where_miss (key a) f xs missed,
      )
  update_where_const f a (x ∷ xs) d (inr m) =
      ground (arith, All-IsIn (λ y. key y ≢ key x) xs a d.0 m, update_where_const f a xs d.1 m)

module _ {A : Type 0} (p : A → Bool) where
  pub first_where-IsIn : (xs : List A) (a : A) → first_where p xs ≡ some a → IsIn a xs
  first_where-IsIn [] a h = cc
  first_where-IsIn (x ∷ xs) a h = ground (arith, first_where-IsIn xs a)

  pub first_where_passes : (xs : List A) (a : A) → first_where p xs ≡ some a → p a ≡ true
  first_where_passes [] a h = cc
  first_where_passes (x ∷ xs) a h = ground (arith, first_where_passes xs a)

  pub exists_where-false : (xs : List A) → exists_where p xs ≡ false → All (λ x. p x ≡ false) xs
  exists_where-false [] h = tt
  exists_where-false (x ∷ xs) h = (ground arith, exists_where-false xs (ground arith))

  pub exists_where-none : (xs : List A) → All (λ x. p x ≡ false) xs → exists_where p xs ≡ false
  exists_where-none [] h = refl
  exists_where-none (x ∷ xs) h = rw (h.0, exists_where-none xs h.1)

  pub exists_where-IsIn : (xs : List A) (x : A) → IsIn x xs → p x ≡ true → exists_where p xs ≡ true
  exists_where-IsIn [] x m h = absurd m
  exists_where-IsIn (y ∷ xs) x (inl e) h = ground (arith, ap p e, h)
  exists_where-IsIn (y ∷ xs) x (inr m) h = ground (arith, exists_where-IsIn xs x m h)

  pub exists_where-select_where :
      (q : A → Bool) (xs : List A)
      → exists_where q (select_where p xs) ≡ exists_where (λ x. p x && q x) xs
  exists_where-select_where q [] = refl
  exists_where-select_where q (x ∷ xs) = ground (arith, exists_where-select_where q xs)

  pub select_where_empty : (xs : List A) → exists_where p xs ≡ false → select_where p xs ≡ []
  select_where_empty [] h = refl
  select_where_empty (x ∷ xs) h = ground (arith, select_where_empty xs)

pub IsIn-All {κ} :
    {A : Type 0} (P : A → Type κ) (xs : List A) → ((x : A) → IsIn x xs → P x) → All P xs
IsIn-All P [] h = tt
IsIn-All P (x ∷ xs) h = (h x (inl refl), IsIn-All P xs (λ y m. h y (inr m)))
