-- ===== src/Prelude/Distinct.antt =====
-- Tables whose rows have a unique text.
use mathlib.Core.Path.{◌≡◌, refl, sym, ap, ◌∙◌}
use mathlib.Core.Logic.{◌≢◌, inl, inr}
use mathlib.Core.Bool.{Bool, true, false, false≢true}
use mathlib.Core.Option.{some}
use mathlib.Core.List.{List, [], ◌∷◌}
use native.Mathlib.Omega.{arith}
use seniors_empregabilidade.Prelude.Tests.{Bool-cases}
use seniors_empregabilidade.Prelude.Lists.{All, IsIn, exists_where, first_where}
use seniors_empregabilidade.Prelude.Text.{Str, str_eq, str_eq_refl, str_eq→eq}
use seniors_empregabilidade.Prelude.Keys.{All-map_implies, exists_where-false}

-- No two rows have the same text.
abbrev pub IsDistinct : {A : Type 0} → (A → Str) → List A → Type 0
IsDistinct key [] = Unit
IsDistinct key (x ∷ xs) = All (λ y. key y ≢ key x) xs × IsDistinct key xs

module _ {A : Type 0} (key : A → Str) where
  abbrev pub has_text : Str → A → Bool
  has_text text y = str_eq (key y) text

  pub is_other :
      (text : Str) (xs : List A)
      → exists_where (has_text text) xs ≡ false
      → All (λ y. key y ≢ text) xs
  is_other text xs h =
      All-map_implies _ (λ y. key y ≢ text) xs
        (λ y n e. false≢true (sym n ∙ ap (λ k. str_eq k text) e ∙ str_eq_refl text))
        (exists_where-false (has_text text) xs h)

  -- A row with the text is found, and it is in the table.
  pub first_where-has_text :
      (text : Str) (xs : List A)
      → exists_where (has_text text) xs ≡ true
      → (x : A) × ((first_where (has_text text) xs ≡ some x) × (IsIn x xs × (key x ≡ text)))
  first_where-has_text text [] h = cc
  first_where-has_text text (x ∷ xs) h = elim (Bool-cases (has_text text x)) [
    | inl hit ↦ (x, (rw hit, (inl refl, str_eq→eq (key x) text hit)))
    | inr miss ↦
        let (y, (f, (m, e))) = first_where-has_text text xs (ground (arith, h, miss)) in
        (y, (rw (miss, f), (inr m, e)))
  ]
