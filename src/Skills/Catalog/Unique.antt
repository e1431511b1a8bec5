-- ===== src/Skills/Catalog/Unique.antt =====
-- Replacing a row keeps identifiers and names unique.
use seniors_empregabilidade.Prelude.{
  ==_iff, All, All-update_where, Bool, Bool-cases, IsDistinct, IsKeyed, IsKeyed-update_where, List,
  [], ap, arith, exists_where, false, false≢true, inl, inr, not, refl, str_eq, str_eq_refl, subst,
  sym, true, update_where, update_where_miss, ◌&&◌, ◌==◌, ◌∙◌, ◌∷◌, ◌≡◌, ◌≢◌,
}
use seniors_empregabilidade.Database.Tables.{Skill}
use seniors_empregabilidade.Skills.Catalog.{is_named}

-- No two skills have the same identifier, and no two the same normalized name.
pub record IsUniqueCatalog (skills : List Skill) : Type 0 where
  pub keyed : IsKeyed (λ (s : Skill). s.id) skills
  pub distinct : IsDistinct (λ (s : Skill). s.normalized_name) skills

abbrev pub clashes : Skill → Skill → Bool
clashes b s = not (s.id == b.id) && is_named b.normalized_name s

no_clash :
    (b x : Skill)
    → (x.id == b.id) ≡ false
    → clashes b x ≡ false
    → x.normalized_name ≢ b.normalized_name
no_clash b x other h e = false≢true (
    sym (ground (arith, h, other))
    ∙ ap (λ n. str_eq n b.normalized_name) e
    ∙ str_eq_refl b.normalized_name)

others_differ :
    (b : Skill) (xs : List Skill)
    → All (λ (y : Skill). y.id ≢ b.id) xs
    → exists_where (clashes b) xs ≡ false
    → All (λ (y : Skill). y.normalized_name ≢ b.normalized_name) xs
others_differ b [] ids h = tt
others_differ b (x ∷ xs) ids h = (
  no_clash b x (ground (arith, ids.0)) (ground (arith, h)),
  others_differ b xs ids.1 (ground (arith, h)),
)

others_keyed :
    (b x : Skill) (xs : List Skill)
    → (x.id == b.id) ≡ true
    → All (λ (y : Skill). y.id ≢ x.id) xs
    → All (λ (y : Skill). y.id ≢ b.id) xs
others_keyed b x xs hit all =
    subst (λ j. All (λ (y : Skill). y.id ≢ j) xs) ((==_iff x.id b.id).0 hit) all

replaced-IsDistinct :
    (b : Skill) (xs : List Skill)
    → IsKeyed (λ (s : Skill). s.id) xs
    → IsDistinct (λ (s : Skill). s.normalized_name) xs
    → exists_where (clashes b) xs ≡ false
    → IsDistinct (λ (s : Skill). s.normalized_name) (update_where (λ s. s.id == b.id) (λ _. b) xs)
replaced-IsDistinct b [] k d h = tt
replaced-IsDistinct b (x ∷ xs) k d h = elim (Bool-cases (x.id == b.id)) [
  | inl hit ↦ rw hit (
      subst
        (λ ys.
          All (λ (y : Skill). y.normalized_name ≢ b.normalized_name) ys
          × IsDistinct (λ (s : Skill). s.normalized_name) ys)
        (sym
          (update_where_miss (λ (s : Skill). s.id) b.id (λ _. b) xs (others_keyed b x xs hit k.0)))
        (others_differ b xs (others_keyed b x xs hit k.0) (ground (arith, h)), d.1))
  | inr miss ↦ rw miss (
    All-update_where (λ (y : Skill). y.normalized_name ≢ x.normalized_name) (λ s. s.id == b.id)
        (λ _. b) xs (λ y _ _ e. no_clash b x miss (ground (arith, h)) (sym e)) d.0,
    replaced-IsDistinct b xs k.1 d.1 (ground (arith, h)),
  )
]

IsKeyed-replaced :
    (b : Skill) (xs : List Skill)
    → IsKeyed (λ (s : Skill). s.id) xs
    → IsKeyed (λ (s : Skill). s.id) (update_where (λ s. s.id == b.id) (λ _. b) xs)
IsKeyed-replaced b xs k =
    IsKeyed-update_where (λ (s : Skill). s.id) (λ _. b) b.id (λ x e. refl) xs k

-- Replacing a row by one with the same identifier, whose name no other row has.
pub replaced-IsUniqueCatalog :
    (b : Skill) (xs : List Skill)
    → exists_where (clashes b) xs ≡ false
    → IsUniqueCatalog xs
    → IsUniqueCatalog (update_where (λ s. s.id == b.id) (λ _. b) xs)
replaced-IsUniqueCatalog b xs free u = record {
  keyed = IsKeyed-replaced b xs u.keyed;
  distinct = replaced-IsDistinct b xs u.keyed u.distinct free;
}
