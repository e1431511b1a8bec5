-- ===== src/Skills/Resolve/Laws.antt =====
-- What resolving typed skills leaves in the catalog.
use seniors_empregabilidade.Prelude.{
  All, Bool, Bool-cases, IsDistinct, IsIn, IsKeyed, List, Str, [], arith, exists_where, false,
  false≢true, first_where-has_text, if◌then◌else◌, inl, inr, is_other, refl, some, str_eq_refl, sym,
  true, ℕ, ◌+◌, ◌∙◌, ◌∷◌, ◌≡◌, ◌≢◌, ◌≤◌, ◌⊎◌,
}
use seniors_empregabilidade.Database.Session.{Server}
use seniors_empregabilidade.Database.Tables.{Skill}
use seniors_empregabilidade.Jobs.Records.{CatalogSkill, catalog_skill_of}
use seniors_empregabilidade.Skills.Resolve.{
  WantedSkill, catalog_entries, create_rows, has_normalized_name, insert_wanted, new_skill,
  sorted_wanted, str_less, wanted_key,
}

-- The entries stand for the names, one for each and in their order, and are in the catalog.
abbrev pub AreEntriesOf : List Skill → List WantedSkill → List CatalogSkill → Type 0
AreEntriesOf skills [] [] = Unit
AreEntriesOf skills [] (e ∷ entries) = ⊥
AreEntriesOf skills (w ∷ wanted) [] = ⊥
AreEntriesOf skills (w ∷ wanted) (e ∷ entries) =
    ((s : Skill) × (IsIn s skills
        × ((s.normalized_name ≡ wanted_key w) × (e ≡ catalog_skill_of s))))
    × AreEntriesOf skills wanted entries

abbrev pub knows : List Skill → WantedSkill → Bool
knows skills w = exists_where (has_normalized_name (wanted_key w)) skills

-- A row of the catalog afterwards: it was there, or it is new, for a name that is wanted and was
-- missing.
abbrev pub IsOldOrMissing : List Skill → List WantedSkill → Skill → Type 0
IsOldOrMissing old wanted s =
    IsIn s old
    ⊎ ((w : WantedSkill) × (IsIn w wanted
          × ((s.normalized_name ≡ wanted_key w) × (knows old w ≡ false))))

-- `is` of a list after an insertion that puts one more row in front, or none.
knows-longer :
    (c : Bool) (t : Skill) (w : WantedSkill) (skills : List Skill)
    → knows skills w ≡ true
    → knows (if c then skills else t ∷ skills) w ≡ true
knows-longer true t w skills h = h
knows-longer false t w skills h = ground (arith, h)

IsIn-longer :
    (c : Bool) (t s : Skill) (skills : List Skill)
    → IsIn s skills
    → IsIn s (if c then skills else t ∷ skills)
IsIn-longer true t s skills m = m
IsIn-longer false t s skills m = inr m

insert_wanted-IsIn :
    (v w : WantedSkill) (wanted : List WantedSkill)
    → IsIn v (w ∷ wanted)
    → IsIn v (insert_wanted w wanted)
insert_wanted-IsIn v w [] m = m
insert_wanted-IsIn v w (u ∷ wanted) m = elim (Bool-cases (str_less (wanted_key u) (wanted_key w))) [
  | inl less ↦ rw less (elim m [
    | inl e ↦ inr (insert_wanted-IsIn v w wanted (inl e))
    | inr (inl e) ↦ inl e
    | inr (inr n) ↦ inr (insert_wanted-IsIn v w wanted (inr n))
  ])
  | inr more ↦ rw more m
]

insert_wanted-source :
    (v w : WantedSkill) (wanted : List WantedSkill)
    → IsIn v (insert_wanted w wanted)
    → IsIn v (w ∷ wanted)
insert_wanted-source v w [] m = m
insert_wanted-source v w (u ∷ wanted) m =
    elim (Bool-cases (str_less (wanted_key u) (wanted_key w))) [
      | inl less ↦ elim (rw less at m) [
        | inl e ↦ inr (inl e)
        | inr n ↦ elim (insert_wanted-source v w wanted n) [ inl e ↦ inl e | inr k ↦ inr (inr k) ]
      ]
      | inr more ↦ rw more at m
    ]

pub sorted_wanted-IsIn :
    (v : WantedSkill) (wanted : List WantedSkill) → IsIn v wanted → IsIn v (sorted_wanted wanted)
sorted_wanted-IsIn v [] m = m
sorted_wanted-IsIn v (w ∷ wanted) (inl e) = insert_wanted-IsIn v w (sorted_wanted wanted) (inl e)
sorted_wanted-IsIn v (w ∷ wanted) (inr m) =
    insert_wanted-IsIn v w (sorted_wanted wanted) (inr (sorted_wanted-IsIn v wanted m))

pub sorted_wanted-source :
    (v : WantedSkill) (wanted : List WantedSkill) → IsIn v (sorted_wanted wanted) → IsIn v wanted
sorted_wanted-source v [] m = m
sorted_wanted-source v (w ∷ wanted) m = elim (insert_wanted-source v w (sorted_wanted wanted) m) [
  | inl e ↦ inl e
  | inr n ↦ inr (sorted_wanted-source v wanted n)
]

module _ (server : Server) where
  abbrev added : ℕ → WantedSkill → List Skill → List Skill
  added n w skills = if knows skills w then skills else new_skill (server.uuid n) w ∷ skills

  pub create_rows-IsIn :
      (n : ℕ) (wanted : List WantedSkill) (skills : List Skill) (s : Skill)
      → IsIn s skills
      → IsIn s (create_rows server n wanted skills)
  create_rows-IsIn n [] skills s m = m
  create_rows-IsIn n (w ∷ wanted) skills s m =
      create_rows-IsIn (n + 1) wanted (added n w skills) s
        (IsIn-longer (knows skills w) _ s skills m)

  create_rows-knows :
      (n : ℕ) (wanted : List WantedSkill) (skills : List Skill) (v : WantedSkill)
      → knows skills v ≡ true
      → knows (create_rows server n wanted skills) v ≡ true
  create_rows-knows n [] skills v h = h
  create_rows-knows n (w ∷ wanted) skills v h =
      create_rows-knows (n + 1) wanted (added n w skills) v
        (knows-longer (knows skills w) _ v skills h)

  knows-added : (n : ℕ) (w : WantedSkill) (skills : List Skill) → knows (added n w skills) w ≡ true
  knows-added n w skills = elim (Bool-cases (knows skills w)) [
    | inl hit ↦ rw hit hit
    | inr miss ↦ rw (miss, str_eq_refl (wanted_key w))
  ]

  -- Every wanted name has a row afterwards.
  pub create_rows_complete :
      (n : ℕ) (wanted : List WantedSkill) (skills : List Skill) (v : WantedSkill)
      → IsIn v wanted
      → knows (create_rows server n wanted skills) v ≡ true
  create_rows_complete n [] skills v m = absurd m
  create_rows_complete n (w ∷ wanted) skills v (inl e) =
      create_rows-knows (n + 1) wanted (added n w skills) v (rw e (knows-added n w skills))
  create_rows_complete n (w ∷ wanted) skills v (inr m) =
      create_rows_complete (n + 1) wanted (added n w skills) v m

  abbrev normalized_of : Skill → Str
  normalized_of s = s.normalized_name

  added-IsDistinct :
      (n : ℕ) (w : WantedSkill) (skills : List Skill)
      → IsDistinct normalized_of skills
      → IsDistinct normalized_of (added n w skills)
  added-IsDistinct n w skills d = elim (Bool-cases (knows skills w)) [
    | inl hit ↦ rw hit d
    | inr miss ↦ rw miss (is_other normalized_of (wanted_key w) skills miss, d)
  ]

  pub create_rows-IsDistinct :
      (n : ℕ) (wanted : List WantedSkill) (skills : List Skill)
      → IsDistinct normalized_of skills
      → IsDistinct normalized_of (create_rows server n wanted skills)
  create_rows-IsDistinct n [] skills d = d
  create_rows-IsDistinct n (w ∷ wanted) skills d =
      create_rows-IsDistinct (n + 1) wanted (added n w skills) (added-IsDistinct n w skills d)

  -- Where every name has a row, nothing is created.
  pub create_rows-idle :
      (n : ℕ) (wanted : List WantedSkill) (skills : List Skill)
      → All (λ w. knows skills w ≡ true) wanted
      → create_rows server n wanted skills ≡ skills
  create_rows-idle n [] skills all = refl
  create_rows-idle n (w ∷ wanted) skills all =
      rw all.0 (create_rows-idle (n + 1) wanted skills all.1)

  module _ (old : List Skill) (wanted : List WantedSkill) where
    missing_before :
        (w : WantedSkill) (skills : List Skill)
        → ((v : WantedSkill) → knows old v ≡ true → knows skills v ≡ true)
        → knows skills w ≡ false
        → knows old w ≡ false
    missing_before w skills more h = elim (Bool-cases (knows old w)) [
      | inl k ↦ absurd (false≢true (sym h ∙ more w k))
      | inr k ↦ k
    ]

    pub create_rows-source :
        (n : ℕ) (ws : List WantedSkill) (skills : List Skill)
        → All (λ w. IsIn w wanted) ws
        → ((v : WantedSkill) → knows old v ≡ true → knows skills v ≡ true)
        → All (IsOldOrMissing old wanted) skills
        → All (IsOldOrMissing old wanted) (create_rows server n ws skills)
    create_rows-source n [] skills sub more all = all
    create_rows-source n (w ∷ ws) skills sub more all =
        create_rows-source (n + 1) ws (added n w skills) sub.1
          (λ v k. knows-longer (knows skills w) _ v skills (more v k))
          (elim (Bool-cases (knows skills w)) [
            | inl hit ↦ rw hit all
            | inr miss ↦ rw miss (inr (w, (sub.0, (refl, missing_before w skills more miss))), all)
          ])

-- The server's identifiers differ from each other and from those of the rows.
pub record IsFreshServer (server : Server) (skills : List Skill) : Type 0 where
  pub unused : (n : ℕ) → All (λ (s : Skill). s.id ≢ server.uuid n) skills
  pub injective : (m n : ℕ) → server.uuid m ≡ server.uuid n → m ≡ n

abbrev pub skill_id_of : Skill → ℕ
skill_id_of s = s.id

module _ (server : Server) (injective : (m n : ℕ) → server.uuid m ≡ server.uuid n → m ≡ n) where
  abbrev AreUnused : ℕ → List Skill → Type 0
  AreUnused n skills = (m : ℕ) → n ≤ m → All (λ (s : Skill). s.id ≢ server.uuid m) skills

  added_unused :
      (n : ℕ) (w : WantedSkill) (skills : List Skill)
      → AreUnused n skills
      → AreUnused (n + 1) (added server n w skills)
  added_unused n w skills u m le = elim (Bool-cases (knows skills w)) [
    | inl hit ↦ rw hit (u m (omega arith))
    | inr miss ↦ rw miss ((λ e. let f : n ≡ m = injective n m e in omega arith), u m (omega arith))
  ]

  added-IsKeyed :
      (n : ℕ) (w : WantedSkill) (skills : List Skill)
      → AreUnused n skills
      → IsKeyed skill_id_of skills
      → IsKeyed skill_id_of (added server n w skills)
  added-IsKeyed n w skills u k = elim (Bool-cases (knows skills w)) [
    | inl hit ↦ rw hit k
    | inr miss ↦ rw miss (u n (omega arith), k)
  ]

  pub create_rows-IsKeyed :
      (n : ℕ) (wanted : List WantedSkill) (skills : List Skill)
      → AreUnused n skills
      → IsKeyed skill_id_of skills
      → IsKeyed skill_id_of (create_rows server n wanted skills)
  create_rows-IsKeyed n [] skills u k = k
  create_rows-IsKeyed n (w ∷ wanted) skills u k =
      create_rows-IsKeyed (n + 1) wanted (added server n w skills) (added_unused n w skills u)
        (added-IsKeyed n w skills u k)

-- Where every name has a row, each look-up answers.
pub catalog_entries_lem :
    (skills : List Skill) (wanted : List WantedSkill)
    → All (λ w. knows skills w ≡ true) wanted
    → (entries : List CatalogSkill) × ((catalog_entries wanted skills ≡ some entries)
        × AreEntriesOf skills wanted entries)
catalog_entries_lem skills [] all = ([], (refl, tt))
catalog_entries_lem skills (w ∷ wanted) all =
    let (s, (f, (m, e))) =
      first_where-has_text (λ (s : Skill). s.normalized_name) (wanted_key w) skills all.0 in
    let (entries, (g, a)) = catalog_entries_lem skills wanted all.1 in
    (catalog_skill_of s ∷ entries, (rw (f, g), ((s, (m, (e, refl))), a)))
