-- ===== src/Skills/Resolve/Order.antt =====
-- In which order a list of typed skills asks for its names.
use mathlib.Core.List.{append_assoc, append-nil}
use mathlib.Core.Option.{some_inj}
use seniors_empregabilidade.Prelude.{
  Bool, Bool-cases, List, Option-cases, Str, [], ap, arith, exists_where, false, if◌then◌else◌, inl,
  inr, none, not, refl, select_where, some, str_eq, str_eq→eq, subst, sym, true, ◌++◌, ◌||◌, ◌∙◌,
  ◌∷◌, ◌≡◌,
}
use seniors_empregabilidade.Skills.Name.{SkillName, Unicode, parse_skill_name}
use seniors_empregabilidade.Skills.Resolve.{
  SkillRequest, WantedSkill, by_normalized_name, set_default, wanted_key,
}
use seniors_empregabilidade.Skills.Resolve.Names.{loop_goes_on, loop_stops}

-- The names other than one.
abbrev pub other_names : (normalized : Str) → List WantedSkill → List WantedSkill
other_names normalized wanted = select_where (λ w. not (str_eq (wanted_key w) normalized)) wanted

-- Each name where it is typed first: the name of the first request, and then the names of the
-- requests after it in the same order, without that name.
pub data AreFirstNames (unicode : Unicode) : List SkillRequest → List WantedSkill → Type 0 where
  no_names : AreFirstNames unicode [] []
  name_first :
      (r : SkillRequest) (n : SkillName) (requested : List SkillRequest) (wanted : List WantedSkill)
      → parse_skill_name unicode r.name ≡ some n
      → AreFirstNames unicode requested wanted
      → AreFirstNames unicode
          (r ∷ requested)
          (record { name = n; request = r } ∷ other_names n.normalized wanted)

str_eq_sym : (s t : Str) → str_eq s t ≡ str_eq t s
str_eq_sym [] [] = refl
str_eq_sym [] (d ∷ t) = refl
str_eq_sym (c ∷ s) [] = refl
str_eq_sym (c ∷ s) (d ∷ t) = ground (arith, str_eq_sym s t)

abbrev is_collected : List WantedSkill → WantedSkill → Bool
is_collected so_far v = exists_where (λ u. str_eq (wanted_key u) (wanted_key v)) so_far

-- The names that are not collected so far.
abbrev new_names : (so_far wanted : List WantedSkill) → List WantedSkill
new_names so_far wanted = select_where (λ v. not (is_collected so_far v)) wanted

module _ (w : WantedSkill) where
  set_default_old :
      (so_far : List WantedSkill) → is_collected so_far w ≡ true → set_default w so_far ≡ so_far
  set_default_old [] h = cc
  set_default_old (v ∷ so_far) h = ground (arith, set_default_old so_far)

  set_default_new :
      (so_far : List WantedSkill)
      → is_collected so_far w ≡ false
      → set_default w so_far ≡ so_far ++ (w ∷ [])
  set_default_new [] h = refl
  set_default_new (v ∷ so_far) h = ground (arith, set_default_new so_far)

  collected_alike :
      (so_far : List WantedSkill) (v : WantedSkill)
      → wanted_key v ≡ wanted_key w
      → is_collected so_far v ≡ is_collected so_far w
  collected_alike so_far v e = ap (λ k. exists_where (λ u. str_eq (wanted_key u) k) so_far) e

  collected_more :
      (so_far : List WantedSkill) (v : WantedSkill)
      → is_collected (so_far ++ (w ∷ [])) v
        ≡ (is_collected so_far v || str_eq (wanted_key v) (wanted_key w))
  collected_more [] v = ground (arith, str_eq_sym (wanted_key w) (wanted_key v))
  collected_more (u ∷ so_far) v = ground (arith, collected_more so_far v)

  new_names_old :
      (so_far wanted : List WantedSkill)
      → is_collected so_far w ≡ true
      → new_names so_far wanted ≡ new_names so_far (other_names (wanted_key w) wanted)
  new_names_old so_far [] h = refl
  new_names_old so_far (v ∷ wanted) h = elim (Bool-cases (str_eq (wanted_key v) (wanted_key w))) [
    | inl hit ↦
        rw (hit, collected_alike so_far v (str_eq→eq (wanted_key v) (wanted_key w) hit) ∙ h)
          (new_names_old so_far wanted h)
    | inr miss ↦ rw miss (
        ap (λ (r : List WantedSkill). if not (is_collected so_far v) then v ∷ r else r)
          (new_names_old so_far wanted h))
  ]

  new_names_more :
      (so_far wanted : List WantedSkill)
      → new_names (so_far ++ (w ∷ [])) wanted ≡ new_names so_far (other_names (wanted_key w) wanted)
  new_names_more so_far [] = refl
  new_names_more so_far (v ∷ wanted) = elim (Bool-cases (str_eq (wanted_key v) (wanted_key w))) [
    | inl hit ↦
        let there : is_collected (so_far ++ (w ∷ [])) v ≡ true =
          collected_more so_far v ∙ ground (arith, hit) in
        rw (there, hit) (new_names_more so_far wanted)
    | inr miss ↦
        let same : is_collected (so_far ++ (w ∷ [])) v ≡ is_collected so_far v =
          collected_more so_far v ∙ ground (arith, miss) in
        rw (same, miss)
          (ap (λ (r : List WantedSkill). if not (is_collected so_far v) then v ∷ r else r)
            (new_names_more so_far wanted))
  ]

  -- One pass of the loop takes the name off the front of what is to come.
  set_default-new_names :
      (so_far wanted : List WantedSkill)
      → set_default w so_far ++ new_names (set_default w so_far) wanted
        ≡ so_far ++ new_names so_far (w ∷ other_names (wanted_key w) wanted)
  set_default-new_names so_far wanted = elim (Bool-cases (is_collected so_far w)) [
    | inl old ↦
        rw (set_default_old so_far old, old)
          (ap (λ r. so_far ++ r) (new_names_old so_far wanted old))
    | inr new ↦
        rw (set_default_new so_far new, new)
          (append_assoc so_far (w ∷ []) (new_names (so_far ++ (w ∷ [])) wanted)
            ∙ ap (λ r. so_far ++ (w ∷ r)) (new_names_more so_far wanted))
  ]

nothing_collected : (wanted : List WantedSkill) → new_names [] wanted ≡ wanted
nothing_collected [] = refl
nothing_collected (w ∷ wanted) = ap (λ r. w ∷ r) (nothing_collected wanted)

collects_in_order :
    (unicode : Unicode) (requested : List SkillRequest) (so_far wanted : List WantedSkill)
    → by_normalized_name unicode requested so_far ≡ some wanted
    → (names : List WantedSkill) × (AreFirstNames unicode requested names
        × (wanted ≡ so_far ++ new_names so_far names))
unfolding by_normalized_name
collects_in_order unicode [] so_far wanted e =
    ([], (AreFirstNames.no_names, sym (some_inj.0 e) ∙ sym (append-nil so_far)))
collects_in_order unicode (r ∷ requested) so_far wanted e =
    elim (Option-cases (parse_skill_name unicode r.name)) [
      | inl n ↦
          absurd
            (let f : none ≡ some wanted = sym (loop_stops unicode r requested so_far n) ∙ e in cc)
      | inr (n, p) ↦
          let w : WantedSkill = record { name = n; request = r } in
          let (names, (firsts, same)) =
            collects_in_order unicode requested (set_default w so_far) wanted
              (sym (loop_goes_on unicode r requested so_far n p) ∙ e) in
          (
            w ∷ other_names n.normalized names,
            (
              AreFirstNames.name_first r n requested names p firsts,
              same ∙ set_default-new_names w so_far names,
            ),
          )
    ]

pub by_normalized_name-AreFirstNames :
    (unicode : Unicode) (requested : List SkillRequest) (wanted : List WantedSkill)
    → by_normalized_name unicode requested [] ≡ some wanted
    → AreFirstNames unicode requested wanted
by_normalized_name-AreFirstNames unicode requested wanted e =
    let (names, (firsts, same)) = collects_in_order unicode requested [] wanted e in
    subst (AreFirstNames unicode requested) (sym (same ∙ nothing_collected names)) firsts
