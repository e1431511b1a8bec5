-- ===== src/Skills/Resolve/Names.antt =====
-- Which names a list of typed skills asks for.
use mathlib.Core.Option.{some_inj}
use seniors_empregabilidade.Prelude.{
  All, Bool-cases, IsDistinct, IsIn, List, Option-cases, [], ap, false≢true, inl, inr, none, refl,
  some, str_eq, str_eq_refl, str_eq→eq, subst, sym, ◌∙◌, ◌∷◌, ◌≡◌, ◌≢◌,
}
use seniors_empregabilidade.Skills.Name.{SkillName, Unicode, parse_skill_name}
use seniors_empregabilidade.Skills.Resolve.{
  SkillRequest, WantedSkill, by_normalized_name, collect, set_default, wanted_key,
}

-- The names that a list of requests asks for: all names are valid, every request has its key, every
-- key is the name of a request, and no key is there twice.
pub record AreNamesOf (unicode : Unicode) (requested : List SkillRequest)
    (wanted : List WantedSkill) : Type 0 where
  pub every :
      All
        (λ (r : SkillRequest).
          (n : SkillName) × ((parse_skill_name unicode r.name ≡ some n)
            × ((w : WantedSkill) × (IsIn w wanted × (wanted_key w ≡ n.normalized)))))
        requested
  pub sound :
      All
        (λ (w : WantedSkill).
          IsIn w.request requested × (parse_skill_name unicode w.request.name ≡ some w.name))
        wanted
  pub distinct : IsDistinct wanted_key wanted

module _ (w : WantedSkill) where
  set_default-IsIn :
      (v : WantedSkill) (wanted : List WantedSkill) → IsIn v wanted → IsIn v (set_default w wanted)
  set_default-IsIn v [] m = absurd m
  set_default-IsIn v (u ∷ wanted) m = elim (Bool-cases (str_eq (wanted_key u) (wanted_key w))) [
    | inl hit ↦ rw hit m
    | inr miss ↦ rw miss (elim m [ inl e ↦ inl e | inr n ↦ inr (set_default-IsIn v wanted n) ])
  ]

  set_default_key :
      (wanted : List WantedSkill)
      → (v : WantedSkill) × (IsIn v (set_default w wanted) × (wanted_key v ≡ wanted_key w))
  set_default_key [] = (w, (inl refl, refl))
  set_default_key (u ∷ wanted) = elim (Bool-cases (str_eq (wanted_key u) (wanted_key w))) [
    | inl hit ↦ rw hit (u, (inl refl, str_eq→eq (wanted_key u) (wanted_key w) hit))
    | inr miss ↦ let (v, (m, e)) = set_default_key wanted in rw miss (v, (inr m, e))
  ]

  set_default-All {κ} :
      (P : WantedSkill → Type κ) (wanted : List WantedSkill)
      → P w
      → All P wanted
      → All P (set_default w wanted)
  set_default-All P [] p all = (p, tt)
  set_default-All P (u ∷ wanted) p all = elim (Bool-cases (str_eq (wanted_key u) (wanted_key w))) [
    | inl hit ↦ rw hit all
    | inr miss ↦ rw miss (all.0, set_default-All P wanted p all.1)
  ]

  set_default-IsDistinct :
      (wanted : List WantedSkill)
      → IsDistinct wanted_key wanted
      → IsDistinct wanted_key (set_default w wanted)
  set_default-IsDistinct [] d = (tt, tt)
  set_default-IsDistinct (u ∷ wanted) d = elim (Bool-cases (str_eq (wanted_key u) (wanted_key w))) [
    | inl hit ↦ rw hit d
    | inr miss ↦ rw miss (
      set_default-All (λ v. wanted_key v ≢ wanted_key u) wanted
          (λ e. false≢true (sym miss ∙ ap (str_eq (wanted_key u)) e ∙ str_eq_refl (wanted_key u)))
          d.0,
      set_default-IsDistinct wanted d.1,
    )
  ]

module _ (unicode : Unicode) (r : SkillRequest) (requested : List SkillRequest)
    (so_far : List WantedSkill) where
  pub loop_stops :
      parse_skill_name unicode r.name ≡ none
      → by_normalized_name unicode (r ∷ requested) so_far ≡ none
  unfolding by_normalized_name
  loop_stops h = ap (collect (by_normalized_name unicode requested) r so_far) h

  pub loop_goes_on :
      (n : SkillName)
      → parse_skill_name unicode r.name ≡ some n
      → by_normalized_name unicode (r ∷ requested) so_far
        ≡ by_normalized_name unicode requested
            (set_default (record { name = n; request = r }) so_far)
  unfolding by_normalized_name
  loop_goes_on n h = ap (collect (by_normalized_name unicode requested) r so_far) h

-- The loop stops only at a request whose name is invalid.
pub invalid_request :
    (unicode : Unicode) (requested : List SkillRequest) (so_far : List WantedSkill)
    → by_normalized_name unicode requested so_far ≡ none
    → (q : SkillRequest) × (IsIn q requested × (parse_skill_name unicode q.name ≡ none))
unfolding by_normalized_name
invalid_request unicode [] so_far h = cc
invalid_request unicode (r ∷ requested) so_far h =
    elim (Option-cases (parse_skill_name unicode r.name)) [
      | inl n ↦ (r, (inl refl, n))
      | inr (n, p) ↦
          let (q, (m, e)) =
            invalid_request unicode requested
              (set_default (record { name = n; request = r }) so_far)
              (sym (loop_goes_on unicode r requested so_far n p) ∙ h) in
          (q, (inr m, e))
    ]

-- The loop, from what it has collected so far.
collects :
    (unicode : Unicode) (requested : List SkillRequest) (so_far wanted : List WantedSkill)
    → by_normalized_name unicode requested so_far ≡ some wanted
    → IsDistinct wanted_key so_far
    → ((v : WantedSkill) → IsIn v so_far → IsIn v wanted)
      × (All
            (λ (r : SkillRequest).
              (n : SkillName) × ((parse_skill_name unicode r.name ≡ some n)
                × ((w : WantedSkill) × (IsIn w wanted × (wanted_key w ≡ n.normalized)))))
            requested
          × IsDistinct wanted_key wanted)
unfolding by_normalized_name
collects unicode [] so_far wanted e d =
    (λ v m. subst (IsIn v) (some_inj.0 e) m, (tt, subst (IsDistinct wanted_key) (some_inj.0 e) d))
collects unicode (r ∷ requested) so_far wanted e d =
    elim (Option-cases (parse_skill_name unicode r.name)) [
      | inl n ↦
          absurd
            (let f : none ≡ some wanted = sym (loop_stops unicode r requested so_far n) ∙ e in cc)
      | inr (n, p) ↦
          let w : WantedSkill = record { name = n; request = r } in
          let f : by_normalized_name unicode requested (set_default w so_far) ≡ some wanted =
            sym (loop_goes_on unicode r requested so_far n p) ∙ e in
          let (keeps, (all, distinct)) =
            collects unicode requested (set_default w so_far) wanted f
              (set_default-IsDistinct w so_far d) in
          let (v, (m, k)) = set_default_key w so_far in
          (
            λ v m. keeps v (set_default-IsIn w v so_far m),
            (((n, (p, (v, (keeps v m, k)))), all), distinct),
          )
    ]

-- What each collected name comes from.
comes_from :
    (unicode : Unicode) (P : WantedSkill → Type 0) (requested : List SkillRequest)
    (so_far wanted : List WantedSkill)
    → by_normalized_name unicode requested so_far ≡ some wanted
    → ((r : SkillRequest) (n : SkillName)
        → IsIn r requested
        → parse_skill_name unicode r.name ≡ some n
        → P (record { name = n; request = r }))
    → All P so_far
    → All P wanted
unfolding by_normalized_name
comes_from unicode P [] so_far wanted e h all = subst (All P) (some_inj.0 e) all
comes_from unicode P (r ∷ requested) so_far wanted e h all =
    elim (Option-cases (parse_skill_name unicode r.name)) [
      | inl n ↦
          absurd
            (let f : none ≡ some wanted = sym (loop_stops unicode r requested so_far n) ∙ e in cc)
      | inr (n, p) ↦
          let w : WantedSkill = record { name = n; request = r } in
          comes_from unicode P requested (set_default w so_far) wanted
            (sym (loop_goes_on unicode r requested so_far n p) ∙ e) (λ s m i q. h s m (inr i) q)
            (set_default-All w P so_far (h r n (inl refl) p) all)
    ]

pub by_normalized_name-AreNamesOf :
    (unicode : Unicode) (requested : List SkillRequest) (wanted : List WantedSkill)
    → by_normalized_name unicode requested [] ≡ some wanted
    → AreNamesOf unicode requested wanted
by_normalized_name-AreNamesOf unicode requested wanted e =
    let (keeps, (all, distinct)) = collects unicode requested [] wanted e tt in
    record {
      every = all;
      sound = comes_from unicode _ requested [] wanted e (λ r n m p. (m, p)) tt;
      distinct = distinct;
    }
