-- ===== src/Skills/Catalog/Fields.antt =====
-- What an edit makes of the fields of a row.
use mathlib.Core.Option.{some_inj}
use seniors_empregabilidade.Prelude.{
  Option, Option-cases, Str, ap, inl, inr, none, refl, some, sym, ◌∙◌, ◌≡◌,
}
use seniors_empregabilidade.Database.Enums.{SkillType}
use seniors_empregabilidade.Database.Tables.{Skill}
use seniors_empregabilidade.Skills.Catalog.{
  SkillStatus, catalog_response_of, renamed_skill, with_name, with_skill_status, with_type,
}
use seniors_empregabilidade.Skills.Catalog.Spec.{HasStatus, IsAnswer, IsRenamed, IsTyped}
use seniors_empregabilidade.Skills.Name.{Unicode, parse_skill_name}

pub edit_fields :
    (type : Option SkillType) (status : Option SkillStatus) (renamed : Skill)
    → let new = with_skill_status status (with_type type renamed) in
      (new.id ≡ renamed.id)
      × (new.name ≡ renamed.name)
      × (new.normalized_name ≡ renamed.normalized_name)
      × IsTyped type renamed new
      × HasStatus status renamed new
edit_fields none none renamed = (refl, refl, refl, refl, refl)
edit_fields none (some SkillStatus.status_active) renamed = (refl, refl, refl, refl, refl)
edit_fields none (some SkillStatus.status_inactive) renamed = (refl, refl, refl, refl, refl)
edit_fields (some type) none renamed = (refl, refl, refl, refl, refl)
edit_fields (some type) (some SkillStatus.status_active) renamed = (refl, refl, refl, refl, refl)
edit_fields (some type) (some SkillStatus.status_inactive) renamed = (refl, refl, refl, refl, refl)

pub name_to :
    (unicode : Unicode) (name : Option Str) (old renamed new : Skill)
    → new.name ≡ renamed.name
    → new.normalized_name ≡ renamed.normalized_name
    → IsRenamed unicode name old renamed
    → IsRenamed unicode name old new
name_to unicode none old renamed new e f h = (e ∙ h.0, f ∙ h.1)
name_to unicode (some text) old renamed new e f h = rw (e, f) h

pub typed_from :
    (type : Option SkillType) (old renamed new : Skill)
    → renamed.type ≡ old.type
    → IsTyped type renamed new
    → IsTyped type old new
typed_from none old renamed new e h = h ∙ e
typed_from (some type) old renamed new e h = h

pub stated_from :
    (status : Option SkillStatus) (old renamed new : Skill)
    → renamed.is_active ≡ old.is_active
    → HasStatus status renamed new
    → HasStatus status old new
stated_from none old renamed new e h = h ∙ e
stated_from (some SkillStatus.status_active) old renamed new e h = h
stated_from (some SkillStatus.status_inactive) old renamed new e h = h

-- What a valid name changes.
pub name_fields :
    (unicode : Unicode) (name : Option Str) (old renamed : Skill)
    → renamed_skill unicode name old ≡ some renamed
    → (renamed.id ≡ old.id)
      × IsRenamed unicode name old renamed
      × (renamed.type ≡ old.type)
      × (renamed.is_active ≡ old.is_active)
name_fields unicode none old renamed h =
    let e : old ≡ renamed = some_inj.0 h in
    (
      ap (λ s. s.id) (sym e),
      (ap (λ s. s.name) (sym e), ap (λ s. s.normalized_name) (sym e)),
      ap (λ s. s.type) (sym e),
      ap (λ s. s.is_active) (sym e),
    )
name_fields unicode (some text) old renamed h =
    elim (Option-cases (parse_skill_name unicode text)) [
      | inl bad ↦
          absurd (let f : none ≡ some renamed = sym (ap (λ n. with_name n old) bad) ∙ h in cc)
      | inr (n, parsed) ↦
          let e : record old { name = n.value; normalized_name = n.normalized } ≡ renamed =
            some_inj.0 (sym (ap (λ n. with_name n old) parsed) ∙ h) in
          (
            ap (λ s. s.id) (sym e),
            parsed
                ∙ ap
                    (λ (s : Skill).
                      some (record { value = s.name; normalized = s.normalized_name }))
                    e,
            ap (λ s. s.type) (sym e),
            ap (λ s. s.is_active) (sym e),
          )
    ]

pub refused_name_text :
    (unicode : Unicode) (name : Option Str) (old : Skill)
    → renamed_skill unicode name old ≡ none
    → (text : Str) × ((name ≡ some text) × (parse_skill_name unicode text ≡ none))
refused_name_text unicode none old h = cc
refused_name_text unicode (some text) old h = elim (Option-cases (parse_skill_name unicode text)) [
  | inl bad ↦ (text, (refl, bad))
  | inr (n, parsed) ↦ absurd (
      let f : some (record old { name = n.value; normalized_name = n.normalized }) ≡ none =
        sym (ap (λ n. with_name n old) parsed) ∙ h in
      cc)
]

pub catalog_response_of-IsAnswer : (s : Skill) → IsAnswer s (catalog_response_of s)
catalog_response_of-IsAnswer s = record {
  id = refl;
  name = refl;
  type = refl;
  active = λ h. rw h refl;
  inactive = λ h. rw h refl;
}
