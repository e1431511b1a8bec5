-- ===== src/Tests/Catalog.antt =====
-- Runs of the administration of the skill catalog.
use seniors_empregabilidade.Prelude.{Str, [], codes, false, none, refl, some, true, ℕ, ◌∷◌, ◌≡◌}
use seniors_empregabilidade.Database.AccountErrors.{SkillError}
use seniors_empregabilidade.Database.Enums.{SkillType}
use seniors_empregabilidade.Database.Errors.{Error}
use seniors_empregabilidade.Database.Session.{err, ok}
use seniors_empregabilidade.Database.Tables.{Db, Skill}
use seniors_empregabilidade.Skills.Catalog.{
  CatalogSkillUpdateRequest, SkillStatus, create_catalog_skill, find_and_save, insert_catalog_skill,
  save_skill, update_catalog_skill,
}
use seniors_empregabilidade.Skills.Catalog.Outcome.{perform-CatalogOutcome}
use seniors_empregabilidade.Skills.Catalog.Spec.{CatalogCall, CatalogOutcome, perform}
use seniors_empregabilidade.Skills.Name.{Unicode, normalize_skill_name, parse_skill_name}
use seniors_empregabilidade.Skills.Resolve.{SkillRequest}
use seniors_empregabilidade.Tests.Samples.{sample, server}

-- Names that differ by nothing but spaces are one name.
abbrev plain : Unicode
plain = record {
  casefold = λ s. s;
  nfkd = λ s. s;
  is_ignored = λ c. false;
  is_control = λ c. false;
}

abbrev typed : Str → SkillRequest
typed name = record { name = name; type = SkillType.hard }

-- A second skill of the same normalized name is refused.
refused_name :
    (create_catalog_skill plain server
      (typed (codes " a  b "))
      (create_catalog_skill plain server (typed (codes "a b")) sample).1).0
    ≡ err (Error.skill SkillError.skill_name_conflict)
unfolding create_catalog_skill insert_catalog_skill parse_skill_name normalize_skill_name
refused_name = refl

abbrev catalog_row : (id : ℕ) → Str → Skill
catalog_row id name = record {
  id = id;
  name = name;
  normalized_name = name;
  type = SkillType.hard;
  is_active = true;
}

abbrev renaming : CatalogSkillUpdateRequest
renaming = record {
  name = some (codes "c");
  type = none;
  status = some SkillStatus.status_inactive;
}

abbrev with_two : Db
with_two = record sample { skills = catalog_row 31 (codes "a") ∷ catalog_row 32 (codes "b") ∷ [] }

-- A rename brings the normalized name along, and is refused for the name of another skill.
edits :
    ((update_catalog_skill plain 31 renaming with_two).0
      ≡ ok (record {
        id = 31;
        name = codes "c";
        type = SkillType.hard;
        status = SkillStatus.status_inactive;
      }))
    × ((update_catalog_skill plain 31 (record renaming { name = some (codes " b ") }) with_two).0
        ≡ err (Error.skill SkillError.skill_name_conflict))
unfolding update_catalog_skill find_and_save save_skill parse_skill_name normalize_skill_name
edits = (refl, refl)

perform-CatalogOutcome_example :
    CatalogOutcome plain with_two
      (CatalogCall.update_call 31 renaming)
      (perform plain (CatalogCall.update_call 31 renaming) with_two)
perform-CatalogOutcome_example =
    perform-CatalogOutcome plain (CatalogCall.update_call 31 renaming) with_two
