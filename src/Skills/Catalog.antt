-- ===== src/Skills/Catalog.antt =====
-- app/skills/services/create_catalog_skill.py and update_catalog_skill.py
pub mod Fields
pub mod Outcome
pub mod Spec
pub mod Unique
use seniors_empregabilidade.Prelude.{
  Bool, Option, Str, exists_where, false, first_where, if◌then◌else◌, none, not, some, str_eq, true,
  update_where, ℕ, ◌&&◌, ◌==◌, ◌∷◌,
}
use seniors_empregabilidade.Database.AccountErrors.{SkillError}
use seniors_empregabilidade.Database.Enums.{SkillType}
use seniors_empregabilidade.Database.Errors.{Constraint, Error}
use seniors_empregabilidade.Database.Session.{
  Action, Result, Server, err, gets, modify, ok, or_raise, pure, raise_if, transaction, ◌>>=◌, ◌>>◌,
}
use seniors_empregabilidade.Database.Tables.{Db, Skill}
use seniors_empregabilidade.Applications.Status.{is_active}
use seniors_empregabilidade.Skills.Name.{SkillName, Unicode, parse_skill_name}
use seniors_empregabilidade.Skills.Resolve.{SkillRequest}

-- app/skills/schemas/catalog_skill_response.py
pub data SkillStatus : Type 0 where
  status_active status_inactive : SkillStatus

pub record CatalogSkillResponse : Type 0 where
  pub id : ℕ
  pub name : Str
  pub type : SkillType
  pub status : SkillStatus

-- `CatalogSkillResponse.of`
abbrev pub catalog_response_of : Skill → CatalogSkillResponse
catalog_response_of skill = record {
  id = skill.id;
  name = skill.name;
  type = skill.type;
  status = if skill.is_active then SkillStatus.status_active else SkillStatus.status_inactive;
}

-- app/skills/schemas/catalog_skill_update_request.py
pub record CatalogSkillUpdateRequest : Type 0 where
  pub name : Option Str
  pub type : Option SkillType
  pub status : Option SkillStatus

abbrev pub is_named : Str → Skill → Bool
is_named normalized s = str_eq s.normalized_name normalized

-- `INSERT ... ON CONFLICT (normalized_name) DO NOTHING RETURNING`: no row means a conflict.
unfoldable pub insert_catalog_skill : Skill → Action CatalogSkillResponse
insert_catalog_skill skill = do
  taken ← gets (λ db. exists_where (is_named skill.normalized_name) db.skills)
  raise_if taken (Error.skill SkillError.skill_name_conflict)
  modify (λ db. record db { skills = skill ∷ db.skills })
  pure (catalog_response_of skill)

abbrev pub catalog_skill_row : Server → SkillType → SkillName → Skill
catalog_skill_row server type name = record {
  id = server.uuid 0;
  name = name.value;
  normalized_name = name.normalized;
  type = type;
  is_active = true;
}

-- `if request.name is not None`: no value stands for `InvalidSkillNameError`.
abbrev pub with_name : Option SkillName → Skill → Option Skill
with_name none skill = none
with_name (some name) skill =
    some (record skill { name = name.value; normalized_name = name.normalized })

abbrev pub with_type : Option SkillType → Skill → Skill
with_type none skill = skill
with_type (some type) skill = record skill { type = type }

abbrev pub is_active_skill : SkillStatus → Bool
is_active_skill SkillStatus.status_active = true
is_active_skill SkillStatus.status_inactive = false

abbrev pub with_skill_status : Option SkillStatus → Skill → Skill
with_skill_status none skill = skill
with_skill_status (some status) skill = record skill { is_active = is_active_skill status }

-- The flushed `UPDATE`, with the unique constraint that it can violate.
unfoldable pub save_skill : Skill → Action CatalogSkillResponse
save_skill skill = do
  taken ← gets (λ db.
      exists_where (λ s. not (s.id == skill.id) && is_named skill.normalized_name s) db.skills)
  raise_if taken (Error.integrity Constraint.uq_skill_normalized_name)
  modify (λ db. record db { skills = update_where (λ s. s.id == skill.id) (λ _. skill) db.skills })
  pure (catalog_response_of skill)

-- `except IntegrityError`
abbrev pub conflict_error : Error → Error
conflict_error (Error.integrity _) = Error.skill SkillError.skill_name_conflict
conflict_error e = e

abbrev pub with_conflict : {A : Type 0} → Result A × Db → Result A × Db
with_conflict (ok a, db) = (ok a, db)
with_conflict (err e, db) = (err (conflict_error e), db)

abbrev pub skill_by_id : ℕ → Db → Option Skill
skill_by_id skill_id db = first_where (λ s. s.id == skill_id) db.skills

module _ (unicode : Unicode) where
  unfoldable pub create_catalog_skill : Server → SkillRequest → Action CatalogSkillResponse
  create_catalog_skill server request = do
    name ← or_raise (parse_skill_name unicode request.name) Error.invalid_skill_name
    transaction (insert_catalog_skill (catalog_skill_row server request.type name))

  abbrev pub renamed_skill : Option Str → Skill → Option Skill
  renamed_skill none skill = some skill
  renamed_skill (some text) skill = with_name (parse_skill_name unicode text) skill

  unfoldable pub find_and_save :
      (skill_id : ℕ) → CatalogSkillUpdateRequest → Action CatalogSkillResponse
  find_and_save skill_id request = do
    found ← gets (skill_by_id skill_id)
    skill ← or_raise found (Error.skill SkillError.catalog_skill_not_found)
    renamed ← or_raise (renamed_skill request.name skill) Error.invalid_skill_name
    save_skill (with_skill_status request.status (with_type request.type renamed))

  unfoldable pub update_catalog_skill :
      (skill_id : ℕ) → CatalogSkillUpdateRequest → Action CatalogSkillResponse
  update_catalog_skill skill_id request db =
      with_conflict (transaction (find_and_save skill_id request) db)
