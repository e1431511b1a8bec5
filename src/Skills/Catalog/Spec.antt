-- ===== src/Skills/Catalog/Spec.antt =====
-- How creating and editing a catalog skill can end.
use seniors_empregabilidade.Prelude.{
  All, IsIn, Option, Str, false, none, some, true, update_where, ℕ, ◌==◌, ◌∷◌, ◌≡◌, ◌≢◌,
}
use seniors_empregabilidade.Database.AccountErrors.{SkillError}
use seniors_empregabilidade.Database.Enums.{SkillType}
use seniors_empregabilidade.Database.Errors.{Error}
use seniors_empregabilidade.Database.Session.{Action, Result, Server, err, ok}
use seniors_empregabilidade.Database.Tables.{Db, Skill}
use seniors_empregabilidade.Skills.Catalog.{
  CatalogSkillResponse, CatalogSkillUpdateRequest, SkillStatus, create_catalog_skill, skill_by_id,
  update_catalog_skill,
}
use seniors_empregabilidade.Skills.Catalog.Unique.{IsUniqueCatalog}
use seniors_empregabilidade.Skills.Name.{SkillName, Unicode, parse_skill_name}
use seniors_empregabilidade.Skills.Resolve.{SkillRequest}
use seniors_empregabilidade.Skills.Resolve.Outcome.{with_skills}

-- A call of an administrator.
pub data CatalogCall : Type 0 where
  create_call : Server → SkillRequest → CatalogCall
  update_call : (skill_id : ℕ) → CatalogSkillUpdateRequest → CatalogCall

abbrev pub perform : Unicode → CatalogCall → Action CatalogSkillResponse
perform unicode (create_call server request) = create_catalog_skill unicode server request
perform unicode (update_call skill_id request) = update_catalog_skill unicode skill_id request

-- The row of a created skill: active, with the typed name and its normalized form.
abbrev pub created_row : Server → SkillType → SkillName → Skill
created_row server type n = record {
  id = server.uuid 0;
  name = n.value;
  normalized_name = n.normalized;
  type = type;
  is_active = true;
}

-- The edited row: what the request does not name is kept, and a new name brings its normalized form.
abbrev pub IsRenamed : Unicode → Option Str → (old new : Skill) → Type 0
IsRenamed unicode none old new = (new.name ≡ old.name) × (new.normalized_name ≡ old.normalized_name)
IsRenamed unicode (some text) old new =
    parse_skill_name unicode text
    ≡ some (record { value = new.name; normalized = new.normalized_name })

abbrev pub IsTyped : Option SkillType → (old new : Skill) → Type 0
IsTyped none old new = new.type ≡ old.type
IsTyped (some type) old new = new.type ≡ type

abbrev pub HasStatus : Option SkillStatus → (old new : Skill) → Type 0
HasStatus none old new = new.is_active ≡ old.is_active
HasStatus (some SkillStatus.status_active) old new = new.is_active ≡ true
HasStatus (some SkillStatus.status_inactive) old new = new.is_active ≡ false

pub record IsEdited (unicode : Unicode) (request : CatalogSkillUpdateRequest) (old new : Skill)
    : Type 0 where
  pub same_id : new.id ≡ old.id
  pub renamed : IsRenamed unicode request.name old new
  pub typed : IsTyped request.type old new
  pub stated : HasStatus request.status old new

-- The answer says what the row says.
pub record IsAnswer (s : Skill) (a : CatalogSkillResponse) : Type 0 where
  pub id : a.id ≡ s.id
  pub name : a.name ≡ s.name
  pub type : a.type ≡ s.type
  pub active : s.is_active ≡ true → a.status ≡ SkillStatus.status_active
  pub inactive : s.is_active ≡ false → a.status ≡ SkillStatus.status_inactive

-- Why a call is refused, with the exception that it raises.
pub data CatalogReason (unicode : Unicode) (db : Db) : CatalogCall → Error → Type 0 where
  bad_new_name :
      (server : Server) (request : SkillRequest)
      → parse_skill_name unicode request.name ≡ none
      → CatalogReason unicode db (create_call server request) Error.invalid_skill_name
  new_name_taken :
      (server : Server) (request : SkillRequest) (n : SkillName) (s : Skill)
      → parse_skill_name unicode request.name ≡ some n
      → IsIn s db.skills
      → s.normalized_name ≡ n.normalized
      → CatalogReason unicode db
          (create_call server request)
          (Error.skill SkillError.skill_name_conflict)
  unknown_skill :
      (skill_id : ℕ) (request : CatalogSkillUpdateRequest)
      → skill_by_id skill_id db ≡ none
      → CatalogReason unicode db
          (update_call skill_id request)
          (Error.skill SkillError.catalog_skill_not_found)
  bad_edited_name :
      (skill_id : ℕ) (request : CatalogSkillUpdateRequest) (old : Skill) (text : Str)
      → skill_by_id skill_id db ≡ some old
      → request.name ≡ some text
      → parse_skill_name unicode text ≡ none
      → CatalogReason unicode db (update_call skill_id request) Error.invalid_skill_name
  edited_name_taken :
      (skill_id : ℕ) (request : CatalogSkillUpdateRequest) (old new s : Skill)
      → skill_by_id skill_id db ≡ some old
      → IsEdited unicode request old new
      → IsIn s db.skills
      → s.id ≢ skill_id
      → s.normalized_name ≡ new.normalized_name
      → CatalogReason unicode db
          (update_call skill_id request)
          (Error.skill SkillError.skill_name_conflict)

pub data CatalogOutcome (unicode : Unicode) (db : Db)
    : CatalogCall → Result CatalogSkillResponse × Db → Type 0 where
  created :
      (server : Server) (request : SkillRequest) (n : SkillName) (a : CatalogSkillResponse)
      (r : Result CatalogSkillResponse × Db)
      → parse_skill_name unicode request.name ≡ some n
      → All (λ (s : Skill). s.normalized_name ≢ n.normalized) db.skills
      → (All (λ (s : Skill). s.id ≢ server.uuid 0) db.skills
          → IsUniqueCatalog db.skills
          → IsUniqueCatalog (created_row server request.type n ∷ db.skills))
      → IsAnswer (created_row server request.type n) a
      → r ≡ (ok a, with_skills db (created_row server request.type n ∷ db.skills))
      → CatalogOutcome unicode db (create_call server request) r
  updated :
      (skill_id : ℕ) (request : CatalogSkillUpdateRequest) (old new : Skill)
      (a : CatalogSkillResponse) (r : Result CatalogSkillResponse × Db)
      → skill_by_id skill_id db ≡ some old
      → IsEdited unicode request old new
      → ((s : Skill) → IsIn s db.skills → s.id ≢ skill_id → s.normalized_name ≢ new.normalized_name)
      → (IsUniqueCatalog db.skills
          → IsUniqueCatalog (update_where (λ s. s.id == skill_id) (λ _. new) db.skills))
      → IsAnswer new a
      → r ≡ (ok a, with_skills db (update_where (λ s. s.id == skill_id) (λ _. new) db.skills))
      → CatalogOutcome unicode db (update_call skill_id request) r
  refused :
      (call : CatalogCall) (e : Error) (r : Result CatalogSkillResponse × Db)
      → CatalogReason unicode db call e
      → r ≡ (err e, db)
      → CatalogOutcome unicode db call r
