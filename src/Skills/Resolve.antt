-- ===== src/Skills/Resolve.antt =====
-- app/skills/services/find_or_create_skills.py
pub mod Laws
pub mod Names
pub mod Order
pub mod Outcome
use seniors_empregabilidade.Prelude.{
  Bool, List, Option, Str, [], exists_where, false, first_where, has_text, if◌then◌else◌, ltb, none,
  some, str_eq, true, ℕ, ◌&&◌, ◌+◌, ◌==◌, ◌||◌, ◌∷◌,
}
use seniors_empregabilidade.Database.Enums.{SkillType}
use seniors_empregabilidade.Database.Errors.{Error}
use seniors_empregabilidade.Database.Session.{Action, Server, gets, modify, or_raise, ◌>>=◌, ◌>>◌}
use seniors_empregabilidade.Database.Tables.{Db, Skill}
use seniors_empregabilidade.Applications.Status.{is_active}
use seniors_empregabilidade.Jobs.Records.{CatalogSkill, catalog_skill_of}
use seniors_empregabilidade.Skills.Name.{SkillName, Unicode, parse_skill_name}

-- app/skills/schemas/skill.py
pub record SkillRequest : Type 0 where
  pub name : Str
  pub type : SkillType

-- An item of `wanted`: its key is `name.normalized`.
pub record WantedSkill : Type 0 where
  pub name : SkillName
  pub request : SkillRequest

abbrev pub wanted_key : WantedSkill → Str
wanted_key w = w.name.normalized

-- `wanted.setdefault(name.normalized, (name, request))`: a new key goes to the end.
abbrev pub set_default : WantedSkill → List WantedSkill → List WantedSkill
set_default w [] = w ∷ []
set_default w (v ∷ wanted) =
    let rest = set_default w wanted in
    if str_eq (wanted_key v) (wanted_key w) then v ∷ wanted else v ∷ rest

-- One pass of the loop, with the rest of the loop as a function of what is collected.
abbrev pub collect :
    (rest : List WantedSkill → Option (List WantedSkill))
    → SkillRequest
    → List WantedSkill
    → Option SkillName
    → Option (List WantedSkill)
collect rest request wanted none = none
collect rest request wanted (some name) =
    rest (set_default (record { name = name; request = request }) wanted)

-- The loop of `_by_normalized_name`.
unfoldable pub by_normalized_name :
    Unicode → List SkillRequest → (wanted : List WantedSkill) → Option (List WantedSkill)
by_normalized_name unicode [] wanted = some wanted
by_normalized_name unicode (request ∷ requested) wanted =
    collect (by_normalized_name unicode requested) request wanted
      (parse_skill_name unicode request.name)

-- `s < t` for texts.
abbrev pub str_less : Str → Str → Bool
str_less [] [] = false
str_less [] (d ∷ t) = true
str_less (c ∷ s) [] = false
str_less (c ∷ s) (d ∷ t) = ltb c d || (c == d && str_less s t)

abbrev pub insert_wanted : WantedSkill → List WantedSkill → List WantedSkill
insert_wanted w [] = w ∷ []
insert_wanted w (v ∷ wanted) =
    let rest = insert_wanted w wanted in
    if str_less (wanted_key v) (wanted_key w) then v ∷ rest else w ∷ v ∷ wanted

-- `sorted(wanted.items())`: the keys of a dictionary differ, so they decide the order.
abbrev pub sorted_wanted : List WantedSkill → List WantedSkill
sorted_wanted [] = []
sorted_wanted (w ∷ wanted) = insert_wanted w (sorted_wanted wanted)

abbrev pub has_normalized_name : Str → Skill → Bool
has_normalized_name = has_text (λ (s : Skill). s.normalized_name)

abbrev pub new_skill : (id : ℕ) → WantedSkill → Skill
new_skill id w = record {
  id = id;
  name = w.name.value;
  normalized_name = wanted_key w;
  type = w.request.type;
  is_active = true;
}

-- `INSERT ... ON CONFLICT DO NOTHING`, row by row. The identifiers are those of the rows from the
-- n-th on.
abbrev pub create_rows : Server → (n : ℕ) → List WantedSkill → List Skill → List Skill
create_rows server n [] skills = skills
create_rows server n (w ∷ wanted) skills = create_rows server (n + 1) wanted (
    if exists_where (has_normalized_name (wanted_key w)) skills
    then skills
    else new_skill (server.uuid n) w ∷ skills)

abbrev pub entry_before : Option Skill → Option (List CatalogSkill) → Option (List CatalogSkill)
entry_before (some skill) (some entries) = some (catalog_skill_of skill ∷ entries)
entry_before skill entries = none

-- `[catalog[normalized_name] for normalized_name in wanted]`: no value stands for a `KeyError`.
-- A normalized name has one row.
abbrev pub catalog_entries : List WantedSkill → List Skill → Option (List CatalogSkill)
catalog_entries [] skills = some []
catalog_entries (w ∷ wanted) skills =
    entry_before (first_where (has_normalized_name (wanted_key w)) skills)
      (catalog_entries wanted skills)

unfoldable pub create_missing : Server → List WantedSkill → Db → Db
create_missing server wanted db = record db {
  skills = create_rows server 0 (sorted_wanted wanted) db.skills;
}

-- The two statements of the service after the names are read. With no names it returns before
-- either, which leaves the same.
unfoldable pub resolve_wanted : Server → List WantedSkill → Action (List CatalogSkill)
resolve_wanted server wanted = do
  modify (create_missing server wanted)
  found ← gets (λ db. catalog_entries wanted db.skills)
  or_raise found Error.unexpected

unfoldable pub find_or_create_skills :
    Unicode → Server → List SkillRequest → Action (List CatalogSkill)
find_or_create_skills unicode server requested = do
  wanted ← or_raise (by_normalized_name unicode requested []) Error.invalid_skill_name
  resolve_wanted server wanted
