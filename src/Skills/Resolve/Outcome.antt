-- ===== src/Skills/Resolve/Outcome.antt =====
-- Resolving typed skills against the catalog.
use seniors_empregabilidade.Prelude.{
  All, All-IsIn, IsDistinct, IsIn, IsIn-All, IsKeyed, List, Option-cases, [], inl, inr, none, some,
  subst, sym, true, ◌∙◌, ◌≡◌,
}
use seniors_empregabilidade.Database.Errors.{Error}
use seniors_empregabilidade.Database.Session.{Result, Server, err, ok}
use seniors_empregabilidade.Database.Tables.{Db, Skill}
use seniors_empregabilidade.Jobs.Records.{CatalogSkill}
use seniors_empregabilidade.Skills.Name.{Unicode, parse_skill_name}
use seniors_empregabilidade.Skills.Resolve.{
  SkillRequest, WantedSkill, by_normalized_name, catalog_entries, create_missing, create_rows,
  find_or_create_skills, resolve_wanted, sorted_wanted,
}
use seniors_empregabilidade.Skills.Resolve.Laws.{
  AreEntriesOf, IsFreshServer, IsOldOrMissing, catalog_entries_lem, create_rows-IsDistinct,
  create_rows-IsIn, create_rows-IsKeyed, create_rows-idle, create_rows-source, create_rows_complete,
  knows, skill_id_of, sorted_wanted-IsIn, sorted_wanted-source,
}
use seniors_empregabilidade.Skills.Resolve.Names.{
  AreNamesOf, by_normalized_name-AreNamesOf, invalid_request,
}
use seniors_empregabilidade.Skills.Resolve.Order.{AreFirstNames, by_normalized_name-AreFirstNames}

-- The tables afterwards differ in the catalog alone.
abbrev pub with_skills : Db → List Skill → Db
with_skills db skills = record db { skills = skills }

-- How a resolution of valid names ends: with an entry of the catalog for each wanted name, in the
-- order in which the names were typed first. No row of the catalog is lost or changed, a new row
-- has a name that was missing, and normalized names stay unique.
pub record IsResolved (unicode : Unicode) (server : Server) (requested : List SkillRequest)
    (db : Db) (wanted : List WantedSkill) (entries : List CatalogSkill) (skills : List Skill)
    : Type 0 where
  pub names : AreNamesOf unicode requested wanted
  pub order : AreFirstNames unicode requested wanted
  pub entries_of : AreEntriesOf skills wanted entries
  pub kept : (s : Skill) → IsIn s db.skills → IsIn s skills
  pub new_rows : All (IsOldOrMissing db.skills wanted) skills
  pub unique :
      IsDistinct (λ (s : Skill). s.normalized_name) db.skills
      → IsDistinct (λ (s : Skill). s.normalized_name) skills
  pub keyed :
      IsFreshServer server db.skills → IsKeyed skill_id_of db.skills → IsKeyed skill_id_of skills

pub data ResolveOutcome (unicode : Unicode) (server : Server) (requested : List SkillRequest)
    (db : Db) (r : Result (List CatalogSkill) × Db) : Type 0 where
  resolved :
      (wanted : List WantedSkill) (entries : List CatalogSkill) (skills : List Skill)
      → IsResolved unicode server requested db wanted entries skills
      → r ≡ (ok entries, with_skills db skills)
      → ResolveOutcome unicode server requested db r
  bad_name :
      by_normalized_name unicode requested [] ≡ none
      → (q : SkillRequest) × (IsIn q requested × (parse_skill_name unicode q.name ≡ none))
      → r ≡ (err Error.invalid_skill_name, db)
      → ResolveOutcome unicode server requested db r

module _ (unicode : Unicode) (server : Server) (requested : List SkillRequest) (db : Db) where
  refused_name :
      by_normalized_name unicode requested [] ≡ none
      → find_or_create_skills unicode server requested db ≡ (err Error.invalid_skill_name, db)
  unfolding find_or_create_skills
  refused_name h = rw h

  module _ (wanted : List WantedSkill)
      (named : by_normalized_name unicode requested [] ≡ some wanted) where
    abbrev rows : List Skill
    rows = create_rows server 0 (sorted_wanted wanted) db.skills

    rows_known : All (λ w. knows rows w ≡ true) wanted
    rows_known = IsIn-All _ wanted (λ w m.
        create_rows_complete server 0 (sorted_wanted wanted) db.skills w
          (sorted_wanted-IsIn w wanted m))

    resolves :
        (entries : List CatalogSkill)
        → catalog_entries wanted rows ≡ some entries
        → find_or_create_skills unicode server requested db ≡ (ok entries, with_skills db rows)
    unfolding find_or_create_skills resolve_wanted create_missing
    resolves entries h = rw (named, h)

    again :
        (server' : Server) (entries : List CatalogSkill)
        → catalog_entries wanted rows ≡ some entries
        → find_or_create_skills unicode server' requested (with_skills db rows)
          ≡ (ok entries, with_skills db rows)
    unfolding find_or_create_skills resolve_wanted create_missing
    again server' entries h = rw (
      named,
      create_rows-idle server' 0 (sorted_wanted wanted) rows (
          IsIn-All _ (sorted_wanted wanted)
            (λ w m. All-IsIn _ wanted w rows_known (sorted_wanted-source w wanted m))),
      h,
    )

    rows_from : All (IsOldOrMissing db.skills wanted) rows
    rows_from =
        create_rows-source server db.skills wanted 0 (sorted_wanted wanted) db.skills
          (IsIn-All _ (sorted_wanted wanted) (λ w m. sorted_wanted-source w wanted m)) (λ v k. k)
          (IsIn-All _ db.skills (λ s m. inl m))

    named-ResolveOutcome :
        ResolveOutcome unicode server requested db
          (find_or_create_skills unicode server requested db)
    named-ResolveOutcome =
        let (entries, (h, a)) = catalog_entries_lem rows wanted rows_known in
        ResolveOutcome.resolved wanted entries rows
          (record {
            names = by_normalized_name-AreNamesOf unicode requested wanted named;
            order = by_normalized_name-AreFirstNames unicode requested wanted named;
            entries_of = a;
            kept = create_rows-IsIn server 0 (sorted_wanted wanted) db.skills;
            new_rows = rows_from;
            keyed = λ f k.
                create_rows-IsKeyed server f.injective 0 (sorted_wanted wanted) db.skills
                  (λ m le. f.unused m) k;
            unique = create_rows-IsDistinct server 0 (sorted_wanted wanted) db.skills;
          })
          (resolves entries h)

-- Typed skills resolve to one catalog entry for each name that they ask for, in the order of first
-- appearance, whenever all names are valid: the look-up of a wanted name never fails. Names that
-- normalize alike are one name. The catalog keeps all rows, gains only rows for names that it did
-- not have, and keeps its normalized names unique; no other table changes. An invalid name refuses
-- the whole list and changes nothing.
pub find_or_create_skills-ResolveOutcome :
    (unicode : Unicode) (server : Server) (requested : List SkillRequest) (db : Db)
    → ResolveOutcome unicode server requested db (find_or_create_skills unicode server requested db)
find_or_create_skills-ResolveOutcome unicode server requested db =
    elim (Option-cases (by_normalized_name unicode requested [])) [
      | inl n ↦
          ResolveOutcome.bad_name n (invalid_request unicode requested [] n)
            (refused_name unicode server requested db n)
      | inr (wanted, named) ↦ named-ResolveOutcome unicode server requested db wanted named
    ]

-- Resolving the same skills again, with any server, answers the same entries and changes nothing.
pub find_or_create_skills_twice :
    (unicode : Unicode) (server server' : Server) (requested : List SkillRequest) (db after : Db)
    (entries : List CatalogSkill)
    → find_or_create_skills unicode server requested db ≡ (ok entries, after)
    → find_or_create_skills unicode server' requested after ≡ (ok entries, after)
find_or_create_skills_twice unicode server server' requested db after entries e =
    elim (Option-cases (by_normalized_name unicode requested [])) [
      | inl n ↦ absurd (
          let f : (err Error.invalid_skill_name, db) ≡ (ok entries, after) =
            sym (refused_name unicode server requested db n) ∙ e in
          cc)
      | inr (wanted, named) ↦
          let (found, (h, a)) =
            catalog_entries_lem (rows unicode server requested db wanted named) wanted
              (rows_known unicode server requested db wanted named) in
          subst
            (λ (r : Result (List CatalogSkill) × Db).
              find_or_create_skills unicode server' requested r.1 ≡ r)
            (sym (resolves unicode server requested db wanted named found h) ∙ e)
            (again unicode server requested db wanted named server' found h)
    ]
