-- ===== src/Jobs/Publish/Outcome.antt =====
-- How publishing and editing a job end.
use seniors_empregabilidade.Prelude.{
  Bool, IsKeyed, List, Option, [], exists_where, false, ltb, none, ℕ, ◌<◌, ◌==◌, ◌∷◌, ◌≡◌, ◌≤◌,
}
use seniors_empregabilidade.Database.Errors.{Constraint, Error, JobError}
use seniors_empregabilidade.Database.Session.{Result, Server, err, ok}
use seniors_empregabilidade.Database.Tables.{Company, Db, Job, JobSkill, Skill}
use seniors_empregabilidade.Jobs.Publish.{CreateJobRequest, after_rows, new_job, publish_job}
use seniors_empregabilidade.Jobs.Publish.Links.{LinksExactly, link_rows, with_links}
use seniors_empregabilidade.Jobs.Records.{CatalogSkill, JobRecord, job_record_of}
use seniors_empregabilidade.Skills.Name.{Unicode}
use seniors_empregabilidade.Skills.Resolve.{
  SkillRequest, WantedSkill, by_normalized_name, find_or_create_skills,
}
use seniors_empregabilidade.Skills.Resolve.Laws.{skill_id_of}
use seniors_empregabilidade.Skills.Resolve.Outcome.{IsResolved, with_skills}

module _ (unicode : Unicode) (server : Server) (company_id : ℕ) (db : Db)
    (keyed : IsKeyed skill_id_of db.skills) where
  abbrev pub company_known : Bool
  company_known = exists_where (λ (c : Company). c.id == company_id) db.companies

  abbrev pub wanted_names : List SkillRequest → Option (List WantedSkill)
  wanted_names requested = by_normalized_name unicode requested []

  module _ (request : CreateJobRequest) (reference_date published_at : ℕ) where
    abbrev pub published_job : Job
    published_job = new_job server company_id request published_at

    pub data PublishReason : Error → Type 0 where
      late :
          request.closing_date < reference_date
          → PublishReason (Error.job JobError.closing_date_in_the_past)
      bad_name : wanted_names request.skills ≡ none → PublishReason Error.invalid_skill_name
      unknown_company :
          company_known ≡ false
          → PublishReason (Error.integrity Constraint.fk_job_company_id_company)

    pub data PublishOutcome (r : Result JobRecord × Db) : Type 0 where
      published :
          (wanted : List WantedSkill) (entries : List CatalogSkill) (skills : List Skill)
          (links : List JobSkill)
          → reference_date ≤ request.closing_date
          → IsResolved unicode (after_rows 1 server) request.skills db wanted entries skills
          → LinksExactly published_job.id entries db.job_skills links
          → r ≡ (
            ok (job_record_of published_job entries),
            record db { skills = skills; jobs = published_job ∷ db.jobs; job_skills = links },
          )
          → PublishOutcome r
      refused : (e : Error) → PublishReason e → r ≡ (err e, db) → PublishOutcome r

    abbrev publishing : Result JobRecord × Db
    publishing = publish_job unicode server company_id request reference_date published_at db

    abbrev resolving : Result (List CatalogSkill) × Db
    resolving = find_or_create_skills unicode (after_rows 1 server) request.skills db

    module _ (in_time : ltb request.closing_date reference_date ≡ false) where
      module _ (entries : List CatalogSkill) (skills : List Skill)
          (resolved : resolving ≡ (ok entries, with_skills db skills)) where
        abbrev with_job : Db
        with_job = record (with_skills db skills) { jobs = published_job ∷ db.jobs }

        abbrev linked_db : Db
        linked_db = with_links with_job (link_rows published_job.id entries db.job_skills)
