-- ===== src/Jobs/Publish/Edit.antt =====
-- How editing a job ends.
use seniors_empregabilidade.Prelude.{List, [], none, some, ℕ, ◌≡◌}
use seniors_empregabilidade.Database.Errors.{Error, JobError}
use seniors_empregabilidade.Database.Session.{Result, Server, err, ok}
use seniors_empregabilidade.Database.Tables.{Db, Job, JobSkill, Skill}
use seniors_empregabilidade.Jobs.ChangeStatus.{own_job, save_job}
use seniors_empregabilidade.Jobs.Publish.{UpdateJobRequest, delete_links, edited, update_job}
use seniors_empregabilidade.Jobs.Publish.Links.{LinksExactly, link_rows, other_links, with_links}
use seniors_empregabilidade.Jobs.Records.{CatalogSkill, JobRecord, job_record_of}
use seniors_empregabilidade.Skills.Name.{Unicode}
use seniors_empregabilidade.Skills.Resolve.{WantedSkill, by_normalized_name, find_or_create_skills}
use seniors_empregabilidade.Skills.Resolve.Outcome.{IsResolved, with_skills}

module _ (unicode : Unicode) (server : Server) (company_id job_id : ℕ) (request : UpdateJobRequest)
    (db : Db) where
  pub data EditReason : Error → Type 0 where
    not_own : own_job job_id company_id db ≡ none → EditReason (Error.job JobError.job_not_found)
    bad_name :
        by_normalized_name unicode request.skills [] ≡ none → EditReason Error.invalid_skill_name

  pub data EditOutcome (r : Result JobRecord × Db) : Type 0 where
    changed :
        (job : Job) (wanted : List WantedSkill) (entries : List CatalogSkill) (skills : List Skill)
        (links : List JobSkill)
        → own_job job_id company_id db ≡ some job
        → IsResolved unicode server request.skills db wanted entries skills
        → LinksExactly job.id entries db.job_skills links
        → r ≡ (
          ok (job_record_of (edited unicode server company_id request job) entries),
          record (save_job (edited unicode server company_id request job) db) {
            skills = skills;
            job_skills = links;
          },
        )
        → EditOutcome r
    refused : (e : Error) → EditReason e → r ≡ (err e, db) → EditOutcome r

  abbrev editing : Result JobRecord × Db
  editing = update_job unicode server company_id job_id request db

  abbrev resolving : Result (List CatalogSkill) × Db
  resolving = find_or_create_skills unicode server request.skills db

  module _ (job : Job) (own : own_job job_id company_id db ≡ some job) where
    module _ (entries : List CatalogSkill) (skills : List Skill)
        (resolved : resolving ≡ (ok entries, with_skills db skills)) where
      abbrev edited_db : Db
      edited_db =
          delete_links unicode server company_id job.id
            (save_job (edited unicode server company_id request job) (with_skills db skills))

      abbrev relinked_db : Db
      relinked_db =
          with_links edited_db (link_rows job.id entries (other_links job.id db.job_skills))
