-- ===== src/Jobs/Publish.antt =====
-- app/jobs/services/publish_job.py and update_job.py
pub mod Links
pub mod Outcome
pub mod Edit
use seniors_empregabilidade.Prelude.{
  Bool, List, Str, [], exists_where, false, ltb, none, not, select_where, some, ℕ, ◌&&◌, ◌+◌, ◌==◌,
  ◌∷◌,
}
use seniors_empregabilidade.Database.Enums.{JobStatus, WorkMode}
use seniors_empregabilidade.Database.Errors.{Constraint, Error, JobError}
use seniors_empregabilidade.Database.Session.{
  Action, Server, gets, modify, or_raise, pure, raise_if, transaction, ◌>>=◌, ◌>>◌,
}
use seniors_empregabilidade.Database.Tables.{Company, Db, Job, JobSkill}
use seniors_empregabilidade.Jobs.ChangeStatus.{own_job, save_job}
use seniors_empregabilidade.Jobs.Records.{CatalogSkill, JobRecord, job_record_of}
use seniors_empregabilidade.Registration.Rows.{linked}
use seniors_empregabilidade.Skills.Name.{Unicode}
use seniors_empregabilidade.Skills.Resolve.{SkillRequest, find_or_create_skills}

-- app/jobs/schemas/job.py
pub record CreateJobRequest : Type 0 where
  pub title : Str
  pub description : Str
  pub skills : List SkillRequest
  pub work_mode : WorkMode
  pub closing_date : ℕ

pub record UpdateJobRequest : Type 0 where
  pub title : Str
  pub description : Str
  pub skills : List SkillRequest

-- The rows after the n-th of a transaction.
abbrev pub after_rows : (n : ℕ) → Server → Server
after_rows n server = record { uuid = λ m. server.uuid (n + m); now = server.now }

abbrev pub is_link : (job_id skill_id : ℕ) → JobSkill → Bool
is_link job_id skill_id r = r.job_id == job_id && r.skill_id == skill_id

-- `session.add_all(JobSkill(...) for skill in skills)` and the flush.
unfoldable pub insert_job_skills : (job_id : ℕ) → List CatalogSkill → Action (Unit {0})
insert_job_skills job_id [] = pure tt
insert_job_skills job_id (skill ∷ skills) = do
  linked ← gets (λ db. exists_where (is_link job_id skill.id) db.job_skills)
  raise_if linked (Error.integrity Constraint.uq_job_skill_job_id_skill_id)
  modify (λ db. record db {
    job_skills = record { job_id = job_id; skill_id = skill.id } ∷ db.job_skills;
  })
  insert_job_skills job_id skills

unfoldable pub insert_job : Job → Action (Unit {0})
insert_job job = do
  known ← gets (λ db. exists_where (λ (c : Company). c.id == job.company_id) db.companies)
  raise_if (not known) (Error.integrity Constraint.fk_job_company_id_company)
  modify (λ db. record db { jobs = job ∷ db.jobs })

-- `Job(...)` once it is flushed, with the defaults of its columns.
abbrev pub new_job : Server → (company_id : ℕ) → CreateJobRequest → (published_at : ℕ) → Job
new_job server company_id request published_at = record {
  id = server.uuid 0;
  company_id = company_id;
  title = request.title;
  description = request.description;
  work_mode = request.work_mode;
  location = none;
  contract_type = none;
  salary_max = none;
  status = JobStatus.published;
  published_at = some published_at;
  closing_date = request.closing_date;
  outcome = none;
  featured = false;
  featured_until = none;
  created_at = server.now;
  updated_at = server.now;
}

module _ (unicode : Unicode) (server : Server) (company_id : ℕ) where
  unfoldable pub store_job : CreateJobRequest → (published_at : ℕ) → Action JobRecord
  store_job request published_at = do
    skills ← find_or_create_skills unicode (after_rows 1 server) request.skills
    let job = new_job server company_id request published_at
    insert_job job
    insert_job_skills job.id skills
    pure (job_record_of job skills)

  unfoldable pub publish_job :
      CreateJobRequest → (reference_date published_at : ℕ) → Action JobRecord
  publish_job request reference_date published_at = do
    raise_if (ltb request.closing_date reference_date) (Error.job JobError.closing_date_in_the_past)
    transaction (store_job request published_at)

  abbrev pub edited : UpdateJobRequest → Job → Job
  edited request job = record job { title = request.title; description = request.description }

  -- `delete(JobSkill).where(JobSkill.job_id == job.id)`
  abbrev pub delete_links : (job_id : ℕ) → Db → Db
  delete_links job_id db = record db {
    job_skills = select_where (λ r. not (r.job_id == job_id)) db.job_skills;
  }

  unfoldable pub find_and_edit : (job_id : ℕ) → UpdateJobRequest → Action JobRecord
  find_and_edit job_id request = do
    found ← gets (own_job job_id company_id)
    job ← or_raise found (Error.job JobError.job_not_found)
    skills ← find_or_create_skills unicode server request.skills
    modify (save_job (edited request job))
    modify (delete_links job.id)
    insert_job_skills job.id skills
    pure (job_record_of (edited request job) skills)

  unfoldable pub update_job : (job_id : ℕ) → UpdateJobRequest → Action JobRecord
  update_job job_id request = transaction (find_and_edit job_id request)
