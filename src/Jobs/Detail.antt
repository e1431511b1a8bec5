-- ===== src/Jobs/Detail.antt =====
-- app/jobs/services/get_job_detail.py
pub mod Applicable
use seniors_empregabilidade.Prelude.{
  Bool, List, Option, Str, false, if◌then◌else◌, none, not, row, some, true, ℕ, ◌&&◌, ◌||◌,
}
use seniors_empregabilidade.Database.Enums.{JobStatus, WorkMode, is_published}
use seniors_empregabilidade.Database.Errors.{Error, JobError}
use seniors_empregabilidade.Database.Session.{Action, gets, or_raise, pure, ◌>>=◌, ◌>>◌}
use seniors_empregabilidade.Database.Tables.{AppUser, Company, Db, Job, Skill}
use seniors_empregabilidade.Applications.Submit.{has_applied, job_by_id}
use seniors_empregabilidade.Applications.Withdraw.{company_display_name}
use seniors_empregabilidade.Companies.Review.{company_by_id, user_by_id}
use seniors_empregabilidade.Jobs.Open.{is_open_at, publishing_company_is_not_blocked}
use seniors_empregabilidade.Jobs.Records.{CatalogSkill, skills_of_job}

pub record JobDetail : Type 0 where
  pub id : ℕ
  pub title : Str
  pub description : Str
  pub company_id : ℕ
  pub company_name : Str
  pub skills : List CatalogSkill
  pub work_mode : WorkMode
  pub location : Option Str
  pub closing_date : ℕ
  pub status : JobStatus
  pub published_at : Option ℕ
  pub already_applied : Bool
  pub is_open : Bool
  pub is_expired : Bool
  pub is_applicable : Bool

-- `_NOT_PUBLIC_STATUSES`
abbrev pub is_not_public : JobStatus → Bool
is_not_public JobStatus.draft = true
is_not_public JobStatus.under_review = true
is_not_public _ = false

abbrev pub is_expired_status : JobStatus → Bool
is_expired_status JobStatus.expired = true
is_expired_status _ = false

-- The conditions on the joined rows.
abbrev pub is_visible : Job → AppUser → Bool
is_visible job user = not (is_not_public job.status) && publishing_company_is_not_blocked user

abbrev pub visible_row : Job → Option Company → Option AppUser → Option (Job × Company)
visible_row job (some company) (some holder) =
    if is_visible job holder then some (job, company) else none
visible_row _ _ _ = none

-- The job joined with its company and the company's account, which share their key.
abbrev pub row_of_job : Option Job → Db → Option (Job × Company)
row_of_job none db = none
row_of_job (some job) db =
    visible_row job (company_by_id job.company_id db) (user_by_id job.company_id db)

module _ (to_local_date : ℕ → ℕ) (order_by_name : List Skill → List Skill) where
  unfoldable pub detail_of : (candidate_id now : ℕ) → Job × Company → Db → JobDetail
  detail_of candidate_id now (job, company) db =
      let is_open = is_open_at to_local_date now job in
      let already_applied = has_applied candidate_id job.id db.applications in
      record {
        id = job.id;
        title = job.title;
        description = job.description;
        company_id = job.company_id;
        company_name = company_display_name company;
        skills = skills_of_job order_by_name job.id db;
        work_mode = job.work_mode;
        location = job.location;
        closing_date = job.closing_date;
        status = job.status;
        published_at = job.published_at;
        already_applied = already_applied;
        is_open = is_open;
        is_expired = is_expired_status job.status || (is_published job.status && not is_open);
        is_applicable = is_open && not already_applied;
      }

  unfoldable pub get_job_detail : (job_id candidate_id now : ℕ) → Action JobDetail
  get_job_detail job_id candidate_id now = do
    row ← gets (λ db. row_of_job (job_by_id job_id db) db)
    found ← or_raise row (Error.job JobError.job_not_found)
    detail ← gets (detail_of candidate_id now found)
    pure detail
