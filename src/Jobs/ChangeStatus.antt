-- ===== src/Jobs/ChangeStatus.antt =====
-- app/jobs/services/change_job_status.py
pub mod Spec
use seniors_empregabilidade.Prelude.{
  Bool, List, Option, false, first_where, leb, ltb, none, not, some, true, update_where, ℕ, ◌&&◌,
  ◌==◌,
}
use seniors_empregabilidade.Database.Enums.{JobStatus, is_published}
use seniors_empregabilidade.Database.Errors.{Error, JobError}
use seniors_empregabilidade.Database.Session.{
  Action, gets, modify, or_raise, pure, raise_if, transaction, ◌>>=◌, ◌>>◌,
}
use seniors_empregabilidade.Database.Tables.{Db, Job, Skill}
use seniors_empregabilidade.Jobs.Records.{JobRecord, job_record_of, skills_of_job}

-- `status` of the request.
pub data RequestedStatus : Type 0 where
  to_open to_closed : RequestedStatus

pub record UpdateJobStatusRequest : Type 0 where
  pub status : RequestedStatus
  pub closing_date : Option ℕ

-- `job.status in _CLOSABLE_STATUSES`
abbrev pub is_closable : JobStatus → Bool
is_closable JobStatus.published = true
is_closable JobStatus.paused = true
is_closable JobStatus.expired = true
is_closable _ = false

-- `job.status in _REOPENABLE_STATUSES`
abbrev pub is_reopenable : JobStatus → Bool
is_reopenable JobStatus.closed = true
is_reopenable JobStatus.paused = true
is_reopenable JobStatus.expired = true
is_reopenable JobStatus.published = true
is_reopenable _ = false

abbrev pub is_closed_job : JobStatus → Bool
is_closed_job JobStatus.closed = true
is_closed_job _ = false

abbrev pub own_job : (job_id company_id : ℕ) → Db → Option Job
own_job job_id company_id db =
    first_where (λ j. j.id == job_id && j.company_id == company_id) db.jobs

abbrev pub save_job : Job → Db → Db
save_job job db = record db { jobs = update_where (λ j. j.id == job.id) (λ _. job) db.jobs }

-- What `_close` makes of the job.
unfoldable pub closed_job : Job → Job
closed_job job = record job { status = JobStatus.closed }

-- `_close`
unfoldable pub close : Job → Action Job
close job = do
  raise_if (is_closed_job job.status) (Error.job JobError.job_already_closed)
  raise_if (not (is_closable job.status)) (Error.job JobError.job_status_change_not_allowed)
  pure (closed_job job)

-- What `_reopen` makes of the job: a first publication is dated, a later one keeps its date.
unfoldable pub reopened_job : (closing_date now : ℕ) → Job → Job
reopened_job closing_date now job = record job {
  status = JobStatus.published;
  closing_date = closing_date;
  published_at = elim job.published_at [ none ↦ some now | some t ↦ some t ];
}

-- `request.closing_date or job.closing_date`
abbrev pub chosen_date : Option ℕ → Job → ℕ
chosen_date requested job = elim requested [ none ↦ job.closing_date | some d ↦ d ]

module _ (to_local_date : ℕ → ℕ) where
  -- `_reopen`
  unfoldable pub reopen : (closing_date now : ℕ) → Job → Action Job
  reopen closing_date now job = do
    let today = to_local_date now
    raise_if (is_published job.status && leb today job.closing_date)
        (Error.job JobError.job_already_open)
    raise_if (not (is_reopenable job.status)) (Error.job JobError.job_status_change_not_allowed)
    raise_if (ltb closing_date today) (Error.job JobError.closing_date_in_the_past)
    pure (reopened_job closing_date now job)

  unfoldable pub change_job : UpdateJobStatusRequest → (now : ℕ) → Job → Action Job
  change_job request now job = elim request.status [
    | to_closed ↦ close job
    | to_open ↦ reopen (chosen_date request.closing_date job) now job
  ]

  module _ (order_by_name : List Skill → List Skill) where
    unfoldable pub find_and_change_job :
        (job_id company_id : ℕ) → UpdateJobStatusRequest → (now : ℕ) → Action JobRecord
    find_and_change_job job_id company_id request now = do
      found ← gets (own_job job_id company_id)
      job ← or_raise found (Error.job JobError.job_not_found)
      changed ← change_job request now job
      modify (save_job changed)
      skills ← gets (skills_of_job order_by_name changed.id)
      pure (job_record_of changed skills)

    unfoldable pub change_job_status :
        (job_id company_id : ℕ) → UpdateJobStatusRequest → (now : ℕ) → Action JobRecord
    change_job_status job_id company_id request now =
        transaction (find_and_change_job job_id company_id request now)
