-- ===== src/Applications/UpdateStatus.antt =====
-- app/applications/services/update_application_status.py
pub mod Spec
use mathlib.Core.Option as OptionM
use seniors_empregabilidade.Prelude.{
  Bool, Option, Str, codes, false, first_where, if◌then◌else◌, none, not, row, some, true,
  update_where, ℕ, ◌&&◌, ◌++◌, ◌==◌, ◌∷◌,
}
use seniors_empregabilidade.Database.Enums.{ApplicationStatus}
use seniors_empregabilidade.Database.Errors.{ApplicationError, Error}
use seniors_empregabilidade.Database.Session.{
  Action, Server, gets, modify, or_raise, pure, raise_if, transaction, ◌>>=◌, ◌>>◌,
}
use seniors_empregabilidade.Database.Tables.{Application, Db, Job, NotificationDetails}
use seniors_empregabilidade.Applications.Status.{
  CompanyApplicationStatus, is_allowed, is_terminal, status_label, target_status,
}
use seniors_empregabilidade.Notifications.Notify.{notify_user}
use seniors_empregabilidade.Notifications.Types.{NotificationType}

-- The validated request.
pub record UpdateApplicationStatusRequest : Type 0 where
  pub status : CompanyApplicationStatus
  pub reason : Option Str

pub record ApplicationActionResult : Type 0 where
  pub application_id : ℕ
  pub job_id : ℕ
  pub candidate_id : ℕ
  pub status : ApplicationStatus
  pub updated_at : ℕ

abbrev pub application_by_id : ℕ → Db → Option Application
application_by_id application_id db = first_where (λ a. a.id == application_id) db.applications

abbrev pub owned_job : (company_id : ℕ) → Db → Application → Option Job
owned_job company_id db a =
    first_where (λ j. j.id == a.job_id && j.company_id == company_id) db.jobs

-- The application with its job, if the job is the company's.
unfoldable pub owned_application : (application_id company_id : ℕ) → Db → Option (Application × Job)
owned_application application_id company_id db = elim (application_by_id application_id db) [
  | none ↦ none
  | some a ↦ OptionM.map (λ j. (a, j)) (owned_job company_id db a)
]

-- `target_status in (ApplicationStatus.HIRED, ApplicationStatus.NOT_SELECTED)`
abbrev pub closes : ApplicationStatus → Bool
closes ApplicationStatus.hired = true
closes ApplicationStatus.not_selected = true
closes _ = false

-- `reason` after the call: replaced if the target is `not_selected` and the text is not empty.
abbrev pub kept_reason : ApplicationStatus → (requested stored : Option Str) → Option Str
kept_reason ApplicationStatus.not_selected (some (c ∷ text)) stored = some (c ∷ text)
kept_reason _ _ stored = stored

unfoldable pub moved :
    (target : ApplicationStatus) (reason : Option Str) (now : ℕ) → Application → Application
moved target reason now a = record a {
  status = target;
  updated_at = now;
  closed_at = if closes target then some now else a.closed_at;
  reason = kept_reason target reason a.reason;
}

unfoldable pub changed_message : (title label : Str) → Str
changed_message title label =
    codes "Sua candidatura para a vaga \""
    ++ (title ++ (codes "\" mudou para: " ++ (label ++ codes ".")))

abbrev pub save_application_row : Application → Db → Db
save_application_row a db = record db {
  applications = update_where (λ x. x.id == a.id) (λ x. a) db.applications;
}

-- The `try` block after the row is found, without the commit.
unfoldable pub apply_change :
    Server
    → UpdateApplicationStatusRequest
    → (now : ℕ) → Application
    → Job
    → Action ApplicationActionResult
apply_change server request now a job = do
  let target = target_status request.status
  raise_if (is_terminal a.status) (Error.application ApplicationError.application_already_closed)
  raise_if (not (is_allowed a.status target))
      (Error.application ApplicationError.application_status_transition_not_allowed)
  let row = moved target request.reason now a
  modify (save_application_row row)
  notify_user server 0 row.candidate_id NotificationType.application_status_changed
      (changed_message job.title (status_label request.status))
      (some (NotificationDetails.application_status_changed row.id job.id target))
  pure (record {
    application_id = row.id;
    job_id = row.job_id;
    candidate_id = row.candidate_id;
    status = row.status;
    updated_at = row.updated_at;
  })

unfoldable pub find_and_change :
    Server
    → (application_id company_id : ℕ) → UpdateApplicationStatusRequest
    → (now : ℕ) → Action ApplicationActionResult
find_and_change server application_id company_id request now = do
  found ← gets (owned_application application_id company_id)
  row ← or_raise found (Error.application ApplicationError.application_not_found)
  apply_change server request now row.0 row.1

unfoldable pub update_application_status :
    Server
    → (application_id company_id : ℕ) → UpdateApplicationStatusRequest
    → (now : ℕ) → Action ApplicationActionResult
update_application_status server application_id company_id request now =
    transaction (find_and_change server application_id company_id request now)
