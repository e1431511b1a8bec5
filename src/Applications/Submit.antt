-- ===== src/Applications/Submit.antt =====
-- app/applications/services/submit_application.py
pub mod Spec
use mathlib.Core.Option as OptionM
use seniors_empregabilidade.Prelude.{
  Bool, List, Option, Str, codes, exists_where, false, first_where, ltb, map, none, not,
  select_where, some, ℕ, ◌&&◌, ◌++◌, ◌==◌, ◌||◌, ◌∷◌,
}
use seniors_empregabilidade.Database.Enums.{
  AccountStatus, ApplicationStatus, ApplicationType, is_blocked_account, is_published,
}
use seniors_empregabilidade.Database.Errors.{ApplicationError, Constraint, Error}
use seniors_empregabilidade.Database.Session.{
  Action, Result, Server, err, gets, modify, ok, or_raise, pure, raise_if, transaction, ◌>>=◌, ◌>>◌,
}
use seniors_empregabilidade.Database.Tables.{Application, Db, Job, NotificationDetails}
use seniors_empregabilidade.Applications.Policies.{RequirementMatch, match_requirements}
use seniors_empregabilidade.Notifications.Notify.{notify_user}
use seniors_empregabilidade.Notifications.Types.{NotificationType}

pub record SubmittedApplication : Type 0 where
  pub id : ℕ
  pub job_id : ℕ
  pub status : ApplicationStatus
  pub submitted_at : ℕ
  pub matched_requirements : ℕ
  pub total_requirements : ℕ

abbrev pub job_by_id : ℕ → Db → Option Job
job_by_id job_id db = first_where (λ j. j.id == job_id) db.jobs

-- `select(AppUser.account_status).where(AppUser.id == user_id)`
abbrev pub account_status_of : ℕ → Db → Option AccountStatus
account_status_of user_id db =
    OptionM.map (λ u. u.account_status) (first_where (λ u. u.id == user_id) db.users)

-- `company_account_status == AccountStatus.BLOCKED`
abbrev pub is_blocked_status : Option AccountStatus → Bool
is_blocked_status none = false
is_blocked_status (some s) = is_blocked_account s

abbrev pub required_skill_ids : ℕ → Db → List ℕ
required_skill_ids job_id db =
    map (λ s. s.skill_id) (select_where (λ s. s.job_id == job_id) db.job_skills)

-- `ResumeSkill` joined with the candidate's `Resume`.
abbrev pub candidate_skill_ids : ℕ → Db → List ℕ
candidate_skill_ids candidate_id db =
    map (λ s. s.skill_id)
      (select_where
        (λ s. exists_where (λ r. r.id == s.resume_id && r.candidate_id == candidate_id) db.resumes)
        db.resume_skills)

-- `application_received` message: the job's title in quotes.
unfoldable pub received_message : Str → Str
received_message title = codes "Nova candidatura para a vaga \"" ++ (title ++ codes "\".")

abbrev pub has_applied : (candidate_id job_id : ℕ) → List Application → Bool
has_applied candidate_id job_id =
    exists_where (λ a. a.candidate_id == candidate_id && a.job_id == job_id)

abbrev pub candidate_exists : (candidate_id : ℕ) → Db → Bool
candidate_exists candidate_id db = exists_where (λ c. c.id == candidate_id) db.candidates

-- The flushed `INSERT`, with the foreign key and the unique constraint that it can violate.
unfoldable pub insert_application : Application → Action (Unit {0})
insert_application a = do
  candidate_known ← gets (candidate_exists a.candidate_id)
  raise_if (not candidate_known) (Error.integrity Constraint.fk_application_candidate_id_candidate)
  duplicate ← gets (λ db. has_applied a.candidate_id a.job_id db.applications)
  raise_if duplicate (Error.integrity Constraint.uq_application_candidate_id_job_id)
  modify (λ db. record db { applications = a ∷ db.applications })

unfoldable pub new_application :
    Server → (candidate_id job_id : ℕ) → ApplicationType → RequirementMatch → Application
new_application server candidate_id job_id type match = record {
  id = server.uuid 0;
  candidate_id = candidate_id;
  job_id = job_id;
  type = type;
  status = ApplicationStatus.under_review;
  match_score = none;
  closed_at = none;
  matched_requirements = some match.matched;
  total_requirements = some match.total;
  reason = none;
  created_at = server.now;
  updated_at = server.now;
}

-- `except IntegrityError`: the unique constraint becomes a domain error, any other is raised again.
abbrev pub translated : Error → Error
translated (Error.integrity Constraint.uq_application_candidate_id_job_id) =
    Error.application ApplicationError.application_already_exists
translated e = e

abbrev pub translate : {A : Type 0} → Result A × Db → Result A × Db
translate (ok a, db) = (ok a, db)
translate (err e, db) = (err (translated e), db)

-- The `try` block: the application, the company's notification and the commit.
unfoldable pub save_application : Server → Job → Application → Action (Unit {0})
save_application server job a = do
  insert_application a
  notify_user server 1 job.company_id NotificationType.application_received
      (received_message job.title) (some (NotificationDetails.application_received a.id job.id))
  pure tt

module _ (to_local_date : ℕ → ℕ) where
  -- The checks before the `try` block.
  unfoldable pub open_job_for : (job_id now : ℕ) → Action Job
  open_job_for job_id now = do
    found ← gets (job_by_id job_id)
    job ← or_raise found (Error.application ApplicationError.job_not_found)
    company_account_status ← gets (account_status_of job.company_id)
    raise_if
        (not (is_published job.status)
          || (ltb job.closing_date (to_local_date now) || is_blocked_status company_account_status))
        (Error.application ApplicationError.job_not_open)
    pure job

  unfoldable pub submit_application :
      Server → (job_id candidate_id now : ℕ) → Action SubmittedApplication
  submit_application server job_id candidate_id now = do
    job ← open_job_for job_id now
    required ← gets (required_skill_ids job_id)
    held ← gets (candidate_skill_ids candidate_id)
    let match = match_requirements required held
    let a = new_application server candidate_id job_id ApplicationType.active match
    (λ db. translate (transaction (save_application server job a) db))
    pure (record {
      id = a.id;
      job_id = a.job_id;
      status = a.status;
      submitted_at = a.created_at;
      matched_requirements = match.matched;
      total_requirements = match.total;
    })
