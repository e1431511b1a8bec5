-- ===== src/Applications/Submit/Spec.antt =====
-- What a submission checks, writes and answers, on every branch.
use seniors_empregabilidade.Prelude.{
  Bool, Bool-cases, Option-cases, ap, arith, false, if◌then◌else◌, inl, inr, ltb, none, not, refl,
  some, true, ℕ, ◌+◌, ◌||◌, ◌∙◌, ◌∷◌, ◌≡◌, ◌≤◌,
}
use seniors_empregabilidade.Database.Enums.{ApplicationStatus, ApplicationType, is_published}
use seniors_empregabilidade.Database.Errors.{ApplicationError, Constraint, Error}
use seniors_empregabilidade.Database.Session.{
  >>=_err, >>=_ok, Action, Result, Server, continue, err, ok, pure, rolled_back,
}
use seniors_empregabilidade.Database.Tables.{
  Application, Db, Job, Notification, NotificationDetails,
}
use seniors_empregabilidade.Applications.Policies.{RequirementMatch, match_requirements}
use seniors_empregabilidade.Applications.Submit.{
  SubmittedApplication, account_status_of, candidate_exists, candidate_skill_ids, has_applied,
  insert_application, is_blocked_status, job_by_id, new_application, open_job_for, received_message,
  required_skill_ids, save_application, submit_application, translate,
}
use seniors_empregabilidade.Notifications.Email.{sends_email}
use seniors_empregabilidade.Notifications.Notify.{
  new_delivery, new_notification, notify_user, notify_user_email, notify_user_unknown, user_exists,
}
use seniors_empregabilidade.Notifications.Types.{NotificationType}

module _ (a : Application) (db : Db) where
  insert_application_unknown :
      candidate_exists a.candidate_id db ≡ false
      → insert_application a db
        ≡ (err (Error.integrity Constraint.fk_application_candidate_id_candidate), db)
  unfolding insert_application
  insert_application_unknown e = ground arith

  insert_application_duplicate :
      candidate_exists a.candidate_id db ≡ true
      → has_applied a.candidate_id a.job_id db.applications ≡ true
      → insert_application a db
        ≡ (err (Error.integrity Constraint.uq_application_candidate_id_job_id), db)
  unfolding insert_application
  insert_application_duplicate e e' = ground arith

  insert_application_ok :
      candidate_exists a.candidate_id db ≡ true
      → has_applied a.candidate_id a.job_id db.applications ≡ false
      → insert_application a db ≡ (ok tt, record db { applications = a ∷ db.applications })
  unfolding insert_application
  insert_application_ok e e' = ground arith

module _ (to_local_date : ℕ → ℕ) (server : Server) (job_id candidate_id now : ℕ) (db : Db) where
  -- The job can be applied to: it exists, is published, is not past its closing date and its company
  -- is not blocked.
  pub record IsOpenJob (job : Job) : Type 0 where
    pub found : job_by_id job_id db ≡ some job
    pub published : is_published job.status ≡ true
    pub in_time : to_local_date now ≤ job.closing_date
    pub company_free : is_blocked_status (account_status_of job.company_id db) ≡ false

  abbrev match : RequirementMatch
  match = match_requirements (required_skill_ids job_id db) (candidate_skill_ids candidate_id db)

  abbrev application : Application
  application = new_application server candidate_id job_id ApplicationType.active match

  abbrev answer : SubmittedApplication
  answer = record {
    id = server.uuid 0;
    job_id = job_id;
    status = ApplicationStatus.under_review;
    submitted_at = server.now;
    matched_requirements = match.matched;
    total_requirements = match.total;
  }

  -- The company's notification and its queued e-mail.
  abbrev received : Job → Notification
  received job =
      new_notification server (server.uuid 1) job.company_id NotificationType.application_received
        (received_message job.title)
        (some (NotificationDetails.application_received (server.uuid 0) job.id))

  -- The tables after an accepted submission: three new rows.
  abbrev pub after_submission : Job → Db
  after_submission job = record db {
    applications = application ∷ db.applications;
    notifications = received job ∷ db.notifications;
    deliveries = new_delivery server (server.uuid (1 + 1)) (server.uuid 1) ∷ db.deliveries;
  }

  abbrev pub candidate_known : Bool
  candidate_known = candidate_exists candidate_id db

  abbrev pub already_applied : Bool
  already_applied = has_applied candidate_id job_id db.applications

  -- Every way in which a submission can end, with what it means and what it leaves behind.
  pub data Outcome (r : Result SubmittedApplication × Db) : Type 0 where
    accepted :
        (job : Job)
        → IsOpenJob job
        → candidate_known ≡ true
        → already_applied ≡ false
        → user_exists job.company_id db ≡ true
        → r ≡ (ok answer, after_submission job)
        → Outcome r
    missing :
        job_by_id job_id db ≡ none
        → r ≡ (err (Error.application ApplicationError.job_not_found), db)
        → Outcome r
    not_open :
        (job : Job)
        → job_by_id job_id db ≡ some job
        → ¬ IsOpenJob job
        → r ≡ (err (Error.application ApplicationError.job_not_open), db)
        → Outcome r
    duplicate :
        already_applied ≡ true
        → r ≡ (err (Error.application ApplicationError.application_already_exists), db)
        → Outcome r
    unknown_candidate :
        candidate_known ≡ false
        → r ≡ (err (Error.integrity Constraint.fk_application_candidate_id_candidate), db)
        → Outcome r
    unknown_company :
        (job : Job)
        → job_by_id job_id db ≡ some job
        → user_exists job.company_id db ≡ false
        → r ≡ (err (Error.integrity Constraint.fk_notification_user_id_app_user), db)
        → Outcome r

  abbrev is_closed : Job → Bool
  is_closed job =
      not (is_published job.status)
      || (ltb job.closing_date (to_local_date now)
          || is_blocked_status (account_status_of job.company_id db))

  is_closed-false :
      (job : Job) → job_by_id job_id db ≡ some job → is_closed job ≡ false → IsOpenJob job
  is_closed-false job e h = record {
    found = e;
    published = ground arith;
    in_time = ground arith;
    company_free = ground arith;
  }

  is_closed-true : (job : Job) → is_closed job ≡ true → ¬ IsOpenJob job
  is_closed-true job h o = ground (arith, o.published, o.in_time, o.company_free)

  abbrev outcome : Result SubmittedApplication × Db
  outcome = submit_application to_local_date server job_id candidate_id now db

  open_job_for_missing :
      job_by_id job_id db ≡ none
      → open_job_for to_local_date job_id now db
        ≡ (err (Error.application ApplicationError.job_not_found), db)
  unfolding open_job_for
  open_job_for_missing e = ground arith

  module _ (job : Job) (found : job_by_id job_id db ≡ some job) where
    open_job_for_found : open_job_for to_local_date job_id now db ≡ (
        if is_closed job
        then (err (Error.application ApplicationError.job_not_open), db)
        else (ok job, db))
    unfolding open_job_for
    open_job_for_found = ground arith

    abbrev stored : Application
    stored = new_application server candidate_id job_id ApplicationType.active match

    abbrev inserted : Db
    inserted = record db { applications = application ∷ db.applications }

    abbrev notify : Action Notification
    notify =
        notify_user server 1 job.company_id NotificationType.application_received
          (received_message job.title)
          (some (NotificationDetails.application_received (server.uuid 0) job.id))

    save_unknown :
        candidate_known ≡ false
        → save_application server job application db
          ≡ (err (Error.integrity Constraint.fk_application_candidate_id_candidate), db)
    unfolding save_application new_application
    save_unknown e =
        >>=_err (insert_application application) _ (insert_application_unknown application db e)

    save_duplicate :
        candidate_known ≡ true
        → already_applied ≡ true
        → save_application server job application db
          ≡ (err (Error.integrity Constraint.uq_application_candidate_id_job_id), db)
    unfolding save_application new_application
    save_duplicate e e' =
        >>=_err (insert_application application) _
          (insert_application_duplicate application db e e')

    module _ (known : candidate_known ≡ true) (new : already_applied ≡ false) where
      save_no_user :
          user_exists job.company_id db ≡ false
          → save_application server job application db
            ≡ (err (Error.integrity Constraint.fk_notification_user_id_app_user), inserted)
      unfolding save_application new_application
      save_no_user e =
          >>=_ok (insert_application application) _ (insert_application_ok application db known new)
          ∙ >>=_err notify _ (notify_user_unknown server 1 job.company_id _ _ _ inserted e)

      save_ok :
          user_exists job.company_id db ≡ true
          → save_application server job application db ≡ (ok tt, after_submission job)
      unfolding save_application new_application sends_email new_notification
      save_ok e =
          >>=_ok (insert_application application) _ (insert_application_ok application db known new)
          ∙ >>=_ok notify _ (notify_user_email server 1 job.company_id _ _ _ inserted e refl)

  module _ (job : Job) (found : job_by_id job_id db ≡ some job)
      (fresh : is_closed job ≡ false) where
    is_open : open_job_for to_local_date job_id now db ≡ (ok job, db)
    is_open = open_job_for_found job found ∙ rw fresh

    -- What the `try` block and its handlers make of the block's result.
    submitted :
        (r : Result (Unit {0}) × Db)
        → save_application server job application db ≡ r
        → outcome ≡ continue (λ _. pure answer) (translate (rolled_back db r))
    unfolding submit_application new_application
    submitted r e =
        >>=_ok (open_job_for to_local_date job_id now) _ is_open
        ∙ ap (λ s. continue (λ _. pure answer) (translate (rolled_back db s))) e

    open_job-Outcome : Outcome outcome
    open_job-Outcome = elim (Bool-cases candidate_known) [
      | inr unknown ↦ unknown_candidate unknown (submitted _ (save_unknown job found unknown))
      | inl known ↦ elim (Bool-cases already_applied) [
        | inl old ↦ duplicate old (submitted _ (save_duplicate job found known old))
        | inr new ↦ elim (Bool-cases (user_exists job.company_id db)) [
          | inr no_user ↦
              unknown_company job found no_user
                (submitted _ (save_no_user job found known new no_user))
          | inl user ↦
              accepted job (is_closed-false job found fresh) known new user
                (submitted _ (save_ok job found known new user))
        ]
      ]
    ]

-- A submission ends in one of six ways. It is accepted for an open job, an existing candidate who
-- has not applied to it and a company with an account, and then adds exactly the application under
-- review with its match, the company's notification and a queued e-mail. Every refusal leaves all
-- tables as they were.
pub submit_application-Outcome :
    (to_local_date : ℕ → ℕ) (server : Server) (job_id candidate_id now : ℕ) (db : Db)
    → Outcome to_local_date server job_id candidate_id now db
        (submit_application to_local_date server job_id candidate_id now db)
unfolding submit_application
submit_application-Outcome to_local_date server job_id candidate_id now db =
    elim (Option-cases (job_by_id job_id db)) [
      | inl e ↦ missing e (
          >>=_err (open_job_for to_local_date job_id now) _
            (open_job_for_missing to_local_date server job_id candidate_id now db e))
      | inr (job, e) ↦
          elim (Bool-cases (is_closed to_local_date server job_id candidate_id now db job)) [
            | inl closed ↦
                not_open job e
                  (is_closed-true to_local_date server job_id candidate_id now db job closed)
                  (>>=_err (open_job_for to_local_date job_id now) _ (
                    open_job_for_found to_local_date server job_id candidate_id now db job e
                    ∙ rw closed))
            | inr fresh ↦
                open_job-Outcome to_local_date server job_id candidate_id now db job e fresh
          ]
    ]
