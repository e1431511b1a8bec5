-- ===== src/Applications/UpdateStatus/Spec.antt =====
-- What a company's status change checks, writes and answers, on every branch.
use seniors_empregabilidade.Prelude.{
  Bool-cases, Option-cases, ap, arith, false, false≢true, inl, inr, none, not, refl, some, sym,
  true, ℕ, ◌∙◌, ◌≡◌,
}
use seniors_empregabilidade.Database.Enums.{ApplicationStatus}
use seniors_empregabilidade.Database.Errors.{ApplicationError, Constraint, Error}
use seniors_empregabilidade.Database.Session.{
  >>=_ok, Action, Result, Server, continue, err, ok, pure, raise_if, raise_if_pass, rolled_back,
}
use seniors_empregabilidade.Database.Tables.{
  Application, Db, Job, Notification, NotificationDetails,
}
use seniors_empregabilidade.Applications.Status.{
  Step, Step-is_allowed, is_allowed, is_allowed-Step, is_terminal, status_label, target_status,
  target_status-ne-withdrawn,
}
use seniors_empregabilidade.Applications.UpdateStatus.{
  ApplicationActionResult, UpdateApplicationStatusRequest, apply_change, changed_message,
  find_and_change, moved, owned_application, save_application_row, update_application_status,
}
use seniors_empregabilidade.Notifications.Email.{sends_email}
use seniors_empregabilidade.Notifications.Notify.{
  new_notification, notify_user, notify_user_email, notify_user_unknown, user_exists, with_email,
}
use seniors_empregabilidade.Notifications.Types.{NotificationType}

module _ (server : Server) (application_id company_id : ℕ)
    (request : UpdateApplicationStatusRequest) (now : ℕ) (db : Db) where
  abbrev pub target : ApplicationStatus
  target = target_status request.status

  abbrev pub changed_row : Application → Application
  changed_row a = moved target request.reason now a

  abbrev notified : Application → Job → Notification
  notified a job =
      new_notification server (server.uuid 0) a.candidate_id
        NotificationType.application_status_changed
        (changed_message job.title (status_label request.status))
        (some (NotificationDetails.application_status_changed a.id job.id target))

  -- The tables after an accepted change: the row, one notification and one queued e-mail.
  abbrev pub after_change : Application → Job → Db
  after_change a job =
      with_email server 0 (notified a job) (save_application_row (changed_row a) db)

  abbrev answer : Application → ApplicationActionResult
  answer a = record {
    application_id = a.id;
    job_id = a.job_id;
    candidate_id = a.candidate_id;
    status = target;
    updated_at = now;
  }

  -- Every way in which the call can end, with what it means and what it leaves behind.
  pub data Change (r : Result ApplicationActionResult × Db) : Type 0 where
    changed :
        (a : Application) (job : Job)
        → owned_application application_id company_id db ≡ some (a, job)
        → Step a.status target
        → user_exists a.candidate_id db ≡ true
        → r ≡ (ok (answer a), after_change a job)
        → Change r
    missing :
        owned_application application_id company_id db ≡ none
        → r ≡ (err (Error.application ApplicationError.application_not_found), db)
        → Change r
    closed :
        (a : Application) (job : Job)
        → owned_application application_id company_id db ≡ some (a, job)
        → is_terminal a.status ≡ true
        → r ≡ (err (Error.application ApplicationError.application_already_closed), db)
        → Change r
    not_allowed :
        (a : Application) (job : Job)
        → owned_application application_id company_id db ≡ some (a, job)
        → is_terminal a.status ≡ false
        → ¬ Step a.status target
        → r
          ≡ (err (Error.application ApplicationError.application_status_transition_not_allowed), db)
        → Change r
    unknown_candidate :
        (a : Application) (job : Job)
        → owned_application application_id company_id db ≡ some (a, job)
        → user_exists a.candidate_id db ≡ false
        → r ≡ (err (Error.integrity Constraint.fk_notification_user_id_app_user), db)
        → Change r

  -- No company status is reached by a withdrawal, so a step to one is an allowed transition.
  not_allowed-not-Step : (s : ApplicationStatus) → is_allowed s target ≡ false → ¬ Step s target
  not_allowed-not-Step s h st = elim (Step-is_allowed st) [
    | inl allowed ↦ false≢true (sym h ∙ allowed)
    | inr gone ↦ target_status-ne-withdrawn request.status gone
  ]

  module _ (a : Application) (job : Job) where
    change_closed :
        is_terminal a.status ≡ true
        → apply_change server request now a job db
          ≡ (err (Error.application ApplicationError.application_already_closed), db)
    unfolding apply_change
    change_closed h = ground arith

    change_not_allowed :
        is_terminal a.status ≡ false
        → is_allowed a.status target ≡ false
        → apply_change server request now a job db
          ≡ (err (Error.application ApplicationError.application_status_transition_not_allowed), db)
    unfolding apply_change
    change_not_allowed h h' = rw (h, h')

    abbrev notify : Action Notification
    notify =
        notify_user server 0 a.candidate_id NotificationType.application_status_changed
          (changed_message job.title (status_label request.status))
          (some (NotificationDetails.application_status_changed a.id job.id target))

    module _ (active : is_terminal a.status ≡ false)
        (allowed : is_allowed a.status target ≡ true) where
      -- Past both guards the row is saved and the candidate notified.
      guards_pass :
          apply_change server request now a job db
          ≡ continue (λ _. pure (answer a)) (notify (save_application_row (changed_row a) db))
      unfolding apply_change moved
      guards_pass =
          >>=_ok (raise_if (is_terminal a.status) _) _ (raise_if_pass _ _ db active)
          ∙ >>=_ok (raise_if (not (is_allowed a.status target)) _) _
              (raise_if_pass _ _ db (ap not allowed))

      change_unknown :
          user_exists a.candidate_id db ≡ false
          → apply_change server request now a job db ≡ (
            err (Error.integrity Constraint.fk_notification_user_id_app_user),
            save_application_row (changed_row a) db,
          )
      change_unknown e =
          guards_pass
          ∙ ap (continue (λ _. pure (answer a))) (
              notify_user_unknown server 0 a.candidate_id _ _ _
                (save_application_row (changed_row a) db) e)

      change_ok :
          user_exists a.candidate_id db ≡ true
          → apply_change server request now a job db ≡ (ok (answer a), after_change a job)
      unfolding sends_email
      change_ok e =
          guards_pass
          ∙ ap (continue (λ _. pure (answer a))) (
              notify_user_email server 0 a.candidate_id _ _ _
                (save_application_row (changed_row a) db) e refl)

  module _ (a : Application) (job : Job)
      (owned : owned_application application_id company_id db ≡ some (a, job)) where
    found :
        (r : Result ApplicationActionResult × Db)
        → apply_change server request now a job db ≡ r
        → update_application_status server application_id company_id request now db
          ≡ rolled_back db r
    unfolding update_application_status find_and_change
    found r e = ap (rolled_back db) (rw owned e)

    found-Change :
        Change (update_application_status server application_id company_id request now db)
    found-Change = elim (Bool-cases (is_terminal a.status)) [
      | inl terminal ↦ closed a job owned terminal (found _ (change_closed a job terminal))
      | inr active ↦ elim (Bool-cases (is_allowed a.status target)) [
        | inr no_step ↦
            not_allowed a job owned active (not_allowed-not-Step a.status no_step)
              (found _ (change_not_allowed a job active no_step))
        | inl allowed ↦ elim (Bool-cases (user_exists a.candidate_id db)) [
          | inr unknown ↦
              unknown_candidate a job owned unknown
                (found _ (change_unknown a job active allowed unknown))
          | inl known ↦
              changed a job owned (is_allowed-Step a.status target allowed) known
                (found _ (change_ok a job active allowed known))
        ]
      ]
    ]

-- A status change by a company ends in one of five ways. It goes through exactly for an application
-- to one of the company's own jobs whose status allows the step, and then adds exactly the changed
-- row, the candidate's notification and a queued e-mail. An application of another company is
-- answered like one that does not exist, and every refusal leaves all tables as they were.
pub update_application_status-Change :
    (server : Server) (application_id company_id : ℕ) (request : UpdateApplicationStatusRequest)
    (now : ℕ) (db : Db)
    → Change server application_id company_id request now db
        (update_application_status server application_id company_id request now db)
unfolding update_application_status find_and_change
update_application_status-Change server application_id company_id request now db =
    elim (Option-cases (owned_application application_id company_id db)) [
      | inl none_owned ↦ missing none_owned (
          ap (rolled_back db)
            {y = (err (Error.application ApplicationError.application_not_found), db)}
            (rw none_owned))
      | inr ((a, job), owned) ↦
          found-Change server application_id company_id request now db a job owned
    ]
