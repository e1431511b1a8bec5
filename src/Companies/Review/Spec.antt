-- ===== src/Companies/Review/Spec.antt =====
-- What a review of a company checks, writes and answers, on every branch.
use seniors_empregabilidade.Prelude.{
  Bool, List, Option, Str, [], ap, arith, exists_where, false, first_where, is_some, none, refl,
  some, true, ℕ, ◌==◌, ◌∙◌, ◌∷◌, ◌≡◌,
}
use seniors_empregabilidade.Database.Enums.{CompanyStatus, is_pending_company}
use seniors_empregabilidade.Database.Errors.{CompanyError, Constraint, Error}
use seniors_empregabilidade.Database.Session.{Result, Server, err, ok}
use seniors_empregabilidade.Database.Tables.{AppUser, Company, Db, NotificationDetails}
use seniors_empregabilidade.Companies.Policies.{Decision, is_blocked_cnae, is_invalid_decision}
use seniors_empregabilidade.Companies.Review.{
  CompanyApprovalRequest, CompanyResponse, check_activity, company_by_id, decide, lacks_activity,
  notify_rejection, or_empty, reviewed, reviewed_status, save_company, user_by_id,
}
use seniors_empregabilidade.Notifications.Email.{sends_email}
use seniors_empregabilidade.Notifications.Notify.{
  add_notification, new_notification, notify_user_quiet, notify_user_unknown,
}
use seniors_empregabilidade.Notifications.Types.{NotificationType}

module _ (is_digit : ℕ → Bool) (blocked_prefixes : List Str) (server : Server) (company_id : ℕ)
    (request : CompanyApprovalRequest) (db : Db) where
  -- What an approval needs of the company's activity.
  pub data HasActivity (company : Company) : Decision → Type 0 where
    not_needed : HasActivity company Decision.to_rejected
    allowed :
        lacks_activity company.primary_cnae ≡ false
        → is_blocked_cnae is_digit (or_empty company.primary_cnae) blocked_prefixes ≡ false
        → HasActivity company Decision.to_approved

  -- The tables after a review: the row, and for a rejection one notification that is not sent by
  -- e-mail.
  abbrev pub after_review : Decision → Company → Db
  after_review Decision.to_approved company =
      save_company (reviewed Decision.to_approved company) db
  after_review Decision.to_rejected company =
      add_notification
        (new_notification server (server.uuid 0) company.id
          NotificationType.company_registration_rejected (or_empty request.reason)
          (some (NotificationDetails.company_reviewed company.id)))
        (save_company (reviewed Decision.to_rejected company) db)

  -- Why a review is refused.
  pub data Reason : Error → Type 0 where
    bad_reason :
        is_invalid_decision request.status request.reason ≡ true
        → Reason (Error.company CompanyError.invalid_decision)
    no_company :
        company_by_id company_id db ≡ none → Reason (Error.company CompanyError.company_not_found)
    not_pending :
        (company : Company)
        → company_by_id company_id db ≡ some company
        → is_pending_company company.status ≡ false
        → Reason (Error.company CompanyError.company_not_pending)
    no_activity :
        (company : Company)
        → company_by_id company_id db ≡ some company
        → request.status ≡ Decision.to_approved
        → lacks_activity company.primary_cnae ≡ true
        → Reason (Error.company CompanyError.company_activity_required)
    blocked :
        (company : Company)
        → company_by_id company_id db ≡ some company
        → request.status ≡ Decision.to_approved
        → is_blocked_cnae is_digit (or_empty company.primary_cnae) blocked_prefixes ≡ true
        → Reason (Error.company CompanyError.segment_blocked)
    no_account :
        (company : Company)
        → company_by_id company_id db ≡ some company
        → request.status ≡ Decision.to_approved
        → user_by_id company.id db ≡ none
        → Reason (Error.company CompanyError.company_not_found)
    nobody_to_notify :
        (company : Company)
        → company_by_id company_id db ≡ some company
        → request.status ≡ Decision.to_rejected
        → user_by_id company.id db ≡ none
        → Reason (Error.integrity Constraint.fk_notification_user_id_app_user)

  pub data ReviewOutcome (r : Result CompanyResponse × Db) : Type 0 where
    decided :
        (company : Company) (user : AppUser)
        → is_invalid_decision request.status request.reason ≡ false
        → company_by_id company_id db ≡ some company
        → is_pending_company company.status ≡ true
        → HasActivity company request.status
        → user_by_id company.id db ≡ some user
        → r ≡ (
          ok (record {
            id = company.id;
            email = user.email;
            status = reviewed_status request.status;
          }),
          after_review request.status company,
        )
        → ReviewOutcome r
    refused : (e : Error) → Reason e → r ≡ (err e, db) → ReviewOutcome r

-- `first_where` finds a row exactly where `exists_where` says that there is one.
pub exists_first :
    (user_id : ℕ) (rows : List AppUser)
    → exists_where (λ u. u.id == user_id) rows ≡ is_some (first_where (λ u. u.id == user_id) rows)
exists_first user_id [] = refl
exists_first user_id (u ∷ rows) = ground (arith, exists_first user_id rows)

module _ (is_digit : ℕ → Bool) (blocked_prefixes : List Str) (server : Server) (reason : Option Str)
    (company : Company) (db : Db) (pending : is_pending_company company.status ≡ true) where
  abbrev request_of : Decision → CompanyApprovalRequest
  request_of d = record { status = d; reason = reason }

  pub decide_approved :
      (user : AppUser)
      → lacks_activity company.primary_cnae ≡ false
      → is_blocked_cnae is_digit (or_empty company.primary_cnae) blocked_prefixes ≡ false
      → user_by_id company.id db ≡ some user
      → decide is_digit blocked_prefixes server (request_of Decision.to_approved) company db ≡ (
        ok (record { id = company.id; email = user.email; status = CompanyStatus.approved }),
        save_company (reviewed Decision.to_approved company) db,
      )
  unfolding decide check_activity notify_rejection
  decide_approved user a b u = rw (pending, a, b, u)

  pub decide_no_activity :
      lacks_activity company.primary_cnae ≡ true
      → decide is_digit blocked_prefixes server (request_of Decision.to_approved) company db
        ≡ (err (Error.company CompanyError.company_activity_required), db)
  unfolding decide check_activity
  decide_no_activity a = rw (pending, a)

  pub decide_blocked :
      lacks_activity company.primary_cnae ≡ false
      → is_blocked_cnae is_digit (or_empty company.primary_cnae) blocked_prefixes ≡ true
      → decide is_digit blocked_prefixes server (request_of Decision.to_approved) company db
        ≡ (err (Error.company CompanyError.segment_blocked), db)
  unfolding decide check_activity
  decide_blocked a b = rw (pending, a, b)

  pub decide_no_account :
      lacks_activity company.primary_cnae ≡ false
      → is_blocked_cnae is_digit (or_empty company.primary_cnae) blocked_prefixes ≡ false
      → user_by_id company.id db ≡ none
      → decide is_digit blocked_prefixes server (request_of Decision.to_approved) company db ≡ (
        err (Error.company CompanyError.company_not_found),
        save_company (reviewed Decision.to_approved company) db,
      )
  unfolding decide check_activity notify_rejection
  decide_no_account a b u = rw (pending, a, b, u)

  abbrev rejected_db : Db
  rejected_db = save_company (reviewed Decision.to_rejected company) db

  pub decide_rejected :
      (user : AppUser)
      → user_by_id company.id db ≡ some user
      → decide is_digit blocked_prefixes server (request_of Decision.to_rejected) company db ≡ (
        ok (record { id = company.id; email = user.email; status = CompanyStatus.rejected }),
        add_notification
            (new_notification server
              (server.uuid 0)
              company.id
              NotificationType.company_registration_rejected
              (or_empty reason)
              (some (NotificationDetails.company_reviewed company.id)))
            rejected_db,
      )
  unfolding decide check_activity notify_rejection sends_email
  decide_rejected user u = rw (
    pending,
    notify_user_quiet server 0 company.id NotificationType.company_registration_rejected
        (or_empty reason) (some (NotificationDetails.company_reviewed company.id)) rejected_db
        (exists_first company.id db.users ∙ ap is_some u) refl,
    u,
  )

  pub decide_nobody :
      user_by_id company.id db ≡ none
      → decide is_digit blocked_prefixes server (request_of Decision.to_rejected) company db
        ≡ (err (Error.integrity Constraint.fk_notification_user_id_app_user), rejected_db)
  unfolding decide check_activity notify_rejection
  decide_nobody u = rw (
    pending,
    notify_user_unknown server 0 company.id NotificationType.company_registration_rejected
        (or_empty reason) (some (NotificationDetails.company_reviewed company.id)) rejected_db
        (exists_first company.id db.users ∙ ap is_some u),
  )
