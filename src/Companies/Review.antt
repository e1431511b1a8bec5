-- ===== src/Companies/Review.antt =====
-- app/companies/services/review_company.py
pub mod Spec
pub mod Outcome
use seniors_empregabilidade.Prelude.{
  Bool, List, Option, Str, [], first_where, is_empty, none, not, some, true, update_where, ℕ, ◌==◌,
}
use seniors_empregabilidade.Database.Enums.{CompanyStatus, is_pending_company}
use seniors_empregabilidade.Database.Errors.{CompanyError, Error}
use seniors_empregabilidade.Database.Session.{
  Action, Server, gets, modify, or_raise, pure, raise_if, transaction, ◌>>=◌, ◌>>◌,
}
use seniors_empregabilidade.Database.Tables.{AppUser, Company, Db, NotificationDetails}
use seniors_empregabilidade.Companies.Policies.{Decision, is_blocked_cnae, is_invalid_decision}
use seniors_empregabilidade.Notifications.Notify.{notify_user}
use seniors_empregabilidade.Notifications.Types.{NotificationType}

pub record CompanyApprovalRequest : Type 0 where
  pub status : Decision
  pub reason : Option Str

pub record CompanyResponse : Type 0 where
  pub id : ℕ
  pub email : Str
  pub status : CompanyStatus

abbrev pub company_by_id : ℕ → Db → Option Company
company_by_id company_id db = first_where (λ c. c.id == company_id) db.companies

abbrev pub user_by_id : ℕ → Db → Option AppUser
user_by_id user_id db = first_where (λ u. u.id == user_id) db.users

abbrev pub save_company : Company → Db → Db
save_company company db = record db {
  companies = update_where (λ c. c.id == company.id) (λ _. company) db.companies;
}

-- `CompanyStatus(request.status)`
abbrev pub reviewed_status : Decision → CompanyStatus
reviewed_status Decision.to_approved = CompanyStatus.approved
reviewed_status Decision.to_rejected = CompanyStatus.rejected

unfoldable pub reviewed : Decision → Company → Company
reviewed decision company = record company { status = reviewed_status decision }

-- `not company.primary_cnae`
abbrev pub lacks_activity : Option Str → Bool
lacks_activity none = true
lacks_activity (some text) = is_empty text

-- `x or ""`
abbrev pub or_empty : Option Str → Str
or_empty text = elim text [ none ↦ [] | some t ↦ t ]

module _ (is_digit : ℕ → Bool) (blocked_prefixes : List Str) where
  -- What only an approval checks.
  unfoldable pub check_activity : Decision → Company → Action (Unit {0})
  check_activity Decision.to_rejected company = pure tt
  check_activity Decision.to_approved company = do
    raise_if (lacks_activity company.primary_cnae)
        (Error.company CompanyError.company_activity_required)
    raise_if (is_blocked_cnae is_digit (or_empty company.primary_cnae) blocked_prefixes)
        (Error.company CompanyError.segment_blocked)

  -- What only a rejection does.
  unfoldable pub notify_rejection :
      Server → Decision → (reason : Option Str) → Company → Action (Unit {0})
  notify_rejection server Decision.to_approved reason company = pure tt
  notify_rejection server Decision.to_rejected reason company = do
    notify_user server 0 company.id NotificationType.company_registration_rejected (or_empty reason)
        (some (NotificationDetails.company_reviewed company.id))
    pure tt

  unfoldable pub decide : Server → CompanyApprovalRequest → Company → Action CompanyResponse
  decide server request company = do
    raise_if (not (is_pending_company company.status))
        (Error.company CompanyError.company_not_pending)
    check_activity request.status company
    modify (save_company (reviewed request.status company))
    notify_rejection server request.status request.reason company
    found ← gets (user_by_id company.id)
    user ← or_raise found (Error.company CompanyError.company_not_found)
    pure (record { id = company.id; email = user.email; status = reviewed_status request.status })

  unfoldable pub find_and_decide :
      Server → (company_id : ℕ) → CompanyApprovalRequest → Action CompanyResponse
  find_and_decide server company_id request = do
    raise_if (is_invalid_decision request.status request.reason)
        (Error.company CompanyError.invalid_decision)
    found ← gets (company_by_id company_id)
    company ← or_raise found (Error.company CompanyError.company_not_found)
    decide server request company

  unfoldable pub review_company :
      Server → (company_id : ℕ) → CompanyApprovalRequest → Action CompanyResponse
  review_company server company_id request = transaction (find_and_decide server company_id request)
