-- ===== src/Applications/Withdraw.antt =====
-- app/applications/services/withdraw_application.py
pub mod Spec
use mathlib.Core.Option as OptionM
use seniors_empregabilidade.Applications.Policies.{days_in_process as days_between}
use seniors_empregabilidade.Prelude.{Option, Str, first_where, none, not, row, some, ℕ, ◌&&◌, ◌==◌}
use seniors_empregabilidade.Database.Enums.{ApplicationStatus}
use seniors_empregabilidade.Database.Errors.{ApplicationError, Error}
use seniors_empregabilidade.Database.Session.{
  Action, gets, modify, or_raise, pure, raise_if, transaction, ◌>>=◌, ◌>>◌,
}
use seniors_empregabilidade.Database.Tables.{Application, Company, Db}
use seniors_empregabilidade.Applications.Status.{is_active}
use seniors_empregabilidade.Applications.UpdateStatus.{save_application_row}

-- `ApplicationSummary`, whose list of similar jobs is always empty here.
pub record ApplicationSummary : Type 0 where
  pub id : ℕ
  pub job_id : ℕ
  pub job_title : Str
  pub company_name : Str
  pub submitted_at : ℕ
  pub days_in_process : ℕ
  pub status : ApplicationStatus
  pub reason : Option Str

-- `func.coalesce(Company.trade_name, Company.legal_name)`
abbrev pub company_display_name : Company → Str
company_display_name c = elim c.trade_name [ none ↦ c.legal_name | some name ↦ name ]

-- The job's title and its company's name: the inner join, if both rows exist.
unfoldable pub job_with_company : (job_id : ℕ) → Db → Option (Str × Str)
job_with_company job_id db = elim (first_where (λ j. j.id == job_id) db.jobs) [
  | none ↦ none
  | some j ↦
      OptionM.map (λ (c : Company). (j.title, company_display_name c))
        (first_where (λ c. c.id == j.company_id) db.companies)
]

abbrev pub own_application : (application_id candidate_id : ℕ) → Db → Option Application
own_application application_id candidate_id db =
    first_where (λ a. a.id == application_id && a.candidate_id == candidate_id) db.applications

unfoldable pub withdrawn : (now : ℕ) → Application → Application
withdrawn now a = record a { status = ApplicationStatus.withdrawn; closed_at = some now }

module _ (to_local_date : ℕ → ℕ) where
  unfoldable pub withdrawal_summary : (now : ℕ) → Application → Str × Str → ApplicationSummary
  withdrawal_summary now a (title, company) = record {
    id = a.id;
    job_id = a.job_id;
    job_title = title;
    company_name = company;
    submitted_at = a.created_at;
    days_in_process = days_between to_local_date a.created_at a.closed_at now;
    status = a.status;
    reason = none;
  }

  unfoldable pub apply_withdrawal : (now : ℕ) → Application → Action ApplicationSummary
  apply_withdrawal now a = do
    raise_if (not (is_active a.status))
        (Error.application ApplicationError.application_already_closed)
    let row = withdrawn now a
    modify (save_application_row row)
    found ← gets (job_with_company row.job_id)
    -- `.one()` raises when the join finds no row.
    job ← or_raise found Error.unexpected
    pure (withdrawal_summary now row job)

  unfoldable pub find_and_withdraw :
      (application_id candidate_id now : ℕ) → Action ApplicationSummary
  find_and_withdraw application_id candidate_id now = do
    found ← gets (own_application application_id candidate_id)
    a ← or_raise found (Error.application ApplicationError.application_not_found)
    apply_withdrawal now a

  unfoldable pub withdraw_application :
      (application_id candidate_id now : ℕ) → Action ApplicationSummary
  withdraw_application application_id candidate_id now =
      transaction (find_and_withdraw application_id candidate_id now)
