-- ===== src/Tests/Accounts.antt =====
-- Runs of the services on accounts, companies and jobs, and of the guards.
use seniors_empregabilidade.Prelude.{
  Bool, List, [], arith, codes, is_ascii_digit, none, refl, some, ℕ, ◌∷◌,
}
use seniors_empregabilidade.Database.Enums.{JobStatus}
use seniors_empregabilidade.Database.Tables.{Skill}
use seniors_empregabilidade.Accounts.ChangeStatus.{
  AccountStatusRequest, RequestedAccountStatus, change_account_status,
}
use seniors_empregabilidade.Accounts.ChangeStatus.Spec.{
  StatusOutcome, change_account_status-StatusOutcome,
}
use seniors_empregabilidade.Auth.{Role, authorized}
use seniors_empregabilidade.Auth.Guards.{Verdict, authorized-Verdict}
use seniors_empregabilidade.Companies.Policies.{Decision}
use seniors_empregabilidade.Companies.Review.{CompanyApprovalRequest, review_company}
use seniors_empregabilidade.Companies.Review.Outcome.{review_company-ReviewOutcome}
use seniors_empregabilidade.Companies.Review.Spec.{ReviewOutcome}
use seniors_empregabilidade.Jobs.ChangeStatus.{
  RequestedStatus, UpdateJobStatusRequest, change_job_status, reopened_job,
}
use seniors_empregabilidade.Jobs.ChangeStatus.Spec.{
  JobChange, JobOutcomeOf, change_job_status-JobOutcomeOf,
}
use seniors_empregabilidade.Tests.Samples.{job, same_day, sample, server}

abbrev ascii_digit : ℕ → Bool
ascii_digit c = is_ascii_digit c

abbrev rejection : CompanyApprovalRequest
rejection = record { status = Decision.to_rejected; reason = some (codes "CNPJ inativo") }

review_company-ReviewOutcome_example :
    ReviewOutcome ascii_digit
      (codes "92" ∷ [])
      server
      1
      rejection
      sample
      (review_company ascii_digit (codes "92" ∷ []) server 1 rejection sample)
review_company-ReviewOutcome_example =
    review_company-ReviewOutcome ascii_digit (codes "92" ∷ []) server 1 rejection sample

abbrev block : AccountStatusRequest
block = record { status = RequestedAccountStatus.to_blocked; reason = codes "Fraude" }

change_account_status-StatusOutcome_example :
    StatusOutcome server 4 2 block 6 sample (change_account_status server 4 2 block 6 sample)
change_account_status-StatusOutcome_example =
    change_account_status-StatusOutcome server 4 2 block 6 sample

-- The order in which the sample's skills stand.
abbrev as_given : List Skill → List Skill
as_given skills = skills

abbrev closing : UpdateJobStatusRequest
closing = record { status = RequestedStatus.to_closed; closing_date = none }

change_job_status-JobOutcomeOf_example :
    JobOutcomeOf same_day as_given 10 1 closing 6 sample
      (change_job_status same_day as_given 10 1 closing 6 sample)
change_job_status-JobOutcomeOf_example =
    change_job_status-JobOutcomeOf same_day as_given 10 1 closing 6 sample

-- A closed job is reopened until day 20.
abbrev reopening :
    JobChange same_day 6
      (some 20)
      (job JobStatus.closed)
      RequestedStatus.to_open
      (reopened_job 20 6 (job JobStatus.closed))
reopening = JobChange.reopens refl refl (omega arith)

authorized-Verdict_example :
    Verdict Role.administrator (4 ∷ []) sample (authorized Role.administrator (4 ∷ []) sample)
authorized-Verdict_example = authorized-Verdict Role.administrator (4 ∷ []) sample
