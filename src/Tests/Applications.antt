-- ===== src/Tests/Applications.antt =====
-- Runs of the application services.
use seniors_empregabilidade.Prelude.{
  IsIn, List, SameMembers, [], arith, inl, map, none, refl, some, ◌∷◌, ◌≡◌,
}
use seniors_empregabilidade.Database.Enums.{ApplicationStatus}
use seniors_empregabilidade.Database.Tables.{Application, Db}
use seniors_empregabilidade.Applications.History.{Call, IsFreshRun, run}
use seniors_empregabilidade.Applications.History.Rows.{
  Becomes, run-Becomes, run-IsValid, run_keeps_closed,
}
use seniors_empregabilidade.Applications.Invariant.{IsValid}
use seniors_empregabilidade.Applications.Status.{CompanyApplicationStatus}
use seniors_empregabilidade.Applications.Submit.{
  insert_application, new_application, open_job_for, save_application, submit_application,
}
use seniors_empregabilidade.Applications.Submit.Spec.{Outcome, submit_application-Outcome}
use seniors_empregabilidade.Applications.UpdateStatus.{
  UpdateApplicationStatusRequest, apply_change, find_and_change, moved, owned_application,
  update_application_status,
}
use seniors_empregabilidade.Applications.UpdateStatus.Spec.{
  Change, update_application_status-Change,
}
use seniors_empregabilidade.Applications.Withdraw.{
  apply_withdrawal, find_and_withdraw, job_with_company, withdraw_application, withdrawal_summary,
  withdrawn,
}
use seniors_empregabilidade.Applications.Withdraw.Spec.{Withdrawal, withdraw_application-Withdrawal}
use seniors_empregabilidade.Notifications.Email.{sends_email}
use seniors_empregabilidade.Notifications.Notify.{notify_user}
use seniors_empregabilidade.Tests.Samples.{application, same_day, sample, server}

abbrev accept_request : UpdateApplicationStatusRequest
accept_request = record { status = CompanyApplicationStatus.in_selection_process; reason = none }

abbrev hire_request : UpdateApplicationStatusRequest
hire_request = record { status = CompanyApplicationStatus.hired; reason = none }

abbrev calls : List Call
calls =
    Call.submit server 10 3 6
    ∷ Call.update server 20 1 accept_request 7
    ∷ Call.update server 20 1 hire_request 8
    ∷ Call.withdraw 20 2 9
    ∷ []

submit_application-Outcome_example :
    Outcome same_day server 10 3 6 sample (submit_application same_day server 10 3 6 sample)
submit_application-Outcome_example = submit_application-Outcome same_day server 10 3 6 sample

update_application_status-Change_example :
    Change server 20 1 accept_request 7 sample
      (update_application_status server 20 1 accept_request 7 sample)
update_application_status-Change_example =
    update_application_status-Change server 20 1 accept_request 7 sample

withdraw_application-Withdrawal_example :
    Withdrawal same_day 20 2 7 sample (withdraw_application same_day 20 2 7 sample)
withdraw_application-Withdrawal_example = withdraw_application-Withdrawal same_day 20 2 7 sample

pub sample-IsValid : IsValid sample.applications
sample-IsValid = record {
  keyed = (tt, tt);
  unique = (tt, tt);
  valid = (record { closing = refl; range = omega arith }, tt);
}

calls-IsFreshRun : IsFreshRun same_day calls sample
calls-IsFreshRun = ((λ e. omega (arith, e), tt), (tt, (tt, (tt, tt))))

run-IsValid_example : IsValid (run same_day calls sample).applications
run-IsValid_example = run-IsValid same_day calls sample calls-IsFreshRun sample-IsValid

run-Becomes_example :
    (b : Application) × IsIn b (run same_day calls sample).applications
    × Becomes (application ApplicationStatus.under_review) b
run-Becomes_example =
    run-Becomes same_day calls sample calls-IsFreshRun sample-IsValid
      (application ApplicationStatus.under_review) (inl refl)

abbrev withdrawn_row : Application
withdrawn_row = record (application ApplicationStatus.withdrawn) { closed_at = some 3 }

abbrev closed_sample : Db
closed_sample = record sample { applications = withdrawn_row ∷ [] }

closed_sample-IsValid : IsValid closed_sample.applications
closed_sample-IsValid = record {
  keyed = (tt, tt);
  unique = (tt, tt);
  valid = (record { closing = refl; range = omega arith }, tt);
}

run_keeps_closed_example : IsIn withdrawn_row (run same_day calls closed_sample).applications
run_keeps_closed_example =
    run_keeps_closed same_day calls closed_sample
      ((λ e. omega (arith, e), tt), (tt, (tt, (tt, tt)))) closed_sample-IsValid withdrawn_row
      (inl refl) refl

-- The sample's application is hired in the end, and the withdrawal that comes after is refused.
hired_in_the_end :
    map (λ a. a.status) (run same_day calls sample).applications
    ≡ ApplicationStatus.under_review ∷ ApplicationStatus.hired ∷ []
unfolding submit_application open_job_for save_application insert_application new_application
    notify_user sends_email update_application_status find_and_change owned_application apply_change
    moved withdraw_application find_and_withdraw apply_withdrawal withdrawn job_with_company
    withdrawal_summary
hired_in_the_end = refl

repeated_same : SameMembers (32 ∷ 32 ∷ []) (32 ∷ [])
repeated_same a = ground arith
