-- ===== src/Applications/Withdraw/Spec.antt =====
-- What a withdrawal checks, writes and answers, on every branch.
use seniors_empregabilidade.Prelude.{
  Bool-cases, Option-cases, Str, ap, arith, false, inl, inr, none, not, refl, some, true, ℕ, ◌∙◌,
  ◌≡◌,
}
use seniors_empregabilidade.Database.Enums.{ApplicationStatus}
use seniors_empregabilidade.Database.Errors.{ApplicationError, Error}
use seniors_empregabilidade.Database.Session.{
  >>=_ok, Result, continue, err, ok, or_raise, pure, raise_if, raise_if_pass, rolled_back,
}
use seniors_empregabilidade.Database.Tables.{Application, Db}
use seniors_empregabilidade.Applications.Status.{
  Step, is_active, is_active-Step, is_active-not, is_terminal,
}
use seniors_empregabilidade.Applications.UpdateStatus.{save_application_row}
use seniors_empregabilidade.Applications.Withdraw.{
  ApplicationSummary, apply_withdrawal, find_and_withdraw, job_with_company, own_application,
  withdraw_application, withdrawal_summary, withdrawn,
}
use seniors_empregabilidade.Notifications.Dispatch.{joined}

module _ (to_local_date : ℕ → ℕ) (application_id candidate_id now : ℕ) (db : Db) where
  abbrev pub withdrawn_db : Application → Db
  withdrawn_db a = save_application_row (withdrawn now a) db

  -- Every way in which the call can end, with what it means and what it leaves behind.
  pub data Withdrawal (r : Result ApplicationSummary × Db) : Type 0 where
    left :
        (a : Application) (title company : Str)
        → own_application application_id candidate_id db ≡ some a
        → Step a.status ApplicationStatus.withdrawn
        → job_with_company a.job_id db ≡ some (title, company)
        → r ≡ (
          ok (withdrawal_summary to_local_date now (withdrawn now a) (title, company)),
          withdrawn_db a,
        )
        → Withdrawal r
    missing :
        own_application application_id candidate_id db ≡ none
        → r ≡ (err (Error.application ApplicationError.application_not_found), db)
        → Withdrawal r
    closed :
        (a : Application)
        → own_application application_id candidate_id db ≡ some a
        → is_terminal a.status ≡ true
        → r ≡ (err (Error.application ApplicationError.application_already_closed), db)
        → Withdrawal r
    no_job :
        (a : Application)
        → own_application application_id candidate_id db ≡ some a
        → job_with_company a.job_id db ≡ none
        → r ≡ (err Error.unexpected, db)
        → Withdrawal r

  module _ (a : Application) where
    withdrawal_closed :
        is_active a.status ≡ false
        → apply_withdrawal to_local_date now a db
          ≡ (err (Error.application ApplicationError.application_already_closed), db)
    unfolding apply_withdrawal
    withdrawal_closed h = rw h

    -- The join reads tables that the withdrawal has not written.
    same_join : job_with_company a.job_id (withdrawn_db a) ≡ job_with_company a.job_id db
    unfolding job_with_company
    same_join = refl

    guard_pass :
        is_active a.status ≡ true
        → apply_withdrawal to_local_date now a db
          ≡ continue
              (λ job. pure (withdrawal_summary to_local_date now (withdrawn now a) job))
              (or_raise
                (job_with_company a.job_id (withdrawn_db a))
                Error.unexpected
                (withdrawn_db a))
    unfolding apply_withdrawal withdrawn
    guard_pass h =
        >>=_ok (raise_if (not (is_active a.status)) _) _ (raise_if_pass _ _ db (ap not h))

  module _ (a : Application) (own : own_application application_id candidate_id db ≡ some a) where
    found :
        (r : Result ApplicationSummary × Db)
        → apply_withdrawal to_local_date now a db ≡ r
        → withdraw_application to_local_date application_id candidate_id now db ≡ rolled_back db r
    unfolding withdraw_application find_and_withdraw
    found r e = ap (rolled_back db) (rw own e)

    found-Withdrawal :
        Withdrawal (withdraw_application to_local_date application_id candidate_id now db)
    found-Withdrawal = elim (Bool-cases (is_active a.status)) [
      | inr over ↦
          closed a own (ground (arith, is_active-not a.status)) (found _ (withdrawal_closed a over))
      | inl active ↦ elim (Option-cases (job_with_company a.job_id db)) [
        | inl none_joined ↦ no_job a own none_joined (
            found (err Error.unexpected, withdrawn_db a)
              (guard_pass a active ∙ rw (same_join a, none_joined)))
        | inr ((title, company), joined) ↦
            left a title company own (is_active-Step a.status active) joined (
              found
                (
                  ok (withdrawal_summary to_local_date now (withdrawn now a) (title, company)),
                  withdrawn_db a,
                )
                (guard_pass a active ∙ rw (same_join a, joined)))
      ]
    ]

-- A withdrawal ends in one of four ways. It goes through for the candidate's own application while
-- it is active, and then changes exactly that row. Someone else's application is answered like one
-- that does not exist, and every refusal leaves all tables as they were.
pub withdraw_application-Withdrawal :
    (to_local_date : ℕ → ℕ) (application_id candidate_id now : ℕ) (db : Db)
    → Withdrawal to_local_date application_id candidate_id now db
        (withdraw_application to_local_date application_id candidate_id now db)
unfolding withdraw_application find_and_withdraw
withdraw_application-Withdrawal to_local_date application_id candidate_id now db =
    elim (Option-cases (own_application application_id candidate_id db)) [
      | inl none_own ↦ missing none_own (
          ap (rolled_back db)
            {y = (err (Error.application ApplicationError.application_not_found), db)}
            (rw none_own))
      | inr (a, own) ↦ found-Withdrawal to_local_date application_id candidate_id now db a own
    ]
