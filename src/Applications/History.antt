-- ===== src/Applications/History.antt =====
-- Sequences of calls of the three services that write applications, and what becomes of the
-- application table and of each of its rows.
pub mod Rows
use seniors_empregabilidade.Prelude.{
  All, IsIn, List, Option-cases, [], arith, false, first_where-IsIn, inl, inr, refl, some, subst,
  sym, update_where, ℕ, ◌==◌, ◌∷◌, ◌≡◌, ◌≢◌,
}
use seniors_empregabilidade.Database.Enums.{ApplicationStatus, ApplicationType}
use seniors_empregabilidade.Database.Session.{Server}
use seniors_empregabilidade.Database.Tables.{Application, Db, Job}
use seniors_empregabilidade.Applications.Invariant.{
  IsFresh, IsValidApplication, moved-IsValidApplication, new_application-IsValidApplication,
  withdrawn-IsValidApplication,
}
use seniors_empregabilidade.Applications.Policies.{match_requirements}
use seniors_empregabilidade.Applications.Status.{Step, target_status}
use seniors_empregabilidade.Applications.Submit.{
  candidate_skill_ids, has_applied, new_application, required_skill_ids, submit_application,
}
use seniors_empregabilidade.Applications.Submit.Spec.{Outcome, submit_application-Outcome}
use seniors_empregabilidade.Applications.UpdateStatus.{
  UpdateApplicationStatusRequest, application_by_id, moved, owned_application, owned_job,
  update_application_status,
}
use seniors_empregabilidade.Applications.UpdateStatus.Spec.{
  Change, update_application_status-Change,
}
use seniors_empregabilidade.Applications.Withdraw.{withdraw_application, withdrawn}
use seniors_empregabilidade.Applications.Withdraw.Spec.{Withdrawal, withdraw_application-Withdrawal}

-- One call, with the arguments that its router passes on.
pub data Call : Type 0 where
  submit : Server → (job_id candidate_id now : ℕ) → Call
  update :
      Server → (application_id company_id : ℕ) → UpdateApplicationStatusRequest → (now : ℕ) → Call
  withdraw : (application_id candidate_id now : ℕ) → Call

module _ (to_local_date : ℕ → ℕ) where
  -- The tables after a call.
  abbrev pub after : Call → Db → Db
  after (submit server job_id candidate_id now) db =
      (submit_application to_local_date server job_id candidate_id now db).1
  after (update server application_id company_id request now) db =
      (update_application_status server application_id company_id request now db).1
  after (withdraw application_id candidate_id now) db =
      (withdraw_application to_local_date application_id candidate_id now db).1

  abbrev pub run : List Call → Db → Db
  run [] db = db
  run (call ∷ calls) db = run calls (after call db)

  -- The server generates an identifier that the application table does not hold.
  abbrev pub IsFreshCall : Call → Db → Type 0
  IsFreshCall (submit server job_id candidate_id now) db = IsFresh (server.uuid 0) db
  IsFreshCall _ db = Unit

  abbrev pub IsFreshRun : List Call → Db → Type 0
  IsFreshRun [] db = Unit
  IsFreshRun (call ∷ calls) db = IsFreshCall call db × IsFreshRun calls (after call db)

-- What one call does to the application table.
pub data TableStep (rows : List Application) : List Application → Type 0 where
  unchanged : TableStep rows rows
  inserted :
      (a : Application)
      → All (λ b. b.id ≢ a.id) rows
      → has_applied a.candidate_id a.job_id rows ≡ false
      → IsValidApplication a
      → a.status ≡ ApplicationStatus.under_review
      → TableStep rows (a ∷ rows)
  replaced :
      (f : Application → Application) (a : Application)
      → ((b : Application) → (f b).id ≡ b.id)
      → ((b : Application) → (f b).candidate_id ≡ b.candidate_id)
      → ((b : Application) → (f b).job_id ≡ b.job_id)
      → IsIn a rows
      → Step a.status (f a).status
      → (IsValidApplication a → IsValidApplication (f a))
      → TableStep rows (update_where (λ x. x.id == (f a).id) (λ _. f a) rows)

module _ (to_local_date : ℕ → ℕ) (db : Db) where
  abbrev Steps : Db → Type 0
  Steps db' = TableStep db.applications db'.applications

  submit-TableStep :
      (server : Server) (job_id candidate_id now : ℕ)
      → IsFresh (server.uuid 0) db
      → Steps (submit_application to_local_date server job_id candidate_id now db).1
  unfolding new_application
  submit-TableStep server job_id candidate_id now fresh =
      elim (submit_application-Outcome to_local_date server job_id candidate_id now db) [
        | Outcome.accepted job o known new user e ↦
            subst (λ r. Steps r.1) (sym e)
              (inserted
                (new_application server candidate_id job_id ApplicationType.active (
                  match_requirements (required_skill_ids job_id db)
                    (candidate_skill_ids candidate_id db)))
                fresh new
                (new_application-IsValidApplication server candidate_id job_id
                  ApplicationType.active (required_skill_ids job_id db)
                  (candidate_skill_ids candidate_id db))
                refl)
        | Outcome.missing n e ↦ subst (λ r. Steps r.1) (sym e) unchanged
        | Outcome.not_open job f n e ↦ subst (λ r. Steps r.1) (sym e) unchanged
        | Outcome.duplicate d e ↦ subst (λ r. Steps r.1) (sym e) unchanged
        | Outcome.unknown_candidate u e ↦ subst (λ r. Steps r.1) (sym e) unchanged
        | Outcome.unknown_company job f u e ↦ subst (λ r. Steps r.1) (sym e) unchanged
      ]

  owned_IsIn :
      (application_id company_id : ℕ) (a : Application) (job : Job)
      → owned_application application_id company_id db ≡ some (a, job)
      → IsIn a db.applications
  unfolding owned_application
  owned_IsIn application_id company_id a job e =
      elim (Option-cases (application_by_id application_id db)) [
        | inl n ↦ ground (arith, e, n)
        | inr (b, hit) ↦ elim (Option-cases (owned_job company_id db b)) [
          | inl n ↦ ground (arith, e, hit, n)
          | inr (j, mine) ↦ ground (
            arith,
            e,
            hit,
            mine,
            first_where-IsIn (λ x. x.id == application_id) db.applications b hit,
          )
        ]
      ]

  update-TableStep :
      (server : Server) (application_id company_id : ℕ) (request : UpdateApplicationStatusRequest)
      (now : ℕ)
      → Steps (update_application_status server application_id company_id request now db).1
  unfolding moved
  update-TableStep server application_id company_id request now =
      elim (update_application_status-Change server application_id company_id request now db) [
        | Change.changed a job owned st known e ↦
            subst (λ r. Steps r.1) (sym e)
              (replaced (moved (target_status request.status) request.reason now) a (λ b. refl)
                (λ b. refl) (λ b. refl) (owned_IsIn application_id company_id a job owned) st
                (moved-IsValidApplication request.status request.reason now a st))
        | Change.missing n e ↦ subst (λ r. Steps r.1) (sym e) unchanged
        | Change.closed a job o t e ↦ subst (λ r. Steps r.1) (sym e) unchanged
        | Change.not_allowed a job o t n e ↦ subst (λ r. Steps r.1) (sym e) unchanged
        | Change.unknown_candidate a job o u e ↦ subst (λ r. Steps r.1) (sym e) unchanged
      ]

  withdraw-TableStep :
      (application_id candidate_id now : ℕ)
      → Steps (withdraw_application to_local_date application_id candidate_id now db).1
  unfolding withdrawn
  withdraw-TableStep application_id candidate_id now =
      elim (withdraw_application-Withdrawal to_local_date application_id candidate_id now db) [
        | Withdrawal.left a title company own st both e ↦
            subst (λ r. Steps r.1) (sym e)
              (replaced (withdrawn now) a (λ b. refl) (λ b. refl) (λ b. refl)
                (first_where-IsIn _ db.applications a own) st (withdrawn-IsValidApplication now a))
        | Withdrawal.missing n e ↦ subst (λ r. Steps r.1) (sym e) unchanged
        | Withdrawal.closed a o t e ↦ subst (λ r. Steps r.1) (sym e) unchanged
        | Withdrawal.no_job a o n e ↦ subst (λ r. Steps r.1) (sym e) unchanged
      ]

  pub after-TableStep :
      (call : Call) → IsFreshCall to_local_date call db → Steps (after to_local_date call db)
  after-TableStep (submit server job_id candidate_id now) fresh =
      submit-TableStep server job_id candidate_id now fresh
  after-TableStep (update server application_id company_id request now) fresh =
      update-TableStep server application_id company_id request now
  after-TableStep (withdraw application_id candidate_id now) fresh =
      withdraw-TableStep application_id candidate_id now
