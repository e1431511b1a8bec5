-- ===== src/Jobs/ChangeStatus/Spec.antt =====
-- What opening and closing a job checks, writes and answers, on every branch.
use seniors_empregabilidade.Prelude.{
  Bool-cases, List, Option, Option-cases, ap, arith, false, inl, inr, is_some, ltb, ltb→lt, none,
  some, true, ℕ, ◌<◌, ◌≡◌, ◌≤◌,
}
use seniors_empregabilidade.Database.Errors.{Error, JobError}
use seniors_empregabilidade.Database.Session.{Result, err, ok, rolled_back}
use seniors_empregabilidade.Database.Tables.{Db, Job, Skill}
use seniors_empregabilidade.Jobs.ChangeStatus.{
  RequestedStatus, UpdateJobStatusRequest, change_job, change_job_status, chosen_date, close,
  closed_job, find_and_change_job, is_closable, is_closed_job, is_reopenable, own_job, reopen,
  reopened_job, save_job,
}
use seniors_empregabilidade.Jobs.Open.{is_open_at}
use seniors_empregabilidade.Jobs.Records.{JobRecord, job_record_of, skills_of_job}

-- When a request may change a job, and into what: the rule of the endpoint, as a relation.
pub data JobChange (to_local_date : ℕ → ℕ) (now : ℕ) (requested : Option ℕ) (job : Job)
    : RequestedStatus → Job → Type 0 where
  closes :
      is_closable job.status ≡ true
      → JobChange to_local_date now requested job RequestedStatus.to_closed (closed_job job)
  reopens :
      is_open_at to_local_date now job ≡ false
      → is_reopenable job.status ≡ true
      → to_local_date now ≤ chosen_date requested job
      → JobChange to_local_date now requested job RequestedStatus.to_open
          (reopened_job (chosen_date requested job) now job)

-- Why a request is refused.
pub data Refusal (to_local_date : ℕ → ℕ) (now : ℕ) (requested : Option ℕ) (job : Job)
    : RequestedStatus → JobError → Type 0 where
  already_closed :
      is_closed_job job.status ≡ true
      → Refusal to_local_date now requested job RequestedStatus.to_closed
          JobError.job_already_closed
  never_open :
      is_closed_job job.status ≡ false
      → is_closable job.status ≡ false
      → Refusal to_local_date now requested job RequestedStatus.to_closed
          JobError.job_status_change_not_allowed
  already_open :
      is_open_at to_local_date now job ≡ true
      → Refusal to_local_date now requested job RequestedStatus.to_open JobError.job_already_open
  unpublished :
      is_reopenable job.status ≡ false
      → Refusal to_local_date now requested job RequestedStatus.to_open
          JobError.job_status_change_not_allowed
  in_the_past :
      is_reopenable job.status ≡ true
      → chosen_date requested job < to_local_date now
      → Refusal to_local_date now requested job RequestedStatus.to_open
          JobError.closing_date_in_the_past

module _ (to_local_date : ℕ → ℕ) (requested : Option ℕ) (now : ℕ) (job : Job) (db : Db)
    (status : RequestedStatus) where
  pub data ChangeJob (r : Result Job × Db) : Type 0 where
    goes :
        (changed : Job)
        → JobChange to_local_date now requested job status changed
        → r ≡ (ok changed, db)
        → ChangeJob r
    refused :
        (e : JobError)
        → Refusal to_local_date now requested job status e
        → r ≡ (err (Error.job e), db)
        → ChangeJob r

close-ChangeJob :
    (to_local_date : ℕ → ℕ) (requested : Option ℕ) (now : ℕ) (job : Job) (db : Db)
    → ChangeJob to_local_date requested now job db RequestedStatus.to_closed (close job db)
unfolding close
close-ChangeJob to_local_date requested now job db = elim (Bool-cases (is_closed_job job.status)) [
  | inl c ↦ refused _ (already_closed c) (rw c)
  | inr o ↦ elim (Bool-cases (is_closable job.status)) [
    | inl can ↦ goes _ (closes can) (rw (o, can))
    | inr cannot ↦ refused _ (never_open o cannot) (rw (o, cannot))
  ]
]

reopen-ChangeJob :
    (to_local_date : ℕ → ℕ) (requested : Option ℕ) (now : ℕ) (job : Job) (db : Db)
    → ChangeJob to_local_date requested now job db RequestedStatus.to_open
        (reopen to_local_date (chosen_date requested job) now job db)
unfolding reopen
reopen-ChangeJob to_local_date requested now job db =
    elim (Bool-cases (is_open_at to_local_date now job)) [
      | inl o ↦ refused _ (already_open o) (rw o)
      | inr n ↦ elim (Bool-cases (is_reopenable job.status)) [
        | inr cannot ↦ refused _ (unpublished cannot) (rw (n, cannot))
        | inl can ↦ elim (Bool-cases (ltb (chosen_date requested job) (to_local_date now))) [
          | inl past ↦ refused _ (in_the_past can (ltb→lt _ _ past)) (rw (n, can, past))
          | inr fresh ↦ goes _ (reopens n can (ground (arith, fresh))) (rw (n, can, fresh))
        ]
      ]
    ]

change_job-ChangeJob :
    (to_local_date : ℕ → ℕ) (status : RequestedStatus) (requested : Option ℕ) (now : ℕ) (job : Job)
    (db : Db)
    → ChangeJob to_local_date requested now job db status
        (change_job to_local_date (record { status = status; closing_date = requested }) now job db)
unfolding change_job
change_job-ChangeJob to_local_date RequestedStatus.to_closed d now job db =
    close-ChangeJob to_local_date d now job db
change_job-ChangeJob to_local_date RequestedStatus.to_open d now job db =
    reopen-ChangeJob to_local_date d now job db

module _ (to_local_date : ℕ → ℕ) (order_by_name : List Skill → List Skill) (job_id company_id : ℕ)
    (request : UpdateJobStatusRequest) (now : ℕ) (db : Db) where
  -- Every way in which the call can end.
  pub data JobOutcomeOf (r : Result JobRecord × Db) : Type 0 where
    done :
        (job changed : Job)
        → own_job job_id company_id db ≡ some job
        → JobChange to_local_date now request.closing_date job request.status changed
        → r ≡ (
          ok (job_record_of changed (skills_of_job order_by_name changed.id db)),
          save_job changed db,
        )
        → JobOutcomeOf r
    missing :
        own_job job_id company_id db ≡ none
        → r ≡ (err (Error.job JobError.job_not_found), db)
        → JobOutcomeOf r
    turned_down :
        (job : Job) (e : JobError)
        → own_job job_id company_id db ≡ some job
        → Refusal to_local_date now request.closing_date job request.status e
        → r ≡ (err (Error.job e), db)
        → JobOutcomeOf r

-- Opening or closing a job ends in one of three ways. It is done for one of the company's own jobs
-- when the endpoint's rule allows it, changes exactly that row and answers the changed job with its
-- skills. Another company's job is answered like one that does not exist. Any other request is
-- refused with the error of the rule that it breaks, and then all tables stay as they were.
pub change_job_status-JobOutcomeOf :
    (to_local_date : ℕ → ℕ) (order_by_name : List Skill → List Skill) (job_id company_id : ℕ)
    (request : UpdateJobStatusRequest) (now : ℕ) (db : Db)
    → JobOutcomeOf to_local_date order_by_name job_id company_id request now db
        (change_job_status to_local_date order_by_name job_id company_id request now db)
unfolding change_job_status find_and_change_job
change_job_status-JobOutcomeOf to_local_date order_by_name job_id company_id request now db =
    elim (Option-cases (own_job job_id company_id db)) [
      | inl n ↦
          missing n (ap (rolled_back db) {y = (err (Error.job JobError.job_not_found), db)} (rw n))
      | inr (job, own) ↦
          elim (change_job-ChangeJob to_local_date request.status request.closing_date now job db) [
            | goes changed c e ↦ done job changed own c (
                ap (rolled_back db)
                  {y = (
                    ok (job_record_of changed (skills_of_job order_by_name changed.id db)),
                    save_job changed db,
                  )}
                  (rw (own, e)))
            | refused err_ c e ↦
                turned_down job err_ own c
                  (ap (rolled_back db) {y = (err (Error.job err_), db)} (rw (own, e)))
          ]
    ]

-- A job that a request has opened is open at that moment, and dated as published.
pub JobChange-is_open :
    (to_local_date : ℕ → ℕ) (now : ℕ) (requested : Option ℕ) (job changed : Job)
    → JobChange to_local_date now requested job RequestedStatus.to_open changed
    → (is_open_at to_local_date now changed ≡ true) × (is_some changed.published_at ≡ true)
unfolding reopened_job
JobChange-is_open to_local_date now requested job changed (reopens closed_now can fresh) = (
  ground (arith, fresh),
  elim (Option-cases job.published_at) [ inl n ↦ rw n | inr (t, e) ↦ rw e ],
)
