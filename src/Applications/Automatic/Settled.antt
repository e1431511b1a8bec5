-- ===== src/Applications/Automatic/Settled.antt =====
-- What the daily round leaves: jobs for which nobody is chosen any more.
use seniors_empregabilidade.Prelude.{
  All, Bool, Bool-cases, IsIn, List, [], ap, arith, exists_where, false, inl, inr, is_none_of, not,
  refl, subst, suc, sym, true, ℕ, ◌&&◌, ◌+◌, ◌==◌, ◌∙◌, ◌∷◌, ◌≡◌,
}
use seniors_empregabilidade.Database.Enums.{is_active_account, is_available}
use seniors_empregabilidade.Database.Session.{Server}
use seniors_empregabilidade.Database.Tables.{Application, Candidate, Db, Job}
use seniors_empregabilidade.Applications.Automatic.{
  apply_to_job, automatic_application, insert_new, qualifies, shared_skill_ids,
}
use seniors_empregabilidade.Applications.Automatic.Daily.{
  apply_to_jobs, generate_automatic_applications_for_open_jobs, open_jobs,
}
use seniors_empregabilidade.Applications.Automatic.Rounds.{
  apply_none, apply_some, chosen_once, is_chosen, none_chosen, none_qualifies, required_set,
  score_of,
}
use seniors_empregabilidade.Applications.Submit.{has_applied}
use seniors_empregabilidade.Jobs.Compatibility.{CompatibilityScore}

-- Nobody is chosen for the job.
abbrev pub IsSettled : (threshold_percent : ℕ) → Db → (job_id : ℕ) → Type 0
IsSettled threshold_percent db job_id =
    (c : Candidate) → IsIn c db.candidates → is_chosen job_id threshold_percent db c ≡ false

still :
    (u v w h h' n q : Bool)
    → (h ≡ true → h' ≡ true)
    → ((u && (v && (w && not h))) && n) && q ≡ false
    → ((u && (v && (w && not h'))) && n) && q ≡ false
still u v w h h' n q grows none_now = ground (arith, grows, none_now)

grows-insert_new :
    (server : Server) (n job_id k other : ℕ) (ss : List CompatibilityScore)
    (rows : List Application)
    → has_applied k other rows ≡ true
    → has_applied k other (insert_new server n job_id ss rows).1 ≡ true
grows-insert_new server n job_id k other [] rows h = h
grows-insert_new server n job_id k other (s ∷ ss) rows h =
    elim (Bool-cases (has_applied s.candidate_id job_id rows)) [
      | inl old ↦ rw old (grows-insert_new server (n + 1) job_id k other ss rows h)
      | inr new ↦ rw new (
          grows-insert_new server (n + 1) job_id k other ss
            (automatic_application server n job_id s ∷ rows) (rw h (ground (arith, h))))
    ]

module _ (threshold_percent : ℕ) where
  rows_keep-IsSettled :
      (db : Db) (rows : List Application) (job_id : ℕ)
      → ((k : ℕ) → has_applied k job_id db.applications ≡ true → has_applied k job_id rows ≡ true)
      → IsSettled threshold_percent db job_id
      → IsSettled threshold_percent (record db { applications = rows }) job_id
  rows_keep-IsSettled db rows job_id grows settled c m =
      still (exists_where (λ u. u.id == c.id && is_active_account u.account_status) db.users)
        (is_available c.availability) c.accepts_automatic_application
        (has_applied c.id job_id db.applications) (has_applied c.id job_id rows)
        (not (is_none_of (shared_skill_ids (required_set job_id db) db c)))
        (qualifies threshold_percent (score_of job_id threshold_percent db c)) (grows c.id)
        (settled c m)

  module _ (server : Server) (job_id : ℕ) (db : Db) where
    apply_keeps-IsSettled :
        (other : ℕ)
        → IsSettled threshold_percent db other
        → IsSettled threshold_percent (apply_to_job server job_id threshold_percent db).1 other
    apply_keeps-IsSettled other settled = elim (Bool-cases (is_none_of (required_set job_id db))) [
      | inl none_required ↦
          subst (λ d. IsSettled threshold_percent d other)
            (sym (ap (λ r. r.1) (apply_none server job_id threshold_percent db none_required)))
            settled
      | inr some_required ↦
          subst (λ d. IsSettled threshold_percent d other)
            (sym (ap (λ r. r.1) (apply_some server job_id threshold_percent db some_required)))
            (rows_keep-IsSettled db _ other
              (λ k. grows-insert_new server 0 job_id k other _ db.applications) settled)
    ]

    apply_to_job-IsSettled :
        IsSettled threshold_percent (apply_to_job server job_id threshold_percent db).1 job_id
    apply_to_job-IsSettled = elim (Bool-cases (is_none_of (required_set job_id db))) [
      | inl none_required ↦
          subst (λ d. IsSettled threshold_percent d job_id)
            (sym (ap (λ r. r.1) (apply_none server job_id threshold_percent db none_required)))
            (λ c m. none_chosen job_id threshold_percent db none_required c)
      | inr some_required ↦
          subst (λ d. IsSettled threshold_percent d job_id)
            (sym (ap (λ r. r.1) (apply_some server job_id threshold_percent db some_required)))
            (chosen_once server server job_id threshold_percent db)
    ]

    settled_idle :
        IsSettled threshold_percent db job_id
        → apply_to_job server job_id threshold_percent db ≡ (0, db)
    settled_idle settled = elim (Bool-cases (is_none_of (required_set job_id db))) [
      | inl none_required ↦ apply_none server job_id threshold_percent db none_required
      | inr some_required ↦
          apply_some server job_id threshold_percent db some_required
          ∙ ap
              (λ ss.
                let r = insert_new server 0 job_id ss db.applications in
                (r.0, record db { applications = r.1 }))
              (none_qualifies job_id threshold_percent db settled)
    ]

  apply_to_jobs_keeps :
      (servers : ℕ → Server) (n : ℕ) (jobs : List Job) (db : Db) (other : ℕ)
      → IsSettled threshold_percent db other
      → IsSettled threshold_percent (apply_to_jobs servers n threshold_percent jobs db).1 other
  unfolding apply_to_jobs
  apply_to_jobs_keeps servers n [] db other settled = settled
  apply_to_jobs_keeps servers n (job ∷ jobs) db other settled =
      apply_to_jobs_keeps servers (suc n) jobs _ other
        (apply_keeps-IsSettled (servers n) job.id db other settled)

  apply_to_jobs-IsSettled :
      (servers : ℕ → Server) (n : ℕ) (jobs : List Job) (db : Db)
      → All
          (λ (j : Job).
            IsSettled threshold_percent (apply_to_jobs servers n threshold_percent jobs db).1 j.id)
          jobs
  unfolding apply_to_jobs
  apply_to_jobs-IsSettled servers n [] db = tt
  apply_to_jobs-IsSettled servers n (job ∷ jobs) db = (
    apply_to_jobs_keeps servers (suc n) jobs _ job.id
        (apply_to_job-IsSettled (servers n) job.id db),
    apply_to_jobs-IsSettled servers (suc n) jobs
        (apply_to_job (servers n) job.id threshold_percent db).1,
  )

  settled_jobs_idle :
      (servers : ℕ → Server) (n : ℕ) (jobs : List Job) (db : Db)
      → All (λ (j : Job). IsSettled threshold_percent db j.id) jobs
      → apply_to_jobs servers n threshold_percent jobs db ≡ (0, db)
  unfolding apply_to_jobs
  settled_jobs_idle servers n [] db all = refl
  settled_jobs_idle servers n (job ∷ jobs) db all =
      ap
        (λ r.
          let rest = apply_to_jobs servers (suc n) threshold_percent jobs r.1 in
          (r.0 + rest.0, rest.1))
        (settled_idle (servers n) job.id db all.0)
      ∙ ap (λ r. (0 + r.0, r.1)) (settled_jobs_idle servers (suc n) jobs db all.1)

  module _ (to_local_date : ℕ → ℕ) (now : ℕ) where
    -- A round writes neither jobs nor accounts.
    same_open_jobs_after :
        (server : Server) (job_id : ℕ) (db : Db)
        → open_jobs to_local_date now (apply_to_job server job_id threshold_percent db).1
          ≡ open_jobs to_local_date now db
    same_open_jobs_after server job_id db =
        elim (Bool-cases (is_none_of (required_set job_id db))) [
          | inl none_required ↦
              ap (λ r. open_jobs to_local_date now r.1)
                (apply_none server job_id threshold_percent db none_required)
          | inr some_required ↦
              ap (λ r. open_jobs to_local_date now r.1)
                (apply_some server job_id threshold_percent db some_required)
        ]

    same_open_jobs :
        (servers : ℕ → Server) (n : ℕ) (jobs : List Job) (db : Db)
        → open_jobs to_local_date now (apply_to_jobs servers n threshold_percent jobs db).1
          ≡ open_jobs to_local_date now db
    unfolding apply_to_jobs
    same_open_jobs servers n [] db = refl
    same_open_jobs servers n (job ∷ jobs) db =
        same_open_jobs servers (suc n) jobs _ ∙ same_open_jobs_after (servers n) job.id db

-- Running the daily round again at the same time with the same threshold creates no application and
-- leaves all tables as the first run left them.
pub generate_automatic_applications_for_open_jobs_twice :
    (to_local_date : ℕ → ℕ) (servers servers' : ℕ → Server) (threshold_percent now : ℕ) (db : Db)
    → let first =
        generate_automatic_applications_for_open_jobs to_local_date servers threshold_percent now
          db in
      generate_automatic_applications_for_open_jobs to_local_date servers' threshold_percent now
        first.1
      ≡ (0, first.1)
unfolding generate_automatic_applications_for_open_jobs
generate_automatic_applications_for_open_jobs_twice to_local_date servers servers' threshold_percent
      now db =
    ap
      (λ jobs.
        apply_to_jobs servers' 0 threshold_percent jobs
          (apply_to_jobs servers 0 threshold_percent (open_jobs to_local_date now db) db).1)
      (same_open_jobs threshold_percent to_local_date now servers 0 (open_jobs to_local_date now db)
        db)
    ∙ settled_jobs_idle threshold_percent servers' 0 (open_jobs to_local_date now db) _
        (apply_to_jobs-IsSettled threshold_percent servers 0 (open_jobs to_local_date now db) db)
