-- ===== src/Applications/Automatic/Daily.antt =====
-- The daily round of app/applications/services/generate_automatic_applications.py
use seniors_empregabilidade.Prelude.{
  Bool, List, [], if◌then◌else◌, ltb, select_where, suc, ℕ, ◌&&◌, ◌+◌, ◌==◌, ◌||◌, ◌∷◌,
}
use seniors_empregabilidade.Database.Session.{Server}
use seniors_empregabilidade.Database.Tables.{Db, Job}
use seniors_empregabilidade.Applications.Automatic.{apply_to_job, is_applicable}

-- `ORDER BY job.created_at, job.id`, one step of the sort.
abbrev pub is_older_job : Job → Job → Bool
is_older_job a b = ltb a.created_at b.created_at || (a.created_at == b.created_at && ltb a.id b.id)

abbrev pub insert_by_age : Job → List Job → List Job
insert_by_age j [] = j ∷ []
insert_by_age j (k ∷ ks) =
    let rest = insert_by_age j ks in if is_older_job k j then k ∷ rest else j ∷ k ∷ ks

abbrev pub oldest_jobs_first : List Job → List Job
oldest_jobs_first [] = []
oldest_jobs_first (j ∷ jobs) = insert_by_age j (oldest_jobs_first jobs)

-- The loop over the jobs. PostgreSQL generates new identifiers for each job: `servers n` for the
-- `n`-th.
unfoldable pub apply_to_jobs :
    (servers : ℕ → Server) (n threshold_percent : ℕ) → List Job → Db → ℕ × Db
apply_to_jobs servers n threshold_percent [] db = (0, db)
apply_to_jobs servers n threshold_percent (job ∷ jobs) db =
    let one = apply_to_job (servers n) job.id threshold_percent db in
    let rest = apply_to_jobs servers (suc n) threshold_percent jobs one.1 in
    (one.0 + rest.0, rest.1)

module _ (to_local_date : ℕ → ℕ) where
  abbrev pub open_jobs : (now : ℕ) → Db → List Job
  open_jobs now db = oldest_jobs_first (select_where (is_applicable to_local_date now db) db.jobs)

  unfoldable pub generate_automatic_applications_for_open_jobs :
      (servers : ℕ → Server) (threshold_percent now : ℕ) → Db → ℕ × Db
  generate_automatic_applications_for_open_jobs servers threshold_percent now db =
      apply_to_jobs servers 0 threshold_percent (open_jobs now db) db
