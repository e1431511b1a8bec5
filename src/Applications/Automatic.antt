-- ===== src/Applications/Automatic.antt =====
-- app/applications/services/generate_automatic_applications.py and
-- app/applications/domain/policies/automatic_application_policy.py
pub mod Daily
pub mod Insert
pub mod Rounds
pub mod Settled
pub mod Table
pub mod Trigger
use seniors_empregabilidade.Prelude.{
  Bool, List, [], exists_where, if◌then◌else◌, is_none_of, leb, mem, none, not, select_where, some,
  to_set, ℕ, ◌&&◌, ◌*◌, ◌+◌, ◌==◌, ◌∷◌,
}
use seniors_empregabilidade.Database.Enums.{
  ApplicationStatus, ApplicationType, is_active_account, is_available,
}
use seniors_empregabilidade.Database.Session.{Server}
use seniors_empregabilidade.Database.Tables.{Application, Candidate, Db, Job}
use seniors_empregabilidade.Applications.Submit.{
  candidate_skill_ids, has_applied, required_skill_ids,
}
use seniors_empregabilidade.Jobs.Compatibility.{
  CompatibilityScore, matched_count, rank, required_count,
}
use seniors_empregabilidade.Jobs.Open.{is_open_at, publishing_company_is_not_blocked}

-- `qualifies_for_automatic_application`
abbrev pub qualifies : (threshold_percent : ℕ) → CompatibilityScore → Bool
qualifies threshold_percent s = leb (threshold_percent * required_count s) (matched_count s * 100)

-- One step of the stable sort by identifier.
abbrev pub insert_candidate : Candidate → List Candidate → List Candidate
insert_candidate c [] = c ∷ []
insert_candidate c (d ∷ ds) =
    let rest = insert_candidate c ds in if leb c.id d.id then c ∷ d ∷ ds else d ∷ rest

-- `ORDER BY candidate.id`
abbrev pub by_id : List Candidate → List Candidate
by_id [] = []
by_id (c ∷ cs) = insert_candidate c (by_id cs)

-- The query's conditions on a candidate and the account.
abbrev pub is_eligible : (job_id : ℕ) → Db → Candidate → Bool
is_eligible job_id db c =
    exists_where (λ u. u.id == c.id && is_active_account u.account_status) db.users
    && (is_available c.availability
        && (c.accepts_automatic_application && not (has_applied c.id job_id db.applications)))

-- The required skills that a candidate holds.
abbrev pub shared_skill_ids : (required : List ℕ) → Db → Candidate → List ℕ
shared_skill_ids required db c =
    to_set (select_where (λ id. mem id required) (candidate_skill_ids c.id db))

-- A candidate without a row in the join has no entry in the dictionary.
abbrev pub shared_of : (job_id : ℕ) (required : List ℕ) → Db → List Candidate → List (ℕ × List ℕ)
shared_of job_id required db [] = []
shared_of job_id required db (c ∷ cs) =
    let rest = shared_of job_id required db cs in
    if is_eligible job_id db c && not (is_none_of (shared_skill_ids required db c))
    then (c.id, shared_skill_ids required db c) ∷ rest
    else rest

-- `_shared_skill_ids_by_candidate`
abbrev pub shared_skill_ids_by_candidate : (job_id : ℕ) (required : List ℕ) → Db → List (ℕ × List ℕ)
shared_skill_ids_by_candidate job_id required db =
    shared_of job_id required db (by_id db.candidates)

-- One of the inserted rows, the `n`-th for which the server generates an identifier.
unfoldable pub automatic_application :
    Server → (n : ℕ) (job_id : ℕ) → CompatibilityScore → Application
automatic_application server n job_id s = record {
  id = server.uuid n;
  candidate_id = s.candidate_id;
  job_id = job_id;
  type = ApplicationType.automatic;
  status = ApplicationStatus.under_review;
  match_score = none;
  closed_at = none;
  matched_requirements = some (matched_count s);
  total_requirements = some (required_count s);
  reason = none;
  created_at = server.now;
  updated_at = server.now;
}

-- `INSERT ... ON CONFLICT (candidate_id, job_id) DO NOTHING RETURNING id`: how many rows went in,
-- and the table afterwards.
abbrev pub insert_new :
    Server
    → (n : ℕ) (job_id : ℕ) → List CompatibilityScore
    → List Application
    → ℕ × List Application
insert_new server n job_id [] rows = (0, rows)
insert_new server n job_id (s ∷ ss) rows =
    let skipped = insert_new server (n + 1) job_id ss rows in
    let added =
      insert_new server (n + 1) job_id ss (automatic_application server n job_id s ∷ rows) in
    if has_applied s.candidate_id job_id rows then skipped else (added.0 + 1, added.1)

-- The scores that the insertion writes.
abbrev pub qualifying_scores :
    (job_id : ℕ) (required : List ℕ) (threshold_percent : ℕ) → Db → List CompatibilityScore
qualifying_scores job_id required threshold_percent db =
    select_where (qualifies threshold_percent)
      (rank required (shared_skill_ids_by_candidate job_id required db))

-- `_apply_to_job`: the number of applications created, and the tables afterwards.
unfoldable pub apply_to_job : Server → (job_id threshold_percent : ℕ) → Db → ℕ × Db
apply_to_job server job_id threshold_percent db =
    let required = to_set (required_skill_ids job_id db) in
    let inserted =
      insert_new server 0 job_id (qualifying_scores job_id required threshold_percent db)
        db.applications in
    if is_none_of required then (0, db) else (inserted.0, record db { applications = inserted.1 })

module _ (to_local_date : ℕ → ℕ) where
  -- The job is open and the account of its company exists and is not blocked.
  abbrev pub is_applicable : (now : ℕ) → Db → Job → Bool
  is_applicable now db job =
      is_open_at to_local_date now job
      && exists_where (λ u. u.id == job.company_id && publishing_company_is_not_blocked u) db.users

  unfoldable pub generate_automatic_applications_for_job :
      Server → (job_id threshold_percent now : ℕ) → Db → ℕ × Db
  generate_automatic_applications_for_job server job_id threshold_percent now db =
      if exists_where (λ j. j.id == job_id && is_applicable now db j) db.jobs
      then apply_to_job server job_id threshold_percent db
      else (0, db)
