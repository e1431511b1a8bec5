-- ===== src/Applications/Automatic/Table.antt =====
-- What a round keeps of the application table, and how its scores count skills.
use seniors_empregabilidade.Prelude.{
  Bool-cases, List, ap, arith, inl, inr, intersection, is_none_of, leb, length, mem,
  mem-select_where, mem-to_set, mem-All, select_where, select_where_on, to_set, true, ℕ, ◌&&◌, ◌*◌,
  ◌+◌, ◌↔◌, ◌∙◌, ◌≡◌, ◌≤◌,
}
use seniors_empregabilidade.Database.Session.{Server}
use seniors_empregabilidade.Database.Tables.{Candidate, Db}
use seniors_empregabilidade.Applications.Automatic.{apply_to_job, qualifies, shared_skill_ids}
use seniors_empregabilidade.Applications.Automatic.Insert.{
  IsFreshFrom, insert_new-IsValid, length-insert_new,
}
use seniors_empregabilidade.Applications.Automatic.Rounds.{required_set, score_of}
use seniors_empregabilidade.Applications.Invariant.{IsValid}
use seniors_empregabilidade.Applications.Submit.{candidate_skill_ids}
use seniors_empregabilidade.Jobs.Compatibility.{score}
use seniors_empregabilidade.Jobs.Compatibility.Ranking.{required_count-score}

-- A round keeps the invariant of the application table, when the server generates identifiers that
-- differ from one another and are not in it. The number that it returns is the number of rows that
-- the table has gained.
pub apply_to_job_lem :
    (server : Server) (job_id threshold_percent : ℕ) (db : Db)
    → IsFreshFrom server job_id 0 db.applications
    → IsValid db.applications
    → let r = apply_to_job server job_id threshold_percent db in
      IsValid r.1.applications × (length r.1.applications ≡ r.0 + length db.applications)
unfolding apply_to_job
apply_to_job_lem server job_id threshold_percent db fresh v =
    elim (Bool-cases (is_none_of (required_set job_id db))) [
      | inl none_required ↦ rw none_required (v, omega arith)
      | inr some_required ↦ rw some_required (
        insert_new-IsValid server job_id 0 _ db.applications fresh v,
        length-insert_new server job_id 0 _ db.applications,
      )
    ]

leb_iff : {x x' y y' : ℕ} → x ≡ x' → y ≡ y' → (leb x y ≡ true) ↔ (x' ≤ y')
leb_iff e f = ground (arith, e, f)

shared_member :
    (required : List ℕ) (db : Db) (c : Candidate) (id : ℕ)
    → mem id required ≡ true
    → mem id (to_set (shared_skill_ids required db c)) ≡ mem id (candidate_skill_ids c.id db)
shared_member required db c id m =
    mem-to_set id (shared_skill_ids required db c)
    ∙ mem-to_set id (select_where (λ x. mem x required) (candidate_skill_ids c.id db))
    ∙ mem-select_where (λ x. mem x required) id (candidate_skill_ids c.id db)
    ∙ ap (λ b. b && mem id (candidate_skill_ids c.id db)) m

-- The score of a candidate in a round compares exact counts: the threshold is reached if and only
-- if the required skills that the candidate holds are at least that percentage of the required
-- skills.
pub qualifies-score_of :
    (job_id threshold_percent : ℕ) (db : Db) (c : Candidate)
    → let required = required_set job_id db in
      (qualifies threshold_percent (score_of job_id threshold_percent db c) ≡ true) ↔ (
        threshold_percent * length required
        ≤ length (intersection required (candidate_skill_ids c.id db)) * 100)
unfolding score
qualifies-score_of job_id threshold_percent db c =
    let required = required_set job_id db in
    leb_iff
      (ap (λ k. threshold_percent * k)
        (required_count-score required c.id (shared_skill_ids required db c)))
      (ap (λ ids. length ids * 100)
        (select_where_on _ _ required
          (mem-All _ required (λ id m. shared_member required db c id m))))
