-- ===== src/Applications/Automatic/Rounds.antt =====
-- What a round of automatic applications guarantees.
use seniors_empregabilidade.Prelude.{
  ==_refl, Bool, Bool-cases, IsIn, IsIn-All, List, [], ap, arith, exists_where, exists_where-IsIn,
  exists_where-none, exists_where-select_where, false, false≢true, inl, inr, is_none_of, mem, not,
  refl, select_where, select_where_empty, subst, sym, to_set, true, ℕ, ◌&&◌, ◌==◌, ◌||◌, ◌∙◌, ◌∷◌,
  ◌≡◌,
}
use seniors_empregabilidade.Database.Enums.{is_active_account, is_available}
use seniors_empregabilidade.Database.Session.{Server}
use seniors_empregabilidade.Database.Tables.{Application, Candidate, Db}
use seniors_empregabilidade.Applications.Automatic.{
  apply_to_job, by_id, insert_candidate, insert_new, is_eligible, qualifies, qualifying_scores,
  shared_of, shared_skill_ids, shared_skill_ids_by_candidate,
}
use seniors_empregabilidade.Applications.Automatic.Insert.{has_applied-insert_new}
use seniors_empregabilidade.Applications.History.{after}
use seniors_empregabilidade.Applications.Submit.{
  candidate_skill_ids, has_applied, required_skill_ids,
}
use seniors_empregabilidade.Jobs.Compatibility.{CompatibilityScore, all_scores, rank, score}
use seniors_empregabilidade.Jobs.Compatibility.Ranking.{exists_where-sorted_scores}

exists-insert_candidate :
    (q : Candidate → Bool) (c : Candidate) (cs : List Candidate)
    → exists_where q (insert_candidate c cs) ≡ (q c || exists_where q cs)
exists-insert_candidate q c [] = refl
exists-insert_candidate q c (d ∷ ds) = ground (arith, exists-insert_candidate q c ds)

pub exists_where-by_id :
    (q : Candidate → Bool) (cs : List Candidate) → exists_where q (by_id cs) ≡ exists_where q cs
exists_where-by_id q [] = refl
exists_where-by_id q (c ∷ cs) =
    exists-insert_candidate q c (by_id cs) ∙ ap (λ r. q c || r) (exists_where-by_id q cs)

exists_where-same :
    (p q : Candidate → Bool) (cs : List Candidate)
    → ((c : Candidate) → p c ≡ q c)
    → exists_where p cs ≡ exists_where q cs
exists_where-same p q [] h = refl
exists_where-same p q (c ∷ cs) h = rw (h c, exists_where-same p q cs h)

abbrev pub required_set : (job_id : ℕ) → Db → List ℕ
required_set job_id db = to_set (required_skill_ids job_id db)

module _ (job_id threshold_percent : ℕ) (db : Db) where
  abbrev pub required : List ℕ
  required = required_set job_id db

  -- The score that the round gives to a candidate.
  abbrev pub score_of : Candidate → CompatibilityScore
  score_of c = score required c.id (shared_skill_ids required db c)

  -- The candidate is eligible, holds one of the required skills and reaches the threshold.
  abbrev pub is_chosen : Candidate → Bool
  is_chosen c =
      (is_eligible job_id db c && not (is_none_of (shared_skill_ids required db c)))
      && qualifies threshold_percent (score_of c)

  exists-shared_of :
      (q : CompatibilityScore → Bool) (cs : List Candidate)
      → exists_where q (all_scores required (shared_of job_id required db cs))
        ≡ exists_where
            (λ c.
              (is_eligible job_id db c && not (is_none_of (shared_skill_ids required db c)))
              && q (score_of c))
            cs
  exists-shared_of q [] = refl
  exists-shared_of q (c ∷ cs) =
      elim (Bool-cases
        (is_eligible job_id db c && not (is_none_of (shared_skill_ids required db c)))) [
          | inl h ↦ rw (h, exists-shared_of q cs)
          | inr h ↦ rw (h, exists-shared_of q cs)
        ]

  exists-qualifying :
      (k : ℕ)
      → exists_where
          (λ s. s.candidate_id == k)
          (qualifying_scores job_id required threshold_percent db)
        ≡ exists_where (λ c. is_chosen c && c.id == k) db.candidates
  unfolding score
  exists-qualifying k =
      exists_where-select_where (qualifies threshold_percent) (λ s. s.candidate_id == k)
        (rank required (shared_skill_ids_by_candidate job_id required db))
      ∙ exists_where-sorted_scores (λ s. qualifies threshold_percent s && s.candidate_id == k)
          (all_scores required (shared_skill_ids_by_candidate job_id required db))
      ∙ exists-shared_of (λ s. qualifies threshold_percent s && s.candidate_id == k)
          (by_id db.candidates)
      ∙ exists_where-by_id _ db.candidates
      ∙ exists_where-same _ _ db.candidates (λ c. ground arith)

abbrev inserted_rows : Server → (job_id threshold_percent : ℕ) → Db → ℕ × List Application
inserted_rows server job_id threshold_percent db =
    insert_new server 0 job_id
      (qualifying_scores job_id (required_set job_id db) threshold_percent db) db.applications

module _ (server : Server) (job_id threshold_percent : ℕ) (db : Db) where
  pub apply_none :
      is_none_of (required_set job_id db) ≡ true
      → apply_to_job server job_id threshold_percent db ≡ (0, db)
  unfolding apply_to_job
  apply_none h = rw h

  pub apply_some :
      is_none_of (required_set job_id db) ≡ false
      → apply_to_job server job_id threshold_percent db ≡ (
        (inserted_rows server job_id threshold_percent db).0,
        record db { applications = (inserted_rows server job_id threshold_percent db).1 },
      )
  unfolding apply_to_job
  apply_some h = rw h

  has_applied-inserted_rows :
      (k : ℕ)
      → has_applied k job_id (inserted_rows server job_id threshold_percent db).1 ≡ (
          has_applied k job_id db.applications
          || exists_where (λ c. is_chosen job_id threshold_percent db c && c.id == k) db.candidates)
  has_applied-inserted_rows k =
      has_applied-insert_new server job_id 0 k
        (qualifying_scores job_id (required_set job_id db) threshold_percent db) db.applications
      ∙ ap (λ b. has_applied k job_id db.applications || b)
          (exists-qualifying job_id threshold_percent db k)

select_none : (ids : List ℕ) → select_where (λ id. mem id []) ids ≡ []
select_none [] = refl
select_none (id ∷ ids) = select_none ids

none_shared :
    (required : List ℕ) (db : Db) (c : Candidate)
    → is_none_of required ≡ true
    → is_none_of (shared_skill_ids required db c) ≡ true
none_shared [] db c h =
    ap (λ ids. is_none_of (to_set ids)) (select_none (candidate_skill_ids c.id db))
none_shared (x ∷ xs) db c h = absurd (false≢true h)

none_passes : (a b c : Bool) → b ≡ true → ((a && not b) && c) ≡ false
none_passes a b c h = ground arith

-- Without required skills nobody is chosen.
pub none_chosen :
    (job_id threshold_percent : ℕ) (db : Db)
    → is_none_of (required_set job_id db) ≡ true
    → (c : Candidate) → is_chosen job_id threshold_percent db c ≡ false
none_chosen job_id threshold_percent db h c =
    none_passes (is_eligible job_id db c)
      (is_none_of (shared_skill_ids (required_set job_id db) db c))
      (qualifies threshold_percent (score_of job_id threshold_percent db c))
      (none_shared (required_set job_id db) db c h)

unchanged_or : (a b : Bool) → b ≡ false → a ≡ (a || b)
unchanged_or a b h = ground arith

-- After a round for a job, a candidate has an application to it exactly if there was one before or
-- the candidate was chosen: eligible, holding a required skill, and with a score that reaches the
-- threshold.
pub has_applied-apply_to_job :
    (server : Server) (job_id threshold_percent : ℕ) (db : Db) (candidate_id : ℕ)
    → has_applied candidate_id job_id
        (apply_to_job server job_id threshold_percent db).1.applications
      ≡ (has_applied candidate_id job_id db.applications
          || exists_where
              (λ c. is_chosen job_id threshold_percent db c && c.id == candidate_id)
              db.candidates)
has_applied-apply_to_job server job_id threshold_percent db k =
    elim (Bool-cases (is_none_of (required_set job_id db))) [
      | inr some_required ↦
          ap (λ r. has_applied k job_id r.1.applications)
            (apply_some server job_id threshold_percent db some_required)
          ∙ has_applied-inserted_rows server job_id threshold_percent db k
      | inl none_required ↦
          ap (λ r. has_applied k job_id r.1.applications)
            (apply_none server job_id threshold_percent db none_required)
          ∙ unchanged_or _ _ (
              exists_where-none _ db.candidates (
                IsIn-All _ db.candidates (λ c m.
                  ap (λ b. b && c.id == k)
                    (none_chosen job_id threshold_percent db none_required c))))
    ]

stale :
    (u v w h h' n q e : Bool)
    → h' ≡ (h || e)
    → (((u && (v && (w && not h))) && n) && q ≡ true → e ≡ true)
    → ((u && (v && (w && not h'))) && n) && q ≡ false
stale u v w h h' n q e after chosen = ground (arith, chosen)

-- When nobody is chosen, no score qualifies.
pub none_qualifies :
    (job_id threshold_percent : ℕ) (db : Db)
    → ((c : Candidate) → IsIn c db.candidates → is_chosen job_id threshold_percent db c ≡ false)
    → qualifying_scores job_id (required_set job_id db) threshold_percent db ≡ []
none_qualifies job_id threshold_percent db nobody =
    select_where_empty (qualifies threshold_percent)
      (rank (required_set job_id db)
        (shared_skill_ids_by_candidate job_id (required_set job_id db) db))
      (exists_where-sorted_scores (qualifies threshold_percent) (
          all_scores (required_set job_id db)
            (shared_skill_ids_by_candidate job_id (required_set job_id db) db))
        ∙ exists-shared_of job_id threshold_percent db (qualifies threshold_percent)
            (by_id db.candidates)
        ∙ exists_where-by_id (is_chosen job_id threshold_percent db) db.candidates
        ∙ exists_where-none _ db.candidates (IsIn-All _ db.candidates nobody))

module _ (server server' : Server) (job_id threshold_percent : ℕ) (db : Db) where
  abbrev inserted_db : Db
  inserted_db = record db { applications = (inserted_rows server job_id threshold_percent db).1 }

  -- Nobody is chosen again once the round's rows are there.
  pub chosen_once :
      (c : Candidate)
      → IsIn c db.candidates
      → is_chosen job_id threshold_percent inserted_db c ≡ false
  chosen_once c m =
      stale (exists_where (λ u. u.id == c.id && is_active_account u.account_status) db.users)
        (is_available c.availability) c.accepts_automatic_application
        (has_applied c.id job_id db.applications) (has_applied c.id job_id inserted_db.applications)
        (not (is_none_of (shared_skill_ids (required_set job_id db) db c)))
        (qualifies threshold_percent (score_of job_id threshold_percent db c))
        (exists_where (λ x. is_chosen job_id threshold_percent db x && x.id == c.id) db.candidates)
        (has_applied-inserted_rows server job_id threshold_percent db c.id)
        (λ chosen.
          exists_where-IsIn _ db.candidates c m (ap (λ b. b && c.id == c.id) chosen ∙ ==_refl c.id))

  nothing_left :
      qualifying_scores job_id (required_set job_id db) threshold_percent inserted_db ≡ []
  nothing_left = none_qualifies job_id threshold_percent inserted_db chosen_once

  -- A second round for the same job creates no application and leaves all tables as the first round
  -- left them.
  pub apply_to_job_twice :
      apply_to_job server' job_id threshold_percent
        (apply_to_job server job_id threshold_percent db).1
      ≡ (0, (apply_to_job server job_id threshold_percent db).1)
  apply_to_job_twice = elim (Bool-cases (is_none_of (required_set job_id db))) [
    | inl none_required ↦
        subst (λ d. apply_to_job server' job_id threshold_percent d ≡ (0, d))
          (sym (ap (λ r. r.1) (apply_none server job_id threshold_percent db none_required)))
          (apply_none server' job_id threshold_percent db none_required)
    | inr some_required ↦
        subst (λ d. apply_to_job server' job_id threshold_percent d ≡ (0, d))
          (sym (ap (λ r. r.1) (apply_some server job_id threshold_percent db some_required)))
          (apply_some server' job_id threshold_percent inserted_db some_required
            ∙ ap
                (λ ss.
                  let r = insert_new server' 0 job_id ss inserted_db.applications in
                  (r.0, record inserted_db { applications = r.1 }))
                nothing_left)
  ]
