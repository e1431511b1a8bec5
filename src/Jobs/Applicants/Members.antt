-- ===== src/Jobs/Applicants/Members.antt =====
-- Who is in the list of a job.
use seniors_empregabilidade.Prelude.{
  ==_iff, ==_refl, Bool, Bool-cases, List, Option, [], ap, arith, exists_where,
  exists_where-select_where, first_where, inl, inr, is_some, map, mem, none, refl, select_where,
  some, sym, to_set, ℕ, ◌&&◌, ◌++◌, ◌==◌, ◌||◌, ◌∙◌, ◌∷◌, ◌≡◌,
}
use seniors_empregabilidade.Database.Tables.{Application, Candidate, Db}
use seniors_empregabilidade.Applications.Automatic.{by_id}
use seniors_empregabilidade.Applications.Automatic.Rounds.{exists_where-by_id}
use seniors_empregabilidade.Applications.Submit.{candidate_exists, candidate_skill_ids, has_applied}
use seniors_empregabilidade.Jobs.Applicants.{
  ApplicantRow, applicant_rows, automatic_match_candidate_ids, by_creation, candidate_by_id,
  insert_by_creation, is_possible_match, row_before, rows_of,
}
use seniors_empregabilidade.Jobs.Applicants.Listing.{
  is_listed, listed_scores, resume_skills, row_candidate_ids,
}
use seniors_empregabilidade.Jobs.Compatibility.{
  CompatibilityScore, all_scores, is_automatic_match, rank, score,
}
use seniors_empregabilidade.Jobs.Compatibility.Ranking.{exists_where-sorted_scores}

exists-insert_by_creation :
    (q : Application → Bool) (a : Application) (rows : List Application)
    → exists_where q (insert_by_creation a rows) ≡ (q a || exists_where q rows)
exists-insert_by_creation q a [] = refl
exists-insert_by_creation q a (b ∷ rows) = ground (arith, exists-insert_by_creation q a rows)

exists_where-by_creation :
    (q : Application → Bool) (rows : List Application)
    → exists_where q (by_creation rows) ≡ exists_where q rows
exists_where-by_creation q [] = refl
exists_where-by_creation q (a ∷ rows) =
    exists-insert_by_creation q a (by_creation rows)
    ∙ ap (λ r. q a || r) (exists_where-by_creation q rows)

exists-first :
    (id : ℕ) (cs : List Candidate)
    → exists_where (λ (c : Candidate). c.id == id) cs
      ≡ is_some (first_where (λ (c : Candidate). c.id == id) cs)
exists-first id [] = refl
exists-first id (c ∷ cs) = ground (arith, exists-first id cs)

module _ (job_id : ℕ) (db : Db) (candidate_id : ℕ) where
  mem-row_before :
      (a : Application) (found : Option Candidate) (rows : List ApplicantRow)
      → mem candidate_id (row_candidate_ids (row_before a found rows)) ≡ (
          (is_some found && a.candidate_id == candidate_id)
          || mem candidate_id (row_candidate_ids rows))
  mem-row_before a none rows = refl
  mem-row_before a (some c) rows = ground arith

  row_of_candidate :
      (a : Application)
      → (is_some (candidate_by_id a.candidate_id db) && a.candidate_id == candidate_id)
        ≡ (candidate_exists candidate_id db && a.candidate_id == candidate_id)
  row_of_candidate a = elim (Bool-cases (a.candidate_id == candidate_id)) [
    | inl hit ↦ rw (
      sym (exists-first a.candidate_id db.candidates),
      (==_iff a.candidate_id candidate_id).0 hit,
    )
    | inr miss ↦ ground (arith, miss)
  ]

  mem-rows_of :
      (applications : List Application)
      → mem candidate_id (row_candidate_ids (rows_of job_id db applications))
        ≡ (has_applied candidate_id job_id applications && candidate_exists candidate_id db)
  mem-rows_of [] = refl
  mem-rows_of (a ∷ applications) = elim (Bool-cases (a.job_id == job_id)) [
    | inl hit ↦ rw hit (
        mem-row_before a (candidate_by_id a.candidate_id db) (rows_of job_id db applications)
        ∙ ground (arith, row_of_candidate a, mem-rows_of applications))
    | inr miss ↦ rw miss (mem-rows_of applications ∙ ground arith)
  ]

  -- The candidates of the rows are the known ones who have applied.
  pub mem-applicant_rows :
      mem candidate_id (row_candidate_ids (applicant_rows job_id db))
      ≡ (has_applied candidate_id job_id db.applications && candidate_exists candidate_id db)
  unfolding applicant_rows
  mem-applicant_rows =
      mem-rows_of (by_creation db.applications)
      ∙ ap (λ b. b && candidate_exists candidate_id db)
          (exists_where-by_creation (λ a. a.candidate_id == candidate_id && a.job_id == job_id)
            db.applications)

  mem-ids :
      (cs : List Candidate)
      → mem candidate_id (map (λ (c : Candidate). c.id) cs)
        ≡ exists_where (λ (c : Candidate). c.id == candidate_id) cs
  mem-ids [] = refl
  mem-ids (c ∷ cs) = ground (arith, mem-ids cs)

  -- The candidate is known and meets the conditions of the query for matches.
  abbrev pub is_match_candidate : (required : List ℕ) → Bool
  is_match_candidate required =
      exists_where
        (λ (c : Candidate). is_possible_match job_id required db c && c.id == candidate_id)
        db.candidates

  pub mem-match_ids :
      (required : List ℕ)
      → mem candidate_id (automatic_match_candidate_ids job_id required db)
        ≡ is_match_candidate required
  unfolding automatic_match_candidate_ids
  mem-match_ids required =
      mem-ids (select_where (is_possible_match job_id required db) (by_id db.candidates))
      ∙ exists_where-select_where (is_possible_match job_id required db)
          (λ (c : Candidate). c.id == candidate_id) (by_id db.candidates)
      ∙ exists_where-by_id
          (λ (c : Candidate). is_possible_match job_id required db c && c.id == candidate_id)
          db.candidates

module _ (db : Db) (required : List ℕ) where
  -- The candidate's score.
  abbrev pub own_score : (candidate_id : ℕ) → CompatibilityScore
  own_score candidate_id =
      score required candidate_id (to_set (candidate_skill_ids candidate_id db))

  score_candidate : (id : ℕ) (held : List ℕ) → (score required id held).candidate_id ≡ id
  unfolding score
  score_candidate id held = refl

  exists_where-scores :
      (p : CompatibilityScore → Bool) (c : ℕ) (ids : List ℕ)
      → exists_where (λ s. p s && s.candidate_id == c) (all_scores required (resume_skills db ids))
        ≡ (mem c ids && p (own_score c))
  unfolding score
  exists_where-scores p c [] = refl
  exists_where-scores p c (id ∷ ids) = elim (Bool-cases (id == c)) [
    | inl hit ↦
        let e : id ≡ c = (==_iff id c).0 hit in
        rw e (ground (arith, ==_refl c, exists_where-scores p c ids))
    | inr miss ↦ ground (arith, miss, exists_where-scores p c ids)
  ]

  mem-append : (c : ℕ) (xs ys : List ℕ) → mem c (xs ++ ys) ≡ (mem c xs || mem c ys)
  mem-append c [] ys = refl
  mem-append c (x ∷ xs) ys = ground (arith, mem-append c xs ys)

  -- A candidate has a score in the list exactly for an application, or as a match with a high
  -- enough score.
  pub exists_where-listed_scores :
      (job_id candidate_id : ℕ)
      → exists_where
          (λ s. s.candidate_id == candidate_id)
          (listed_scores job_id (applicant_rows job_id db) required db)
        ≡ ((has_applied candidate_id job_id db.applications && candidate_exists candidate_id db)
            || (is_match_candidate job_id db candidate_id required
                && is_automatic_match (own_score candidate_id)))
  unfolding listed_scores
  exists_where-listed_scores job_id c =
      let rows = applicant_rows job_id db in
      let ids = row_candidate_ids rows ++ automatic_match_candidate_ids job_id required db in
      exists_where-select_where (is_listed rows) (λ s. s.candidate_id == c)
        (rank required (resume_skills db ids))
      ∙ exists_where-sorted_scores (λ s. is_listed rows s && s.candidate_id == c)
          (all_scores required (resume_skills db ids))
      ∙ exists_where-scores (is_listed rows) c ids
      ∙ rw
          (
            score_candidate c (to_set (candidate_skill_ids c db)),
            mem-append c (row_candidate_ids rows)
                (automatic_match_candidate_ids job_id required db),
            mem-applicant_rows job_id db c,
            mem-match_ids job_id db c required,
          )
          (ground arith)
