-- ===== src/Contacts/Listed.antt =====
-- Who is in the list that a company sees, in terms of the tables.
use seniors_empregabilidade.Prelude.{
  Bool, List, [], ap, arith, exists_where, false, is_none_of, map, mem, none, refl, some, to_set,
  true, ℕ, ◌==◌, ◌||◌, ◌∙◌, ◌∷◌, ◌≡◌,
}
use seniors_empregabilidade.Database.Errors.{Error, JobError}
use seniors_empregabilidade.Database.Session.{Result, err, ok}
use seniors_empregabilidade.Database.Tables.{Db, Job}
use seniors_empregabilidade.Applications.Submit.{required_skill_ids}
use seniors_empregabilidade.Contacts.{listed_candidate_ids}
use seniors_empregabilidade.Jobs.Applicants.{
  ApplicantRow, JobApplicant, JobApplicantsSummary, applicant_rows,
}
use seniors_empregabilidade.Jobs.Applicants.Entries.{AreKnownSkills, DescribeAll}
use seniors_empregabilidade.Jobs.Applicants.Listing.{
  list_job_applicants, row_candidate_ids, summary_of, unscored_applicant,
}
use seniors_empregabilidade.Jobs.Applicants.Matches.{is_automatic}
use seniors_empregabilidade.Jobs.Applicants.Members.{mem-applicant_rows}
use seniors_empregabilidade.Jobs.Applicants.Outcome.{
  ListOutcome, is_applicant, list_job_applicants-ListOutcome,
}
use seniors_empregabilidade.Jobs.ChangeStatus.{own_job}
use seniors_empregabilidade.Jobs.Compatibility.{CompatibilityScore}

described_ids :
    (c : ℕ) (rows : List ApplicantRow) (scores : List CompatibilityScore)
    (applicants : List JobApplicant)
    → DescribeAll rows scores applicants
    → mem c (map (λ (a : JobApplicant). a.profile.candidate_id) applicants)
      ≡ exists_where (λ s. s.candidate_id == c) scores
described_ids c rows [] [] d = refl
described_ids c rows [] (a ∷ applicants) d = absurd d
described_ids c rows (s ∷ scores) [] d = absurd d
described_ids c rows (s ∷ scores) (a ∷ applicants) (d, all) =
    ground (arith, d.candidate, described_ids c rows scores applicants all)

unscored_ids :
    (c : ℕ) (rows : List ApplicantRow)
    → mem c (map (λ (a : JobApplicant). a.profile.candidate_id) (map unscored_applicant rows))
      ≡ mem c (row_candidate_ids rows)
unscored_ids c [] = refl
unscored_ids c (r ∷ rows) = ap (λ b. c == r.candidate_id || b) (unscored_ids c rows)

module _ (job_id company_id : ℕ) (db : Db) where
  abbrev pub required_ids : List ℕ
  required_ids = to_set (required_skill_ids job_id db)

  -- The candidate has applied to the job or is an automatic match for it.
  abbrev pub is_reachable : (candidate_id : ℕ) → Bool
  is_reachable c = is_applicant job_id db c || is_automatic job_id required_ids db c

  not_automatic :
      (c : ℕ) → is_none_of required_ids ≡ true → is_automatic job_id required_ids db c ≡ false
  not_automatic c h = rw h

  -- The list of an own job has exactly the reachable candidates.
  pub data IsReached (r : Result JobApplicantsSummary × Db) : Type 0 where
    reached :
        (job : Job) (summary : JobApplicantsSummary)
        → own_job job_id company_id db ≡ some job
        → ((c : ℕ) → mem c (listed_candidate_ids summary) ≡ is_reachable c)
        → r ≡ (ok summary, db)
        → IsReached r
    unreached :
        own_job job_id company_id db ≡ none
        → r ≡ (err (Error.job JobError.job_not_found), db)
        → IsReached r

  unscored_mem :
      (c : ℕ)
      → is_none_of required_ids ≡ true
      → mem c (
          listed_candidate_ids
            (summary_of job_id (map unscored_applicant (applicant_rows job_id db))))
        ≡ is_reachable c
  unfolding summary_of
  unscored_mem c h =
      unscored_ids c (applicant_rows job_id db)
      ∙ mem-applicant_rows job_id db c
      ∙ rw (not_automatic c h) (ground arith)

  pub list_job_applicants-IsReached :
      AreKnownSkills db (required_skill_ids job_id db)
      → IsReached (list_job_applicants job_id company_id db)
  list_job_applicants-IsReached known =
      elim (list_job_applicants-ListOutcome job_id company_id db known) [
        | ListOutcome.ranked job summary own i e ↦
            IsReached.reached job summary own
              (λ c. described_ids c _ i.scores summary.applicants i.described ∙ i.members c) e
        | ListOutcome.unscored job own empty e ↦
            IsReached.reached job _ own (λ c. unscored_mem c empty) e
        | ListOutcome.not_own n e ↦ IsReached.unreached n e
      ]
