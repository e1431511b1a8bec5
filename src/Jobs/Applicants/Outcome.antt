-- ===== src/Jobs/Applicants/Outcome.antt =====
-- How listing the applicants of a job ends.
use seniors_empregabilidade.Prelude.{
  ==_refl, All, All-IsIn, All-mem, Bool, Bool-cases, IsIn-All, List, Option-cases, [], ap, arith,
  exists_where, exists_where-IsIn, false, inl, inr, is_none_of, length, map, mem-All, mem-to_set,
  none, select_where, some, subst, sym, to_set, true, ℕ, ◌&&◌, ◌++◌, ◌==◌, ◌||◌, ◌∙◌, ◌∷◌, ◌≡◌, ◌≤◌,
}
use seniors_empregabilidade.Database.Errors.{Error, JobError}
use seniors_empregabilidade.Database.Session.{Result, err, ok}
use seniors_empregabilidade.Database.Tables.{Candidate, Db, Job}
use seniors_empregabilidade.Applications.Submit.{candidate_exists, has_applied, required_skill_ids}
use seniors_empregabilidade.Jobs.Applicants.{
  ApplicantRow, JobApplicant, JobApplicantsSummary, applicant_rows, automatic_match_candidate_ids,
  is_possible_match,
}
use seniors_empregabilidade.Jobs.Applicants.Counts.{
  CountsEntries, described_total, summary_of-CountsEntries,
}
use seniors_empregabilidade.Jobs.Applicants.Entries.{
  All-select_where, AreKnownSkills, DescribeAll, IsDisplayable, IsPolicyScore, entries_found,
  listed_scores_policy, own_score_known,
}
use seniors_empregabilidade.Jobs.Applicants.Listing.{
  entries_of, is_listed, list_job_applicants, listed_applicants, listed_scores, resume_skills,
  row_candidate_ids, summary_of, unscored_applicant,
}
use seniors_empregabilidade.Jobs.Applicants.Matches.{is_automatic, is_automatic_lem}
use seniors_empregabilidade.Jobs.Applicants.Members.{
  exists_where-listed_scores, is_match_candidate, own_score,
}
use seniors_empregabilidade.Jobs.ChangeStatus.{own_job}
use seniors_empregabilidade.Jobs.Compatibility.{
  CompatibilityScore, is_automatic_match, percentage, rank,
}
use seniors_empregabilidade.Jobs.Compatibility.Ranking.{IsDescending, rank_lem}

-- The candidate has applied to the job.
abbrev pub is_applicant : (job_id : ℕ) → Db → (candidate_id : ℕ) → Bool
is_applicant job_id db c = has_applied c job_id db.applications && candidate_exists c db

-- The list of a job with required skills: it stands for scores of the policy, the highest first,
-- exactly those of the applicants and the automatic matches, and the numbers count its entries.
pub record IsRanked (job_id : ℕ) (required : List ℕ) (db : Db) (summary : JobApplicantsSummary)
    : Type 0 where
  pub scores : List CompatibilityScore
  pub described : DescribeAll (applicant_rows job_id db) scores summary.applicants
  pub of_policy : All (IsPolicyScore db required) scores
  pub descending : IsDescending scores
  pub members :
      (c : ℕ)
      → exists_where (λ s. s.candidate_id == c) scores
        ≡ (is_applicant job_id db c || is_automatic job_id required db c)
  pub counts : CountsEntries summary
  pub every_row : summary.total_applicant_count ≡ length (applicant_rows job_id db)

pub data ListOutcome (job_id company_id : ℕ) (db : Db) (r : Result JobApplicantsSummary × Db)
    : Type 0 where
  ranked :
      (job : Job) (summary : JobApplicantsSummary)
      → own_job job_id company_id db ≡ some job
      → IsRanked job_id (to_set (required_skill_ids job_id db)) db summary
      → r ≡ (ok summary, db)
      → ListOutcome job_id company_id db r
  unscored :
      (job : Job)
      → own_job job_id company_id db ≡ some job
      → is_none_of (to_set (required_skill_ids job_id db)) ≡ true
      → r ≡ (ok (summary_of job_id (map unscored_applicant (applicant_rows job_id db))), db)
      → ListOutcome job_id company_id db r
  not_own :
      own_job job_id company_id db ≡ none
      → r ≡ (err (Error.job JobError.job_not_found), db)
      → ListOutcome job_id company_id db r

select_where-IsDescending :
    (p : CompatibilityScore → Bool) (ss : List CompatibilityScore)
    → IsDescending ss
    → IsDescending (select_where p ss)
select_where-IsDescending p [] d = tt
select_where-IsDescending p (s ∷ ss) d = elim (Bool-cases (p s)) [
  | inl hit ↦ rw hit (
    All-select_where (λ t. percentage t ≤ percentage s) p ss d.0,
    select_where-IsDescending p ss d.1,
  )
  | inr miss ↦ rw miss (select_where-IsDescending p ss d.1)
]

listed_scores-IsDescending :
    (job_id : ℕ) (rows : List ApplicantRow) (required : List ℕ) (db : Db)
    → IsDescending (listed_scores job_id rows required db)
unfolding listed_scores
listed_scores-IsDescending job_id rows required db =
    let held =
      resume_skills db
        (row_candidate_ids rows ++ automatic_match_candidate_ids job_id required db) in
    select_where-IsDescending (is_listed rows) (rank required held) (rank_lem required held).0

module _ (job_id : ℕ) (db : Db) where
  abbrev required : List ℕ
  required = to_set (required_skill_ids job_id db)

  abbrev rows : List ApplicantRow
  rows = applicant_rows job_id db

  abbrev scores : List CompatibilityScore
  scores = listed_scores job_id rows required db

  match_known :
      (c : ℕ) (cs : List Candidate)
      → exists_where (λ (k : Candidate). is_possible_match job_id required db k && k.id == c) cs
        ≡ true
      → exists_where (λ (k : Candidate). k.id == c) cs ≡ true
  match_known c [] h = cc
  match_known c (k ∷ cs) h = ground (arith, h, match_known c cs)

  listed_known :
      (c : ℕ)
      → is_applicant job_id db c
          || (is_match_candidate job_id db c required
              && is_automatic_match (own_score db required c))
        ≡ true
      → candidate_exists c db ≡ true
  listed_known c h = ground (arith, h, match_known c db.candidates)

  displayable : AreKnownSkills db required → All (IsDisplayable rows db) scores
  displayable known = IsIn-All _ scores (λ s m.
      let policy =
        All-IsIn (IsPolicyScore db required) scores s (listed_scores_policy job_id rows required db)
          m in
      let own = own_score_known db required s.candidate_id known in
      record {
        candidate_known = listed_known s.candidate_id (
            sym (exists_where-listed_scores db required job_id s.candidate_id)
            ∙ exists_where-IsIn (λ t. t.candidate_id == s.candidate_id) scores s m
                (==_refl s.candidate_id));
        matched_known = subst (λ t. AreKnownSkills db t.matched_skill_ids) (sym policy) own.0;
        missing_known = subst (λ t. AreKnownSkills db t.missing_skill_ids) (sym policy) own.1;
      })

  members_lem :
      is_none_of required ≡ false
      → (c : ℕ)
      → exists_where (λ s. s.candidate_id == c) scores
        ≡ (is_applicant job_id db c || is_automatic job_id required db c)
  members_lem h c =
      exists_where-listed_scores db required job_id c
      ∙ ap (λ b. is_applicant job_id db c || b) (is_automatic_lem job_id required db c h)

  summary_of-IsRanked :
      is_none_of required ≡ false
      → (applicants : List JobApplicant) → DescribeAll rows scores applicants
      → IsRanked job_id required db (summary_of job_id applicants)
  unfolding summary_of
  summary_of-IsRanked h applicants d = record {
    scores = scores;
    described = d;
    of_policy = listed_scores_policy job_id rows required db;
    descending = listed_scores-IsDescending job_id rows required db;
    members = members_lem h;
    counts = summary_of-CountsEntries job_id applicants;
    every_row = described_total job_id required db applicants d;
  }

module _ (job_id company_id : ℕ) (db : Db) where
  abbrev listing : Result JobApplicantsSummary × Db
  listing = list_job_applicants job_id company_id db

  not_own_lem :
      own_job job_id company_id db ≡ none → listing ≡ (err (Error.job JobError.job_not_found), db)
  unfolding list_job_applicants
  not_own_lem h = rw h

  module _ (job : Job) (own : own_job job_id company_id db ≡ some job) where
    unscored_lem :
        is_none_of (required job_id db) ≡ true
        → listing ≡ (ok (summary_of job_id (map unscored_applicant (rows job_id db))), db)
    unfolding list_job_applicants listed_applicants
    unscored_lem h = rw (own, h)

    ranked_lem :
        (applicants : List JobApplicant)
        → is_none_of (required job_id db) ≡ false
        → entries_of (rows job_id db) db (scores job_id db) ≡ some applicants
        → listing ≡ (ok (summary_of job_id applicants), db)
    unfolding list_job_applicants listed_applicants
    ranked_lem applicants h e = rw (own, h, e)

    own-Outcome : AreKnownSkills db (required job_id db) → ListOutcome job_id company_id db listing
    own-Outcome known = elim (Bool-cases (is_none_of (required job_id db))) [
      | inl empty ↦ ListOutcome.unscored job own empty (unscored_lem empty)
      | inr some_required ↦
          let (applicants, (e, d)) =
            entries_found (rows job_id db) db (scores job_id db) (displayable job_id db known) in
          ListOutcome.ranked job (summary_of job_id applicants) own
            (summary_of-IsRanked job_id db some_required applicants d)
            (ranked_lem applicants some_required e)
    ]

pub list_job_applicants-ListOutcome :
    (job_id company_id : ℕ) (db : Db)
    → AreKnownSkills db (required_skill_ids job_id db)
    → ListOutcome job_id company_id db (list_job_applicants job_id company_id db)
list_job_applicants-ListOutcome job_id company_id db known =
    elim (Option-cases (own_job job_id company_id db)) [
      | inl n ↦ ListOutcome.not_own n (not_own_lem job_id company_id db n)
      | inr (job, own) ↦ own-Outcome job_id company_id db job own (
          mem-All _ (required job_id db) (λ a m.
            All-mem _ (required_skill_ids job_id db) known a
              (sym (mem-to_set a (required_skill_ids job_id db)) ∙ m)))
    ]
