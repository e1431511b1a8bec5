-- ===== src/Jobs/Applicants/Listing.antt =====
-- app/jobs/services/list_job_applicants.py: the ranked list and the service itself.
use seniors_empregabilidade.Prelude.{
  Bool, List, Option, [], count_where, false, first_where, if◌then◌else◌, is_none_of, length, map,
  mem, none, row, select_where, some, to_set, ℕ, ◌++◌, ◌-◌, ◌==◌, ◌||◌, ◌∷◌,
}
use seniors_empregabilidade.Database.Errors.{Error, JobError}
use seniors_empregabilidade.Database.Session.{Action, gets, or_raise, pure, ◌>>=◌}
use seniors_empregabilidade.Database.Tables.{Candidate, Db}
use seniors_empregabilidade.Applications.Submit.{candidate_skill_ids, required_skill_ids}
use seniors_empregabilidade.Jobs.Applicants.{
  ApplicantProfile, ApplicantRow, CandidateOrigin, CompatibilitySkill, JobApplicant,
  JobApplicantsSummary, applicant_rows, automatic_match_candidate_ids, candidate_by_id,
  is_application, is_full_match, names_of, sorted_named,
}
use seniors_empregabilidade.Jobs.ChangeStatus.{own_job}
use seniors_empregabilidade.Jobs.Compatibility.{
  CompatibilityScore, is_automatic_match, is_highlighted, matched_count, percentage, rank,
  required_count,
}

abbrev pub profile_of_row : ApplicantRow → ApplicantProfile
profile_of_row row = record {
  candidate_id = row.candidate_id;
  full_name = row.full_name;
  city = row.city;
  state = row.state;
}

-- A row of `_profile_rows_by_candidate`.
abbrev pub profile_of_candidate : Candidate → ApplicantProfile
profile_of_candidate c = record {
  candidate_id = c.id;
  full_name = c.full_name;
  city = c.city;
  state = c.state;
}

-- `_scored_applicant`, with the two sorted tuples of skills.
abbrev pub scored_applicant :
    ApplicantRow → CompatibilityScore → (matched missing : List CompatibilitySkill) → JobApplicant
scored_applicant row s matched missing = record {
  origin = CandidateOrigin.application;
  application_id = some row.application_id;
  status = some row.status;
  match_score = row.match_score;
  compatibility_percentage = some (percentage s);
  is_highlighted = is_highlighted s;
  matched_skill_count = matched_count s;
  required_skill_count = required_count s;
  matched_skills = matched;
  missing_skills = missing;
  profile = profile_of_row row;
}

-- `_automatic_match`
abbrev pub automatic_match_entry :
    Candidate → CompatibilityScore → (matched missing : List CompatibilitySkill) → JobApplicant
automatic_match_entry c s matched missing = record {
  origin = CandidateOrigin.automatic_match;
  application_id = none;
  status = none;
  match_score = none;
  compatibility_percentage = some (percentage s);
  is_highlighted = is_highlighted s;
  matched_skill_count = matched_count s;
  required_skill_count = required_count s;
  matched_skills = matched;
  missing_skills = missing;
  profile = profile_of_candidate c;
}

-- `_unscored_applicant`
abbrev pub unscored_applicant : ApplicantRow → JobApplicant
unscored_applicant row = record {
  origin = CandidateOrigin.application;
  application_id = some row.application_id;
  status = some row.status;
  match_score = row.match_score;
  compatibility_percentage = none;
  is_highlighted = false;
  matched_skill_count = 0;
  required_skill_count = 0;
  matched_skills = [];
  missing_skills = [];
  profile = profile_of_row row;
}

-- `applicant_rows_by_candidate.get(candidate_id)`. An application is unique for its candidate and
-- job, so a candidate has one row.
abbrev pub row_by_candidate : (candidate_id : ℕ) → List ApplicantRow → Option ApplicantRow
row_by_candidate candidate_id = first_where (λ (r : ApplicantRow). r.candidate_id == candidate_id)

abbrev pub row_candidate_ids : List ApplicantRow → List ℕ
row_candidate_ids = map (λ (r : ApplicantRow). r.candidate_id)

abbrev pub entry_with :
    CompatibilityScore
    → Option ApplicantRow
    → Option Candidate
    → (matched missing : Option (List CompatibilitySkill)) → Option JobApplicant
entry_with s (some row) profile (some matched) (some missing) =
    some (scored_applicant row s (sorted_named matched) (sorted_named missing))
entry_with s none (some c) (some matched) (some missing) =
    some (automatic_match_entry c s (sorted_named matched) (sorted_named missing))
entry_with s row profile matched missing = none

-- One entry of the list: no value stands for a `KeyError`.
abbrev pub entry_of : List ApplicantRow → Db → CompatibilityScore → Option JobApplicant
entry_of rows db s =
    entry_with s (row_by_candidate s.candidate_id rows) (candidate_by_id s.candidate_id db)
      (names_of db s.matched_skill_ids) (names_of db s.missing_skill_ids)

abbrev pub entry_first :
    Option JobApplicant → Option (List JobApplicant) → Option (List JobApplicant)
entry_first (some a) (some rest) = some (a ∷ rest)
entry_first a rest = none

abbrev pub entries_of :
    List ApplicantRow → Db → List CompatibilityScore → Option (List JobApplicant)
entries_of rows db [] = some []
entries_of rows db (s ∷ scores) = entry_first (entry_of rows db s) (entries_of rows db scores)

-- `_resume_skills_by_candidate`, for the candidates that the ranking asks for.
abbrev pub resume_skills : Db → (candidate_ids : List ℕ) → List (ℕ × List ℕ)
resume_skills db [] = []
resume_skills db (id ∷ ids) = (id, to_set (candidate_skill_ids id db)) ∷ resume_skills db ids

-- `score.candidate_id in applicant_rows_by_candidate or is_automatic_match(score)`
abbrev pub is_listed : List ApplicantRow → CompatibilityScore → Bool
is_listed rows s = mem s.candidate_id (row_candidate_ids rows) || is_automatic_match s

-- The scores that `_ranked_list` keeps.
unfoldable pub listed_scores :
    (job_id : ℕ) → List ApplicantRow → (required : List ℕ) → Db → List CompatibilityScore
listed_scores job_id rows required db =
    let candidate_ids =
      row_candidate_ids rows ++ automatic_match_candidate_ids job_id required db in
    select_where (is_listed rows) (rank required (resume_skills db candidate_ids))

-- `_ranked_list`, or the unscored rows of a job without required skills.
unfoldable pub listed_applicants :
    (job_id : ℕ) → List ApplicantRow → (required : List ℕ) → Db → Option (List JobApplicant)
listed_applicants job_id rows required db =
    let ranked = entries_of rows db (listed_scores job_id rows required db) in
    if is_none_of required then some (map unscored_applicant rows) else ranked

unfoldable pub summary_of : (job_id : ℕ) → List JobApplicant → JobApplicantsSummary
summary_of job_id listed =
    let applicants = select_where is_application listed in
    record {
      job_id = job_id;
      total_applicant_count = length applicants;
      full_match_count = count_where is_full_match applicants;
      automatic_match_count = length listed - length applicants;
      applicants = listed;
    }

unfoldable pub list_job_applicants : (job_id company_id : ℕ) → Action JobApplicantsSummary
list_job_applicants job_id company_id = do
  found ← gets (own_job job_id company_id)
  job ← or_raise found (Error.job JobError.job_not_found)
  required ← gets (λ db. to_set (required_skill_ids job_id db))
  rows ← gets (applicant_rows job_id)
  listing ← gets (listed_applicants job_id rows required)
  listed ← or_raise listing Error.unexpected
  pure (summary_of job_id listed)
