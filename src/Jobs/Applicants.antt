-- ===== src/Jobs/Applicants.antt =====
-- app/jobs/services/list_job_applicants.py and app/jobs/domain/candidate_origin.py
pub mod Listing
pub mod Members
pub mod Matches
pub mod Entries
pub mod Counts
pub mod Outcome
use seniors_empregabilidade.Prelude.{
  Bool, List, Option, Str, [], exists_where, false, first_where, if◌then◌else◌, is_none_of, leb,
  ltb, map, none, not, select_where, some, str_eq, true, ℕ, ◌&&◌, ◌==◌, ◌||◌, ◌∷◌,
}
use seniors_empregabilidade.Database.Enums.{ApplicationStatus, is_active_account, is_available}
use seniors_empregabilidade.Database.Tables.{AppUser, Application, Candidate, Db, Skill}
use seniors_empregabilidade.Applications.Automatic.{by_id, shared_skill_ids}
use seniors_empregabilidade.Applications.Submit.{has_applied}
use seniors_empregabilidade.Skills.Resolve.{str_less}

pub data CandidateOrigin : Type 0 where
  application automatic_match : CandidateOrigin

pub record ApplicantProfile : Type 0 where
  pub candidate_id : ℕ
  pub full_name : Str
  pub city : Option Str
  pub state : Option Str

pub record CompatibilitySkill : Type 0 where
  pub id : ℕ
  pub name : Str

pub record JobApplicant : Type 0 where
  pub origin : CandidateOrigin
  pub application_id : Option ℕ
  pub status : Option ApplicationStatus
  pub match_score : Option ℕ
  pub compatibility_percentage : Option ℕ
  pub is_highlighted : Bool
  pub matched_skill_count : ℕ
  pub required_skill_count : ℕ
  pub matched_skills : List CompatibilitySkill
  pub missing_skills : List CompatibilitySkill
  pub profile : ApplicantProfile

abbrev pub is_application_origin : CandidateOrigin → Bool
is_application_origin CandidateOrigin.application = true
is_application_origin CandidateOrigin.automatic_match = false

abbrev pub is_application : JobApplicant → Bool
is_application a = is_application_origin a.origin

-- `0 < self.required_skill_count == self.matched_skill_count`
abbrev pub is_full_match : JobApplicant → Bool
is_full_match a = ltb 0 a.required_skill_count && a.required_skill_count == a.matched_skill_count

pub record JobApplicantsSummary : Type 0 where
  pub job_id : ℕ
  pub total_applicant_count : ℕ
  pub full_match_count : ℕ
  pub automatic_match_count : ℕ
  pub applicants : List JobApplicant

-- A row of the first query: an application with the candidate's profile.
pub record ApplicantRow : Type 0 where
  pub application_id : ℕ
  pub candidate_id : ℕ
  pub status : ApplicationStatus
  pub match_score : Option ℕ
  pub full_name : Str
  pub city : Option Str
  pub state : Option Str

-- `(created_at, id)` of the first is not after that of the second.
abbrev pub is_older : Application → Application → Bool
is_older a b = ltb a.created_at b.created_at || (a.created_at == b.created_at && leb a.id b.id)

abbrev pub insert_by_creation : Application → List Application → List Application
insert_by_creation a [] = a ∷ []
insert_by_creation a (b ∷ rows) =
    let rest = insert_by_creation a rows in if is_older a b then a ∷ b ∷ rows else b ∷ rest

-- `ORDER BY created_at, id`
abbrev pub by_creation : List Application → List Application
by_creation [] = []
by_creation (a ∷ rows) = insert_by_creation a (by_creation rows)

abbrev pub candidate_by_id : (id : ℕ) → Db → Option Candidate
candidate_by_id id db = first_where (λ (c : Candidate). c.id == id) db.candidates

abbrev pub row_before : Application → Option Candidate → List ApplicantRow → List ApplicantRow
row_before a none rows = rows
row_before a (some c) rows =
    record {
      application_id = a.id;
      candidate_id = a.candidate_id;
      status = a.status;
      match_score = a.match_score;
      full_name = c.full_name;
      city = c.city;
      state = c.state;
    }
    ∷ rows

abbrev pub rows_of : (job_id : ℕ) → Db → List Application → List ApplicantRow
rows_of job_id db [] = []
rows_of job_id db (a ∷ applications) =
    let rest = rows_of job_id db applications in
    if a.job_id == job_id then row_before a (candidate_by_id a.candidate_id db) rest else rest

-- `applicant_rows`
unfoldable pub applicant_rows : (job_id : ℕ) → Db → List ApplicantRow
applicant_rows job_id db = rows_of job_id db (by_creation db.applications)

-- The conditions of `_automatic_match_candidate_ids` on a candidate.
abbrev pub is_possible_match : (job_id : ℕ) (required : List ℕ) → Db → Candidate → Bool
is_possible_match job_id required db c =
    exists_where (λ (u : AppUser). u.id == c.id && is_active_account u.account_status) db.users
    && (is_available c.availability
        && (not (has_applied c.id job_id db.applications)
            && not (is_none_of (shared_skill_ids required db c))))

-- `_automatic_match_candidate_ids`
unfoldable pub automatic_match_candidate_ids : (job_id : ℕ) (required : List ℕ) → Db → List ℕ
automatic_match_candidate_ids job_id required db =
    map (λ (c : Candidate). c.id)
      (select_where (is_possible_match job_id required db) (by_id db.candidates))

-- `skill_names[id_]` for each skill: no value stands for a `KeyError`.
abbrev pub skill_before :
    (id : ℕ) → Option Skill → Option (List CompatibilitySkill) → Option (List CompatibilitySkill)
skill_before id (some s) (some named) = some (record { id = id; name = s.name } ∷ named)
skill_before id skill named = none

abbrev pub names_of : Db → List ℕ → Option (List CompatibilitySkill)
names_of db [] = some []
names_of db (id ∷ ids) =
    skill_before id (first_where (λ (s : Skill). s.id == id) db.skills) (names_of db ids)

abbrev pub is_named_before : CompatibilitySkill → CompatibilitySkill → Bool
is_named_before a b = str_less a.name b.name || (str_eq a.name b.name && leb a.id b.id)

abbrev pub insert_named : CompatibilitySkill → List CompatibilitySkill → List CompatibilitySkill
insert_named a [] = a ∷ []
insert_named a (b ∷ rest) =
    let more = insert_named a rest in if is_named_before a b then a ∷ b ∷ rest else b ∷ more

-- `sorted(skills, key=lambda skill: (skill.name, str(skill.id)))`
abbrev pub sorted_named : List CompatibilitySkill → List CompatibilitySkill
sorted_named [] = []
sorted_named (a ∷ rest) = insert_named a (sorted_named rest)
