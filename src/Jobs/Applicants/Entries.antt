-- ===== src/Jobs/Applicants/Entries.antt =====
-- Each score that is listed has an entry, and what the entry says of it.
use seniors_empregabilidade.Prelude.{
  ==_iff, All, Bool, Bool-cases, List, [], ap, arith, exists_where, false, first_where, inl, inr,
  mem, none, refl, row, select_where, some, sym, true, ℕ, ◌++◌, ◌==◌, ◌∙◌, ◌∷◌, ◌≡◌, ◌⊎◌,
}
use seniors_empregabilidade.Database.Tables.{Candidate, Db, Skill}
use seniors_empregabilidade.Applications.Submit.{candidate_exists}
use seniors_empregabilidade.Jobs.Applicants.{
  ApplicantRow, CompatibilitySkill, JobApplicant, automatic_match_candidate_ids, is_application,
  names_of, sorted_named,
}
use seniors_empregabilidade.Jobs.Applicants.Listing.{
  automatic_match_entry, entries_of, entry_first, entry_of, is_listed, listed_scores, resume_skills,
  row_by_candidate, row_candidate_ids, scored_applicant,
}
use seniors_empregabilidade.Jobs.Applicants.Members.{own_score}
use seniors_empregabilidade.Jobs.Compatibility.{
  CompatibilityScore, all_scores, is_highlighted, matched_count, percentage, rank, required_count,
  score, sorted_scores,
}
use seniors_empregabilidade.Jobs.Compatibility.Ranking.{All-insert_score}

pub All-select_where :
    (P : CompatibilityScore → Type 0) (p : CompatibilityScore → Bool) (ss : List CompatibilityScore)
    → All P ss
    → All P (select_where p ss)
All-select_where P p [] all = tt
All-select_where P p (s ∷ ss) all = elim (Bool-cases (p s)) [
  | inl hit ↦ rw hit (all.0, All-select_where P p ss all.1)
  | inr miss ↦ rw miss (All-select_where P p ss all.1)
]

All-ids-select_where :
    (P : ℕ → Type 0) (p : ℕ → Bool) (xs : List ℕ) → All P xs → All P (select_where p xs)
All-ids-select_where P p [] all = tt
All-ids-select_where P p (x ∷ xs) all = elim (Bool-cases (p x)) [
  | inl hit ↦ rw hit (all.0, All-ids-select_where P p xs all.1)
  | inr miss ↦ rw miss (All-ids-select_where P p xs all.1)
]

-- Every required skill is in the catalog, which the foreign key of a job's skills promises.
abbrev pub AreKnownSkills : Db → List ℕ → Type 0
AreKnownSkills db ids = All (λ id. exists_where (λ (s : Skill). s.id == id) db.skills ≡ true) ids

skill_found :
    (id : ℕ) (skills : List Skill)
    → exists_where (λ (s : Skill). s.id == id) skills ≡ true
    → (s : Skill) × (first_where (λ (s : Skill). s.id == id) skills ≡ some s)
skill_found id [] h = cc
skill_found id (s ∷ skills) h = elim (Bool-cases (s.id == id)) [
  | inl hit ↦ (s, rw hit)
  | inr miss ↦ let (t, e) = skill_found id skills (ground (arith, h, miss)) in (t, rw (miss, e))
]

names_of_all :
    (db : Db) (ids : List ℕ)
    → AreKnownSkills db ids
    → (named : List CompatibilitySkill) × (names_of db ids ≡ some named)
names_of_all db [] known = ([], refl)
names_of_all db (id ∷ ids) known =
    let (s, e) = skill_found id db.skills known.0 in
    let (named, f) = names_of_all db ids known.1 in
    (record { id = id; name = s.name } ∷ named, rw (e, f))

-- What an entry says of the score that it stands for.
pub record Describes (rows : List ApplicantRow) (s : CompatibilityScore) (a : JobApplicant)
    : Type 0 where
  pub candidate : a.profile.candidate_id ≡ s.candidate_id
  pub origin : is_application a ≡ mem s.candidate_id (row_candidate_ids rows)
  pub score_shown : a.compatibility_percentage ≡ some (percentage s)
  pub highlighted : a.is_highlighted ≡ is_highlighted s
  pub matched : a.matched_skill_count ≡ matched_count s
  pub required : a.required_skill_count ≡ required_count s

abbrev pub DescribeAll : List ApplicantRow → List CompatibilityScore → List JobApplicant → Type 0
DescribeAll rows [] [] = Unit
DescribeAll rows [] (a ∷ applicants) = ⊥
DescribeAll rows (s ∷ scores) [] = ⊥
DescribeAll rows (s ∷ scores) (a ∷ applicants) =
    Describes rows s a × DescribeAll rows scores applicants

row_found :
    (c : ℕ) (rows : List ApplicantRow)
    → ((row_by_candidate c rows ≡ none) × (mem c (row_candidate_ids rows) ≡ false))
      ⊎ ((r : ApplicantRow) × ((row_by_candidate c rows ≡ some r)
            × ((r.candidate_id ≡ c) × (mem c (row_candidate_ids rows) ≡ true))))
row_found c [] = inl (refl, refl)
row_found c (r ∷ rows) = elim (Bool-cases (r.candidate_id == c)) [
  | inl hit ↦
      let e : r.candidate_id ≡ c = (==_iff r.candidate_id c).0 hit in
      inr (r, (rw hit, (e, ground (arith, e))))
  | inr miss ↦ elim (row_found c rows) [
    | inl (n, m) ↦ inl (rw (miss, n), ground (arith, miss, m))
    | inr (q, (f, (e, m))) ↦ inr (q, (rw (miss, f), (e, ground (arith, miss, m))))
  ]
]

candidate_found :
    (c : ℕ) (cs : List Candidate)
    → exists_where (λ (k : Candidate). k.id == c) cs ≡ true
    → (k : Candidate) × ((first_where (λ (k : Candidate). k.id == c) cs ≡ some k) × (k.id ≡ c))
candidate_found c [] h = cc
candidate_found c (k ∷ cs) h = elim (Bool-cases (k.id == c)) [
  | inl hit ↦ (k, (rw hit, (==_iff k.id c).0 hit))
  | inr miss ↦
      let (l, (e, f)) = candidate_found c cs (ground (arith, h, miss)) in (l, (rw (miss, e), f))
]

module _ (rows : List ApplicantRow) (db : Db) where
  entry_found :
      (s : CompatibilityScore) (matched missing : List CompatibilitySkill)
      → candidate_exists s.candidate_id db ≡ true
      → names_of db s.matched_skill_ids ≡ some matched
      → names_of db s.missing_skill_ids ≡ some missing
      → (a : JobApplicant) × ((entry_of rows db s ≡ some a) × Describes rows s a)
  entry_found s matched missing known m n =
      let (c, (f, e)) = candidate_found s.candidate_id db.candidates known in
      elim (row_found s.candidate_id rows) [
        | inl (r, absent) ↦ (
          automatic_match_entry c s (sorted_named matched) (sorted_named missing),
          (
            rw (r, f, m, n),
            record {
              candidate = e;
              origin = sym absent;
              score_shown = refl;
              highlighted = refl;
              matched = refl;
              required = refl;
            },
          ),
        )
        | inr (row, (r, (same, there))) ↦ (
          scored_applicant row s (sorted_named matched) (sorted_named missing),
          (
            rw (r, f, m, n),
            record {
              candidate = same;
              origin = sym there;
              score_shown = refl;
              highlighted = refl;
              matched = refl;
              required = refl;
            },
          ),
        )
      ]

  -- A score whose look-ups all succeed.
  pub record IsDisplayable (s : CompatibilityScore) : Type 0 where
    pub candidate_known : candidate_exists s.candidate_id db ≡ true
    pub matched_known : AreKnownSkills db s.matched_skill_ids
    pub missing_known : AreKnownSkills db s.missing_skill_ids

  pub entries_found :
      (scores : List CompatibilityScore)
      → All IsDisplayable scores
      → (applicants : List JobApplicant) × ((entries_of rows db scores ≡ some applicants)
          × DescribeAll rows scores applicants)
  entries_found [] all = ([], (refl, tt))
  entries_found (s ∷ scores) (d, all) =
      let (matched, m) = names_of_all db s.matched_skill_ids d.matched_known in
      let (missing, n) = names_of_all db s.missing_skill_ids d.missing_known in
      let (a, (e, h)) = entry_found s matched missing d.candidate_known m n in
      let (applicants, (f, k)) = entries_found scores all in
      (a ∷ applicants, (ap (λ x. entry_first x (entries_of rows db scores)) e ∙ rw f, (h, k)))

-- The scores of the policy, whose skills are known when the required skills are.
abbrev pub IsPolicyScore : Db → (required : List ℕ) → CompatibilityScore → Type 0
IsPolicyScore db required s = s ≡ own_score db required s.candidate_id

all_scores-IsPolicyScore :
    (db : Db) (required ids : List ℕ)
    → All (IsPolicyScore db required) (all_scores required (resume_skills db ids))
unfolding score
all_scores-IsPolicyScore db required [] = tt
all_scores-IsPolicyScore db required (id ∷ ids) = (refl, all_scores-IsPolicyScore db required ids)

All-sorted_scores :
    (P : CompatibilityScore → Type 0) (ss : List CompatibilityScore)
    → All P ss
    → All P (sorted_scores ss)
All-sorted_scores P [] all = tt
All-sorted_scores P (s ∷ ss) all =
    All-insert_score P s (sorted_scores ss) all.0 (All-sorted_scores P ss all.1)

pub listed_scores_policy :
    (job_id : ℕ) (rows : List ApplicantRow) (required : List ℕ) (db : Db)
    → All (IsPolicyScore db required) (listed_scores job_id rows required db)
unfolding listed_scores
listed_scores_policy job_id rows required db =
    let ids = row_candidate_ids rows ++ automatic_match_candidate_ids job_id required db in
    All-select_where (IsPolicyScore db required) (is_listed rows)
      (rank required (resume_skills db ids))
      (All-sorted_scores (IsPolicyScore db required) (all_scores required (resume_skills db ids))
        (all_scores-IsPolicyScore db required ids))

pub own_score_known :
    (db : Db) (required : List ℕ) (candidate_id : ℕ)
    → AreKnownSkills db required
    → AreKnownSkills db (own_score db required candidate_id).matched_skill_ids
      × AreKnownSkills db (own_score db required candidate_id).missing_skill_ids
unfolding score
own_score_known db required candidate_id known =
    (All-ids-select_where _ _ required known, All-ids-select_where _ _ required known)
