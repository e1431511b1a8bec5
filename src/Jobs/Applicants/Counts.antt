-- ===== src/Jobs/Applicants/Counts.antt =====
-- What the summary of a list counts.
use seniors_empregabilidade.Prelude.{
  ==_iff, All, Bool, Bool-cases, List, [], ap, arith, count_where, exists_where, false,
  if◌then◌else◌, inl, inr, length, mem, mem-All, not, refl, select_where, subst, suc, sym, true, ℕ,
  ◌&&◌, ◌++◌, ◌+◌, ◌==◌, ◌∙◌, ◌∷◌, ◌≡◌,
}
use seniors_empregabilidade.Database.Tables.{Candidate, Db}
use seniors_empregabilidade.Applications.Submit.{has_applied}
use seniors_empregabilidade.Jobs.Applicants.{
  ApplicantRow, JobApplicant, JobApplicantsSummary, applicant_rows, automatic_match_candidate_ids,
  is_application, is_possible_match,
}
use seniors_empregabilidade.Jobs.Applicants.Entries.{DescribeAll}
use seniors_empregabilidade.Jobs.Applicants.Listing.{
  is_listed, listed_scores, resume_skills, row_candidate_ids, summary_of,
}
use seniors_empregabilidade.Jobs.Applicants.Members.{mem-applicant_rows, mem-match_ids}
use seniors_empregabilidade.Jobs.Compatibility.{
  CompatibilityScore, all_scores, insert_score, rank, score, sorted_scores,
}

module _ (p : CompatibilityScore → Bool) where
  count_insert :
      (s : CompatibilityScore) (ss : List CompatibilityScore)
      → count_where p (insert_score s ss) ≡ count_where p (s ∷ ss)
  count_insert s [] = refl
  count_insert s (t ∷ ts) = ground (arith, count_insert s ts)

  count_sorted :
      (ss : List CompatibilityScore) → count_where p (sorted_scores ss) ≡ count_where p ss
  count_sorted [] = refl
  count_sorted (s ∷ ss) =
      count_insert s (sorted_scores ss) ∙ ap (λ n. (if p s then 1 else 0) + n) (count_sorted ss)

  count_select :
      (q : CompatibilityScore → Bool) (ss : List CompatibilityScore)
      → ((s : CompatibilityScore) → p s ≡ true → q s ≡ true)
      → count_where p (select_where q ss) ≡ count_where p ss
  count_select q [] h = refl
  count_select q (s ∷ ss) h = elim (Bool-cases (p s)) [
    | inl hit ↦ rw (h s hit, hit, count_select q ss h)
    | inr miss ↦ elim (Bool-cases (q s)) [
      | inl a ↦ rw (a, miss) (ap (λ n. 0 + n) (count_select q ss h))
      | inr b ↦ rw (b, miss) (ground (arith, count_select q ss h))
    ]
  ]

-- How many of the candidates have a row.
abbrev pub count_ids : (row_ids ids : List ℕ) → ℕ
count_ids row_ids ids = count_where (λ id. mem id row_ids) ids

has_row_count :
    (row_ids required : List ℕ) (db : Db) (ids : List ℕ)
    → count_where (λ s. mem s.candidate_id row_ids) (all_scores required (resume_skills db ids))
      ≡ count_ids row_ids ids
unfolding score
has_row_count row_ids required db [] = refl
has_row_count row_ids required db (id ∷ ids) =
    ap (λ n. (if mem id row_ids then 1 else 0) + n) (has_row_count row_ids required db ids)

count_ids-append :
    (row_ids xs ys : List ℕ)
    → count_ids row_ids (xs ++ ys) ≡ count_ids row_ids xs + count_ids row_ids ys
count_ids-append row_ids [] ys = omega arith
count_ids-append row_ids (x ∷ xs) ys = ground (arith, count_ids-append row_ids xs ys)

full_count :
    (row_ids ids : List ℕ)
    → All (λ id. mem id row_ids ≡ true) ids
    → count_ids row_ids ids ≡ length ids
full_count row_ids [] all = refl
full_count row_ids (id ∷ ids) all = ground (arith, all.0, full_count row_ids ids all.1)

empty_count :
    (row_ids ids : List ℕ) → All (λ id. mem id row_ids ≡ false) ids → count_ids row_ids ids ≡ 0
empty_count row_ids [] all = refl
empty_count row_ids (id ∷ ids) all = ground (arith, all.0, empty_count row_ids ids all.1)

length-ids : (rows : List ApplicantRow) → length (row_candidate_ids rows) ≡ length rows
length-ids [] = refl
length-ids (r ∷ rows) = ap suc (length-ids rows)

not_applied :
    (job_id c : ℕ) (required : List ℕ) (db : Db) (cs : List Candidate)
    → exists_where (λ (k : Candidate). is_possible_match job_id required db k && k.id == c) cs
      ≡ true
    → has_applied c job_id db.applications ≡ false
not_applied job_id c required db [] h = cc
not_applied job_id c required db (k ∷ cs) h =
    elim (Bool-cases (is_possible_match job_id required db k && k.id == c)) [
      | inl hit ↦
          let e : k.id ≡ c = (==_iff k.id c).0 (ground (arith, hit)) in
          let f : has_applied k.id job_id db.applications ≡ false = ground (arith, hit) in
          subst (λ z. has_applied z job_id db.applications ≡ false) e f
      | inr miss ↦ not_applied job_id c required db cs (ground (arith, h, miss))
    ]

-- No candidate for a match has a row.
match_without_row :
    (job_id : ℕ) (required : List ℕ) (db : Db)
    → All
        (λ id. mem id (row_candidate_ids (applicant_rows job_id db)) ≡ false)
        (automatic_match_candidate_ids job_id required db)
match_without_row job_id required db =
    mem-All _ (automatic_match_candidate_ids job_id required db) (λ c m.
      mem-applicant_rows job_id db c
      ∙ rw (
          not_applied job_id c required db db.candidates
            (sym (mem-match_ids job_id db c required) ∙ m)))

-- As many listed scores have a row as there are rows.
pub listed_rows_count :
    (job_id : ℕ) (required : List ℕ) (db : Db)
    → count_where
        (λ s. mem s.candidate_id (row_candidate_ids (applicant_rows job_id db)))
        (listed_scores job_id (applicant_rows job_id db) required db)
      ≡ length (applicant_rows job_id db)
unfolding listed_scores
listed_rows_count job_id required db =
    let rows = applicant_rows job_id db in
    let row_ids = row_candidate_ids rows in
    let match_ids = automatic_match_candidate_ids job_id required db in
    let has_row = λ (s : CompatibilityScore). mem s.candidate_id row_ids in
    count_select has_row (is_listed rows) (rank required (resume_skills db (row_ids ++ match_ids)))
      (λ s h. rw h)
    ∙ count_sorted has_row (all_scores required (resume_skills db (row_ids ++ match_ids)))
    ∙ has_row_count row_ids required db (row_ids ++ match_ids)
    ∙ count_ids-append row_ids row_ids match_ids
    ∙ rw
        (
          full_count row_ids row_ids (mem-All _ row_ids (λ a m. m)),
          empty_count row_ids match_ids (match_without_row job_id required db),
          length-ids rows,
        )
        (omega arith)

length-select :
    (p : JobApplicant → Bool) (xs : List JobApplicant)
    → length (select_where p xs) ≡ count_where p xs
length-select p [] = refl
length-select p (x ∷ xs) = ground (arith, length-select p xs)

length-counts :
    (p : JobApplicant → Bool) (xs : List JobApplicant)
    → length xs ≡ count_where p xs + count_where (λ x. not (p x)) xs
length-counts p [] = refl
length-counts p (x ∷ xs) = ground (arith, length-counts p xs)

described_count :
    (rows : List ApplicantRow) (scores : List CompatibilityScore) (applicants : List JobApplicant)
    → DescribeAll rows scores applicants
    → count_where is_application applicants
      ≡ count_where (λ s. mem s.candidate_id (row_candidate_ids rows)) scores
described_count rows [] [] d = refl
described_count rows [] (a ∷ applicants) d = absurd d
described_count rows (s ∷ scores) [] d = absurd d
described_count rows (s ∷ scores) (a ∷ applicants) (d, all) =
    rw (d.origin, described_count rows scores applicants all)

-- What the numbers of a summary count.
pub record CountsEntries (summary : JobApplicantsSummary) : Type 0 where
  pub applicants_counted :
      summary.total_applicant_count ≡ count_where is_application summary.applicants
  pub matches_counted :
      summary.automatic_match_count ≡ count_where (λ a. not (is_application a)) summary.applicants

pub summary_of-CountsEntries :
    (job_id : ℕ) (listed : List JobApplicant) → CountsEntries (summary_of job_id listed)
unfolding summary_of
summary_of-CountsEntries job_id listed = record {
  applicants_counted = length-select is_application listed;
  matches_counted =
      rw (length-select is_application listed, length-counts is_application listed) (omega arith);
}

pub described_total :
    (job_id : ℕ) (required : List ℕ) (db : Db) (applicants : List JobApplicant)
    → DescribeAll
        (applicant_rows job_id db)
        (listed_scores job_id (applicant_rows job_id db) required db)
        applicants
    → (summary_of job_id applicants).total_applicant_count ≡ length (applicant_rows job_id db)
unfolding summary_of
described_total job_id required db applicants d =
    length-select is_application applicants
    ∙ described_count (applicant_rows job_id db)
        (listed_scores job_id (applicant_rows job_id db) required db) applicants d
    ∙ listed_rows_count job_id required db
