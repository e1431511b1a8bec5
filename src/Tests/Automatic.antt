-- ===== src/Tests/Automatic.antt =====
-- Runs of the automatic applications and of the compatibility of jobs and candidates.
use seniors_empregabilidade.Prelude.{
  List, [], arith, exists_where, length, refl, ℕ, ◌&&◌, ◌*◌, ◌+◌, ◌==◌, ◌||◌, ◌∷◌, ◌≡◌,
}
use seniors_empregabilidade.Database.Session.{Server}
use seniors_empregabilidade.Applications.Automatic.{apply_to_job, automatic_application}
use seniors_empregabilidade.Applications.Automatic.Daily.{
  apply_to_jobs, generate_automatic_applications_for_open_jobs,
}
use seniors_empregabilidade.Applications.Automatic.Insert.{IsFreshFrom}
use seniors_empregabilidade.Applications.Automatic.Rounds.{
  apply_to_job_twice, has_applied-apply_to_job, is_chosen,
}
use seniors_empregabilidade.Applications.Automatic.Settled.{
  generate_automatic_applications_for_open_jobs_twice,
}
use seniors_empregabilidade.Applications.Automatic.Table.{apply_to_job_lem}
use seniors_empregabilidade.Applications.Invariant.{IsValid}
use seniors_empregabilidade.Applications.Submit.{has_applied}
use seniors_empregabilidade.Jobs.Compatibility.{
  all_scores, half_even, half_up, percentage, places, rank, score,
}
use seniors_empregabilidade.Jobs.Compatibility.Ranking.{IsDescending, rank_lem, tied}
use seniors_empregabilidade.Tests.Applications.{sample-IsValid}
use seniors_empregabilidade.Tests.Samples.{same_day, sample, server}

has_applied-apply_to_job_example :
    has_applied 3 10 (apply_to_job server 10 70 sample).1.applications ≡ (
      has_applied 3 10 sample.applications
      || exists_where (λ c. is_chosen 10 70 sample c && c.id == 3) sample.candidates)
has_applied-apply_to_job_example = has_applied-apply_to_job server 10 70 sample 3

apply_to_job_twice_example :
    apply_to_job server 10 70 (apply_to_job server 10 70 sample).1
    ≡ (0, (apply_to_job server 10 70 sample).1)
apply_to_job_twice_example = apply_to_job_twice server server 10 70 sample

server-IsFreshFrom : IsFreshFrom server 10 0 sample.applications
server-IsFreshFrom = record {
  apart = λ i j e. omega (arith, e);
  unused = λ i h. (λ e. omega (arith, e), tt);
}

apply_to_job_lem_example :
    let r = apply_to_job server 10 70 sample in
    IsValid r.1.applications × (length r.1.applications ≡ r.0 + length sample.applications)
apply_to_job_lem_example = apply_to_job_lem server 10 70 sample server-IsFreshFrom sample-IsValid

-- Candidate 3 has both skills and has not applied.
one_created : (apply_to_job server 10 70 sample).0 ≡ 1
unfolding apply_to_job score automatic_application
one_created = refl

abbrev held : List (ℕ × List ℕ)
held = (2, 31 ∷ []) ∷ (3, 31 ∷ 32 ∷ []) ∷ (4, 32 ∷ []) ∷ []

rank_lem_example :
    IsDescending (rank (31 ∷ 32 ∷ []) held)
    × ((p : ℕ) → tied p (rank (31 ∷ 32 ∷ []) held) ≡ tied p (all_scores (31 ∷ 32 ∷ []) held))
rank_lem_example = rank_lem (31 ∷ 32 ∷ []) held

-- Two of three skills are 66.67 percent.
two_thirds :
    percentage
      (record { candidate_id = 0; matched_skill_ids = 1 ∷ 2 ∷ []; missing_skill_ids = 3 ∷ [] })
    ≡ 6667
unfolding percentage half_up half_even places
two_thirds = refl

-- Each job of a daily round gets identifiers of its own.
abbrev daily_servers : ℕ → Server
daily_servers n = record { uuid = λ i. 200 + 10 * n + i; now = 6 }

-- The daily round applies the candidate who has both skills.
daily_round_applies :
    (generate_automatic_applications_for_open_jobs same_day daily_servers 70 6 sample).0 ≡ 1
unfolding generate_automatic_applications_for_open_jobs apply_to_jobs apply_to_job score
daily_round_applies = refl

generate_automatic_applications_for_open_jobs_twice_example :
    let first = generate_automatic_applications_for_open_jobs same_day daily_servers 70 6 sample in
    generate_automatic_applications_for_open_jobs same_day daily_servers 70 6 first.1 ≡ (0, first.1)
generate_automatic_applications_for_open_jobs_twice_example =
    generate_automatic_applications_for_open_jobs_twice same_day daily_servers daily_servers 70 6
      sample
