-- ===== src/Applications/Automatic/Trigger.antt =====
-- What the trigger for a published job guarantees.
use seniors_empregabilidade.Prelude.{
  Bool, Bool-cases, exists_where, inl, inr, is_none_of, to_set, ℕ, ◌&&◌, ◌==◌, ◌∙◌, ◌≡◌,
}
use seniors_empregabilidade.Database.Session.{Server}
use seniors_empregabilidade.Database.Tables.{Db}
use seniors_empregabilidade.Applications.Automatic.{
  apply_to_job, generate_automatic_applications_for_job, is_applicable,
}
use seniors_empregabilidade.Applications.Automatic.Rounds.{apply_to_job_twice}
use seniors_empregabilidade.Applications.Submit.{required_skill_ids}

module _ (to_local_date : ℕ → ℕ) (job_id now : ℕ) where
  -- The trigger's query for the job.
  abbrev is_triggered : Db → Bool
  is_triggered db =
      exists_where (λ j. j.id == job_id && is_applicable to_local_date now db j) db.jobs

  -- A round writes neither jobs nor accounts.
  triggered_after :
      (server : Server) (threshold_percent : ℕ) (db : Db)
      → is_triggered (apply_to_job server job_id threshold_percent db).1 ≡ is_triggered db
  unfolding apply_to_job
  triggered_after server threshold_percent db =
      elim (Bool-cases (is_none_of (to_set (required_skill_ids job_id db)))) [
        | inl none_required ↦ rw none_required
        | inr some_required ↦ rw some_required
      ]

-- Running the trigger for a job a second time, with the same threshold and at the same time,
-- creates no application and leaves all tables as the first run left them, whether the job is open
-- or not.
pub generate_automatic_applications_for_job_twice :
    (to_local_date : ℕ → ℕ) (server server' : Server) (job_id threshold_percent now : ℕ) (db : Db)
    → let first =
        generate_automatic_applications_for_job to_local_date server job_id threshold_percent now
          db in
      generate_automatic_applications_for_job to_local_date server' job_id threshold_percent now
        first.1
      ≡ (0, first.1)
unfolding generate_automatic_applications_for_job
generate_automatic_applications_for_job_twice to_local_date server server' job_id threshold_percent
      now db =
    elim (Bool-cases (is_triggered to_local_date job_id now db)) [
      | inr closed ↦ rw closed (rw closed)
      | inl open_now ↦ rw open_now (
          rw (triggered_after to_local_date job_id now server threshold_percent db ∙ open_now)
            (apply_to_job_twice server server' job_id threshold_percent db))
    ]
