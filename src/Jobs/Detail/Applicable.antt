-- ===== src/Jobs/Detail/Applicable.antt =====
-- The detail of a job and a submission to it agree.
use seniors_empregabilidade.Prelude.{
  ==_iff, Bool, Bool-cases, List, Option, Option-cases, ap, arith, false, first_where_passes, inl,
  inr, is_some, none, not, refl, some, subst, sym, true, ℕ, ◌&&◌, ◌==◌, ◌∙◌, ◌≡◌,
}
use seniors_empregabilidade.Database.Enums.{is_blocked_account}
use seniors_empregabilidade.Database.Errors.{Error, JobError}
use seniors_empregabilidade.Database.Session.{Result, Server, err, ok}
use seniors_empregabilidade.Database.Tables.{AppUser, Company, Db, Job, Skill}
use seniors_empregabilidade.Applications.Submit.{
  SubmittedApplication, account_status_of, candidate_exists, has_applied, is_blocked_status,
  job_by_id, submit_application,
}
use seniors_empregabilidade.Applications.Submit.Spec.{
  IsOpenJob, Outcome, submit_application-Outcome,
}
use seniors_empregabilidade.Companies.Review.{company_by_id, user_by_id}
use seniors_empregabilidade.Companies.Review.Spec.{exists_first}
use seniors_empregabilidade.Jobs.Detail.{
  JobDetail, detail_of, get_job_detail, is_visible, row_of_job, visible_row,
}
use seniors_empregabilidade.Jobs.Open.{is_open_at}
use seniors_empregabilidade.Notifications.Notify.{user_exists}

-- The answer is not an exception.
abbrev pub is_ok : {A : Type 0} → Result A → Bool
is_ok (ok a) = true
is_ok (err e) = false

and_false : (b : Bool) → (b && false) ≡ false
and_false b = ground arith

module _ (to_local_date : ℕ → ℕ) (order_by_name : List Skill → List Skill) (server : Server)
    (job_id candidate_id now : ℕ) (db : Db) where
  abbrev detail : Result JobDetail × Db
  detail = get_job_detail to_local_date order_by_name job_id candidate_id now db

  abbrev submission : Result SubmittedApplication × Db
  submission = submit_application to_local_date server job_id candidate_id now db

  -- What the rows of a shown job say.
  record IsShown (d : JobDetail) (job : Job) (user : AppUser) : Type 0 where
    found : job_by_id job_id db ≡ some job
    account : user_by_id job.company_id db ≡ some user
    free : is_blocked_account user.account_status ≡ false
    applicable : d.is_applicable ≡ (
        is_open_at to_local_date now job && not (has_applied candidate_id job.id db.applications))

  detail_hidden :
      row_of_job (job_by_id job_id db) db ≡ none
      → detail ≡ (err (Error.job JobError.job_not_found), db)
  unfolding get_job_detail
  detail_hidden e = ground arith

  detail_found :
      (found : Job × Company)
      → row_of_job (job_by_id job_id db) db ≡ some found
      → detail ≡ (ok (detail_of to_local_date order_by_name candidate_id now found db), db)
  unfolding get_job_detail
  detail_found found e = ground arith

  visible :
      (d : JobDetail)
      → detail ≡ (ok d, db)
      → (found : Job × Company) × (row_of_job (job_by_id job_id db) db ≡ some found)
  visible d e = elim (Option-cases (row_of_job (job_by_id job_id db) db)) [
    | inl n ↦ cc (detail_hidden n)
    | inr found ↦ found
  ]

  answered :
      (d : JobDetail) (found : Job × Company)
      → detail ≡ (ok d, db)
      → row_of_job (job_by_id job_id db) db ≡ some found
      → d ≡ detail_of to_local_date order_by_name candidate_id now found db
  answered d found e f = cc (detail_found found f)

  row_shown :
      (job : Job) (company : Option Company) (holder : Option AppUser) (found : Job × Company)
      → visible_row job company holder ≡ some found
      → (found.0 ≡ job) × ((user : AppUser) × ((holder ≡ some user) × (is_visible job user ≡ true)))
  row_shown job none holder found h = cc
  row_shown job (some company) none found h = cc
  row_shown job (some company) (some holder) found h = elim (Bool-cases (is_visible job holder)) [
    | inl shows ↦ (ground (arith, h, shows), (holder, (refl, shows)))
    | inr hides ↦ ground (arith, h, hides)
  ]

  shown :
      (d : JobDetail) → detail ≡ (ok d, db) → (job : Job) × ((user : AppUser) × IsShown d job user)
  unfolding detail_of
  shown d e = elim (Option-cases (job_by_id job_id db)) [
    | inl n ↦ cc (detail_hidden (ground arith))
    | inr (job, f) ↦
        let (found, r) = visible d e in
        let (same, (user, (u, v))) =
          row_shown job (company_by_id job.company_id db) (user_by_id job.company_id db) found
            (ground (arith, f, r)) in
        (
          job,
          (
            user,
            record {
              found = f;
              account = u;
              free = ground (arith, v);
              applicable =
                  ap (λ (x : JobDetail). x.is_applicable) (answered d found e r)
                  ∙ ap
                      (λ (j : Job).
                        is_open_at to_local_date now j
                        && not (has_applied candidate_id j.id db.applications))
                      same;
            },
          ),
        )
  ]

  module _ (known : candidate_exists candidate_id db ≡ true) (d : JobDetail) (job : Job)
      (user : AppUser) (s : IsShown d job user) where
    job_key : job.id ≡ job_id
    job_key =
        (==_iff job.id job_id).0
          (first_where_passes (λ (j : Job). j.id == job_id) db.jobs job s.found)

    has_account : user_exists job.company_id db ≡ true
    has_account = exists_first job.company_id db.users ∙ ap is_some s.account

    not_blocked : is_blocked_status (account_status_of job.company_id db) ≡ false
    not_blocked = rw (s.account, s.free)

    the_job : (j : Job) → job_by_id job_id db ≡ some j → j ≡ job
    the_job j f = cc (f, s.found)

    open_value :
        IsOpenJob to_local_date server job_id candidate_id now db job
        → is_open_at to_local_date now job ≡ true
    open_value o = ground (arith, o.published, o.in_time)

    closed_value :
        ¬ IsOpenJob to_local_date server job_id candidate_id now db job
        → is_open_at to_local_date now job ≡ false
    closed_value n = elim (Bool-cases (is_open_at to_local_date now job)) [
      | inl is_open ↦ absurd (
          n (record {
            found = s.found;
            published = ground (arith, is_open);
            in_time = ground (arith, is_open);
            company_free = not_blocked;
          }))
      | inr closed ↦ closed
    ]

    applicable_when :
        (b c : Bool)
        → is_open_at to_local_date now job ≡ b
        → has_applied candidate_id job_id db.applications ≡ c
        → d.is_applicable ≡ (b && not c)
    applicable_when b c o a = s.applicable ∙ rw (job_key, o, a)

    agrees :
        (r : Result SubmittedApplication × Db)
        → Outcome to_local_date server job_id candidate_id now db r
        → d.is_applicable ≡ is_ok r.0
    agrees r (Outcome.accepted job' o k new u e) =
        applicable_when true false
          (open_value (
            subst (IsOpenJob to_local_date server job_id candidate_id now db) (the_job job' o.found)
              o))
          new
        ∙ ap (λ x. is_ok x.0) (sym e)
    agrees r (Outcome.missing n e) = cc (s.found)
    agrees r (Outcome.not_open job' f n e) =
        applicable_when false _
          (closed_value (
            subst (λ j. ¬ IsOpenJob to_local_date server job_id candidate_id now db j)
              (the_job job' f) n))
          refl
        ∙ ap (λ x. is_ok x.0) (sym e)
    agrees r (Outcome.duplicate old e) =
        applicable_when _ true refl old
        ∙ and_false (is_open_at to_local_date now job)
        ∙ ap (λ x. is_ok x.0) (sym e)
    agrees r (Outcome.unknown_candidate k e) = cc known
    agrees r (Outcome.unknown_company job' f u e) =
        cc (has_account, ap (λ (j : Job). user_exists j.company_id db) (the_job job' f), u)

-- The detail of a job and a submission agree: for a known candidate and a job whose detail is shown,
-- the job is marked applicable exactly if the candidate's submission at that time is accepted.
pub is_applicable-submit_application :
    (to_local_date : ℕ → ℕ) (order_by_name : List Skill → List Skill) (server : Server)
    (job_id candidate_id now : ℕ) (db : Db) (d : JobDetail)
    → candidate_exists candidate_id db ≡ true
    → get_job_detail to_local_date order_by_name job_id candidate_id now db ≡ (ok d, db)
    → d.is_applicable ≡ is_ok (submit_application to_local_date server job_id candidate_id now db).0
is_applicable-submit_application to_local_date order_by_name server job_id candidate_id now db d
      known e =
    let (job, (user, s)) =
      shown to_local_date order_by_name server job_id candidate_id now db d e in
    agrees to_local_date order_by_name server job_id candidate_id now db known d job user s _
      (submit_application-Outcome to_local_date server job_id candidate_id now db)
