-- ===== src/Applications/History/Rows.antt =====
-- The invariant of the application table over any sequence of calls, and the life of one row.
use seniors_empregabilidade.Prelude.{
  ==_iff, All-IsIn, Bool-cases, IsIn, IsIn-update_where, IsKeyed, IsKeyed-same, List, [], ap,
  false≢true, if◌then◌else◌, inl, inr, refl, subst, sym, true, update_where, ℕ, ◌==◌, ◌∙◌, ◌∷◌, ◌≡◌,
}
use seniors_empregabilidade.Database.Enums.{ApplicationStatus}
use seniors_empregabilidade.Database.Tables.{Application, Db}
use seniors_empregabilidade.Applications.History.{
  Call, IsFreshRun, TableStep, after, after-TableStep, run,
}
use seniors_empregabilidade.Applications.Invariant.{
  IsValid, IsValidApplication, insert-IsValid, save-IsValid,
}
use seniors_empregabilidade.Applications.Status.{Step, Step-is_terminal, is_terminal}

pub TableStep-IsValid :
    {rows rows' : List Application} → TableStep rows rows' → IsValid rows → IsValid rows'
TableStep-IsValid TableStep.unchanged v = v
TableStep-IsValid (TableStep.inserted a fresh new ok_row s) v =
    insert-IsValid a _ fresh new ok_row v
TableStep-IsValid (TableStep.replaced f a i c j m st keep) v =
    save-IsValid f a _ i c j m (keep (All-IsIn IsValidApplication _ a v.valid m)) v

-- One or more steps of the life of an application, or none.
pub data Reaches (s : ApplicationStatus) : ApplicationStatus → Type 0 where
  stay : Reaches s s
  next : {t u : ApplicationStatus} → Reaches s t → Step t u → Reaches s u

-- What may become of a row: it keeps its identity and its status moves along steps.
pub record Becomes (a b : Application) : Type 0 where
  pub id : b.id ≡ a.id
  pub candidate : b.candidate_id ≡ a.candidate_id
  pub job : b.job_id ≡ a.job_id
  pub reached : Reaches a.status b.status

-- The same, and once its status is terminal the row is never written again.
record Follows (a b : Application) : Type 0 where
  pub id : b.id ≡ a.id
  pub candidate : b.candidate_id ≡ a.candidate_id
  pub job : b.job_id ≡ a.job_id
  pub reached : Reaches a.status b.status
  pub final : is_terminal a.status ≡ true → b ≡ a

Reaches-trans : {s t u : ApplicationStatus} → Reaches s t → Reaches t u → Reaches s u
Reaches-trans r stay = r
Reaches-trans r (next q st) = next (Reaches-trans r q) st

Follows-refl : (a : Application) → Follows a a
Follows-refl a = record {
  id = refl;
  candidate = refl;
  job = refl;
  reached = stay;
  final = λ h. refl;
}

Follows-trans : {a b c : Application} → Follows a b → Follows b c → Follows a c
Follows-trans {a} {b} {c} x y = record {
  id = y.id ∙ x.id;
  candidate = y.candidate ∙ x.candidate;
  job = y.job ∙ x.job;
  reached = Reaches-trans x.reached y.reached;
  final = λ h. y.final (ap (λ z. is_terminal z.status) (x.final h) ∙ h) ∙ x.final h;
}

abbrev FollowsIn : Application → List Application → Type 0
FollowsIn a rows = (b : Application) × IsIn b rows × Follows a b

abbrev replaced_rows :
    (Application → Application) → Application → List Application → List Application
replaced_rows f a rows = update_where (λ z. z.id == (f a).id) (λ _. f a) rows

replaced_row :
    (f : Application → Application) (a x : Application) (rows : List Application)
    → ((b : Application) → (f b).id ≡ b.id)
    → ((b : Application) → (f b).candidate_id ≡ b.candidate_id)
    → ((b : Application) → (f b).job_id ≡ b.job_id)
    → IsKeyed (λ z. z.id) rows
    → IsIn a rows
    → Step a.status (f a).status
    → IsIn x rows
    → FollowsIn x (replaced_rows f a rows)
replaced_row f a x rows i c j d m st mx =
    let mem = IsIn-update_where (λ z. z.id == (f a).id) (λ _. f a) rows x mx in
    elim (Bool-cases (x.id == (f a).id)) [
      | inr miss ↦ (
        x,
        subst (λ t. IsIn (if t then f a else x) (replaced_rows f a rows)) miss mem,
        Follows-refl x,
      )
      | inl hit ↦ (
        f a,
        subst (λ t. IsIn (if t then f a else x) (replaced_rows f a rows)) hit mem,
        subst (λ y. Follows y (f a))
            (IsKeyed-same (λ z. z.id) rows a x d m mx (sym (i a) ∙ sym ((==_iff _ _).0 hit)))
            record {
              id = i a;
              candidate = c a;
              job = j a;
              reached = next stay st;
              final = λ h. absurd (false≢true (sym (Step-is_terminal st) ∙ h));
            },
      )
    ]

TableStep-FollowsIn :
    {rows rows' : List Application}
    → TableStep rows rows'
    → IsKeyed (λ z. z.id) rows
    → (x : Application) → IsIn x rows
    → FollowsIn x rows'
TableStep-FollowsIn TableStep.unchanged d x m = (x, m, Follows-refl x)
TableStep-FollowsIn (TableStep.inserted a fresh new ok_row s) d x m = (x, inr m, Follows-refl x)
TableStep-FollowsIn (TableStep.replaced f a i c j ma st keep) d x m =
    replaced_row f a x _ i c j d ma st m

module _ (to_local_date : ℕ → ℕ) where
  -- Over any sequence of submissions, status changes and withdrawals in which the server generates
  -- fresh identifiers, the application table, if it is valid before, keeps unique identifiers, at
  -- most one application of a candidate to a job, a closing time exactly on the terminal statuses,
  -- and no match above its total.
  pub run-IsValid :
      (calls : List Call) (db : Db)
      → IsFreshRun to_local_date calls db
      → IsValid db.applications
      → IsValid (run to_local_date calls db).applications
  run-IsValid [] db fresh v = v
  run-IsValid (call ∷ calls) db fresh v =
      run-IsValid calls (after to_local_date call db) fresh.1
        (TableStep-IsValid (after-TableStep to_local_date db call fresh.0) v)

  run-FollowsIn :
      (calls : List Call) (db : Db)
      → IsFreshRun to_local_date calls db
      → IsValid db.applications
      → (a : Application) → IsIn a db.applications
      → FollowsIn a (run to_local_date calls db).applications
  run-FollowsIn [] db fresh v a m = (a, m, Follows-refl a)
  run-FollowsIn (call ∷ calls) db fresh v a m =
      let step = after-TableStep to_local_date db call fresh.0 in
      let (b, mb, ab) = TableStep-FollowsIn step v.keyed a m in
      let (c, mc, bc) =
        run-FollowsIn calls (after to_local_date call db) fresh.1 (TableStep-IsValid step v) b mb in
      (c, mc, Follows-trans ab bc)

  -- Over any sequence of submissions, status changes and withdrawals in which the server generates
  -- fresh identifiers, no application is lost: each row of a table that is valid before is still
  -- there at the end with the same identity, and its status has moved only along the steps of an
  -- application's life.
  pub run-Becomes :
      (calls : List Call) (db : Db)
      → IsFreshRun to_local_date calls db
      → IsValid db.applications
      → (a : Application) → IsIn a db.applications
      → (b : Application) × IsIn b (run to_local_date calls db).applications × Becomes a b
  run-Becomes calls db fresh v a m =
      let (b, mb, ab) = run-FollowsIn calls db fresh v a m in
      (b, mb, record { id = ab.id; candidate = ab.candidate; job = ab.job; reached = ab.reached })

  -- A row of a valid table whose status is terminal is still there, unchanged in every column, after
  -- any sequence of submissions, status changes and withdrawals in which the server generates fresh
  -- identifiers.
  pub run_keeps_closed :
      (calls : List Call) (db : Db)
      → IsFreshRun to_local_date calls db
      → IsValid db.applications
      → (a : Application) → IsIn a db.applications
      → is_terminal a.status ≡ true
      → IsIn a (run to_local_date calls db).applications
  run_keeps_closed calls db fresh v a m closed =
      let (b, mb, ab) = run-FollowsIn calls db fresh v a m in
      subst (λ x. IsIn x (run to_local_date calls db).applications) (ab.final closed) mb
