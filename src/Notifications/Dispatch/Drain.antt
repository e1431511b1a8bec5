-- ===== src/Notifications/Dispatch/Drain.antt =====
-- What a whole run of the dispatcher guarantees.
use mathlib.Core.Path.{subst}
use seniors_empregabilidade.Prelude.{
  All, All-IsIn, All-update_where, Bool, IsKeyed, Str, ap, count_where, false, if◌then◌else◌, refl,
  suc, sym, true, zero, ℕ, ◌+◌, ◌==◌, ◌∙◌, ◌≡◌, ◌≤◌,
}
use seniors_empregabilidade.Database.Session.{Result, continue, err, ok, pure}
use seniors_empregabilidade.Database.Tables.{Db}
use seniors_empregabilidade.Notifications.Dispatch.{
  EmailSender, dispatch_from, dispatch_one, dispatch_pending_emails,
}
use seniors_empregabilidade.Notifications.Dispatch.Delivery.{
  IsConsistent, Round, dispatch_one-Round, due,
}

-- A run that starts with consistent rows ends with consistent rows, whatever the provider answers
-- and also when an exception ends it, and it writes to no other table.
abbrev KeepsRows : (max_attempts : ℕ) → Db → Db → Type 0
KeepsRows max_attempts db db' =
    All (IsConsistent max_attempts) db'.deliveries
    × (db' ≡ record db { deliveries = db'.deliveries })

module _ (sender : EmailSender) (app_url : Str) (max_attempts : ℕ) (clock : ℕ → ℕ) where
  -- What the loop does after a round.
  next : (rounds attempted : ℕ) → Result Bool × Db → Result ℕ × Db
  next rounds attempted (ok true, db) =
      dispatch_from sender app_url max_attempts clock rounds (attempted + 1) db
  next rounds attempted (ok false, db) = (ok attempted, db)
  next rounds attempted (err e, db) = (err e, db)

  abbrev round : (attempted : ℕ) → Db → Result Bool × Db
  round attempted = dispatch_one sender app_url max_attempts attempted (clock attempted)

  then_next :
      (rounds attempted : ℕ) (r : Result Bool × Db)
      → continue
          (λ claimed.
            if claimed
            then dispatch_from sender app_url max_attempts clock rounds (attempted + 1)
            else pure attempted)
          r
        ≡ next rounds attempted r
  unfolding next
  then_next rounds attempted (ok true, db) = refl
  then_next rounds attempted (ok false, db) = refl
  then_next rounds attempted (err e, db) = refl

  dispatch_from-next :
      (rounds attempted : ℕ) (db : Db)
      → dispatch_from sender app_url max_attempts clock (suc rounds) attempted db
        ≡ next rounds attempted (round attempted db)
  unfolding dispatch_from
  dispatch_from-next rounds attempted db = then_next rounds attempted (round attempted db)

  Round-KeepsRows :
      (now : ℕ) (db : Db) (r : Result Bool × Db)
      → 1 ≤ max_attempts
      → All (IsConsistent max_attempts) db.deliveries
      → Round max_attempts now db r
      → KeepsRows max_attempts db r.1
  Round-KeepsRows now db (ok true, db') pos all (d, d', m, p, adv, keep, e) =
      subst (KeepsRows max_attempts db) (sym e) (
        All-update_where (IsConsistent max_attempts) (λ x. x.id == d'.id) (λ x. d') db.deliveries
            (λ x hit h. keep pos (All-IsIn (IsConsistent max_attempts) db.deliveries d all m)) all,
        refl,
      )
  Round-KeepsRows now db (ok false, db') pos all (e, none_due) =
      subst (KeepsRows max_attempts db) (sym e) (all, refl)
  Round-KeepsRows now db (err x, db') pos all e =
      subst (KeepsRows max_attempts db) (sym e) (all, refl)

  dispatch_from-KeepsRows :
      (rounds attempted : ℕ) (db : Db)
      → 1 ≤ max_attempts
      → All (IsConsistent max_attempts) db.deliveries
      → KeepsRows max_attempts db
          (dispatch_from sender app_url max_attempts clock rounds attempted db).1
  unfolding dispatch_from next
  dispatch_from-KeepsRows zero attempted db pos all = (all, refl)
  dispatch_from-KeepsRows (suc rounds) attempted db pos all =
      rw (dispatch_from-next rounds attempted db) (
        go (round attempted db)
          (Round-KeepsRows (clock attempted) db (round attempted db) pos all
            (dispatch_one-Round sender app_url max_attempts attempted (clock attempted) db))
          (λ db'. dispatch_from-KeepsRows rounds (attempted + 1) db' pos))
    where
      go :
          (r : Result Bool × Db)
          → KeepsRows max_attempts db r.1
          → ((db' : Db)
              → All (IsConsistent max_attempts) db'.deliveries
              → KeepsRows max_attempts db'
                  (dispatch_from sender app_url max_attempts clock rounds (attempted + 1) db').1)
          → KeepsRows max_attempts db (next rounds attempted r).1
      go (ok true, db') k rest =
          let r : KeepsRows max_attempts db' (next rounds attempted (ok true, db')).1 =
            rest db' k.0 in
          (
            r.0,
            r.1
                ∙ ap
                    (λ (x : Db). record x {
                      deliveries = (next rounds attempted (ok true, db')).1.deliveries;
                    })
                    k.1,
          )
      go (ok false, db') k rest = k
      go (err e, db') k rest = k

  -- After a round that claimed a row, one row fewer is due, and the rows are still keyed.
  abbrev Drains : (now : ℕ) → Db → Db → Type 0
  Drains now db db' =
      IsKeyed (λ d. d.id) db'.deliveries
      × (suc (count_where (due now db') db'.deliveries) ≡ count_where (due now db) db.deliveries)

  -- At a fixed time, `rounds` rounds are enough for as many due rows.
  abbrev Drained : (now attempted due_before : ℕ) → Result ℕ × Db → Type 0
  Drained now attempted due_before (r, db) =
      (r ≡ ok (attempted + due_before)) × (count_where (due now db) db.deliveries ≡ 0)

-- When every row is consistent before a run, every row is consistent after it, whatever the
-- provider answers, whatever the clock reads and also when an exception ends the run: a pending row
-- has attempts left, a sent row has its time and no error, a failed row has its error. No other
-- table is written.
pub dispatch_pending_emails-IsConsistent :
    (sender : EmailSender) (app_url : Str) (max_attempts : ℕ) (clock : ℕ → ℕ) (batch_size : ℕ)
    (db : Db)
    → 1 ≤ max_attempts
    → All (IsConsistent max_attempts) db.deliveries
    → let db' = (dispatch_pending_emails sender app_url max_attempts clock batch_size db).1 in
      All (IsConsistent max_attempts) db'.deliveries
      × (db' ≡ record db { deliveries = db'.deliveries })
unfolding dispatch_pending_emails
dispatch_pending_emails-IsConsistent sender app_url max_attempts clock batch_size db pos all =
    dispatch_from-KeepsRows sender app_url max_attempts clock batch_size 0 db pos all
