-- ===== src/Notifications/Dispatch/Delivery.antt =====
-- What one attempt and a whole run leave in the delivery rows.
use mathlib.Core.Path.{subst}
use seniors_empregabilidade.Prelude.{
  Bool, IsIn, List, Option, Option-cases, Str, [], arith, count_where, false, inl, inr, is_some,
  leb, none, refl, some, suc, sym, true, ℕ, ◌&&◌, ◌<◌, ◌∷◌, ◌≡◌, ◌≤◌,
}
use seniors_empregabilidade.Database.Enums.{EmailDeliveryStatus, is_pending_delivery}
use seniors_empregabilidade.Database.Errors.{Error}
use seniors_empregabilidade.Database.Session.{Result, err, ok, rolled_back, transaction}
use seniors_empregabilidade.Database.Tables.{Db, EmailDelivery}
use seniors_empregabilidade.Notifications.Dispatch.{
  EmailSender, SendOutcome, after_send, attempt, dispatch_one, earliest, is_due, joined,
  save_delivery, send,
}
use seniors_empregabilidade.Notifications.Email.{notification_email}
use seniors_empregabilidade.Notifications.Retry.{retry_delay, retry_delay_pos}
use seniors_empregabilidade.Notifications.Types.{member}

-- What the columns of a row say together, by its status.
abbrev pub StatusHolds :
    (max_attempts : ℕ) → EmailDeliveryStatus → (attempts : ℕ) → Option ℕ → Option Str → Type 0
StatusHolds max_attempts EmailDeliveryStatus.pending attempts sent_at last_error =
    (attempts < max_attempts) × (sent_at ≡ none)
StatusHolds max_attempts EmailDeliveryStatus.sent attempts sent_at last_error =
    (1 ≤ attempts) × (attempts ≤ max_attempts) × (is_some sent_at ≡ true) × (last_error ≡ none)
StatusHolds max_attempts EmailDeliveryStatus.failed attempts sent_at last_error =
    (attempts ≤ max_attempts) × (sent_at ≡ none) × (is_some last_error ≡ true)

abbrev pub IsConsistent : (max_attempts : ℕ) → EmailDelivery → Type 0
IsConsistent max_attempts d = StatusHolds max_attempts d.status d.attempts d.sent_at d.last_error

-- What stays the same of a row, and that it is no longer due at the time of the attempt.
pub record Advanced (now : ℕ) (d d' : EmailDelivery) : Type 0 where
  pub same_id : d'.id ≡ d.id
  pub same_notification : d'.notification_id ≡ d.notification_id
  pub settled : (is_pending_delivery d'.status && leb d'.next_attempt_at now) ≡ false
  pub attempts_grow : d.attempts ≤ d'.attempts

after_send-IsConsistent :
    (outcome : SendOutcome) (max_attempts now : ℕ) (d d' : EmailDelivery)
    → 1 ≤ max_attempts
    → is_pending_delivery d.status ≡ true
    → IsConsistent max_attempts d
    → after_send outcome max_attempts now d ≡ some d'
    → IsConsistent max_attempts d'
unfolding after_send
after_send-IsConsistent SendOutcome.accepted max_attempts now d d' m p c h = ground arith
after_send-IsConsistent (SendOutcome.refused code) max_attempts now d d' m p c h = ground arith
after_send-IsConsistent SendOutcome.crashed max_attempts now d d' m p c h = cc

after_send-Advanced :
    (outcome : SendOutcome) (max_attempts now : ℕ) (d d' : EmailDelivery)
    → after_send outcome max_attempts now d ≡ some d'
    → Advanced now d d'
unfolding after_send
after_send-Advanced SendOutcome.accepted max_attempts now d d' h = ground arith
after_send-Advanced (SendOutcome.refused code) max_attempts now d d' h =
    elim (Option-cases (retry_delay (suc d.attempts))) [
      | inl e ↦ ground arith
      | inr (wait, e) ↦ ground (arith, retry_delay_pos d.attempts wait e)
    ]
after_send-Advanced SendOutcome.crashed max_attempts now d d' h = cc

module _ (sender : EmailSender) (call : ℕ) (type message recipient app_url : Str)
    (max_attempts now : ℕ) (d d' : EmailDelivery)
    (sent : send sender call type message recipient app_url max_attempts now d ≡ some d') where
  send-IsConsistent :
      1 ≤ max_attempts
      → is_pending_delivery d.status ≡ true
      → IsConsistent max_attempts d
      → IsConsistent max_attempts d'
  unfolding send
  send-IsConsistent m p c = elim (Option-cases (member type)) [
    | inl e ↦ ground arith
    | inr (known, e) ↦ elim (Option-cases (notification_email known app_url message)) [
      | inl e' ↦ ground arith
      | inr (email, e') ↦
          after_send-IsConsistent (sender call recipient email.subject email.body) max_attempts now
            d d' m p c (rw (e, e', send) at sent)
    ]
  ]

  send-Advanced : Advanced now d d'
  unfolding send
  send-Advanced = elim (Option-cases (member type)) [
    | inl e ↦ ground arith
    | inr (known, e) ↦ elim (Option-cases (notification_email known app_url message)) [
      | inl e' ↦ ground arith
      | inr (email, e') ↦
          after_send-Advanced (sender call recipient email.subject email.body) max_attempts now d d'
            (rw (e, e', send) at sent)
    ]
  ]

-- A row that `earliest` returns is in the table and passes the test.
pub earliest_passes :
    (test : EmailDelivery → Bool) (ds : List EmailDelivery) (d : EmailDelivery)
    → earliest test ds ≡ some d
    → test d ≡ true
unfolding earliest
earliest_passes test [] d h = cc
earliest_passes test (e ∷ ds) d h = elim (Option-cases (earliest test ds)) [
  | inl none_left ↦ ground arith
  | inr (r, left) ↦ ground (arith, earliest_passes test ds r left)
]

earliest-IsIn :
    (test : EmailDelivery → Bool) (ds : List EmailDelivery) (d : EmailDelivery)
    → earliest test ds ≡ some d
    → IsIn d ds
unfolding earliest
earliest-IsIn test [] d h = cc
earliest-IsIn test (e ∷ ds) d h = elim (Option-cases (earliest test ds)) [
  | inl none_left ↦ ground arith
  | inr (r, left) ↦ ground (arith, earliest-IsIn test ds r left)
]

earliest-none :
    (test : EmailDelivery → Bool) (ds : List EmailDelivery)
    → earliest test ds ≡ none
    → count_where test ds ≡ 0
unfolding earliest
earliest-none test [] h = refl
earliest-none test (e ∷ ds) h = ground (arith, earliest-none test ds)

abbrev pub due : ℕ → Db → EmailDelivery → Bool
due now db = is_due now db.notifications db.users

-- What one round did to the tables, by how it ended.
abbrev pub Round : (max_attempts now : ℕ) → Db → Result Bool × Db → Type 0
Round max_attempts now db (ok true, db') =
    (d d' : EmailDelivery) × IsIn d db.deliveries
    × (due now db d ≡ true)
    × Advanced now d d'
    × (1 ≤ max_attempts → IsConsistent max_attempts d → IsConsistent max_attempts d')
    × (db' ≡ save_delivery d' db)
Round max_attempts now db (ok false, db') =
    (db' ≡ db) × (count_where (due now db) db.deliveries ≡ 0)
Round max_attempts now db (err e, db') = db' ≡ db

module _ (sender : EmailSender) (app_url : Str) (max_attempts : ℕ) where
  module _ (call now : ℕ) (d : EmailDelivery) (db : Db) (m : IsIn d db.deliveries)
      (is_due_now : due now db d ≡ true) where
    -- The round once the attempt's own result is known.
    settle :
        (r : Result Bool × Db)
        → attempt sender app_url max_attempts call now d db ≡ r
        → Round max_attempts now db (rolled_back db r)
        → Round max_attempts now db
            (transaction (attempt sender app_url max_attempts call now d) db)
    settle r e h = subst (λ x. Round max_attempts now db (rolled_back db x)) (sym e) h

    is_pending_now : is_pending_delivery d.status ≡ true
    unfolding is_due
    is_pending_now = ground arith

    attempt-Round :
        Round max_attempts now db (transaction (attempt sender app_url max_attempts call now d) db)
    unfolding attempt
    attempt-Round = elim (Option-cases (joined db.notifications db.users d)) [
      | inl e ↦ settle (err Error.unexpected, db) (rw (e, attempt)) refl
      | inr ((n, u), e) ↦
          let answer : Option EmailDelivery =
            send sender call n.type n.message u.email app_url max_attempts now d in
          elim (Option-cases answer) [
            | inl e' ↦ settle (err Error.unexpected, db) (rw (e, e', attempt)) refl
            | inr (sent, e') ↦
                settle (ok true, save_delivery sent db) (rw (e, e', attempt))
                  (
                    d,
                    sent,
                    m,
                    is_due_now,
                    send-Advanced sender call n.type n.message u.email app_url max_attempts now d
                        sent e',
                    λ pos c.
                        send-IsConsistent sender call n.type n.message u.email app_url max_attempts
                          now d sent e' pos is_pending_now c,
                    refl,
                  )
          ]
    ]

  pub dispatch_one-Round :
      (call now : ℕ) (db : Db)
      → Round max_attempts now db (dispatch_one sender app_url max_attempts call now db)
  unfolding dispatch_one
  dispatch_one-Round call now db = elim (Option-cases (earliest (due now db) db.deliveries)) [
    | inl e ↦
        let stop : dispatch_one sender app_url max_attempts call now db ≡ (ok false, db) =
          rw (e, dispatch_one) in
        subst (Round max_attempts now db) (sym stop)
          (refl, earliest-none (due now db) db.deliveries e)
    | inr (d, e) ↦
        let go : dispatch_one sender app_url max_attempts call now db
            ≡ transaction (attempt sender app_url max_attempts call now d) db =
          rw (e, dispatch_one) in
        subst (Round max_attempts now db) (sym go) (
          attempt-Round call now d db (earliest-IsIn (due now db) db.deliveries d e)
            (earliest_passes (due now db) db.deliveries d e))
  ]
