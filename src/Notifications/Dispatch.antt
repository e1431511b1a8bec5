-- ===== src/Notifications/Dispatch.antt =====
-- app/notifications/services/dispatch_pending_emails.py. One dispatcher runs alone, as the API's
-- single worker does, so `SKIP LOCKED` skips nothing. The e-mail provider is a parameter.
pub mod Delivery
pub mod Drain
use mathlib.Core.Option as OptionM
use seniors_empregabilidade.Prelude.{
  Bool, List, Option, Str, [], codes, false, first_where, if◌then◌else◌, is_some, leb, ltb, none,
  some, suc, take, true, update_where, zero, ℕ, ◌&&◌, ◌+◌, ◌==◌, ◌||◌, ◌∷◌,
}
use seniors_empregabilidade.Database.Enums.{EmailDeliveryStatus, is_pending_delivery}
use seniors_empregabilidade.Database.Errors.{Error}
use seniors_empregabilidade.Database.Session.{Action, err, ok, pure, transaction, ◌>>=◌, ◌>>◌}
use seniors_empregabilidade.Database.Tables.{AppUser, Db, EmailDelivery, Notification}
use seniors_empregabilidade.Notifications.Email.{notification_email}
use seniors_empregabilidade.Notifications.Retry.{gives_up, retry_delay}
use seniors_empregabilidade.Notifications.Types.{member}

pub data SendOutcome : Type 0 where
  accepted : SendOutcome
  -- `EmailSendError` with the provider's code.
  refused : (code : Str) → SendOutcome
  -- Any other exception.
  crashed : SendOutcome

-- `sender.send`, at the n-th call of a run.
abbrev pub EmailSender : Type 0
EmailSender = (call : ℕ) (recipient subject body : Str) → SendOutcome

abbrev pub unsupported_type : Str
unsupported_type = codes "unsupported_notification_type"

-- What `_send` does to a row once the provider has answered. `none` is an exception.
unfoldable pub after_send :
    SendOutcome → (max_attempts now : ℕ) → EmailDelivery → Option EmailDelivery
after_send SendOutcome.accepted max_attempts now d = some (record d {
  status = EmailDeliveryStatus.sent;
  attempts = suc d.attempts;
  sent_at = some now;
  last_error = none;
})
after_send (SendOutcome.refused code) max_attempts now d =
    let attempts = suc d.attempts in
    let error = some (take 100 code) in
    if gives_up attempts max_attempts
    then some
        (record d { status = EmailDeliveryStatus.failed; attempts = attempts; last_error = error })
    else OptionM.map
        (λ wait. record d { attempts = attempts; next_attempt_at = now + wait; last_error = error })
        (retry_delay attempts)
after_send SendOutcome.crashed max_attempts now d = none

-- `_send`
unfoldable pub send :
    EmailSender
    → (call : ℕ) (type message recipient app_url : Str) (max_attempts now : ℕ) → EmailDelivery
    → Option EmailDelivery
send sender call type message recipient app_url max_attempts now d = elim (member type) [
  | none ↦
      some (record d { status = EmailDeliveryStatus.failed; last_error = some unsupported_type })
  | some known ↦ elim (notification_email known app_url message) [
    | none ↦
        some (record d { status = EmailDeliveryStatus.failed; last_error = some unsupported_type })
    | some email ↦ after_send (sender call recipient email.subject email.body) max_attempts now d
  ]
]

-- `ORDER BY next_attempt_at, id`
abbrev pub before : EmailDelivery → EmailDelivery → Bool
before a b =
    ltb a.next_attempt_at b.next_attempt_at
    || (a.next_attempt_at == b.next_attempt_at && ltb a.id b.id)

-- The first of the rows that pass the test: `ORDER BY ... LIMIT 1`.
unfoldable pub earliest : (EmailDelivery → Bool) → List EmailDelivery → Option EmailDelivery
earliest test [] = none
earliest test (d ∷ ds) =
    let rest = earliest test ds in
    if test d then some (elim rest [ none ↦ d | some e ↦ if before e d then e else d ]) else rest

abbrev pub notification_of : List Notification → EmailDelivery → Option Notification
notification_of notifications d = first_where (λ n. n.id == d.notification_id) notifications

abbrev pub user_of : List AppUser → Notification → Option AppUser
user_of users n = first_where (λ u. u.id == n.user_id) users

-- The joined row's recipient, if both inner joins find their row.
unfoldable pub joined :
    List Notification → List AppUser → EmailDelivery → Option (Notification × AppUser)
joined notifications users d = elim (notification_of notifications d) [
  | none ↦ none
  | some n ↦ OptionM.map (λ u. (n, u)) (user_of users n)
]

-- The `WHERE` clause of the claim, joins included.
unfoldable pub is_due : (now : ℕ) → List Notification → List AppUser → EmailDelivery → Bool
is_due now notifications users d =
    is_pending_delivery d.status
    && (leb d.next_attempt_at now && is_some (joined notifications users d))

abbrev pub save_delivery : EmailDelivery → Db → Db
save_delivery d db = record db {
  deliveries = update_where (λ e. e.id == d.id) (λ e. d) db.deliveries;
}

module _ (sender : EmailSender) (app_url : Str) (max_attempts : ℕ) where
  -- One claimed row, as `send` leaves it, with its commit.
  unfoldable pub attempt : (call now : ℕ) → EmailDelivery → Action Bool
  attempt call now d db = elim (joined db.notifications db.users d) [
    | none ↦ (err Error.unexpected, db)
    | some (n, u) ↦ elim (send sender call n.type n.message u.email app_url max_attempts now d) [
      | none ↦ (err Error.unexpected, db)
      | some sent ↦ (ok true, save_delivery sent db)
    ]
  ]

  -- One round of the `while` loop: whether a row was claimed.
  unfoldable pub dispatch_one : (call now : ℕ) → Action Bool
  unfolding attempt
  dispatch_one call now db = elim (earliest (is_due now db.notifications db.users) db.deliveries) [
    | none ↦ (ok false, db)
    | some d ↦ transaction (attempt call now d) db
  ]

  -- The `while attempted < batch_size` loop, by recursion on the rounds left.
  unfoldable pub dispatch_from : (clock : ℕ → ℕ) (rounds attempted : ℕ) → Action ℕ
  dispatch_from clock zero attempted = pure attempted
  dispatch_from clock (suc rounds) attempted = do
    claimed ← dispatch_one attempted (clock attempted)
    if claimed then dispatch_from clock rounds (attempted + 1) else pure attempted

  unfoldable pub dispatch_pending_emails : (clock : ℕ → ℕ) (batch_size : ℕ) → Action ℕ
  dispatch_pending_emails clock batch_size = dispatch_from clock batch_size 0
