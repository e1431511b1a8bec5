-- ===== src/Notifications/Notify.antt =====
-- app/notifications/services/notify_user.py. The new rows are flushed where the service adds
-- them, and a notification for a user that does not exist violates its foreign key there.
use seniors_empregabilidade.Prelude.{
  Bool, Option, Str, arith, exists_where, false, if◌then◌else◌, none, true, ℕ, ◌+◌, ◌==◌, ◌∷◌, ◌≡◌,
}
use seniors_empregabilidade.Database.Enums.{EmailDeliveryStatus}
use seniors_empregabilidade.Database.Errors.{Constraint, Error}
use seniors_empregabilidade.Database.Session.{
  Action, Server, err, gets, modify, ok, pure, raise_if, ◌>>=◌, ◌>>◌,
}
use seniors_empregabilidade.Database.Tables.{Db, EmailDelivery, Notification, NotificationDetails}
use seniors_empregabilidade.Notifications.Email.{sends_email}
use seniors_empregabilidade.Notifications.Types.{NotificationType, value}

abbrev pub user_exists : ℕ → Db → Bool
user_exists user_id db = exists_where (λ u. u.id == user_id) db.users

unfoldable pub new_notification :
    Server → (id user_id : ℕ) → NotificationType → Str → Option NotificationDetails → Notification
new_notification server id user_id type message details = record {
  id = id;
  user_id = user_id;
  type = value type;
  message = message;
  read = false;
  details = details;
  created_at = server.now;
}

-- An `EmailDelivery` with its server defaults.
unfoldable pub new_delivery : Server → (id notification_id : ℕ) → EmailDelivery
new_delivery server id notification_id = record {
  id = id;
  notification_id = notification_id;
  status = EmailDeliveryStatus.pending;
  attempts = 0;
  next_attempt_at = server.now;
  sent_at = none;
  last_error = none;
  created_at = server.now;
}

abbrev pub add_notification : Notification → Db → Db
add_notification n db = record db { notifications = n ∷ db.notifications }

abbrev pub add_delivery : EmailDelivery → Db → Db
add_delivery d db = record db { deliveries = d ∷ db.deliveries }

-- `n` is the number of identifiers that the transaction has generated before.
unfoldable pub notify_user :
    Server
    → (n : ℕ) (user_id : ℕ) → NotificationType
    → Str
    → Option NotificationDetails
    → Action Notification
notify_user server n user_id type message details = do
  let notification = new_notification server (server.uuid n) user_id type message details
  known ← gets (user_exists user_id)
  raise_if (if known then false else true)
      (Error.integrity Constraint.fk_notification_user_id_app_user)
  modify (add_notification notification)
  modify (λ db.
      if sends_email type
      then add_delivery (new_delivery server (server.uuid (n + 1)) notification.id) db
      else db)
  pure notification

-- The tables after a notification with an e-mail copy, and without one.
abbrev pub with_email : Server → (n : ℕ) → Notification → Db → Db
with_email server n notification db =
    add_delivery (new_delivery server (server.uuid (n + 1)) notification.id)
      (add_notification notification db)

module _ (server : Server) (n user_id : ℕ) (type : NotificationType) (message : Str)
    (details : Option NotificationDetails) (db : Db) where
  abbrev pub notification : Notification
  notification = new_notification server (server.uuid n) user_id type message details

  pub notify_user_unknown :
      user_exists user_id db ≡ false
      → (notify_user server n user_id type message details db)
        ≡ (err (Error.integrity Constraint.fk_notification_user_id_app_user), db)
  unfolding notify_user
  notify_user_unknown e = ground arith

  pub notify_user_email :
      user_exists user_id db ≡ true
      → sends_email type ≡ true
      → notify_user server n user_id type message details db
        ≡ (ok notification, with_email server n notification db)
  unfolding notify_user
  notify_user_email e s = ground arith

  pub notify_user_quiet :
      user_exists user_id db ≡ true
      → sends_email type ≡ false
      → notify_user server n user_id type message details db
        ≡ (ok notification, add_notification notification db)
  unfolding notify_user
  notify_user_quiet e s = ground arith
