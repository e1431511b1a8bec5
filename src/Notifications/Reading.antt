-- ===== src/Notifications/Reading.antt =====
-- app/notifications/services: mark_notification_as_read.py and mark_all_notifications_as_read.py
use seniors_empregabilidade.Prelude.{
  Bool, Bool-cases, List, Option, Option-cases, Str, [], ap, arith, count_where, first_where, inl,
  inr, none, not, refl, select_where, some, true, update_where, ℕ, ◌&&◌, ◌==◌, ◌∷◌, ◌≡◌,
}
use seniors_empregabilidade.Database.Errors.{Error, NotificationError}
use seniors_empregabilidade.Database.Session.{
  Action, Result, err, gets, modify, ok, or_raise, pure, rolled_back, transaction, ◌>>=◌, ◌>>◌,
}
use seniors_empregabilidade.Database.Tables.{Db, Notification, NotificationDetails}

pub record NotificationResponse : Type 0 where
  pub id : ℕ
  pub type : Str
  pub message : Str
  pub details : Option NotificationDetails
  pub read : Bool
  pub created_at : ℕ

-- `NotificationResponse.from_model`
abbrev pub response_of : Notification → NotificationResponse
response_of n = record {
  id = n.id;
  type = n.type;
  message = n.message;
  details = n.details;
  read = n.read;
  created_at = n.created_at;
}

abbrev pub as_read : Notification → Notification
as_read n = record n { read = true }

abbrev pub is_own : (notification_id user_id : ℕ) → Notification → Bool
is_own notification_id user_id n = n.id == notification_id && n.user_id == user_id

abbrev pub is_unread_of : (user_id : ℕ) → Notification → Bool
is_unread_of user_id n = n.user_id == user_id && not n.read

abbrev pub update_notifications : (Notification → Bool) → Db → Db
update_notifications p db = record db { notifications = update_where p as_read db.notifications }

-- `UPDATE ... RETURNING`: the updated row, if the condition meets one.
unfoldable pub mark_notification_as_read :
    (notification_id user_id : ℕ) → Action NotificationResponse
mark_notification_as_read notification_id user_id = transaction (do
  found ← gets (λ db. first_where (is_own notification_id user_id) db.notifications)
  modify (update_notifications (is_own notification_id user_id))
  n ← or_raise found (Error.notification NotificationError.notification_not_found)
  pure (response_of (as_read n)))

unfoldable pub mark_all_notifications_as_read : (user_id : ℕ) → Action (Unit {0})
mark_all_notifications_as_read user_id =
    transaction (modify (update_notifications (is_unread_of user_id)))

-- The notifications of everyone else.
abbrev pub of_others : (user_id : ℕ) → List Notification → List Notification
of_others user_id = select_where (λ n. not (n.user_id == user_id))

others_kept :
    (user_id : ℕ) (p : Notification → Bool) (rows : List Notification)
    → ((n : Notification) → p n ≡ true → (n.user_id == user_id) ≡ true)
    → of_others user_id (update_where p as_read rows) ≡ of_others user_id rows
others_kept user_id p [] h = refl
others_kept user_id p (n ∷ rows) h = elim (Bool-cases (p n)) [
  | inl hit ↦ rw hit (ground (arith, h n hit, others_kept user_id p rows h))
  | inr miss ↦ rw miss (ground (arith, others_kept user_id p rows h))
]

-- What marking one notification does: the caller's own notification is answered as read, and one of
-- somebody else like one that does not exist, which changes nothing.
pub data Marked (notification_id user_id : ℕ) (db : Db) (r : Result NotificationResponse × Db)
    : Type 0 where
  marked :
      (n : Notification)
      → first_where (is_own notification_id user_id) db.notifications ≡ some n
      → r ≡ (ok (response_of (as_read n)), update_notifications (is_own notification_id user_id) db)
      → Marked notification_id user_id db r
  unknown :
      first_where (is_own notification_id user_id) db.notifications ≡ none
      → r ≡ (err (Error.notification NotificationError.notification_not_found), db)
      → Marked notification_id user_id db r

-- Marking a notification as read ends in one of two ways. The caller's own notification is answered
-- as read and its row updated. Another user's notification is answered like one that does not exist,
-- and then no table changes. In both cases everyone else's notifications stay as they were.
pub mark_notification_as_read_lem :
    (notification_id user_id : ℕ) (db : Db)
    → let r = mark_notification_as_read notification_id user_id db in
      Marked notification_id user_id db r
      × (of_others user_id r.1.notifications ≡ of_others user_id db.notifications)
unfolding mark_notification_as_read
mark_notification_as_read_lem notification_id user_id db =
    elim (Option-cases (first_where (is_own notification_id user_id) db.notifications)) [
      | inl n ↦ (
        unknown n (
            ap (rolled_back db)
              {y = (
                err (Error.notification NotificationError.notification_not_found),
                update_notifications (is_own notification_id user_id) db,
              )}
              (rw n)),
        rw n,
      )
      | inr (n, e) ↦ (
        marked n e (
            ap (rolled_back db)
              {y = (
                ok (response_of (as_read n)),
                update_notifications (is_own notification_id user_id) db,
              )}
              (rw e)),
        rw e (
            others_kept user_id (is_own notification_id user_id) db.notifications
              (λ x h. ground (arith, h))),
      )
    ]

none_unread :
    (user_id : ℕ) (rows : List Notification)
    → count_where (is_unread_of user_id) (update_where (is_unread_of user_id) as_read rows) ≡ 0
none_unread user_id [] = refl
none_unread user_id (n ∷ rows) = ground (arith, none_unread user_id rows)

-- Marking all notifications as read always succeeds, leaves the user no unread notification and
-- everyone else's notifications as they were.
pub mark_all_notifications_as_read_lem :
    (user_id : ℕ) (db : Db)
    → let r = mark_all_notifications_as_read user_id db in
      (r.0 ≡ ok tt)
      × (count_where (is_unread_of user_id) r.1.notifications ≡ 0)
      × (of_others user_id r.1.notifications ≡ of_others user_id db.notifications)
unfolding mark_all_notifications_as_read
mark_all_notifications_as_read_lem user_id db = (
  refl,
  none_unread user_id db.notifications,
  others_kept user_id (is_unread_of user_id) db.notifications (λ n h. ground (arith, h)),
)
