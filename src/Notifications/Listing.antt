-- ===== src/Notifications/Listing.antt =====
-- app/notifications/services/list_my_notifications.py
pub mod Order
pub mod Pages
use mathlib.Core.Option as OptionM
use seniors_empregabilidade.Prelude.{
  Bool, List, Option, Str, [], count_where, if◌then◌else◌, length, ltb, map, none, not,
  select_where, some, suc, take, ℕ, ◌&&◌, ◌==◌, ◌||◌, ◌∷◌,
}
use seniors_empregabilidade.Database.Errors.{Error, NotificationError}
use seniors_empregabilidade.Database.Session.{Action, gets, or_raise, pure, ◌>>=◌, ◌>>◌}
use seniors_empregabilidade.Database.Tables.{Db, Notification}
use seniors_empregabilidade.Notifications.Cursor.{Codec, NotificationCursor, decode, encode}
use seniors_empregabilidade.Notifications.Reading.{NotificationResponse, is_unread_of, response_of}

-- app/notifications/schemas/notification_list_response.py
pub record NotificationListResponse : Type 0 where
  pub items : List NotificationResponse
  pub unread_count : ℕ
  pub next_cursor : Option Str

abbrev pub cursor_of : Notification → NotificationCursor
cursor_of n = record { created_at = n.created_at; id = n.id }

-- `tuple_(created_at, id) < tuple_(position.created_at, position.id)`
abbrev pub is_before : NotificationCursor → Notification → Bool
is_before position n =
    ltb n.created_at position.created_at
    || (n.created_at == position.created_at && ltb n.id position.id)

abbrev pub insert_newest : Notification → List Notification → List Notification
insert_newest n [] = n ∷ []
insert_newest n (m ∷ rows) =
    let rest = insert_newest n rows in if is_before (cursor_of n) m then n ∷ m ∷ rows else m ∷ rest

-- `ORDER BY created_at DESC, id DESC`
abbrev pub newest_first : List Notification → List Notification
newest_first [] = []
newest_first (n ∷ rows) = insert_newest n (newest_first rows)

abbrev pub is_wanted : (user_id : ℕ) (unread_only : Bool) → Notification → Bool
is_wanted user_id unread_only n = n.user_id == user_id && (not unread_only || not n.read)

-- The rows that the statement is about, in its order, before the cursor and the limit.
unfoldable pub wanted_rows : (user_id : ℕ) (unread_only : Bool) → Db → List Notification
wanted_rows user_id unread_only db =
    newest_first (select_where (is_wanted user_id unread_only) db.notifications)

abbrev pub last_notification : Notification → List Notification → Notification
last_notification n [] = n
last_notification n (m ∷ rows) = last_notification m rows

-- `page[-1]`, when there is one.
abbrev pub last_cursor : List Notification → Option NotificationCursor
last_cursor [] = none
last_cursor (n ∷ rows) = some (cursor_of (last_notification n rows))

module _ (codec : Codec) where
  abbrev pub token_of : Option NotificationCursor → Option Str
  token_of position = OptionM.map (encode codec) position

  -- The page from the rows that the statement returns.
  unfoldable pub page_of : (user_id limit : ℕ) → List Notification → Db → NotificationListResponse
  page_of user_id limit rows db =
      let page = take limit rows in
      record {
        items = map response_of page;
        unread_count = count_where (is_unread_of user_id) db.notifications;
        next_cursor = if ltb limit (length rows) then token_of (last_cursor page) else none;
      }

  abbrev pub before_position : Option NotificationCursor → List Notification → List Notification
  before_position none rows = rows
  before_position (some position) rows = select_where (is_before position) rows

  unfoldable pub list_from :
      (user_id : ℕ) (unread_only : Bool) (limit : ℕ)
      → Option NotificationCursor
      → Action NotificationListResponse
  list_from user_id unread_only limit position = do
    wanted ← gets (wanted_rows user_id unread_only)
    let rows = take (suc limit) (before_position position wanted)
    page ← gets (page_of user_id limit rows)
    pure page

  -- A position, or no value for a token that does not decode.
  abbrev pub decoded_token : Option NotificationCursor → Option (Option NotificationCursor)
  decoded_token none = none
  decoded_token (some position) = some (some position)

  -- A cursor that the client sent: the inner option is the position.
  abbrev pub decoded : Option Str → Option (Option NotificationCursor)
  decoded none = some none
  decoded (some token) = decoded_token (decode codec token)

  unfoldable pub list_my_notifications :
      (user_id : ℕ) (unread_only : Bool) (limit : ℕ) (cursor : Option Str)
      → Action NotificationListResponse
  list_my_notifications user_id unread_only limit cursor = do
    position ←
        or_raise (decoded cursor) (Error.notification NotificationError.invalid_notification_cursor)
    list_from user_id unread_only limit position
