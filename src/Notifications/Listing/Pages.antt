-- ===== src/Notifications/Listing/Pages.antt =====
-- Reading all pages, one after the other.
use mathlib.Core.Option as OptionM
use seniors_empregabilidade.Prelude.{
  All, All-map_implies, Bool, Bool-cases, IsKeyed, List, Option, Str, [], ap, arith, drop, false,
  inl, inr, length, ltb, ltb→lt, map, min, none, refl, select_where, some, subst, suc, sym, take,
  true, zero, ℕ, ◌++◌, ◌+◌, ◌<◌, ◌∙◌, ◌∷◌, ◌≡◌,
}
use seniors_empregabilidade.Database.Session.{Result, err, ok}
use seniors_empregabilidade.Database.Tables.{Db, Notification}
use seniors_empregabilidade.Notifications.Cursor.{
  Codec, IsReadable, NotificationCursor, decode, decode-encode, encode,
}
use seniors_empregabilidade.Notifications.Listing.{
  NotificationListResponse, before_position, cursor_of, decoded, decoded_token, is_before,
  is_wanted, last_cursor, last_notification, list_from, list_my_notifications, page_of, wanted_rows,
}
use seniors_empregabilidade.Notifications.Listing.Order.{
  All-last, IsNewestFirst, newest_first-All, notification_id_of, select_where-All,
  select_where-after, wanted_rows-IsNewestFirst,
}
use seniors_empregabilidade.Notifications.Reading.{NotificationResponse, response_of}

take-take : (n : ℕ) (rows : List Notification) → take n (take (suc n) rows) ≡ take n rows
take-take zero rows = refl
take-take (suc n) [] = refl
take-take (suc n) (r ∷ rows) = ap (λ s. r ∷ s) (take-take n rows)

length-take :
    (n : ℕ) (rows : List Notification) → ltb n (length (take (suc n) rows)) ≡ ltb n (length rows)
length-take zero [] = refl
length-take zero (r ∷ rows) = ground arith
length-take (suc n) [] = refl
length-take (suc n) (r ∷ rows) = ground (arith, length-take n rows)

take_whole : (n : ℕ) (rows : List Notification) → ltb n (length rows) ≡ false → take n rows ≡ rows
take_whole zero [] h = refl
take_whole zero (r ∷ rows) h = ground (arith, h)
take_whole (suc n) [] h = refl
take_whole (suc n) (r ∷ rows) h = ap (λ s. r ∷ s) (take_whole n rows (ground (arith, h)))

page-append-rest : (n : ℕ) (rows : List Notification) → rows ≡ take n rows ++ drop n rows
page-append-rest zero rows = refl
page-append-rest (suc n) [] = refl
page-append-rest (suc n) (r ∷ rows) = ap (λ s. r ∷ s) (page-append-rest n rows)

length-drop :
    (n : ℕ) (rows : List Notification) → length (drop n rows) + min n (length rows) ≡ length rows
length-drop zero rows = omega arith
length-drop (suc n) [] = omega arith
length-drop (suc n) (r ∷ rows) = omega (arith, length-drop n rows)

-- A page that is not empty ends with its last notification.
ends_with :
    (n : Notification) (rows : List Notification)
    → (front : List Notification) × (n ∷ rows ≡ front ++ (last_notification n rows ∷ []))
ends_with n [] = ([], refl)
ends_with n (m ∷ rows) = let (front, e) = ends_with m rows in (n ∷ front, ap (λ s. n ∷ s) e)

append_assoc : (xs ys zs : List Notification) → (xs ++ ys) ++ zs ≡ xs ++ (ys ++ zs)
append_assoc [] ys zs = refl
append_assoc (x ∷ xs) ys zs = ap (λ s. x ∷ s) (append_assoc xs ys zs)

map-append :
    (xs ys : List Notification)
    → map response_of xs ++ map response_of ys ≡ map response_of (xs ++ ys)
map-append [] ys = refl
map-append (x ∷ xs) ys = ap (λ s. response_of x ∷ s) (map-append xs ys)

abbrev after_cursor :
    (items : List NotificationResponse) (rest : Option Str → Option (List NotificationResponse))
    → Option Str
    → Option (List NotificationResponse)
after_cursor items rest none = some items
after_cursor items rest (some token) = OptionM.map (λ more. items ++ more) (rest (some token))

abbrev after_page :
    (rest : Option Str → Option (List NotificationResponse))
    → Result NotificationListResponse
    → Option (List NotificationResponse)
after_page rest (err e) = none
after_page rest (ok page) = after_cursor page.items rest page.next_cursor

module _ (codec : Codec) (user_id : ℕ) (unread_only : Bool) (limit : ℕ) (db : Db) where
  -- A client that follows `next_cursor` as long as there is one, for at most so many pages.
  unfoldable pub read_pages : (fuel : ℕ) (cursor : Option Str) → Option (List NotificationResponse)
  read_pages zero cursor = none
  read_pages (suc fuel) cursor =
      after_page (read_pages fuel)
        (list_my_notifications codec user_id unread_only limit cursor db).0

  abbrev own : List Notification
  own = wanted_rows user_id unread_only db

  abbrev Readable : Type 0
  Readable =
      All (λ (n : Notification). decode codec (encode codec (cursor_of n)) ≡ some (cursor_of n)) own

  abbrev rows_before : Option NotificationCursor → List Notification
  rows_before position = before_position codec position own

  one_page :
      (fuel : ℕ) (cursor : Option Str) (position : Option NotificationCursor)
      → decoded codec cursor ≡ some position
      → read_pages (suc fuel) cursor
        ≡ after_page
            (read_pages fuel)
            (ok (page_of codec user_id limit (take (suc limit) (rows_before position)) db))
  unfolding read_pages list_my_notifications list_from
  one_page fuel cursor position e = rw e

  last_page :
      (fuel : ℕ) (rest : List Notification)
      → ltb limit (length rest) ≡ false
      → after_page (read_pages fuel) (ok (page_of codec user_id limit (take (suc limit) rest) db))
        ≡ some (map response_of rest)
  unfolding page_of
  last_page fuel rest h =
      rw (length-take limit rest, h, take-take limit rest, take_whole limit rest h)

  next_page :
      (fuel : ℕ) (rest : List Notification) (l : Notification)
      → ltb limit (length rest) ≡ true
      → last_cursor (take limit rest) ≡ some (cursor_of l)
      → after_page (read_pages fuel) (ok (page_of codec user_id limit (take (suc limit) rest) db))
        ≡ OptionM.map
            (λ more. map response_of (take limit rest) ++ more)
            (read_pages fuel (some (encode codec (cursor_of l))))
  unfolding page_of
  next_page fuel rest l h e = rw (length-take limit rest, h, take-take limit rest, e)

  decoded_own :
      (ys : List Notification) (l : Notification) (zs : List Notification)
      → own ≡ ys ++ (l ∷ zs)
      → Readable
      → decoded codec (some (encode codec (cursor_of l))) ≡ some (some (cursor_of l))
  decoded_own ys l zs e readable = ap (decoded_token codec) (
      All-last (λ n. decode codec (encode codec (cursor_of n)) ≡ some (cursor_of n)) ys l zs
        (subst (All (λ n. decode codec (encode codec (cursor_of n)) ≡ some (cursor_of n))) e
          readable))

  after_own :
      (ys : List Notification) (l : Notification) (zs : List Notification)
      → own ≡ ys ++ (l ∷ zs)
      → IsNewestFirst own
      → rows_before (some (cursor_of l)) ≡ zs
  after_own ys l zs e sorted =
      ap (select_where (is_before (cursor_of l))) e
      ∙ select_where-after ys l zs (subst IsNewestFirst e sorted)

  -- The last notification of a page that is not the last one, and where the next page begins.
  turn :
      (n : ℕ) (seen rest : List Notification)
      → 0 < n
      → own ≡ seen ++ rest
      → ltb n (length rest) ≡ true
      → (l : Notification) × ((ys : List Notification) × ((last_cursor (take n rest)
              ≡ some (cursor_of l))
            × (own ≡ ys ++ (l ∷ drop n rest))))
  turn zero seen rest positive e h = absurd (omega (arith, positive))
  turn (suc k) seen [] positive e h = absurd (ground (arith, h))
  turn (suc k) seen (r ∷ rest) positive e h =
      let l : Notification = last_notification r (take k rest) in
      let (front, f) = ends_with r (take k rest) in
      (
        l,
        (
          seen ++ front,
          (
            refl,
            e
                ∙ ap (λ s. seen ++ s)
                    (page-append-rest (suc k) (r ∷ rest)
                      ∙ ap (λ s. s ++ drop (suc k) (r ∷ rest)) f
                      ∙ append_assoc front (l ∷ []) (drop (suc k) (r ∷ rest)))
                ∙ sym (append_assoc seen front (l ∷ drop (suc k) (r ∷ rest))),
          ),
        ),
      )

  shorter :
      (fuel : ℕ) (rest : List Notification)
      → 0 < limit
      → ltb limit (length rest) ≡ true
      → length rest < suc fuel
      → length (drop limit rest) < fuel
  shorter fuel rest positive h k =
      omega (arith, ltb→lt limit (length rest) h, length-drop limit rest, positive, k)

  module _ (positive : 0 < limit) (sorted : IsNewestFirst own) (readable : Readable) where
    reads_rest :
        (fuel : ℕ) (seen rest : List Notification) (cursor : Option Str)
        (position : Option NotificationCursor)
        → decoded codec cursor ≡ some position
        → rows_before position ≡ rest
        → own ≡ seen ++ rest
        → length rest < fuel
        → read_pages fuel cursor ≡ some (map response_of rest)
    reads_rest zero seen rest cursor position d b e k = absurd (omega (arith, k))
    reads_rest (suc fuel) seen rest cursor position d b e k =
        one_page fuel cursor position d
        ∙ ap
            (λ r.
              after_page (read_pages fuel)
                (ok (page_of codec user_id limit (take (suc limit) r) db)))
            b
        ∙ elim (Bool-cases (ltb limit (length rest))) [
          | inr done ↦ last_page fuel rest done
          | inl more ↦
              let (l, (ys, (c, o))) = turn limit seen rest positive e more in
              next_page fuel rest l more c
              ∙ ap (OptionM.map (λ more. map response_of (take limit rest) ++ more)) (
                  reads_rest fuel (ys ++ (l ∷ [])) (drop limit rest)
                    (some (encode codec (cursor_of l))) (some (cursor_of l))
                    (decoded_own ys l (drop limit rest) o readable)
                    (after_own ys l (drop limit rest) o sorted)
                    (o ∙ sym (append_assoc ys (l ∷ []) (drop limit rest)))
                    (shorter fuel rest positive more k))
              ∙ ap some (
                  map-append (take limit rest) (drop limit rest)
                  ∙ ap (map response_of) (sym (page-append-rest limit rest)))
        ]

own_readable :
    (codec : Codec) (user_id : ℕ) (unread_only : Bool) (db : Db)
    → All (λ (n : Notification). IsReadable codec (cursor_of n)) db.notifications
    → Readable codec user_id unread_only 0 db
unfolding wanted_rows
own_readable codec user_id unread_only db all =
    newest_first-All
      (λ (n : Notification). decode codec (encode codec (cursor_of n)) ≡ some (cursor_of n))
      (select_where (is_wanted user_id unread_only) db.notifications)
      (select_where-All
        (λ (n : Notification). decode codec (encode codec (cursor_of n)) ≡ some (cursor_of n))
        (is_wanted user_id unread_only) db.notifications
        (All-map_implies _ _ db.notifications (λ n r. decode-encode codec (cursor_of n) r) all))

-- A client that asks for pages of at least one notification and follows the cursors of the answers
-- comes to an end, after at most one page more than there are notifications, and has then read
-- every notification of the list exactly once and in its order, whatever the page size. The
-- notifications have different identifiers, and the library functions that the cursor uses read
-- back what they have written.
pub read_pages_lem :
    (codec : Codec) (user_id : ℕ) (unread_only : Bool) (limit : ℕ) (db : Db)
    → 0 < limit
    → IsKeyed notification_id_of db.notifications
    → All (λ (n : Notification). IsReadable codec (cursor_of n)) db.notifications
    → read_pages codec user_id unread_only limit db
        (suc (length (wanted_rows user_id unread_only db)))
        none
      ≡ some (map response_of (wanted_rows user_id unread_only db))
read_pages_lem codec user_id unread_only limit db positive keyed all =
    reads_rest codec user_id unread_only limit db positive
      (wanted_rows-IsNewestFirst user_id unread_only db keyed)
      (own_readable codec user_id unread_only db all)
      (suc (length (wanted_rows user_id unread_only db))) [] (wanted_rows user_id unread_only db)
      none none refl refl refl (omega arith)
