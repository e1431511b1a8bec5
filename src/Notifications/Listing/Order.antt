-- ===== src/Notifications/Listing/Order.antt =====
-- The order of the listing, and what stands after a position in it.
use seniors_empregabilidade.Prelude.{
  All, All-map_implies, Bool, Bool-cases, IsKeyed, List, [], arith, false, inl, inr, refl,
  select_where, true, ℕ, ◌++◌, ◌∷◌, ◌≡◌, ◌≢◌,
}
use seniors_empregabilidade.Database.Tables.{Db, Notification}
use seniors_empregabilidade.Notifications.Listing.{
  cursor_of, insert_newest, is_before, is_wanted, newest_first, wanted_rows,
}

abbrev pub notification_id_of : Notification → ℕ
notification_id_of n = n.id

-- Each notification is strictly newer than all that follow.
abbrev pub IsNewestFirst : List Notification → Type 0
IsNewestFirst [] = Unit
IsNewestFirst (n ∷ rows) = All (λ m. is_before (cursor_of n) m ≡ true) rows × IsNewestFirst rows

module _ {κ} (P : Notification → Type κ) where
  insert_newest-All :
      (n : Notification) (rows : List Notification)
      → P n
      → All P rows
      → All P (insert_newest n rows)
  insert_newest-All n [] h all = (h, tt)
  insert_newest-All n (m ∷ rows) h all = elim (Bool-cases (is_before (cursor_of n) m)) [
    | inl c ↦ rw c (h, all)
    | inr c ↦ rw c (all.0, insert_newest-All n rows h all.1)
  ]

  pub newest_first-All : (rows : List Notification) → All P rows → All P (newest_first rows)
  newest_first-All [] all = tt
  newest_first-All (n ∷ rows) all =
      insert_newest-All n (newest_first rows) all.0 (newest_first-All rows all.1)

  pub select_where-All :
      (p : Notification → Bool) (rows : List Notification)
      → All P rows
      → All P (select_where p rows)
  select_where-All p [] all = tt
  select_where-All p (n ∷ rows) all = elim (Bool-cases (p n)) [
    | inl c ↦ rw c (all.0, select_where-All p rows all.1)
    | inr c ↦ rw c (select_where-All p rows all.1)
  ]

insert_newest-IsNewestFirst :
    (n : Notification) (rows : List Notification)
    → All (λ m. m.id ≢ n.id) rows
    → IsNewestFirst rows
    → IsNewestFirst (insert_newest n rows)
insert_newest-IsNewestFirst n [] d s = (tt, tt)
insert_newest-IsNewestFirst n (m ∷ rows) d s = elim (Bool-cases (is_before (cursor_of n) m)) [
  | inl c ↦ rw c ((c, All-map_implies _ _ rows (λ k h. ground (arith, h, c)) s.0), s)
  | inr c ↦ rw c (
    insert_newest-All (λ k. is_before (cursor_of m) k ≡ true) n rows (ground (arith, c, d.0)) s.0,
    insert_newest-IsNewestFirst n rows d.1 s.1,
  )
]

newest_first-IsNewestFirst :
    (rows : List Notification) → IsKeyed notification_id_of rows → IsNewestFirst (newest_first rows)
newest_first-IsNewestFirst [] k = tt
newest_first-IsNewestFirst (n ∷ rows) k =
    insert_newest-IsNewestFirst n (newest_first rows) (newest_first-All (λ m. m.id ≢ n.id) rows k.0)
      (newest_first-IsNewestFirst rows k.1)

select_where-IsKeyed :
    (p : Notification → Bool) (rows : List Notification)
    → IsKeyed notification_id_of rows
    → IsKeyed notification_id_of (select_where p rows)
select_where-IsKeyed p [] k = tt
select_where-IsKeyed p (n ∷ rows) k = elim (Bool-cases (p n)) [
  | inl c ↦ rw c (select_where-All (λ m. m.id ≢ n.id) p rows k.0, select_where-IsKeyed p rows k.1)
  | inr c ↦ rw c (select_where-IsKeyed p rows k.1)
]

pub wanted_rows-IsNewestFirst :
    (user_id : ℕ) (unread_only : Bool) (db : Db)
    → IsKeyed notification_id_of db.notifications
    → IsNewestFirst (wanted_rows user_id unread_only db)
unfolding wanted_rows
wanted_rows-IsNewestFirst user_id unread_only db k =
    newest_first-IsNewestFirst (select_where (is_wanted user_id unread_only) db.notifications)
      (select_where-IsKeyed (is_wanted user_id unread_only) db.notifications k)

select-All :
    (p : Notification → Bool) (rows : List Notification)
    → All (λ m. p m ≡ true) rows
    → select_where p rows ≡ rows
select-All p [] all = refl
select-All p (n ∷ rows) all = rw (all.0, select-All p rows all.1)

pub All-last :
    (P : Notification → Type 0) (ys : List Notification) (l : Notification) (zs : List Notification)
    → All P (ys ++ (l ∷ zs))
    → P l
All-last P [] l zs all = all.0
All-last P (y ∷ ys) l zs all = All-last P ys l zs all.1

-- What stands before the position of a notification is what follows it in the list.
pub select_where-after :
    (ys : List Notification) (l : Notification) (zs : List Notification)
    → IsNewestFirst (ys ++ (l ∷ zs))
    → select_where (is_before (cursor_of l)) (ys ++ (l ∷ zs)) ≡ zs
select_where-after [] l zs s =
    let self : is_before (cursor_of l) l ≡ false = ground arith in
    rw self (select-All (is_before (cursor_of l)) zs s.0)
select_where-after (y ∷ ys) l zs s =
    let newer : is_before (cursor_of y) l ≡ true =
      All-last (λ m. is_before (cursor_of y) m ≡ true) ys l zs s.0 in
    let older : is_before (cursor_of l) y ≡ false = ground (arith, newer) in
    rw older (select_where-after ys l zs s.1)
