-- ===== src/Tests/Listing.antt =====
-- Runs of the listing of notifications.
use seniors_empregabilidade.Prelude.{
  IsKeyed, Option, Str, [], ap, arith, false, length, map, none, refl, some, suc, ℕ, ◌++◌, ◌+◌, ◌-◌,
  ◌<◌, ◌∷◌, ◌≡◌,
}
use seniors_empregabilidade.Database.Tables.{Db, Notification}
use seniors_empregabilidade.Notifications.Cursor.{
  Codec, IsReadable, decode, decode-encode, encode, missing_padding, padding, rstrip_padding,
}
use seniors_empregabilidade.Notifications.Listing.{wanted_rows}
use seniors_empregabilidade.Notifications.Listing.Order.{notification_id_of}
use seniors_empregabilidade.Notifications.Listing.Pages.{read_pages, read_pages_lem}
use seniors_empregabilidade.Notifications.Reading.{response_of}
use seniors_empregabilidade.Notifications.Types.{NotificationType}
use seniors_empregabilidade.Tests.Samples.{notification, sample}

abbrev one_code : Str → Option ℕ
one_code (c ∷ []) = some (c - 200)
one_code s = none

-- Instants and identifiers as one code point, and an encoding that only pads.
abbrev codec : Codec
codec = record {
  isoformat = λ t. (200 + t) ∷ [];
  fromisoformat = one_code;
  uuid_text = λ id. (200 + id) ∷ [];
  uuid_of = one_code;
  urlsafe_b64encode = λ s. s ++ padding (missing_padding (length s));
  b64decode = λ s. some (rstrip_padding s);
}

abbrev older : Notification
older = notification 50 1 NotificationType.application_received

abbrev newer : Notification
newer = notification 51 1 NotificationType.application_received

-- Two notifications of one user, and one of another.
abbrev three : Db
three = record sample {
  notifications = newer ∷ notification 52 2 NotificationType.contact_received ∷ older ∷ [];
}

readable : (id : ℕ) → 0 < id → id < 60 → IsReadable codec (record { created_at = 0; id = id })
readable id a b = record {
  instant = refl;
  identifier = ap some (omega (arith, a));
  no_bar = refl;
  no_bar_id = ground (arith, a);
  body = 200 ∷ 124 ∷ (200 + id) ∷ [];
  padded = 1;
  form = refl;
  whole = ground (arith, a);
  few = omega arith;
  fours = refl;
  decoded = ground (arith, a);
}

decode-encode_example :
    decode codec (encode codec (record { created_at = 0; id = 50 }))
    ≡ some (record { created_at = 0; id = 50 })
decode-encode_example =
    decode-encode codec (record { created_at = 0; id = 50 })
      (readable 50 (omega arith) (omega arith))

three-IsKeyed : IsKeyed notification_id_of three.notifications
three-IsKeyed = (
  ((λ e. omega (arith, e)), ((λ e. omega (arith, e)), tt)),
  (((λ e. omega (arith, e)), tt), (tt, tt)),
)

-- Pages of one notification.
read_pages_lem_example :
    read_pages codec 1 false 1 three (suc (length (wanted_rows 1 false three))) none
    ≡ some (map response_of (wanted_rows 1 false three))
read_pages_lem_example = read_pages_lem codec 1 false 1 three (omega arith) three-IsKeyed (
  readable 51 (omega arith) (omega arith),
  (readable 52 (omega arith) (omega arith), (readable 50 (omega arith) (omega arith), tt)),
)

newest_is_first : wanted_rows 1 false three ≡ newer ∷ older ∷ []
unfolding wanted_rows
newest_is_first = refl
