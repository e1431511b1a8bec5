-- ===== src/Notifications/Cursor.antt =====
-- app/notifications/domain/notification_cursor.py
use mathlib.Core.Option as OptionM
use seniors_empregabilidade.Prelude.{
  Option, Str, [], ap, arith, false, if◌then◌else◌, is_empty, length, mem, none, refl, some, suc,
  sym, zero, ℕ, ◌%◌, ◌&&◌, ◌++◌, ◌+◌, ◌-◌, ◌<◌, ◌==◌, ◌∙◌, ◌∷◌, ◌≡◌,
}

-- The position after the last notification of a page. A `timestamptz` has a time zone.
pub record NotificationCursor : Type 0 where
  pub created_at : ℕ
  pub id : ℕ

-- What the cursor takes from Python: instants and identifiers as texts, and base64 with "-" and "_".
-- No value stands for the exceptions that `decode` catches.
pub record Codec : Type 0 where
  pub isoformat : ℕ → Str
  pub fromisoformat : Str → Option ℕ
  pub uuid_text : ℕ → Str
  pub uuid_of : Str → Option ℕ
  pub urlsafe_b64encode : Str → Str
  pub b64decode : Str → Option Str

-- The text without its last characters "=".
abbrev pub rstrip_padding : Str → Str
rstrip_padding [] = []
rstrip_padding (c ∷ s) =
    let rest = rstrip_padding s in if is_empty rest && c == 61 then [] else c ∷ rest

-- `"=" * n`
abbrev pub padding : ℕ → Str
padding zero = []
padding (suc n) = 61 ∷ padding n

-- `-n % 4`
abbrev pub missing_padding : (n : ℕ) → ℕ
missing_padding n = (4 - n % 4) % 4

abbrev pub pair_of : Option ℕ → Option ℕ → Option NotificationCursor
pair_of (some created_at) (some id) = some (record { created_at = created_at; id = id })
pair_of created_at id = none

-- `raw.split("|")` unpacked into two texts: any other number of parts raises.
abbrev pub two_parts : Str → Option (Str × Str)
two_parts [] = none
two_parts (c ∷ s) =
    let rest = two_parts s in
    if c == 124
    then (if mem 124 s then none else some ([], s))
    else OptionM.map (λ (p : Str × Str). (c ∷ p.0, p.1)) rest

module _ (codec : Codec) where
  abbrev pub raw_text : NotificationCursor → Str
  raw_text c = codec.isoformat c.created_at ++ (124 ∷ codec.uuid_text c.id)

  unfoldable pub encode : NotificationCursor → Str
  encode c = rstrip_padding (codec.urlsafe_b64encode (raw_text c))

  abbrev pub cursor_of_parts : Option (Str × Str) → Option NotificationCursor
  cursor_of_parts none = none
  cursor_of_parts (some p) = pair_of (codec.fromisoformat p.0) (codec.uuid_of p.1)

  abbrev pub cursor_of_raw : Option Str → Option NotificationCursor
  cursor_of_raw none = none
  cursor_of_raw (some raw) = cursor_of_parts (two_parts raw)

  -- No value stands for `InvalidNotificationCursor`.
  unfoldable pub decode : (token : Str) → Option NotificationCursor
  decode token = cursor_of_raw (codec.b64decode (token ++ padding (missing_padding (length token))))

-- What the library functions promise for one cursor: instant and identifier are read back from
-- their texts, which have no "|", and the base64 text, of a length that 4 divides, is some text that
-- does not end in "=" followed by at most three "=", and is decoded to what was encoded.
pub record IsReadable (codec : Codec) (c : NotificationCursor) : Type 0 where
  pub instant : codec.fromisoformat (codec.isoformat c.created_at) ≡ some c.created_at
  pub identifier : codec.uuid_of (codec.uuid_text c.id) ≡ some c.id
  pub no_bar : mem 124 (codec.isoformat c.created_at) ≡ false
  pub no_bar_id : mem 124 (codec.uuid_text c.id) ≡ false
  pub body : Str
  pub padded : ℕ
  pub form : codec.urlsafe_b64encode (raw_text codec c) ≡ body ++ padding padded
  pub whole : rstrip_padding body ≡ body
  pub few : padded < 4
  pub fours : (length body + padded) % 4 ≡ 0
  pub decoded :
      codec.b64decode (codec.urlsafe_b64encode (raw_text codec c)) ≡ some (raw_text codec c)

strip-padding : (n : ℕ) → rstrip_padding (padding n) ≡ []
strip-padding zero = refl
strip-padding (suc n) = rw (strip-padding n)

strip-append : (body : Str) (n : ℕ) → rstrip_padding (body ++ padding n) ≡ rstrip_padding body
strip-append [] n = strip-padding n
strip-append (c ∷ body) n = rw (strip-append body n)

two_parts-append :
    (s t : Str) → mem 124 s ≡ false → mem 124 t ≡ false → two_parts (s ++ (124 ∷ t)) ≡ some (s, t)
two_parts-append [] t h k = rw k
two_parts-append (c ∷ s) t h k = rw (two_parts-append s t (ground (arith, h)) k) (ground (arith, h))

same_padding : (n k : ℕ) → k < 4 → (n + k) % 4 ≡ 0 → missing_padding n ≡ k
same_padding n k h e = omega (arith, h, e)

-- A cursor that is encoded for a client decodes to itself, if the library functions read back what
-- they have written for it: the padding that `encode` strips is what `decode` puts back.
pub decode-encode :
    (codec : Codec) (c : NotificationCursor)
    → IsReadable codec c
    → decode codec (encode codec c) ≡ some c
unfolding decode encode
decode-encode codec c r =
    ap (λ t. cursor_of_raw codec (codec.b64decode (t ++ padding (missing_padding (length t)))))
      (ap rstrip_padding r.form ∙ strip-append r.body r.padded ∙ r.whole)
    ∙ ap (λ k. cursor_of_raw codec (codec.b64decode (r.body ++ padding k)))
        (same_padding (length r.body) r.padded r.few r.fours)
    ∙ ap (λ t. cursor_of_raw codec (codec.b64decode t)) (sym r.form)
    ∙ ap (cursor_of_raw codec) r.decoded
    ∙ ap (cursor_of_parts codec) (
        two_parts-append (codec.isoformat c.created_at) (codec.uuid_text c.id) r.no_bar r.no_bar_id)
    ∙ rw (r.instant, r.identifier)
