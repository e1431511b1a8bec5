-- ===== src/Candidates/Certificate.antt =====
-- app/candidates/domain/certificate_document.py. Bytes are numbers. `isprintable` comes from the
-- Unicode tables and is a parameter.
use seniors_empregabilidade.Prelude.{
  Bool, Bool-cases, List, Option, Option-cases, Str, [], arith, codes, drop, false, if◌then◌else◌,
  inl, inr, is_empty, length, ltb, ltb→lt, none, refl, reversed_onto, select_where, some,
  starts_with, strip, suc, true, zero, ℕ, ◌*◌, ◌-◌, ◌<◌, ◌==◌, ◌||◌, ◌∷◌, ◌≡◌, ◌≤◌,
}

pub data ContentType : Type 0 where
  pdf png jpeg : ContentType

-- `_SIGNATURES`
abbrev pub magic_of : ContentType → List ℕ
magic_of ContentType.pdf = 37 ∷ 80 ∷ 68 ∷ 70 ∷ 45 ∷ []
magic_of ContentType.png = 137 ∷ 80 ∷ 78 ∷ 71 ∷ 13 ∷ 10 ∷ 26 ∷ 10 ∷ []
magic_of ContentType.jpeg = 255 ∷ 216 ∷ 255 ∷ []

-- `_DEFAULT_NAMES`
unfoldable pub default_name : ContentType → Str
default_name ContentType.pdf = codes "certificate.pdf"
default_name ContentType.png = codes "certificate.png"
default_name ContentType.jpeg = codes "certificate.jpg"

-- The first signature that the content starts with.
unfoldable pub content_type_of : (content : List ℕ) → Option ContentType
content_type_of content =
    if starts_with content (magic_of ContentType.pdf)
    then some ContentType.pdf
    else if starts_with content (magic_of ContentType.png)
    then some ContentType.png
    else if starts_with content (magic_of ContentType.jpeg)
    then some ContentType.jpeg
    else none

abbrev pub max_document_bytes : ℕ
max_document_bytes = 5 * 1024 * 1024

abbrev pub max_filename_length : ℕ
max_filename_length = 255

pub record CertificateDocument : Type 0 where
  pub filename : Str
  pub content_type : ContentType
  pub content : List ℕ

pub data ParsedDocument : Type 0 where
  document : CertificateDocument → ParsedDocument
  too_large unsupported : ParsedDocument

-- `replace("\\", "/").rsplit("/", 1)[-1]`: what follows the last separator; `kept` is what follows
-- the last one so far.
abbrev pub is_separator : ℕ → Bool
is_separator c = c == 92 || c == 47

abbrev pub after_last_separator : (text kept : Str) → Str
after_last_separator [] kept = reversed_onto kept []
after_last_separator (c ∷ text) kept =
    let next = after_last_separator text (c ∷ kept) in
    let reset = after_last_separator text [] in if is_separator c then reset else next

-- `text[-n:]` for a positive number `n`.
abbrev pub last_of : ℕ → Str → Str
last_of n text = drop (length text - n) text

-- `filename or ""`
abbrev pub given_name : Option Str → Str
given_name none = []
given_name (some text) = text

module _ (is_printable : ℕ → Bool) where
  -- `_base_name`
  unfoldable pub base_name : (filename : Str) → Str
  base_name filename =
      last_of max_filename_length
        (strip (select_where is_printable (after_last_separator filename [])))

  -- `_base_name(filename or "") or default`
  unfoldable pub name_of : (filename : Option Str) → ContentType → Str
  name_of filename type =
      let base = base_name (given_name filename) in
      if is_empty base then default_name type else base

  -- `CertificateDocument.parse`
  unfoldable pub parse_document : (filename : Option Str) (content : List ℕ) → ParsedDocument
  parse_document filename content =
      if ltb max_document_bytes (length content)
      then ParsedDocument.too_large
      else elim (content_type_of content) [
        | none ↦ ParsedDocument.unsupported
        | some type ↦
            ParsedDocument.document
              (record { filename = name_of filename type; content_type = type; content = content })
      ]

length-drop : (n : ℕ) (s : Str) → length (drop n s) ≡ length s - n
length-drop zero s = omega arith
length-drop (suc n) [] = omega arith
length-drop (suc n) (c ∷ s) = ground (arith, length-drop n s)

length-last_of : (n : ℕ) (s : Str) → length (last_of n s) ≤ n
length-last_of n s = ground (arith, length-drop (length s - n) s)

-- What a stored document satisfies.
pub record IsSafe (content : List ℕ) (d : CertificateDocument) : Type 0 where
  pub kept : d.content ≡ content
  pub small : length d.content ≤ max_document_bytes
  pub signed : starts_with d.content (magic_of d.content_type) ≡ true
  pub named : is_empty d.filename ≡ false
  pub short : length d.filename ≤ max_filename_length

default_named :
    (t : ContentType) → (is_empty (default_name t) ≡ false) × (length (default_name t) ≤ 255)
unfolding default_name
default_named ContentType.pdf = (refl, omega arith)
default_named ContentType.png = (refl, omega arith)
default_named ContentType.jpeg = (refl, omega arith)

name_safe :
    (is_printable : ℕ → Bool) (filename : Option Str) (t : ContentType)
    → (is_empty (name_of is_printable filename t) ≡ false)
      × (length (name_of is_printable filename t) ≤ 255)
unfolding name_of base_name
name_safe is_printable filename t =
    let text = given_name filename in
    elim (Bool-cases (is_empty (base_name is_printable text))) [
      | inl e ↦ rw e (default_named t)
      | inr n ↦
          rw n (
            n,
            length-last_of 255 (strip (select_where is_printable (after_last_separator text []))),
          )
    ]

not_ltb : (a b : ℕ) → ltb a b ≡ false → b ≤ a
not_ltb a b h = ground arith

signed_lem :
    (content : List ℕ) (t : ContentType)
    → content_type_of content ≡ some t
    → starts_with content (magic_of t) ≡ true
unfolding content_type_of
signed_lem content ContentType.pdf h = ground (arith, h)
signed_lem content ContentType.png h = ground (arith, h)
signed_lem content ContentType.jpeg h = ground (arith, h)

module _ (is_printable : ℕ → Bool) (filename : Option Str) (content : List ℕ) where
  abbrev stored : ContentType → CertificateDocument
  stored t = record {
    filename = name_of is_printable filename t;
    content_type = t;
    content = content;
  }

  parse_large :
      ltb max_document_bytes (length content) ≡ true
      → parse_document is_printable filename content ≡ ParsedDocument.too_large
  unfolding parse_document
  parse_large h = rw h

  parse_unsigned :
      ltb max_document_bytes (length content) ≡ false
      → content_type_of content ≡ none
      → parse_document is_printable filename content ≡ ParsedDocument.unsupported
  unfolding parse_document
  parse_unsigned h n = rw (h, n)

  parse_signed :
      (t : ContentType)
      → ltb max_document_bytes (length content) ≡ false
      → content_type_of content ≡ some t
      → parse_document is_printable filename content ≡ ParsedDocument.document (stored t)
  unfolding parse_document
  parse_signed t h e = rw (h, e)

  stored-IsSafe :
      (t : ContentType)
      → ltb max_document_bytes (length content) ≡ false
      → content_type_of content ≡ some t
      → IsSafe content (stored t)
  stored-IsSafe t h e =
      let (named, short) = name_safe is_printable filename t in
      record {
        kept = refl;
        small = not_ltb max_document_bytes (length content) h;
        signed = signed_lem content t e;
        named = named;
        short = short;
      }

-- How parsing a document can end.
pub data DocumentOutcome (content : List ℕ) (r : ParsedDocument) : Type 0 where
  safe :
      (d : CertificateDocument)
      → IsSafe content d
      → r ≡ ParsedDocument.document d
      → DocumentOutcome content r
  large :
      max_document_bytes < length content → r ≡ ParsedDocument.too_large → DocumentOutcome content r
  unsigned :
      content_type_of content ≡ none → r ≡ ParsedDocument.unsupported → DocumentOutcome content r

-- Parsing an uploaded document ends in one of three ways. Content of more than 5 MiB is too large,
-- content without a known signature is unsupported, and any other is stored with the given bytes,
-- under the type whose signature it starts with and a file name of 1 to 255 characters.
pub parse_document-DocumentOutcome :
    (is_printable : ℕ → Bool) (filename : Option Str) (content : List ℕ)
    → DocumentOutcome content (parse_document is_printable filename content)
parse_document-DocumentOutcome is_printable filename content =
    elim (Bool-cases (ltb max_document_bytes (length content))) [
      | inl big ↦ large (ltb→lt _ _ big) (parse_large is_printable filename content big)
      | inr small ↦ elim (Option-cases (content_type_of content)) [
        | inl n ↦ unsigned n (parse_unsigned is_printable filename content small n)
        | inr (t, e) ↦
            safe (stored is_printable filename content t)
              (stored-IsSafe is_printable filename content t small e)
              (parse_signed is_printable filename content t small e)
      ]
    ]
