-- ===== src/Companies/CorporateEmail.antt =====
-- app/companies/domain/value_objects/corporate_email.py
pub mod Laws
pub mod Parse
use seniors_empregabilidade.Prelude.{
  Bool, List, Option, Str, [], exists_where, if◌then◌else◌, is_empty, none, some, str_eq, strip, ℕ,
  ◌++◌, ◌==◌, ◌||◌, ◌∷◌,
}

-- `labels = domain.split(".")`: the first label and the others.
abbrev pub split_dots : Str → Str × List Str
split_dots [] = ([], [])
split_dots (c ∷ s) =
    let rest = split_dots s in if c == 46 then ([], rest.0 ∷ rest.1) else (c ∷ rest.0, rest.1)

-- `".".join(label ∷ labels)`
abbrev pub join_dots : Str → List Str → Str
join_dots label [] = label
join_dots label (next ∷ labels) = label ++ (46 ∷ join_dots next labels)

-- `{".".join(labels[index:]) for index in range(len(labels))}`
abbrev pub label_suffixes : List Str → List Str
label_suffixes [] = []
label_suffixes (label ∷ labels) = join_dots label labels ∷ label_suffixes labels

-- `_matches_personal`: a set of texts is the list of its members.
unfoldable pub matches_personal : (domain : Str) (personal_domains : List Str) → Bool
matches_personal domain personal_domains =
    let labels = split_dots domain in
    exists_where (λ suffix. exists_where (str_eq suffix) personal_domains)
      (label_suffixes (labels.0 ∷ labels.1))

abbrev pub before_separator : (c : ℕ) (s : Str) → Option (Str × Str) → Option (Str × Str)
before_separator c s (some parts) = some (c ∷ parts.0, parts.1)
before_separator c s none = if c == 64 then some ([], s) else none

-- `text.rpartition("@")`: what stands before and after the last "@", when there is one.
abbrev pub rpartition : Str → Option (Str × Str)
rpartition [] = none
rpartition (c ∷ s) = before_separator c s (rpartition s)

-- `not separator or not local or _matches_personal(domain)` raises.
abbrev pub accepted_parts : (personal_domains : List Str) → Option (Str × Str) → Option Str
accepted_parts personal_domains none = none
accepted_parts personal_domains (some parts) =
    if is_empty parts.0 || matches_personal parts.1 personal_domains
    then none
    else some (parts.0 ++ (64 ∷ parts.1))

-- `CorporateEmail(raw_value, personal_domains).value`: no value stands for `PersonalEmailDomainError`.
-- `str.lower` reads the Unicode tables and is a parameter.
unfoldable pub parse_corporate_email :
    (lower : Str → Str) (raw_value : Str) (personal_domains : List Str) → Option Str
parse_corporate_email lower raw_value personal_domains =
    accepted_parts personal_domains (rpartition (lower (strip raw_value)))
