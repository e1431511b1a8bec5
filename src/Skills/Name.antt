-- ===== src/Skills/Name.antt =====
-- app/skills/domain/skill_name.py
use seniors_empregabilidade.Prelude.{
  Bool, List, Option, Str, [], exists_where, if◌then◌else◌, is_empty, is_space, length, ltb, none,
  not, select_where, some, ℕ, ◌++◌, ◌||◌, ◌∷◌,
}

-- What `str.casefold` and the module `unicodedata` say: `category(c)` is one of the ignored
-- categories, or is "Cc".
pub record Unicode : Type 0 where
  pub casefold : Str → Str
  pub nfkd : Str → Str
  pub is_ignored : ℕ → Bool
  pub is_control : ℕ → Bool

abbrev pub max_skill_name_length : ℕ
max_skill_name_length = 100

-- A word that has ended, before the others.
abbrev pub after_word : Str → List Str → List Str
after_word [] words = words
after_word (c ∷ word) words = (c ∷ word) ∷ words

-- The word that the text begins with, and the others.
abbrev pub split_words : Str → Str × List Str
split_words [] = ([], [])
split_words (c ∷ s) =
    let rest = split_words s in
    if is_space c then ([], after_word rest.0 rest.1) else (c ∷ rest.0, rest.1)

-- `text.split()`
abbrev pub words_of : Str → List Str
words_of text = let parts = split_words text in after_word parts.0 parts.1

-- `" ".join(words)`
abbrev pub join_words : List Str → Str
join_words [] = []
join_words (w ∷ []) = w
join_words (w ∷ v ∷ ws) = w ++ (32 ∷ join_words (v ∷ ws))

pub record SkillName : Type 0 where
  pub value : Str
  pub normalized : Str

unfoldable pub normalize_skill_name : Unicode → (raw_value : Str) → Str
normalize_skill_name unicode raw_value =
    let decomposed = unicode.nfkd (unicode.casefold raw_value) in
    let kept = select_where (λ c. not (unicode.is_ignored c)) decomposed in
    join_words (words_of kept)

abbrev pub is_bad_value : Unicode → Str → Bool
is_bad_value unicode value =
    ltb max_skill_name_length (length value) || exists_where unicode.is_control value

abbrev pub is_bad_normalized : Str → Bool
is_bad_normalized normalized = is_empty normalized || ltb max_skill_name_length (length normalized)

-- `SkillName.parse`: no value stands for `InvalidSkillNameError`.
unfoldable pub parse_skill_name : Unicode → (raw_value : Str) → Option SkillName
parse_skill_name unicode raw_value =
    let value = join_words (words_of raw_value) in
    let normalized = normalize_skill_name unicode value in
    if is_bad_value unicode value || is_bad_normalized normalized
    then none
    else some (record { value = value; normalized = normalized })
