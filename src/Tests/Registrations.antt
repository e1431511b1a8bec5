-- ===== src/Tests/Registrations.antt =====
-- Runs of the rules on registration data.
use seniors_empregabilidade.Prelude.{
  Str, [], all_where, codes, false, is_ascii_digit, length, none, refl, select_where, some, to_set,
  true, ◌==◌, ◌↔◌, ◌∷◌, ◌≡◌, ◌≤◌,
}
use seniors_empregabilidade.Candidates.Age.{
  Date, IsOnOrBefore, meets_minimum_age, meets_minimum_age_lem,
}
use seniors_empregabilidade.Candidates.Certificate.{
  DocumentOutcome, base_name, parse_document, parse_document-DocumentOutcome,
}
use seniors_empregabilidade.Candidates.Completeness.{
  completion_lem, is_blank, missing_resume_fields, resume_completion_percentage,
}
use seniors_empregabilidade.Candidates.Cpf.{
  is_kept, is_repeated, is_valid_cpf, parse_cpf, verification_digit, verification_digits,
}
use seniors_empregabilidade.Candidates.Cpf.Check.{IsCpf, parse_cpf_iff}
use seniors_empregabilidade.Candidates.Cpf.Laws.{parse_cpf_canonical}
use seniors_empregabilidade.Companies.Cnpj.{
  check_digit, check_digits, is_cnpj_kept, is_valid_cnpj, parse_cnpj,
}
use seniors_empregabilidade.Companies.Cnpj.Check.{IsCnpj, parse_cnpj_iff}
use seniors_empregabilidade.Companies.Cnpj.Laws.{parse_cnpj_canonical}

abbrev formatted_cpf : Str
formatted_cpf = codes "529.982.247-25"

abbrev cpf_digits : Str
cpf_digits = codes "52998224725"

formatted_cpf-parses : parse_cpf formatted_cpf ≡ some cpf_digits
unfolding parse_cpf is_valid_cpf verification_digits verification_digit
formatted_cpf-parses = refl

plain_cpf-parses : parse_cpf cpf_digits ≡ some cpf_digits
unfolding parse_cpf is_valid_cpf verification_digits verification_digit
plain_cpf-parses = refl

-- A wrong check digit, and eleven equal digits.
wrong_cpfs :
    (parse_cpf (codes "529.982.247-26") ≡ none) × (parse_cpf (codes "111.111.111-11") ≡ none)
unfolding parse_cpf is_valid_cpf verification_digits verification_digit
wrong_cpfs = (refl, refl)

parse_cpf_canonical_example :
    (cpf_digits ≡ select_where is_kept formatted_cpf)
    × (length cpf_digits ≡ 11)
    × (all_where is_ascii_digit cpf_digits ≡ true)
    × (is_repeated cpf_digits ≡ false)
    × (parse_cpf cpf_digits ≡ some cpf_digits)
parse_cpf_canonical_example = parse_cpf_canonical formatted_cpf cpf_digits formatted_cpf-parses

parse_cpf_iff_example :
    (parse_cpf formatted_cpf ≡ some cpf_digits)
    ↔ ((cpf_digits ≡ select_where is_kept formatted_cpf) × IsCpf cpf_digits)
parse_cpf_iff_example = parse_cpf_iff formatted_cpf cpf_digits

abbrev formatted_cnpj : Str
formatted_cnpj = codes "11.222.333/0001-81"

abbrev cnpj_digits : Str
cnpj_digits = codes "11222333000181"

formatted_cnpj-parses : parse_cnpj formatted_cnpj ≡ some cnpj_digits
unfolding parse_cnpj is_valid_cnpj check_digits check_digit
formatted_cnpj-parses = refl

plain_cnpj-parses : parse_cnpj cnpj_digits ≡ some cnpj_digits
unfolding parse_cnpj is_valid_cnpj check_digits check_digit
plain_cnpj-parses = refl

parse_cnpj_canonical_example :
    (cnpj_digits ≡ select_where is_cnpj_kept formatted_cnpj)
    × (length cnpj_digits ≡ 14)
    × (all_where is_ascii_digit cnpj_digits ≡ true)
    × ((length (to_set cnpj_digits) == 1) ≡ false)
    × (parse_cnpj cnpj_digits ≡ some cnpj_digits)
parse_cnpj_canonical_example = parse_cnpj_canonical formatted_cnpj cnpj_digits formatted_cnpj-parses

parse_cnpj_iff_example :
    (parse_cnpj formatted_cnpj ≡ some cnpj_digits)
    ↔ ((cnpj_digits ≡ select_where is_cnpj_kept formatted_cnpj) × IsCnpj cnpj_digits)
parse_cnpj_iff_example = parse_cnpj_iff formatted_cnpj cnpj_digits

abbrev birth : Date
birth = record { year = 1980; month = 6; day = 15 }

abbrev birthday : Date
birthday = record { year = 2025; month = 6; day = 15 }

meets_minimum_age_lem_example :
    (meets_minimum_age birth birthday ≡ true)
    ↔ IsOnOrBefore (record { year = 2025; month = 6; day = 15 }) birthday
meets_minimum_age_lem_example = meets_minimum_age_lem birth birthday

completion_lem_example :
    let p =
      resume_completion_percentage
        (missing_resume_fields (some (codes "Recife")) none (some (codes " ")) true true false) in
    (p ≤ 100)
    × ((p ≡ 100) ↔ (
        (is_blank (some (codes "Recife")) ≡ false)
        × (is_blank none ≡ false)
        × (is_blank (some (codes " ")) ≡ false)
        × (true ≡ true)
        × (true ≡ true)
        × (false ≡ true)))
completion_lem_example =
    completion_lem (some (codes "Recife")) none (some (codes " ")) true true false

parse_document-DocumentOutcome_example :
    DocumentOutcome
      (37 ∷ 80 ∷ 68 ∷ 70 ∷ 45 ∷ 49 ∷ [])
      (parse_document (λ c. true) (some (codes "docs/a.pdf")) (37 ∷ 80 ∷ 68 ∷ 70 ∷ 45 ∷ 49 ∷ []))
parse_document-DocumentOutcome_example =
    parse_document-DocumentOutcome (λ c. true) (some (codes "docs/a.pdf"))
      (37 ∷ 80 ∷ 68 ∷ 70 ∷ 45 ∷ 49 ∷ [])

-- The folder is dropped from the name.
folder_dropped : base_name (λ c. true) (codes "docs/a.pdf") ≡ codes "a.pdf"
unfolding base_name
folder_dropped = refl
