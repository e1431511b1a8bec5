-- ===== src/Tests/Registering.antt =====
-- Runs of the registrations and of the corporate e-mail rule.
use seniors_empregabilidade.Prelude.{
  Str, [], codes, false, if◌then◌else◌, is_ascii_digit, map, none, refl, some, strip, true, ◌++◌,
  ◌==◌, ◌↔◌, ◌∷◌, ◌≡◌,
}
use seniors_empregabilidade.Database.Session.{ok}
use seniors_empregabilidade.Database.Tables.{Db}
use seniors_empregabilidade.Candidates.Age.{Date, age_on, meets_minimum_age}
use seniors_empregabilidade.Candidates.Cpf.{
  is_valid_cpf, parse_cpf, verification_digit, verification_digits,
}
use seniors_empregabilidade.Companies.CorporateEmail.{matches_personal, parse_corporate_email}
use seniors_empregabilidade.Companies.CorporateEmail.Parse.{IsCorporate, parse_corporate_email_iff}
use seniors_empregabilidade.Registration.Attempt.{Register}
use seniors_empregabilidade.Registration.Company.{
  CompanyRegistrationRequest, Environment, register_company,
}
use seniors_empregabilidade.Registration.Professional.{
  ProfessionalRegistrationRequest, professional_rows, register_professional, register_valid,
  store_professional,
}
use seniors_empregabilidade.Registration.Professional.Outcome.{
  register_professional-ProfessionalOutcome,
}
use seniors_empregabilidade.Registration.Professional.Spec.{ProfessionalOutcome, email}
use seniors_empregabilidade.Registration.Rows.{
  Checks, insert_candidate_row, insert_user, link_identity,
}
use seniors_empregabilidade.Registration.Unique.{
  AreConsistent, Registers, RegistersAll, RegistersAll-AreConsistent,
}
use seniors_empregabilidade.Tests.Samples.{server}

-- Any text in which "A" is the only capital letter.
abbrev lower_a : Str → Str
lower_a = map (λ c. if c == 65 then 97 else c)

abbrev checks : Checks
checks = record { minimum_age = λ d. true; corporate_email = λ e. true }

-- The provider of the runs: every address gets an identity that is to be confirmed.
abbrev provider : Register
provider email password =
    ok (record { identity_subject = codes "sub-" ++ email; confirmed = false })

abbrev candidate_request : ProfessionalRegistrationRequest
candidate_request = record {
  full_name = codes "Ana";
  cpf = codes "529.982.247-25";
  birth_date = (1960, 1, 1);
  phone = codes "11999999999";
  email = codes "Ana@example.com";
  password = codes "secret";
  terms_version_accepted = some (codes "1");
  city = none;
  state = none;
}

abbrev run_day : Date
run_day = record { year = 2025; month = 6; day = 15 }

abbrev company_request : CompanyRegistrationRequest
company_request = record {
  cnpj = codes "11.222.333/0001-81";
  display_name = codes "Empresa";
  address = record {
    street = codes "Rua";
    number = codes "1";
    complement = none;
    neighborhood = codes "Centro";
    city = codes "Recife";
    state = codes "PE";
    zip_code = codes "50000000";
  };
  corporate_email = codes " rh@mail.empresa.com.br";
  linkedin_url = none;
  password = codes "secret";
  terms_version = codes "1";
}

abbrev environment : Environment
environment = record {
  lower = lower_a;
  is_digit = is_ascii_digit;
  register = provider;
  get_record = λ cnpj. ok (record {
    cnpj = cnpj;
    legal_name = codes "Empresa Ltda";
    trade_name = none;
    primary_cnae = codes "62.01-5";
  });
  blocked_cnae_prefixes = codes "92" ∷ [];
  personal_email_domains = codes "gmail.com" ∷ [];
  checks = checks;
}

-- A subdomain of a personal domain is refused, a domain that only ends alike is not.
personal_domains_refused :
    (parse_corporate_email lower_a (codes "x@mail.gmail.com") (codes "gmail.com" ∷ []) ≡ none)
    × (parse_corporate_email lower_a (codes " A@notgmail.com") (codes "gmail.com" ∷ [])
        ≡ some (codes "a@notgmail.com"))
unfolding parse_corporate_email matches_personal
personal_domains_refused = (refl, refl)

parse_corporate_email_iff_example :
    (parse_corporate_email lower_a (codes " A@empresa.com") (codes "gmail.com" ∷ [])
      ≡ some (codes "a@empresa.com"))
    ↔ ((codes "a@empresa.com" ≡ lower_a (strip (codes " A@empresa.com")))
        × IsCorporate (codes "gmail.com" ∷ []) (codes "a@empresa.com"))
parse_corporate_email_iff_example =
    parse_corporate_email_iff lower_a (codes " A@empresa.com") (codes "gmail.com" ∷ [])
      (codes "a@empresa.com")

abbrev no_rows : Db
no_rows = record {
  users = [];
  companies = [];
  addresses = [];
  candidates = [];
  resumes = [];
  skills = [];
  resume_skills = [];
  jobs = [];
  job_skills = [];
  applications = [];
  notifications = [];
  deliveries = [];
  contacts = [];
  events = [];
}

register_professional-ProfessionalOutcome_example :
    ProfessionalOutcome lower_a provider checks server candidate_request run_day 5 no_rows
      (register_professional lower_a provider checks server candidate_request run_day 5 no_rows)
register_professional-ProfessionalOutcome_example =
    register_professional-ProfessionalOutcome lower_a provider checks server candidate_request
      run_day 5 no_rows tt

-- The registration of the run is accepted.
candidate_registered :
    (register_professional lower_a provider checks server candidate_request run_day 5
      no_rows).answer
    ≡ ok (record {
      id = 100;
      full_name = codes "Ana";
      email = codes "ana@example.com";
      email_verification_required = true;
    })
unfolding register_professional register_valid store_professional professional_rows insert_user
    insert_candidate_row link_identity parse_cpf is_valid_cpf verification_digits verification_digit
    meets_minimum_age age_on
candidate_registered = refl

nothing-AreConsistent : AreConsistent no_rows
nothing-AreConsistent = record {
  ids = tt;
  emails = tt;
  subjects = tt;
  cpfs = tt;
  valid_cpfs = tt;
  candidate_accounts = tt;
  cnpjs = tt;
  valid_cnpjs = tt;
  corporate_emails = tt;
  company_accounts = tt;
}

abbrev after_company : Db
after_company = (register_company environment server company_request 5 no_rows).tables

company_step : RegistersAll no_rows after_company
company_step =
    RegistersAll.step RegistersAll.here
      (Registers.of_company environment server company_request 5 tt tt)

RegistersAll-AreConsistent_example : AreConsistent after_company
RegistersAll-AreConsistent_example =
    RegistersAll-AreConsistent no_rows after_company company_step nothing-AreConsistent
