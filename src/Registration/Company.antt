-- ===== src/Registration/Company.antt =====
-- app/companies/services/register_company.py
pub mod Spec
pub mod Outcome
use seniors_empregabilidade.Prelude.{
  Bool, List, Option, Str, false, if◌then◌else◌, none, not, some, update_where, ℕ, ◌==◌, ◌∷◌,
}
use seniors_empregabilidade.Database.AccountErrors.{IdentityError}
use seniors_empregabilidade.Database.Enums.{CompanyStatus, UserType}
use seniors_empregabilidade.Database.Errors.{CompanyError, Constraint, Error}
use seniors_empregabilidade.Database.Session.{Action, Result, Server, err, modify, ok, ◌>>=◌, ◌>>◌}
use seniors_empregabilidade.Database.Tables.{Address, Company, Db}
use seniors_empregabilidade.Companies.Cnpj.{parse_cnpj}
use seniors_empregabilidade.Companies.CorporateEmail.{parse_corporate_email}
use seniors_empregabilidade.Companies.Policies.{is_blocked_cnae}
use seniors_empregabilidade.Registration.Attempt.{
  Register, RegisteredIdentity, Registration, refusal, settle_attempt, with_rows,
}
use seniors_empregabilidade.Registration.Rows.{
  Checks, insert_company, insert_user, link_identity, new_user,
}

-- app/companies/schemas/company_request.py
pub record AddressRequest : Type 0 where
  pub street : Str
  pub number : Str
  pub complement : Option Str
  pub neighborhood : Str
  pub city : Str
  pub state : Str
  pub zip_code : Str

pub record CompanyRegistrationRequest : Type 0 where
  pub cnpj : Str
  pub display_name : Str
  pub address : AddressRequest
  pub corporate_email : Str
  pub linkedin_url : Option Str
  pub password : Str
  pub terms_version : Str

-- app/companies/schemas/registry_record_response.py
pub record RegistryRecord : Type 0 where
  pub cnpj : Str
  pub legal_name : Str
  pub trade_name : Option Str
  pub primary_cnae : Str

pub record CompanyRegistrationResponse : Type 0 where
  pub id : ℕ
  pub email : Str
  pub status : CompanyStatus
  pub email_confirmation_required : Bool

-- The handler of `IntegrityError`.
abbrev pub conflict_of : Constraint → Error
conflict_of Constraint.uq_app_user_identity_subject = Error.identity IdentityError.identity_conflict
conflict_of Constraint.uq_company_cnpj = Error.company CompanyError.cnpj_conflict
conflict_of Constraint.uq_app_user_email = Error.company CompanyError.email_conflict
conflict_of Constraint.uq_company_corporate_email = Error.company CompanyError.email_conflict
conflict_of c = Error.integrity c

abbrev pub translate_company_error : Error → Error
translate_company_error (Error.integrity c) = conflict_of c
translate_company_error e = e

abbrev pub new_address : (id : ℕ) → AddressRequest → Address
new_address id request = record {
  id = id;
  street = request.street;
  number = request.number;
  complement = request.complement;
  neighborhood = request.neighborhood;
  city = request.city;
  state = request.state;
  zip_code = request.zip_code;
  code = none;
}

-- `Company(...)` once it is flushed, with the defaults of its columns.
abbrev pub new_company :
    (id address_id : ℕ) (cnpj email : Str)
    → CompanyRegistrationRequest
    → RegistryRecord
    → (accepted_at : ℕ) → Company
new_company id address_id cnpj email request found accepted_at = record {
  id = id;
  cnpj = cnpj;
  legal_name = found.legal_name;
  trade_name = some request.display_name;
  primary_cnae = some found.primary_cnae;
  corporate_email = email;
  corporate_email_confirmed = false;
  contact_email = none;
  contact_phone = none;
  company_size = none;
  industry = none;
  linkedin_url = request.linkedin_url;
  linkedin_verified = false;
  address_id = some address_id;
  status = CompanyStatus.pending;
  terms_version_accepted = some request.terms_version;
  terms_accepted_at = some accepted_at;
}

abbrev pub confirmed : Bool → Company → Company
confirmed c company = record company { corporate_email_confirmed = c }

-- What the application reads outside of the request: its settings, the registry and the identity
-- provider, and what it does not define itself.
pub record Environment : Type 0 where
  pub lower : Str → Str
  pub is_digit : ℕ → Bool
  pub register : Register
  pub get_record : (cnpj : Str) → Result RegistryRecord
  pub blocked_cnae_prefixes : List Str
  pub personal_email_domains : List Str
  pub checks : Checks

module _ (env : Environment) (server : Server) (request : CompanyRegistrationRequest)
    (accepted_at : ℕ) where
  abbrev pub registered_company : (cnpj email : Str) → RegistryRecord → Company
  registered_company cnpj email found =
      new_company (server.uuid 1) (server.uuid 0) cnpj email request found accepted_at

  unfoldable pub company_rows : (cnpj email : Str) → RegistryRecord → Action (Unit {0})
  company_rows cnpj email found = do
    modify
        (λ db. record db { addresses = new_address (server.uuid 0) request.address ∷ db.addresses })
    insert_user (new_user server (server.uuid 1) email UserType.company)
    insert_company env.checks (registered_company cnpj email found)

  unfoldable pub link_company : RegisteredIdentity → Action (Unit {0})
  link_company identity = do
    link_identity (server.uuid 1) identity.identity_subject
    modify (λ db. record db {
      companies =
          update_where (λ c. c.id == server.uuid 1) (confirmed identity.confirmed) db.companies;
    })

  abbrev pub company_response : (email : Str) → RegisteredIdentity → CompanyRegistrationResponse
  company_response email identity = record {
    id = server.uuid 1;
    email = email;
    status = CompanyStatus.pending;
    email_confirmation_required = not identity.confirmed;
  }

  unfoldable pub store_company :
      (cnpj email : Str) → RegistryRecord → Db → Registration CompanyRegistrationResponse
  store_company cnpj email found db =
      settle_attempt translate_company_error (company_response email) db (
        with_rows (env.register email request.password) link_company
          (company_rows cnpj email found db))

  unfoldable pub check_registry :
      (cnpj email : Str) → Result RegistryRecord → Db → Registration CompanyRegistrationResponse
  check_registry cnpj email (err e) db = refusal e db
  check_registry cnpj email (ok found) db =
      if is_blocked_cnae env.is_digit found.primary_cnae env.blocked_cnae_prefixes
      then refusal (Error.company CompanyError.segment_blocked) db
      else store_company cnpj email found db

  unfoldable pub check_email :
      (cnpj : Str) → Option Str → Db → Registration CompanyRegistrationResponse
  check_email cnpj none db = refusal (Error.company CompanyError.personal_email_domain) db
  check_email cnpj (some email) db = check_registry cnpj email (env.get_record cnpj) db

  unfoldable pub check_cnpj : Option Str → Db → Registration CompanyRegistrationResponse
  check_cnpj none db = refusal (Error.company CompanyError.invalid_cnpj) db
  check_cnpj (some cnpj) db =
      check_email cnpj
        (parse_corporate_email env.lower request.corporate_email env.personal_email_domains) db

  unfoldable pub register_company : Db → Registration CompanyRegistrationResponse
  register_company db = check_cnpj (parse_cnpj request.cnpj) db
