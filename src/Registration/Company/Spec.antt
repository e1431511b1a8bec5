-- ===== src/Registration/Company/Spec.antt =====
-- How a company's registration ends, on every branch.
use seniors_empregabilidade.Prelude.{
  Bool, Option, Str, exists_where, false, none, some, true, ℕ, ◌||◌, ◌∷◌, ◌≡◌,
}
use seniors_empregabilidade.Database.AccountErrors.{IdentityError}
use seniors_empregabilidade.Database.Enums.{UserType}
use seniors_empregabilidade.Database.Errors.{CompanyError, Constraint, Error}
use seniors_empregabilidade.Database.Session.{Result, Server, err, ok}
use seniors_empregabilidade.Database.Tables.{AppUser, Company, Db}
use seniors_empregabilidade.Companies.Cnpj.{parse_cnpj}
use seniors_empregabilidade.Companies.CorporateEmail.{parse_corporate_email}
use seniors_empregabilidade.Companies.Policies.{is_blocked_cnae}
use seniors_empregabilidade.Registration.Attempt.{RegisteredIdentity, Registration, refusal}
use seniors_empregabilidade.Registration.Company.{
  CompanyRegistrationRequest, CompanyRegistrationResponse, Environment, RegistryRecord,
  company_response, company_rows, confirmed, new_address, registered_company,
  translate_company_error,
}
use seniors_empregabilidade.Registration.Rows.{
  has_cnpj, has_corporate_email, has_email, has_subject, insert_company, is_blank_subject, linked,
  new_user,
}
use seniors_empregabilidade.Registration.Rows.Laws.{insert_user_ok, insert_user_taken}

module _ (env : Environment) (server : Server) (request : CompanyRegistrationRequest)
    (accepted_at : ℕ) (db : Db) where
  abbrev pub email_of : Option Str
  email_of = parse_corporate_email env.lower request.corporate_email env.personal_email_domains

  abbrev pub identity_for : Str → Result RegisteredIdentity
  identity_for email = env.register email request.password

  abbrev pub is_blocked : RegistryRecord → Bool
  is_blocked found = is_blocked_cnae env.is_digit found.primary_cnae env.blocked_cnae_prefixes

  -- The request passes the checks that come before the database.
  pub record IsValidCompany (cnpj email : Str) (found : RegistryRecord) : Type 0 where
    pub cnpj_valid : parse_cnpj request.cnpj ≡ some cnpj
    pub email_valid : email_of ≡ some email
    pub registry_knows : env.get_record cnpj ≡ ok found
    pub activity_allowed : is_blocked found ≡ false

  abbrev pub account_email_taken : Str → Bool
  account_email_taken email = exists_where (has_email email) db.users

  -- The new rows violate no constraint.
  pub record IsFreeCompany (cnpj email : Str) : Type 0 where
    pub account_free : account_email_taken email ≡ false
    pub email_allowed : env.checks.corporate_email email ≡ true
    pub cnpj_free : exists_where (has_cnpj cnpj) db.companies ≡ false
    pub email_free : exists_where (has_corporate_email email) db.companies ≡ false

  -- Why a registration is refused before the provider has an identity.
  pub data CompanyReason : Error → Type 0 where
    bad_cnpj :
        parse_cnpj request.cnpj ≡ none → CompanyReason (Error.company CompanyError.invalid_cnpj)
    bad_email : email_of ≡ none → CompanyReason (Error.company CompanyError.personal_email_domain)
    not_in_registry :
        (cnpj : Str) (e : Error)
        → parse_cnpj request.cnpj ≡ some cnpj
        → env.get_record cnpj ≡ err e
        → CompanyReason e
    blocked_activity :
        (cnpj : Str) (found : RegistryRecord)
        → env.get_record cnpj ≡ ok found
        → is_blocked found ≡ true
        → CompanyReason (Error.company CompanyError.segment_blocked)
    cnpj_in_use :
        (cnpj : Str)
        → parse_cnpj request.cnpj ≡ some cnpj
        → exists_where (has_cnpj cnpj) db.companies ≡ true
        → CompanyReason (Error.company CompanyError.cnpj_conflict)
    email_in_use :
        (email : Str)
        → email_of ≡ some email
        → account_email_taken email || exists_where (has_corporate_email email) db.companies ≡ true
        → CompanyReason (Error.company CompanyError.email_conflict)
    email_violated :
        (email : Str)
        → email_of ≡ some email
        → env.checks.corporate_email email ≡ false
        → CompanyReason (Error.integrity Constraint.ck_company_corporate_email)
    provider_refused :
        (email : Str) (e : Error)
        → email_of ≡ some email
        → identity_for email ≡ err e
        → CompanyReason (translate_company_error e)

  -- Why the identity that the provider has registered cannot be linked.
  pub data CompanyLinkReason (subject : Str) : Error → Type 0 where
    blank_subject :
        is_blank_subject subject ≡ true
        → CompanyLinkReason subject
            (Error.integrity Constraint.ck_app_user_identity_subject_not_blank)
    subject_taken :
        exists_where (has_subject subject) db.users ≡ true
        → CompanyLinkReason subject (Error.identity IdentityError.identity_conflict)

  abbrev pub account : Str → AppUser
  account email = new_user server (server.uuid 1) email UserType.company

  abbrev pub company : (cnpj email : Str) → RegistryRecord → Company
  company cnpj email found = registered_company env server request accepted_at cnpj email found

  -- The tables after a registration: an address, a linked account and its pending company.
  abbrev pub after_company : (cnpj email : Str) → RegistryRecord → RegisteredIdentity → Db
  after_company cnpj email found identity = record db {
    addresses = new_address (server.uuid 0) request.address ∷ db.addresses;
    users = linked identity.identity_subject (account email) ∷ db.users;
    companies = confirmed identity.confirmed (company cnpj email found) ∷ db.companies;
  }

  pub data CompanyOutcome (r : Registration CompanyRegistrationResponse) : Type 0 where
    registered :
        (cnpj email : Str) (found : RegistryRecord) (identity : RegisteredIdentity)
        → IsValidCompany cnpj email found
        → IsFreeCompany cnpj email
        → identity_for email ≡ ok identity
        → exists_where (has_subject identity.identity_subject) db.users ≡ false
        → r ≡ record {
          answer = ok (company_response env server request accepted_at email identity);
          warned = false;
          tables = after_company cnpj email found identity;
        }
        → CompanyOutcome r
    refused : (e : Error) → CompanyReason e → r ≡ refusal e db → CompanyOutcome r
    left_unlinked :
        (e : Error) (email : Str) (identity : RegisteredIdentity)
        → identity_for email ≡ ok identity
        → CompanyLinkReason identity.identity_subject e
        → r ≡ record { answer = err e; warned = true; tables = db }
        → CompanyOutcome r

  module _ (cnpj email : Str) (found : RegistryRecord) where
    abbrev pub company_added : Result (Unit {0}) × Db
    company_added = company_rows env server request accepted_at cnpj email found db

    abbrev pub with_address : Db
    with_address = record db {
      addresses = new_address (server.uuid 0) request.address ∷ db.addresses;
    }

    abbrev pub with_account : Db
    with_account = record with_address { users = account email ∷ db.users }

    pub rows_account :
        account_email_taken email ≡ true
        → company_added ≡ (err (Error.integrity Constraint.uq_app_user_email), with_address)
    unfolding company_rows
    rows_account h = rw (insert_user_taken (account email) with_address h)

    -- The account is free: what the company's insertion leaves.
    pub rows_company :
        (r : Result (Unit {0}) × Db)
        → account_email_taken email ≡ false
        → insert_company env.checks (company cnpj email found) with_account ≡ r
        → company_added ≡ r
    unfolding company_rows
    rows_company r h e = rw (insert_user_ok (account email) with_address h, e)
