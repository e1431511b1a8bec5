-- ===== src/Registration/Professional.antt =====
-- app/candidates/services/register_professional.py
pub mod Spec
pub mod Outcome
use seniors_empregabilidade.Prelude.{
  Bool, Option, Str, if◌then◌else◌, is_some, none, not, some, true, ℕ,
}
use seniors_empregabilidade.Database.AccountErrors.{CandidateError, IdentityError}
use seniors_empregabilidade.Database.Enums.{AvailabilityStatus, UserType}
use seniors_empregabilidade.Database.Errors.{Constraint, Error}
use seniors_empregabilidade.Database.Session.{Action, Server, ◌>>=◌, ◌>>◌}
use seniors_empregabilidade.Database.Tables.{Candidate, Db}
use seniors_empregabilidade.Candidates.Age.{Date, meets_minimum_age}
use seniors_empregabilidade.Candidates.Cpf.{parse_cpf}
use seniors_empregabilidade.Registration.Attempt.{
  Register, RegisteredIdentity, Registration, refusal, settle_attempt, with_rows,
}
use seniors_empregabilidade.Registration.Rows.{
  Checks, insert_candidate_row, insert_user, link_identity, new_user,
}

-- app/candidates/schemas/registration.py
pub record ProfessionalRegistrationRequest : Type 0 where
  pub full_name : Str
  pub cpf : Str
  pub birth_date : ℕ × ℕ × ℕ
  pub phone : Str
  pub email : Str
  pub password : Str
  pub terms_version_accepted : Option Str
  pub city : Option Str
  pub state : Option Str

pub record RegisteredProfessional : Type 0 where
  pub id : ℕ
  pub full_name : Str
  pub email : Str
  pub email_verification_required : Bool

abbrev pub date_of : ℕ × ℕ × ℕ → Date
date_of (y, m, d) = record { year = y; month = m; day = d }

-- `_translate_integrity_error`: any other violation is raised as it is.
abbrev pub translate_integrity_error : Constraint → Error
translate_integrity_error Constraint.uq_candidate_cpf =
    Error.candidate CandidateError.cpf_already_registered
translate_integrity_error Constraint.uq_app_user_email =
    Error.candidate CandidateError.email_already_registered
translate_integrity_error Constraint.ck_candidate_minimum_age =
    Error.candidate CandidateError.minimum_age_not_met
translate_integrity_error c = Error.integrity c

-- The `except` clauses. Only the provider raises `IdentityConflictError`, before there is an
-- identity, so its clause has nothing to log.
abbrev pub translate_registration_error : Error → Error
translate_registration_error (Error.integrity c) = translate_integrity_error c
translate_registration_error (Error.identity IdentityError.identity_conflict) =
    Error.candidate CandidateError.email_already_registered
translate_registration_error e = e

-- `Candidate(...)` once it is flushed, with the defaults of its columns.
abbrev pub new_candidate :
    (id : ℕ) → ProfessionalRegistrationRequest → (cpf : Str) (accepted_at : ℕ) → Candidate
new_candidate id request cpf accepted_at = record {
  id = id;
  full_name = request.full_name;
  cpf = cpf;
  birth_date = request.birth_date;
  phone = request.phone;
  city = request.city;
  state = request.state;
  availability = AvailabilityStatus.available;
  accepts_automatic_application = true;
  terms_version_accepted = request.terms_version_accepted;
  terms_accepted_at = some accepted_at;
}

-- `str.casefold` reads the Unicode tables and is a parameter, as is the identity provider.
module _ (casefold : Str → Str) (register : Register) (checks : Checks) (server : Server)
    (request : ProfessionalRegistrationRequest) where
  unfoldable pub professional_rows : (cpf : Str) (accepted_at : ℕ) → Action (Unit {0})
  professional_rows cpf accepted_at = do
    insert_user (new_user server (server.uuid 0) (casefold request.email) UserType.candidate)
    insert_candidate_row checks (new_candidate (server.uuid 0) request cpf accepted_at)

  abbrev pub link_professional : RegisteredIdentity → Action (Unit {0})
  link_professional identity = link_identity (server.uuid 0) identity.identity_subject

  abbrev pub professional_of : RegisteredIdentity → RegisteredProfessional
  professional_of identity = record {
    id = server.uuid 0;
    full_name = request.full_name;
    email = casefold request.email;
    email_verification_required = not identity.confirmed;
  }

  unfoldable pub store_professional :
      (cpf : Str) (accepted_at : ℕ) → Db → Registration RegisteredProfessional
  store_professional cpf accepted_at db =
      settle_attempt translate_registration_error professional_of db (
        with_rows (register (casefold request.email) request.password) link_professional
          (professional_rows cpf accepted_at db))

  unfoldable pub register_valid :
      (today : Date) (accepted_at : ℕ) → Option Str → Db → Registration RegisteredProfessional
  register_valid today accepted_at none db = refusal (Error.candidate CandidateError.invalid_cpf) db
  register_valid today accepted_at (some cpf) db =
      if not (meets_minimum_age (date_of request.birth_date) today)
      then refusal (Error.candidate CandidateError.minimum_age_not_met) db
      else if is_some request.terms_version_accepted
      then store_professional cpf accepted_at db
      else refusal (Error.candidate CandidateError.terms_acceptance_required) db

  unfoldable pub register_professional :
      (today : Date) (accepted_at : ℕ) → Db → Registration RegisteredProfessional
  register_professional today accepted_at db =
      register_valid today accepted_at (parse_cpf request.cpf) db
