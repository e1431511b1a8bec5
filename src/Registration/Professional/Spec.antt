-- ===== src/Registration/Professional/Spec.antt =====
-- How a professional's registration ends, on every branch.
use seniors_empregabilidade.Prelude.{
  Bool, Str, exists_where, false, is_some, none, some, true, ℕ, ◌∷◌, ◌≡◌,
}
use seniors_empregabilidade.Database.AccountErrors.{CandidateError}
use seniors_empregabilidade.Database.Enums.{UserType}
use seniors_empregabilidade.Database.Errors.{Constraint, Error}
use seniors_empregabilidade.Database.Session.{Result, Server, err, ok}
use seniors_empregabilidade.Database.Tables.{AppUser, Candidate, Db}
use seniors_empregabilidade.Candidates.Age.{Date, meets_minimum_age}
use seniors_empregabilidade.Candidates.Cpf.{parse_cpf}
use seniors_empregabilidade.Registration.Attempt.{
  Register, RegisteredIdentity, Registration, refusal,
}
use seniors_empregabilidade.Registration.Professional.{
  ProfessionalRegistrationRequest, RegisteredProfessional, date_of, new_candidate, professional_of,
  professional_rows, translate_registration_error,
}
use seniors_empregabilidade.Registration.Rows.{
  Checks, has_cpf, has_email, has_subject, insert_candidate_row, is_blank_subject, linked, new_user,
}
use seniors_empregabilidade.Registration.Rows.Laws.{insert_user_ok, insert_user_taken}

module _ (casefold : Str → Str) (register : Register) (checks : Checks) (server : Server)
    (request : ProfessionalRegistrationRequest) (today : Date) (accepted_at : ℕ) (db : Db) where
  abbrev pub email : Str
  email = casefold request.email

  abbrev pub identity_result : Result RegisteredIdentity
  identity_result = register email request.password

  abbrev pub email_taken : Bool
  email_taken = exists_where (has_email email) db.users

  abbrev pub cpf_taken : Str → Bool
  cpf_taken cpf = exists_where (has_cpf cpf) db.candidates

  -- The request passes the checks that come before the database.
  pub record IsValidRequest (cpf : Str) : Type 0 where
    pub cpf_valid : parse_cpf request.cpf ≡ some cpf
    pub old_enough : meets_minimum_age (date_of request.birth_date) today ≡ true
    pub terms_accepted : is_some request.terms_version_accepted ≡ true

  -- The two new rows violate no constraint.
  pub record AreFree (cpf : Str) : Type 0 where
    pub email_free : email_taken ≡ false
    pub age_allowed : checks.minimum_age request.birth_date ≡ true
    pub cpf_free : cpf_taken cpf ≡ false

  -- Why a registration is refused before the provider has an identity.
  pub data Reason : Error → Type 0 where
    bad_cpf : parse_cpf request.cpf ≡ none → Reason (Error.candidate CandidateError.invalid_cpf)
    too_young :
        meets_minimum_age (date_of request.birth_date) today ≡ false
        → Reason (Error.candidate CandidateError.minimum_age_not_met)
    no_terms :
        request.terms_version_accepted ≡ none
        → Reason (Error.candidate CandidateError.terms_acceptance_required)
    email_in_use :
        email_taken ≡ true → Reason (Error.candidate CandidateError.email_already_registered)
    age_violated :
        checks.minimum_age request.birth_date ≡ false
        → Reason (Error.candidate CandidateError.minimum_age_not_met)
    cpf_in_use :
        (cpf : Str)
        → parse_cpf request.cpf ≡ some cpf
        → cpf_taken cpf ≡ true
        → Reason (Error.candidate CandidateError.cpf_already_registered)
    provider_refused :
        (e : Error) → identity_result ≡ err e → Reason (translate_registration_error e)

  -- Why the identity that the provider has registered cannot be linked.
  pub data LinkReason (subject : Str) : Error → Type 0 where
    blank :
        is_blank_subject subject ≡ true
        → LinkReason subject (Error.integrity Constraint.ck_app_user_identity_subject_not_blank)
    taken :
        exists_where (has_subject subject) db.users ≡ true
        → LinkReason subject (Error.integrity Constraint.uq_app_user_identity_subject)

  abbrev pub candidate : Str → Candidate
  candidate cpf = new_candidate (server.uuid 0) request cpf accepted_at

  abbrev pub user : AppUser
  user = new_user server (server.uuid 0) email UserType.candidate

  -- The tables after a registration: a linked account and its candidate.
  abbrev pub after_registration : (cpf subject : Str) → Db
  after_registration cpf subject = record db {
    users = linked subject user ∷ db.users;
    candidates = candidate cpf ∷ db.candidates;
  }

  pub data ProfessionalOutcome (r : Registration RegisteredProfessional) : Type 0 where
    registered :
        (cpf : Str) (identity : RegisteredIdentity)
        → IsValidRequest cpf
        → AreFree cpf
        → identity_result ≡ ok identity
        → exists_where (has_subject identity.identity_subject) db.users ≡ false
        → r ≡ record {
          answer = ok (professional_of casefold register checks server request identity);
          warned = false;
          tables = after_registration cpf identity.identity_subject;
        }
        → ProfessionalOutcome r
    refused : (e : Error) → Reason e → r ≡ refusal e db → ProfessionalOutcome r
    left_unlinked :
        (e : Error) (identity : RegisteredIdentity)
        → identity_result ≡ ok identity
        → LinkReason identity.identity_subject e
        → r ≡ record { answer = err e; warned = true; tables = db }
        → ProfessionalOutcome r

  abbrev pub professional_added : Str → Result (Unit {0}) × Db
  professional_added cpf =
      professional_rows casefold register checks server request cpf accepted_at db

  abbrev pub with_user : Db
  with_user = record db { users = user ∷ db.users }

  pub rows_email :
      (cpf : Str)
      → email_taken ≡ true
      → professional_added cpf ≡ (err (Error.integrity Constraint.uq_app_user_email), db)
  unfolding professional_rows
  rows_email cpf h = rw (insert_user_taken user db h)

  pub rows_age :
      (cpf : Str)
      → email_taken ≡ false
      → checks.minimum_age request.birth_date ≡ false
      → professional_added cpf
        ≡ (err (Error.integrity Constraint.ck_candidate_minimum_age), with_user)
  unfolding professional_rows insert_candidate_row
  rows_age cpf h k = rw (insert_user_ok user db h, k)

  pub rows_cpf :
      (cpf : Str)
      → email_taken ≡ false
      → checks.minimum_age request.birth_date ≡ true
      → cpf_taken cpf ≡ true
      → professional_added cpf ≡ (err (Error.integrity Constraint.uq_candidate_cpf), with_user)
  unfolding professional_rows insert_candidate_row
  rows_cpf cpf h k l = rw (insert_user_ok user db h, k, l)

  pub rows_ok :
      (cpf : Str)
      → AreFree cpf
      → professional_added cpf
        ≡ (ok tt, record with_user { candidates = candidate cpf ∷ db.candidates })
  unfolding professional_rows insert_candidate_row
  rows_ok cpf f = rw (insert_user_ok user db f.email_free, f.age_allowed, f.cpf_free)
