-- ===== src/Registration/Rows.antt =====
-- The rows that a registration inserts, with the constraints of app/db/models that an insertion can
-- violate. The database draws fresh identifiers. The two CHECK constraints that PostgreSQL computes
-- with functions of its own are parameters.
pub mod Laws
use seniors_empregabilidade.Prelude.{
  Bool, Option, Str, all_where, exists_where, false, none, not, some, str_eq, update_where, ℕ, ◌==◌,
  ◌∷◌,
}
use seniors_empregabilidade.Database.Enums.{AccountStatus, UserType}
use seniors_empregabilidade.Database.Errors.{Constraint, Error}
use seniors_empregabilidade.Database.Session.{Action, Server, gets, modify, raise_if, ◌>>=◌, ◌>>◌}
use seniors_empregabilidade.Database.Tables.{AppUser, Candidate, Company}

pub record Checks : Type 0 where
  -- `birth_date <= CURRENT_DATE - INTERVAL '45 years'`
  pub minimum_age : (birth_date : ℕ × ℕ × ℕ) → Bool
  -- `lower(split_part(corporate_email, '@', 2)) NOT IN (...)`
  pub corporate_email : (address : Str) → Bool

abbrev pub has_email : Str → AppUser → Bool
has_email email u = str_eq u.email email

abbrev pub has_cpf : Str → Candidate → Bool
has_cpf cpf c = str_eq c.cpf cpf

abbrev pub has_cnpj : Str → Company → Bool
has_cnpj cnpj c = str_eq c.cnpj cnpj

abbrev pub has_corporate_email : Str → Company → Bool
has_corporate_email email c = str_eq c.corporate_email email

abbrev pub is_subject : Str → Option Str → Bool
is_subject subject none = false
is_subject subject (some s) = str_eq s subject

abbrev pub has_subject : Str → AppUser → Bool
has_subject subject u = is_subject subject u.identity_subject

-- `AppUser(email=email, identity_subject=None, user_type=user_type)` once it is flushed.
abbrev pub new_user : Server → (id : ℕ) → (email : Str) → UserType → AppUser
new_user server id email user_type = record {
  id = id;
  email = email;
  identity_subject = none;
  user_type = user_type;
  account_status = AccountStatus.active;
  created_at = server.now;
  updated_at = server.now;
}

unfoldable pub insert_user : AppUser → Action (Unit {0})
insert_user u = do
  taken ← gets (λ db. exists_where (has_email u.email) db.users)
  raise_if taken (Error.integrity Constraint.uq_app_user_email)
  modify (λ db. record db { users = u ∷ db.users })

unfoldable pub insert_candidate_row : Checks → Candidate → Action (Unit {0})
insert_candidate_row checks c = do
  raise_if (not (checks.minimum_age c.birth_date))
      (Error.integrity Constraint.ck_candidate_minimum_age)
  taken ← gets (λ db. exists_where (has_cpf c.cpf) db.candidates)
  raise_if taken (Error.integrity Constraint.uq_candidate_cpf)
  modify (λ db. record db { candidates = c ∷ db.candidates })

unfoldable pub insert_company : Checks → Company → Action (Unit {0})
insert_company checks c = do
  raise_if (not (checks.corporate_email c.corporate_email))
      (Error.integrity Constraint.ck_company_corporate_email)
  taken ← gets (λ db. exists_where (has_cnpj c.cnpj) db.companies)
  raise_if taken (Error.integrity Constraint.uq_company_cnpj)
  used ← gets (λ db. exists_where (has_corporate_email c.corporate_email) db.companies)
  raise_if used (Error.integrity Constraint.uq_company_corporate_email)
  modify (λ db. record db { companies = c ∷ db.companies })

-- `length(trim(identity_subject)) > 0` does not hold: PostgreSQL trims spaces.
abbrev pub is_blank_subject : Str → Bool
is_blank_subject subject = all_where (λ c. c == 32) subject

abbrev pub linked : Str → AppUser → AppUser
linked subject u = record u { identity_subject = some subject }

-- `user.identity_subject = subject` and the flush.
unfoldable pub link_identity : (user_id : ℕ) (subject : Str) → Action (Unit {0})
link_identity user_id subject = do
  raise_if (is_blank_subject subject)
      (Error.integrity Constraint.ck_app_user_identity_subject_not_blank)
  taken ← gets (λ db. exists_where (has_subject subject) db.users)
  raise_if taken (Error.integrity Constraint.uq_app_user_identity_subject)
  modify (λ db. record db { users = update_where (λ u. u.id == user_id) (linked subject) db.users })
