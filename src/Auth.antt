-- ===== src/Auth.antt =====
-- app/auth: services/current_user.py and the guards of dependencies.py. Verifying an access token is
-- the identity provider's work: the model starts from the token's subject.
pub mod Guards
use mathlib.Core.Option as OptionM
use seniors_empregabilidade.Prelude.{
  Bool, Option, Str, false, first_where, none, not, some, str_eq, true, ℕ, ◌==◌, ◌||◌, ◌≡◌,
}
use seniors_empregabilidade.Database.Enums.{
  CompanyStatus, UserType, is_active_account, is_administrator, is_approved_company, is_candidate,
  is_company,
}
use seniors_empregabilidade.Database.Errors.{AuthError, Error}
use seniors_empregabilidade.Database.Session.{
  Action, err, gets, ok, or_raise, pure, raise_if, ◌>>=◌, ◌>>◌,
}
use seniors_empregabilidade.Database.Tables.{AppUser, Company, Db}

pub record CurrentUser : Type 0 where
  pub id : ℕ
  pub user_type : UserType
  pub company_status : Option CompanyStatus

abbrev pub user_by_subject : (identity_subject : Str) → Db → Option AppUser
user_by_subject identity_subject db =
    first_where (λ u. elim u.identity_subject [ none ↦ false | some s ↦ str_eq s identity_subject ])
      db.users

-- `session.get(Company, user.id)`
abbrev pub company_of : (user_id : ℕ) → Db → Option Company
company_of user_id db = first_where (λ c. c.id == user_id) db.companies

abbrev pub current_user_of : AppUser → Db → CurrentUser
current_user_of user db = record {
  id = user.id;
  user_type = user.user_type;
  company_status = OptionM.map (λ c. c.status) (company_of user.id db);
}

unfoldable pub find_current_user : (identity_subject : Str) → Action CurrentUser
find_current_user identity_subject = do
  found ← gets (user_by_subject identity_subject)
  user ← or_raise found (Error.auth AuthError.invalid_access_token)
  raise_if (not (is_active_account user.account_status)) (Error.auth AuthError.account_unavailable)
  gets (current_user_of user)

unfoldable pub require_candidate : CurrentUser → Action CurrentUser
require_candidate user = do
  raise_if (not (is_candidate user.user_type)) (Error.auth AuthError.candidate_required)
  pure user

unfoldable pub require_administrator : CurrentUser → Action CurrentUser
require_administrator user = do
  raise_if (not (is_administrator user.user_type)) (Error.auth AuthError.administrator_required)
  pure user

-- `user.company_status != CompanyStatus.APPROVED`
abbrev pub is_not_approved : Option CompanyStatus → Bool
is_not_approved none = true
is_not_approved (some s) = not (is_approved_company s)

unfoldable pub require_approved_company : CurrentUser → Action CurrentUser
require_approved_company user = do
  raise_if (not (is_company user.user_type) || is_not_approved user.company_status)
      (Error.auth AuthError.approved_company_required)
  pure user

-- The three roles of the guarded routes.
pub data Role : Type 0 where
  candidate administrator approved_company : Role

abbrev pub require : Role → CurrentUser → Action CurrentUser
require Role.candidate = require_candidate
require Role.administrator = require_administrator
require Role.approved_company = require_approved_company

-- A guarded route's user, from the subject of the access token.
abbrev pub authorized : Role → (identity_subject : Str) → Action CurrentUser
authorized role identity_subject = find_current_user identity_subject >>= require role

-- What each role asks of an account and its company.
abbrev pub HasRole : Role → AppUser → Option Company → Type 0
HasRole Role.candidate user company = is_candidate user.user_type ≡ true
HasRole Role.administrator user company = is_administrator user.user_type ≡ true
HasRole Role.approved_company user company =
    (is_company user.user_type ≡ true)
    × ((c : Company) × (company ≡ some c) × (is_approved_company c.status ≡ true))

-- What a guard lets through.
pub record IsAuthorized (role : Role) (identity_subject : Str) (db : Db) (u : CurrentUser)
    : Type 0 where
  pub user : AppUser
  pub found : user_by_subject identity_subject db ≡ some user
  pub active : is_active_account user.account_status ≡ true
  pub role_held : HasRole role user (company_of user.id db)
  pub is_user : u ≡ current_user_of user db

pub found_active :
    (identity_subject : Str) (db : Db) (user : AppUser)
    → user_by_subject identity_subject db ≡ some user
    → is_active_account user.account_status ≡ true
    → find_current_user identity_subject db ≡ (ok (current_user_of user db), db)
unfolding find_current_user
found_active identity_subject db user e a = rw (e, a)

pub found_inactive :
    (identity_subject : Str) (db : Db) (user : AppUser)
    → user_by_subject identity_subject db ≡ some user
    → is_active_account user.account_status ≡ false
    → find_current_user identity_subject db ≡ (err (Error.auth AuthError.account_unavailable), db)
unfolding find_current_user
found_inactive identity_subject db user e a = rw (e, a)

pub found_nobody :
    (identity_subject : Str) (db : Db)
    → user_by_subject identity_subject db ≡ none
    → find_current_user identity_subject db ≡ (err (Error.auth AuthError.invalid_access_token), db)
unfolding find_current_user
found_nobody identity_subject db e = rw e
