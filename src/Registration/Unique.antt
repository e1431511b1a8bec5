-- ===== src/Registration/Unique.antt =====
-- What every sequence of registrations keeps, whatever the requests, the provider and the registry
-- answer.
use mathlib.Core.Option.{some_inj}
use seniors_empregabilidade.Prelude.{
  All, All-map_implies, IsDistinct, IsIn, IsKeyed, List, Str, [], ap, exists_where,
  exists_where-false, false, false≢true, inl, inr, is_other, refl, some, str_eq, str_eq_refl, sym,
  true, ℕ, ◌∙◌, ◌∷◌, ◌≡◌, ◌≢◌,
}
use seniors_empregabilidade.Database.Enums.{UserType}
use seniors_empregabilidade.Database.Session.{Server}
use seniors_empregabilidade.Database.Tables.{AppUser, Candidate, Company, Db}
use seniors_empregabilidade.Candidates.Age.{Date}
use seniors_empregabilidade.Candidates.Cpf.{is_valid_cpf}
use seniors_empregabilidade.Candidates.Cpf.Laws.{parse_cpf-is_valid_cpf}
use seniors_empregabilidade.Companies.Cnpj.{is_valid_cnpj}
use seniors_empregabilidade.Companies.Cnpj.Laws.{parse_cnpj-is_valid_cnpj}
use seniors_empregabilidade.Notifications.Dispatch.{before}
use seniors_empregabilidade.Registration.Attempt.{Register}
use seniors_empregabilidade.Registration.Company.{
  CompanyRegistrationRequest, Environment, register_company,
}
use seniors_empregabilidade.Registration.Company.Outcome.{register_company-CompanyOutcome}
use seniors_empregabilidade.Registration.Company.Spec.{CompanyOutcome, account}
use seniors_empregabilidade.Registration.Professional.{
  ProfessionalRegistrationRequest, register_professional,
}
use seniors_empregabilidade.Registration.Professional.Outcome.{
  register_professional-ProfessionalOutcome,
}
use seniors_empregabilidade.Registration.Professional.Spec.{ProfessionalOutcome, user}
use seniors_empregabilidade.Registration.Rows.{Checks, has_subject, is_subject, linked}

-- No identity is linked to two accounts.
abbrev pub HasOtherSubject : AppUser → AppUser → Type 0
HasOtherSubject x y = (s : Str) → x.identity_subject ≡ some s → y.identity_subject ≢ some s

abbrev pub IsLinkedOnce : List AppUser → Type 0
IsLinkedOnce [] = Unit
IsLinkedOnce (x ∷ xs) = All (HasOtherSubject x) xs × IsLinkedOnce xs

-- The account of a candidate or company: same identifier, and of that type.
abbrev pub HasAccount : UserType → (id : ℕ) → List AppUser → Type 0
HasAccount type id users = (u : AppUser) × (IsIn u users × ((u.id ≡ id) × (u.user_type ≡ type)))

pub record AreConsistent (db : Db) : Type 0 where
  pub ids : IsKeyed (λ (u : AppUser). u.id) db.users
  pub emails : IsDistinct (λ (u : AppUser). u.email) db.users
  pub subjects : IsLinkedOnce db.users
  pub cpfs : IsDistinct (λ (c : Candidate). c.cpf) db.candidates
  pub valid_cpfs : All (λ (c : Candidate). is_valid_cpf c.cpf ≡ true) db.candidates
  pub candidate_accounts :
      All (λ (c : Candidate). HasAccount UserType.candidate c.id db.users) db.candidates
  pub cnpjs : IsDistinct (λ (c : Company). c.cnpj) db.companies
  pub valid_cnpjs : All (λ (c : Company). is_valid_cnpj c.cnpj ≡ true) db.companies
  pub corporate_emails : IsDistinct (λ (c : Company). c.corporate_email) db.companies
  pub company_accounts :
      All (λ (c : Company). HasAccount UserType.company c.id db.users) db.companies

-- One registration, with identifiers that no row has yet.
pub data Registers (db : Db) : Db → Type 0 where
  of_professional :
      (casefold : Str → Str) (register : Register) (checks : Checks) (server : Server)
      (request : ProfessionalRegistrationRequest) (today : Date) (accepted_at : ℕ)
      → All (λ u. u.id ≢ server.uuid 0) db.users
      → Registers db
          (register_professional casefold register checks server request today accepted_at
            db).tables
  of_company :
      (env : Environment) (server : Server) (request : CompanyRegistrationRequest) (accepted_at : ℕ)
      → All (λ u. u.id ≢ server.uuid 1) db.users
      → All (λ c. c.id ≢ server.uuid 1) db.companies
      → Registers db (register_company env server request accepted_at db).tables

-- Any number of registrations, one after the other.
pub data RegistersAll (db : Db) : Db → Type 0 where
  here : RegistersAll db db
  step :
      {middle after : Db} → RegistersAll db middle → Registers middle after → RegistersAll db after

other_subject :
    (subject : Str) (u : AppUser) (xs : List AppUser)
    → exists_where (has_subject subject) xs ≡ false
    → All (HasOtherSubject (linked subject u)) xs
other_subject subject u xs h =
    All-map_implies _ (HasOtherSubject (linked subject u)) xs
      (λ y n s e f. false≢true (
        sym n
        ∙ ap (is_subject subject) f
        ∙ ap (λ t. str_eq t subject) (some_inj.0 (sym e))
        ∙ str_eq_refl subject))
      (exists_where-false (has_subject subject) xs h)

more_accounts :
    (type : UserType) (u : AppUser) {A : Type 0} (id : A → ℕ) (users : List AppUser) (xs : List A)
    → All (λ c. HasAccount type (id c) users) xs
    → All (λ c. HasAccount type (id c) (u ∷ users)) xs
more_accounts type u id users xs all =
    All-map_implies _ (λ c. HasAccount type (id c) (u ∷ users)) xs
      (λ c (v, (m, e)). (v, (inr m, e))) all

professional_keeps :
    (casefold : Str → Str) (register : Register) (checks : Checks) (server : Server)
    (request : ProfessionalRegistrationRequest) (today : Date) (accepted_at : ℕ) (db : Db)
    → All (λ u. u.id ≢ server.uuid 0) db.users
    → AreConsistent db
    → AreConsistent
        (register_professional casefold register checks server request today accepted_at db).tables
professional_keeps casefold register checks server request today accepted_at db fresh c =
    elim (register_professional-ProfessionalOutcome casefold register checks server request today
      accepted_at db fresh) [
        | ProfessionalOutcome.registered cpf identity v f known free e ↦ rw e (record {
          ids = (fresh, c.ids);
          emails = (is_other (λ (u : AppUser). u.email) _ db.users f.email_free, c.emails);
          subjects = (
            other_subject identity.identity_subject
                (user casefold register checks server request today accepted_at db) db.users free,
            c.subjects,
          );
          cpfs = (is_other (λ (c : Candidate). c.cpf) _ db.candidates f.cpf_free, c.cpfs);
          valid_cpfs = ((parse_cpf-is_valid_cpf request.cpf cpf v.cpf_valid).1, c.valid_cpfs);
          candidate_accounts = (
            (
              linked identity.identity_subject
                  (user casefold register checks server request today accepted_at db),
              (inl refl, (refl, refl)),
            ),
            more_accounts UserType.candidate _ (λ (c : Candidate). c.id) db.users db.candidates
                c.candidate_accounts,
          );
          cnpjs = c.cnpjs;
          valid_cnpjs = c.valid_cnpjs;
          corporate_emails = c.corporate_emails;
          company_accounts =
              more_accounts UserType.company _ (λ (c : Company). c.id) db.users db.companies
                c.company_accounts;
        })
        | ProfessionalOutcome.refused failure reason e ↦ rw e c
        | ProfessionalOutcome.left_unlinked failure identity known reason e ↦ rw e c
      ]

company_keeps :
    (env : Environment) (server : Server) (request : CompanyRegistrationRequest) (accepted_at : ℕ)
    (db : Db)
    → All (λ u. u.id ≢ server.uuid 1) db.users
    → All (λ c. c.id ≢ server.uuid 1) db.companies
    → AreConsistent db
    → AreConsistent (register_company env server request accepted_at db).tables
company_keeps env server request accepted_at db fresh fresh_company c =
    elim (register_company-CompanyOutcome env server request accepted_at db fresh fresh_company) [
      | CompanyOutcome.registered cnpj address found identity v f known free e ↦ rw e (record {
        ids = (fresh, c.ids);
        emails = (is_other (λ (u : AppUser). u.email) _ db.users f.account_free, c.emails);
        subjects = (
          other_subject identity.identity_subject
              (account env server request accepted_at db address) db.users free,
          c.subjects,
        );
        cpfs = c.cpfs;
        valid_cpfs = c.valid_cpfs;
        candidate_accounts =
            more_accounts UserType.candidate _ (λ (c : Candidate). c.id) db.users db.candidates
              c.candidate_accounts;
        cnpjs = (is_other (λ (c : Company). c.cnpj) _ db.companies f.cnpj_free, c.cnpjs);
        valid_cnpjs = ((parse_cnpj-is_valid_cnpj request.cnpj cnpj v.cnpj_valid).1, c.valid_cnpjs);
        corporate_emails = (
          is_other (λ (c : Company). c.corporate_email) _ db.companies f.email_free,
          c.corporate_emails,
        );
        company_accounts = (
          (
            linked identity.identity_subject (account env server request accepted_at db address),
            (inl refl, (refl, refl)),
          ),
          more_accounts UserType.company _ (λ (c : Company). c.id) db.users db.companies
              c.company_accounts,
        );
      })
      | CompanyOutcome.refused failure reason e ↦ rw e c
      | CompanyOutcome.left_unlinked failure address identity known reason e ↦ rw e c
    ]

Registers-AreConsistent : (db db' : Db) → Registers db db' → AreConsistent db → AreConsistent db'
Registers-AreConsistent db _
      (Registers.of_professional casefold register checks server request today accepted_at fresh)
      c =
    professional_keeps casefold register checks server request today accepted_at db fresh c
Registers-AreConsistent db _
      (Registers.of_company env server request accepted_at fresh fresh_company) c =
    company_keeps env server request accepted_at db fresh fresh_company c

-- Whatever is registered, one after the other, with fresh identifiers: no two accounts share an
-- identifier, an e-mail or an identity, no two candidates a CPF, no two companies a CNPJ or a
-- corporate e-mail, every stored CPF and CNPJ has valid check digits, and every candidate and every
-- company has an account of its type with its identifier, if it was so at the start.
pub RegistersAll-AreConsistent :
    (db db' : Db) → RegistersAll db db' → AreConsistent db → AreConsistent db'
RegistersAll-AreConsistent db _ here c = c
RegistersAll-AreConsistent db _ (step {middle} {after} before last) c =
    Registers-AreConsistent middle after last (RegistersAll-AreConsistent db middle before c)
