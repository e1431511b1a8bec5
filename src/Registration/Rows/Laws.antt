-- ===== src/Registration/Rows/Laws.antt =====
-- What each insertion and the link of an identity leave, case by case.
use seniors_empregabilidade.Prelude.{
  Bool, Str, exists_where, false, true, update_where, ℕ, ◌==◌, ◌∷◌, ◌≡◌,
}
use seniors_empregabilidade.Database.Errors.{Constraint, Error}
use seniors_empregabilidade.Database.Session.{err, ok}
use seniors_empregabilidade.Database.Tables.{AppUser, Company, Db}
use seniors_empregabilidade.Registration.Rows.{
  Checks, has_cnpj, has_corporate_email, has_email, has_subject, insert_company, insert_user,
  is_blank_subject, link_identity, linked,
}

module _ (u : AppUser) (db : Db) where
  pub insert_user_taken :
      exists_where (has_email u.email) db.users ≡ true
      → insert_user u db ≡ (err (Error.integrity Constraint.uq_app_user_email), db)
  unfolding insert_user
  insert_user_taken h = rw h

  pub insert_user_ok :
      exists_where (has_email u.email) db.users ≡ false
      → insert_user u db ≡ (ok tt, record db { users = u ∷ db.users })
  unfolding insert_user
  insert_user_ok h = rw h

module _ (user_id : ℕ) (subject : Str) (db : Db) where
  pub link_identity_blank :
      is_blank_subject subject ≡ true
      → link_identity user_id subject db
        ≡ (err (Error.integrity Constraint.ck_app_user_identity_subject_not_blank), db)
  unfolding link_identity
  link_identity_blank h = rw h

  pub link_identity_taken :
      is_blank_subject subject ≡ false
      → exists_where (has_subject subject) db.users ≡ true
      → link_identity user_id subject db
        ≡ (err (Error.integrity Constraint.uq_app_user_identity_subject), db)
  unfolding link_identity
  link_identity_taken h k = rw (h, k)

  pub link_identity_ok :
      is_blank_subject subject ≡ false
      → exists_where (has_subject subject) db.users ≡ false
      → link_identity user_id subject db ≡ (
        ok tt,
        record db { users = update_where (λ u. u.id == user_id) (linked subject) db.users },
      )
  unfolding link_identity
  link_identity_ok h k = rw (h, k)

module _ (checks : Checks) (c : Company) (db : Db) where
  abbrev pub cnpj_taken : Bool
  cnpj_taken = exists_where (has_cnpj c.cnpj) db.companies

  abbrev pub corporate_email_taken : Bool
  corporate_email_taken = exists_where (has_corporate_email c.corporate_email) db.companies

  pub insert_company_personal :
      checks.corporate_email c.corporate_email ≡ false
      → insert_company checks c db
        ≡ (err (Error.integrity Constraint.ck_company_corporate_email), db)
  unfolding insert_company
  insert_company_personal h = rw h

  pub insert_company_cnpj :
      checks.corporate_email c.corporate_email ≡ true
      → cnpj_taken ≡ true
      → insert_company checks c db ≡ (err (Error.integrity Constraint.uq_company_cnpj), db)
  unfolding insert_company
  insert_company_cnpj h k = rw (h, k)

  pub insert_company_email :
      checks.corporate_email c.corporate_email ≡ true
      → cnpj_taken ≡ false
      → corporate_email_taken ≡ true
      → insert_company checks c db
        ≡ (err (Error.integrity Constraint.uq_company_corporate_email), db)
  unfolding insert_company
  insert_company_email h k l = rw (h, k, l)

  pub insert_company_ok :
      checks.corporate_email c.corporate_email ≡ true
      → cnpj_taken ≡ false
      → corporate_email_taken ≡ false
      → insert_company checks c db ≡ (ok tt, record db { companies = c ∷ db.companies })
  unfolding insert_company
  insert_company_ok h k l = rw (h, k, l)
