-- ===== src/Registration/Company/Outcome.antt =====
-- Every registration of a company ends as its specification says.
use seniors_empregabilidade.Prelude.{
  ==_refl, All, Bool-cases, Option-cases, Str, ap, exists_where, false, inl, inr, none, some, true,
  update_where, update_where_miss, ℕ, ◌==◌, ◌∙◌, ◌∷◌, ◌≡◌, ◌≢◌,
}
use seniors_empregabilidade.Database.Errors.{CompanyError, Constraint, Error}
use seniors_empregabilidade.Database.Session.{Result, Result-cases, Server, err, ok}
use seniors_empregabilidade.Database.Tables.{AppUser, Company, Db}
use seniors_empregabilidade.Companies.Cnpj.{parse_cnpj}
use seniors_empregabilidade.Registration.Attempt.{
  Attempt, RegisteredIdentity, Registration, linked_attempt, refusal, settle_attempt, with_rows,
}
use seniors_empregabilidade.Registration.Company.{
  CompanyRegistrationRequest, CompanyRegistrationResponse, Environment, RegistryRecord, check_cnpj,
  check_email, check_registry, company_response, confirmed, link_company, register_company,
  store_company, translate_company_error,
}
use seniors_empregabilidade.Registration.Company.Spec.{
  CompanyLinkReason, CompanyOutcome, CompanyReason, IsFreeCompany, IsValidCompany, account,
  account_email_taken, company, company_added, email_of, identity_for, is_blocked, rows_account,
  rows_company, with_account,
}
use seniors_empregabilidade.Registration.Rows.{
  has_cnpj, has_corporate_email, has_subject, insert_company, is_blank_subject, link_identity,
  linked,
}
use seniors_empregabilidade.Registration.Rows.Laws.{
  insert_company_cnpj, insert_company_email, insert_company_ok, insert_company_personal,
  link_identity_blank, link_identity_ok, link_identity_taken,
}

module _ (env : Environment) (server : Server) (request : CompanyRegistrationRequest)
    (accepted_at : ℕ) (db : Db) (fresh : All (λ u. u.id ≢ server.uuid 1) db.users)
    (fresh_company : All (λ c. c.id ≢ server.uuid 1) db.companies) where
  abbrev Ends : Registration CompanyRegistrationResponse → Type 0
  Ends = CompanyOutcome env server request accepted_at db

  abbrev run : Registration CompanyRegistrationResponse
  run = register_company env server request accepted_at db

  module _ (cnpj : Str) (parsed : parse_cnpj request.cnpj ≡ some cnpj) where
    bad_email_lem :
        email_of env server request accepted_at db ≡ none
        → run ≡ refusal (Error.company CompanyError.personal_email_domain) db
    unfolding register_company check_cnpj check_email
    bad_email_lem h = rw (parsed, h)

    module _ (email : Str) (valid : email_of env server request accepted_at db ≡ some email) where
      not_in_registry_lem : (e : Error) → env.get_record cnpj ≡ err e → run ≡ refusal e db
      unfolding register_company check_cnpj check_email check_registry
      not_in_registry_lem e h = rw (parsed, valid, h)

      blocked_lem :
          (found : RegistryRecord)
          → env.get_record cnpj ≡ ok found
          → is_blocked env server request accepted_at db found ≡ true
          → run ≡ refusal (Error.company CompanyError.segment_blocked) db
      unfolding register_company check_cnpj check_email check_registry
      blocked_lem found h k = rw (parsed, valid, h, k)

  module _ (cnpj email : Str) (found : RegistryRecord)
      (v : IsValidCompany env server request accepted_at db cnpj email found) where
    abbrev settled : Attempt → Registration CompanyRegistrationResponse
    settled =
        settle_attempt translate_company_error
          (company_response env server request accepted_at email) db

    abbrev asking : Result (Unit {0}) × Db → Attempt
    asking =
        with_rows (identity_for env server request accepted_at db email)
          (link_company env server request accepted_at)

    stored :
        (r : Result (Unit {0}) × Db)
        → company_added env server request accepted_at db cnpj email found ≡ r
        → run ≡ settled (asking r)
    unfolding register_company check_cnpj check_email check_registry store_company
    stored r e = rw (v.cnpj_valid, v.email_valid, v.registry_knows, v.activity_allowed, e)

    abbrev added : Company
    added = company env server request accepted_at db cnpj email found

    module _ (f : IsFreeCompany env server request accepted_at db cnpj email) where
      abbrev after_rows : Db
      after_rows = record (with_account env server request accepted_at db cnpj email found) {
        companies = added ∷ db.companies;
      }

      asked : run ≡ settled (asking (ok tt, after_rows))
      asked =
          stored (ok tt, after_rows)
            (rows_company env server request accepted_at db cnpj email found _ f.account_free (
              insert_company_ok env.checks added
                (with_account env server request accepted_at db cnpj email found) f.email_allowed
                f.cnpj_free f.email_free))

      module _ (identity : RegisteredIdentity)
          (known : identity_for env server request accepted_at db email ≡ ok identity) where
        abbrev subject : Str
        subject = identity.identity_subject

        linking :
            (r : Result (Unit {0}) × Db)
            → link_company env server request accepted_at identity after_rows ≡ r
            → run ≡ settled (linked_attempt identity r)
        linking r e = asked ∙ ap settled (rw (known, e))

        linking_fails :
            (e : Error)
            → link_identity (server.uuid 1) subject after_rows ≡ (err e, after_rows)
            → link_company env server request accepted_at identity after_rows ≡ (err e, after_rows)
        unfolding link_company
        linking_fails e h = rw h

        abbrev linked_rows : Db
        linked_rows = record after_rows {
          users = update_where (λ u. u.id == server.uuid 1) (linked subject) after_rows.users;
        }

        linking_succeeds :
            link_identity (server.uuid 1) subject after_rows ≡ (ok tt, linked_rows)
            → link_company env server request accepted_at identity after_rows ≡ (
              ok tt,
              record linked_rows {
                companies =
                    update_where
                      (λ c. c.id == server.uuid 1)
                      (confirmed identity.confirmed)
                      after_rows.companies;
              },
            )
        unfolding link_company
        linking_succeeds h = rw h

        all_users :
            update_where (λ u. u.id == server.uuid 1) (linked subject) after_rows.users
            ≡ linked subject (account env server request accepted_at db email) ∷ db.users
        all_users = rw (
          ==_refl (server.uuid 1),
          update_where_miss (λ (u : AppUser). u.id) (server.uuid 1) (linked subject) db.users fresh,
        )

        all_companies :
            update_where
              (λ c. c.id == server.uuid 1)
              (confirmed identity.confirmed)
              after_rows.companies
            ≡ confirmed identity.confirmed added ∷ db.companies
        all_companies = rw (
          ==_refl (server.uuid 1),
          update_where_miss (λ (c : Company). c.id) (server.uuid 1) (confirmed identity.confirmed)
              db.companies fresh_company,
        )

        linked_lem :
            is_blank_subject subject ≡ false
            → exists_where (has_subject subject) db.users ≡ false
            → Ends run
        linked_lem b h = CompanyOutcome.registered cnpj email found identity v f known h (
            linking _ (linking_succeeds (link_identity_ok (server.uuid 1) subject after_rows b h))
            ∙ ap
                (λ us. settled (
                  Attempt.committed identity (record after_rows {
                    users = us;
                    companies =
                        update_where (λ c. c.id == server.uuid 1) (confirmed identity.confirmed)
                          after_rows.companies;
                  })))
                all_users
            ∙ ap
                (λ cs. settled (
                  Attempt.committed identity (record after_rows {
                    users =
                        linked subject (account env server request accepted_at db email) ∷ db.users;
                    companies = cs;
                  })))
                all_companies)

        link-Ends : Ends run
        link-Ends = elim (Bool-cases (is_blank_subject subject)) [
          | inl b ↦
              CompanyOutcome.left_unlinked _ email identity known
                (CompanyLinkReason.blank_subject b)
                (linking _
                  (linking_fails _ (link_identity_blank (server.uuid 1) subject after_rows b)))
          | inr b ↦ elim (Bool-cases (exists_where (has_subject subject) db.users)) [
            | inl t ↦
                CompanyOutcome.left_unlinked _ email identity known
                  (CompanyLinkReason.subject_taken t)
                  (linking _
                    (linking_fails _ (link_identity_taken (server.uuid 1) subject after_rows b t)))
            | inr t ↦ linked_lem b t
          ]
        ]

      provider : Ends run
      provider = elim (Result-cases (identity_for env server request accepted_at db email)) [
        | inl (identity, h) ↦ link-Ends identity h
        | inr (e, h) ↦
            CompanyOutcome.refused _ (CompanyReason.provider_refused email e v.email_valid h)
              (asked ∙ ap settled {y = Attempt.failed e none} (rw h))
      ]

    violates :
        (e : Error)
        → CompanyReason env server request accepted_at db (translate_company_error e)
        → account_email_taken env server request accepted_at db email ≡ false
        → insert_company env.checks added
            (with_account env server request accepted_at db cnpj email found)
          ≡ (err e, with_account env server request accepted_at db cnpj email found)
        → Ends run
    violates e reason free h =
        CompanyOutcome.refused _ reason
          (stored _ (rows_company env server request accepted_at db cnpj email found _ free h))

    storing : Ends run
    storing = elim (Bool-cases (account_email_taken env server request accepted_at db email)) [
      | inl taken ↦
          CompanyOutcome.refused _ (CompanyReason.email_in_use email v.email_valid (rw taken))
            (stored _ (rows_account env server request accepted_at db cnpj email found taken))
      | inr free ↦ elim (Bool-cases (env.checks.corporate_email email)) [
        | inr bad ↦
            violates (Error.integrity Constraint.ck_company_corporate_email)
              (CompanyReason.email_violated email v.email_valid bad) free
              (insert_company_personal env.checks added
                (with_account env server request accepted_at db cnpj email found) bad)
        | inl allowed ↦ elim (Bool-cases (exists_where (has_cnpj cnpj) db.companies)) [
          | inl taken ↦
              violates (Error.integrity Constraint.uq_company_cnpj)
                (CompanyReason.cnpj_in_use cnpj v.cnpj_valid taken) free
                (insert_company_cnpj env.checks added
                  (with_account env server request accepted_at db cnpj email found) allowed taken)
          | inr unused ↦ elim (Bool-cases (exists_where (has_corporate_email email) db.companies)) [
            | inl taken ↦
                violates (Error.integrity Constraint.uq_company_corporate_email)
                  (CompanyReason.email_in_use email v.email_valid (rw (free, taken))) free
                  (insert_company_email env.checks added
                    (with_account env server request accepted_at db cnpj email found) allowed unused
                    taken)
            | inr new ↦ provider (record {
              account_free = free;
              email_allowed = allowed;
              cnpj_free = unused;
              email_free = new;
            })
          ]
        ]
      ]
    ]

  module _ (cnpj : Str) (parsed : parse_cnpj request.cnpj ≡ some cnpj) (email : Str)
      (valid : email_of env server request accepted_at db ≡ some email) where
    registry_lem : Ends run
    registry_lem = elim (Result-cases (env.get_record cnpj)) [
      | inr (e, h) ↦
          CompanyOutcome.refused _ (CompanyReason.not_in_registry cnpj e parsed h)
            (not_in_registry_lem cnpj parsed email valid e h)
      | inl (found, h) ↦ elim (Bool-cases (is_blocked env server request accepted_at db found)) [
        | inl bad ↦
            CompanyOutcome.refused _ (CompanyReason.blocked_activity cnpj found h bad)
              (blocked_lem cnpj parsed email valid found h bad)
        | inr good ↦ storing cnpj email found (record {
          cnpj_valid = parsed;
          email_valid = valid;
          registry_knows = h;
          activity_allowed = good;
        })
      ]
    ]

  bad_cnpj_lem :
      parse_cnpj request.cnpj ≡ none → run ≡ refusal (Error.company CompanyError.invalid_cnpj) db
  unfolding register_company check_cnpj
  bad_cnpj_lem h = rw h

  run-Ends : Ends run
  run-Ends = elim (Option-cases (parse_cnpj request.cnpj)) [
    | inl n ↦ CompanyOutcome.refused _ (CompanyReason.bad_cnpj n) (bad_cnpj_lem n)
    | inr (cnpj, parsed) ↦ elim (Option-cases (email_of env server request accepted_at db)) [
      | inl n ↦ CompanyOutcome.refused _ (CompanyReason.bad_email n) (bad_email_lem cnpj parsed n)
      | inr (email, valid) ↦ registry_lem cnpj parsed email valid
    ]
  ]

pub register_company-CompanyOutcome :
    (env : Environment) (server : Server) (request : CompanyRegistrationRequest) (accepted_at : ℕ)
    (db : Db)
    → All (λ u. u.id ≢ server.uuid 1) db.users
    → All (λ c. c.id ≢ server.uuid 1) db.companies
    → CompanyOutcome env server request accepted_at db
        (register_company env server request accepted_at db)
register_company-CompanyOutcome env server request accepted_at db fresh fresh_company =
    run-Ends env server request accepted_at db fresh fresh_company
