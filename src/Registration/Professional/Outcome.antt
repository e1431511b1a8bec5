-- ===== src/Registration/Professional/Outcome.antt =====
-- Every registration of a professional ends as its specification says.
use seniors_empregabilidade.Prelude.{
  ==_refl, All, Bool-cases, Option-cases, Str, ap, exists_where, false, inl, inr, is_some, none,
  some, true, update_where, update_where_miss, ℕ, ◌==◌, ◌∙◌, ◌∷◌, ◌≡◌, ◌≢◌,
}
use seniors_empregabilidade.Database.AccountErrors.{CandidateError}
use seniors_empregabilidade.Database.Errors.{Error}
use seniors_empregabilidade.Database.Session.{Result, Result-cases, Server, ok}
use seniors_empregabilidade.Database.Tables.{AppUser, Db}
use seniors_empregabilidade.Candidates.Age.{Date, meets_minimum_age}
use seniors_empregabilidade.Candidates.Cpf.{parse_cpf}
use seniors_empregabilidade.Registration.Attempt.{
  Attempt, Register, RegisteredIdentity, Registration, linked_attempt, refusal, settle_attempt,
  with_rows,
}
use seniors_empregabilidade.Registration.Professional.{
  ProfessionalRegistrationRequest, RegisteredProfessional, date_of, link_professional,
  professional_of, register_professional, register_valid, store_professional,
  translate_registration_error,
}
use seniors_empregabilidade.Registration.Professional.Spec.{
  AreFree, IsValidRequest, LinkReason, ProfessionalOutcome, Reason, candidate, cpf_taken,
  email_taken, identity_result, professional_added, rows_age, rows_cpf, rows_email, rows_ok, user,
}
use seniors_empregabilidade.Registration.Rows.{
  Checks, has_subject, is_blank_subject, link_identity, linked,
}
use seniors_empregabilidade.Registration.Rows.Laws.{
  link_identity_blank, link_identity_ok, link_identity_taken,
}

module _ (casefold : Str → Str) (register : Register) (checks : Checks) (server : Server)
    (request : ProfessionalRegistrationRequest) (today : Date) (accepted_at : ℕ) (db : Db)
    (fresh : All (λ u. u.id ≢ server.uuid 0) db.users) where
  abbrev Ends : Registration RegisteredProfessional → Type 0
  Ends = ProfessionalOutcome casefold register checks server request today accepted_at db

  abbrev run : Registration RegisteredProfessional
  run = register_professional casefold register checks server request today accepted_at db

  abbrev settled : Attempt → Registration RegisteredProfessional
  settled =
      settle_attempt translate_registration_error
        (professional_of casefold register checks server request) db

  abbrev asking : Result (Unit {0}) × Db → Attempt
  asking =
      with_rows (identity_result casefold register checks server request today accepted_at db)
        (link_professional casefold register checks server request)

  bad_cpf_lem :
      parse_cpf request.cpf ≡ none → run ≡ refusal (Error.candidate CandidateError.invalid_cpf) db
  unfolding register_professional register_valid
  bad_cpf_lem h = rw h

  module _ (cpf : Str) (parsed : parse_cpf request.cpf ≡ some cpf) where
    too_young_lem :
        meets_minimum_age (date_of request.birth_date) today ≡ false
        → run ≡ refusal (Error.candidate CandidateError.minimum_age_not_met) db
    unfolding register_professional register_valid
    too_young_lem h = rw (parsed, h)

    no_terms_lem :
        meets_minimum_age (date_of request.birth_date) today ≡ true
        → request.terms_version_accepted ≡ none
        → run ≡ refusal (Error.candidate CandidateError.terms_acceptance_required) db
    unfolding register_professional register_valid
    no_terms_lem h k = rw (parsed, h, k)

  module _ (cpf : Str)
      (v : IsValidRequest casefold register checks server request today accepted_at db cpf) where
    abbrev added : Result (Unit {0}) × Db
    added = professional_added casefold register checks server request today accepted_at db cpf

    stored : (r : Result (Unit {0}) × Db) → added ≡ r → run ≡ settled (asking r)
    unfolding register_professional register_valid store_professional
    stored r e = rw (v.cpf_valid, v.old_enough, v.terms_accepted, e)

    module _ (f : AreFree casefold register checks server request today accepted_at db cpf) where
      abbrev after_rows : Db
      after_rows = record db {
        users = user casefold register checks server request today accepted_at db ∷ db.users;
        candidates =
            candidate casefold register checks server request today accepted_at db cpf
            ∷ db.candidates;
      }

      asked : run ≡ settled (asking (ok tt, after_rows))
      asked =
          stored (ok tt, after_rows)
            (rows_ok casefold register checks server request today accepted_at db cpf f)

      module _ (identity : RegisteredIdentity)
          (known : identity_result casefold register checks server request today accepted_at db
            ≡ ok identity) where
        abbrev subject : Str
        subject = identity.identity_subject

        linking :
            (r : Result (Unit {0}) × Db)
            → link_identity (server.uuid 0) subject after_rows ≡ r
            → run ≡ settled (linked_attempt identity r)
        linking r e = asked ∙ ap settled (rw (known, e))

        blank_lem : is_blank_subject subject ≡ true → Ends run
        blank_lem h =
            ProfessionalOutcome.left_unlinked _ identity known (LinkReason.blank h)
              (linking _ (link_identity_blank (server.uuid 0) subject after_rows h))

        taken_lem :
            is_blank_subject subject ≡ false
            → exists_where (has_subject subject) db.users ≡ true
            → Ends run
        taken_lem b h =
            ProfessionalOutcome.left_unlinked _ identity known (LinkReason.taken h)
              (linking _ (link_identity_taken (server.uuid 0) subject after_rows b h))

        all_users :
            update_where (λ u. u.id == server.uuid 0) (linked subject) after_rows.users
            ≡ linked subject (user casefold register checks server request today accepted_at db)
              ∷ db.users
        all_users = rw (
          ==_refl (server.uuid 0),
          update_where_miss (λ (u : AppUser). u.id) (server.uuid 0) (linked subject) db.users fresh,
        )

        linked_lem :
            is_blank_subject subject ≡ false
            → exists_where (has_subject subject) db.users ≡ false
            → Ends run
        linked_lem b h = ProfessionalOutcome.registered cpf identity v f known h (
            linking _ (link_identity_ok (server.uuid 0) subject after_rows b h)
            ∙ ap (λ us. settled (Attempt.committed identity (record after_rows { users = us })))
                all_users)

        link-Ends : Ends run
        link-Ends = elim (Bool-cases (is_blank_subject subject)) [
          | inl b ↦ blank_lem b
          | inr b ↦ elim (Bool-cases (exists_where (has_subject subject) db.users)) [
            | inl t ↦ taken_lem b t
            | inr t ↦ linked_lem b t
          ]
        ]

      provider : Ends run
      provider =
          elim (Result-cases
            (identity_result casefold register checks server request today accepted_at db)) [
              | inl (identity, h) ↦ link-Ends identity h
              | inr (e, h) ↦
                  ProfessionalOutcome.refused _ (Reason.provider_refused e h)
                    (asked ∙ ap settled {y = Attempt.failed e none} (rw h))
            ]

    storing : Ends run
    storing =
        elim (Bool-cases
          (email_taken casefold register checks server request today accepted_at db)) [
            | inl taken ↦ ProfessionalOutcome.refused _ (Reason.email_in_use taken) (
                stored _ (
                  rows_email casefold register checks server request today accepted_at db cpf
                    taken))
            | inr free ↦ elim (Bool-cases (checks.minimum_age request.birth_date)) [
              | inr young ↦ ProfessionalOutcome.refused _ (Reason.age_violated young) (
                  stored _ (
                    rows_age casefold register checks server request today accepted_at db cpf free
                      young))
              | inl allowed ↦
                  elim (Bool-cases
                    (cpf_taken casefold register checks server request today accepted_at db cpf)) [
                      | inl taken ↦
                          ProfessionalOutcome.refused _ (Reason.cpf_in_use cpf v.cpf_valid taken) (
                            stored _ (
                              rows_cpf casefold register checks server request today accepted_at db
                                cpf free allowed taken))
                      | inr unused ↦
                          provider
                            (record { email_free = free; age_allowed = allowed; cpf_free = unused })
                    ]
            ]
          ]

  parsed_lem : (cpf : Str) → parse_cpf request.cpf ≡ some cpf → Ends run
  parsed_lem cpf parsed = elim (Bool-cases (meets_minimum_age (date_of request.birth_date) today)) [
    | inr young ↦
        ProfessionalOutcome.refused _ (Reason.too_young young) (too_young_lem cpf parsed young)
    | inl old ↦ elim (Option-cases request.terms_version_accepted) [
      | inl n ↦ ProfessionalOutcome.refused _ (Reason.no_terms n) (no_terms_lem cpf parsed old n)
      | inr (version, t) ↦
          storing cpf
            (record { cpf_valid = parsed; old_enough = old; terms_accepted = ap is_some t })
    ]
  ]

  run-Ends : Ends run
  run-Ends = elim (Option-cases (parse_cpf request.cpf)) [
    | inl n ↦ ProfessionalOutcome.refused _ (Reason.bad_cpf n) (bad_cpf_lem n)
    | inr (cpf, parsed) ↦ parsed_lem cpf parsed
  ]

-- With a fresh identifier, a registration of a professional either adds exactly one account, linked
-- to the identity that the provider answers, and its candidate, for a valid CPF, the minimum age,
-- accepted terms and an unused e-mail, CPF and identity; or it is refused for a reason that its
-- error names, with all tables as they were. It logs an incomplete identity exactly where the
-- provider has registered an identity that could not be linked.
pub register_professional-ProfessionalOutcome :
    (casefold : Str → Str) (register : Register) (checks : Checks) (server : Server)
    (request : ProfessionalRegistrationRequest) (today : Date) (accepted_at : ℕ) (db : Db)
    → All (λ u. u.id ≢ server.uuid 0) db.users
    → ProfessionalOutcome casefold register checks server request today accepted_at db
        (register_professional casefold register checks server request today accepted_at db)
register_professional-ProfessionalOutcome casefold register checks server request today accepted_at
      db fresh =
    run-Ends casefold register checks server request today accepted_at db fresh
