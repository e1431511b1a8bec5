-- ===== src/Auth/Guards.antt =====
-- Whom the guards let through.
use mathlib.Core.Option.{some_inj}
use seniors_empregabilidade.Prelude.{
  Bool-cases, Option-cases, Str, ap, false≢true, inl, inr, none, refl, some, subst, sym, ◌∙◌, ◌≡◌,
  ◌≢◌, ◌⊎◌,
}
use seniors_empregabilidade.Database.Enums.{
  is_active_account, is_administrator, is_approved_company, is_candidate, is_company,
}
use seniors_empregabilidade.Database.Errors.{AuthError, Error}
use seniors_empregabilidade.Database.Session.{>>=_err, >>=_ok, Result, err, ok}
use seniors_empregabilidade.Database.Tables.{AppUser, Db}
use seniors_empregabilidade.Auth.{
  CurrentUser, HasRole, IsAuthorized, Role, authorized, company_of, current_user_of,
  find_current_user, found_active, found_inactive, found_nobody, require, require_administrator,
  require_approved_company, require_candidate, user_by_subject,
}

-- A guard's answer.
abbrev pub Verdict : (role : Role) (identity_subject : Str) → Db → Result CurrentUser × Db → Type 0
Verdict role identity_subject db r =
    ((u : CurrentUser) × (r ≡ (ok u, db)) × IsAuthorized role identity_subject db u)
    ⊎ ((e : AuthError) × (r ≡ (err (Error.auth e), db))
        × ((u : CurrentUser) → ¬ IsAuthorized role identity_subject db u))

some_ne_none : {A : Type 0} (a : A) → some a ≢ none
some_ne_none a h = cc

-- A role is held and the guard lets the user through, or it is not held and the guard raises.
abbrev RoleVerdict : Role → AppUser → Db → Type 0
RoleVerdict role user db =
    (HasRole role user (company_of user.id db)
      × (require role (current_user_of user db) db ≡ (ok (current_user_of user db), db)))
    ⊎ ((¬ HasRole role user (company_of user.id db))
        × (e : AuthError) × (require role (current_user_of user db) db ≡ (err (Error.auth e), db)))

approved_verdict : (user : AppUser) (db : Db) → RoleVerdict Role.approved_company user db
unfolding require_approved_company
approved_verdict user db = elim (Bool-cases (is_company user.user_type)) [
  | inr other ↦
      inr (λ h. false≢true (sym other ∙ h.0), AuthError.approved_company_required, rw other)
  | inl company ↦ elim (Option-cases (company_of user.id db)) [
    | inl none_found ↦ inr (
      λ h. some_ne_none h.1.0 (sym h.1.1 ∙ none_found),
      AuthError.approved_company_required,
      rw (company, none_found),
    )
    | inr (c, found) ↦ elim (Bool-cases (is_approved_company c.status)) [
      | inl approved ↦ inl ((company, (c, found, approved)), rw (company, found, approved))
      | inr pending ↦ inr (
        λ h. false≢true (
            sym pending
            ∙ ap (λ x. is_approved_company x.status) (some_inj.0 (sym found ∙ h.1.1))
            ∙ h.1.2),
        AuthError.approved_company_required,
        rw (company, found, pending),
      )
    ]
  ]
]

role_verdict : (role : Role) (user : AppUser) (db : Db) → RoleVerdict role user db
unfolding require_candidate require_administrator
role_verdict Role.candidate user db = elim (Bool-cases (is_candidate user.user_type)) [
  | inl h ↦ inl (h, rw h)
  | inr h ↦ inr (λ g. false≢true (sym h ∙ g), AuthError.candidate_required, rw h)
]
role_verdict Role.administrator user db = elim (Bool-cases (is_administrator user.user_type)) [
  | inl h ↦ inl (h, rw h)
  | inr h ↦ inr (λ g. false≢true (sym h ∙ g), AuthError.administrator_required, rw h)
]
role_verdict Role.approved_company user db = approved_verdict user db

-- A guarded route either gets its user, who is then authorized, or raises a problem of the guards,
-- and then nobody is authorized by that subject. Authorized means an active account with the token's
-- subject that is a candidate, an administrator, or a company whose registration is approved, as the
-- role asks. No table is ever changed.
pub authorized-Verdict :
    (role : Role) (identity_subject : Str) (db : Db)
    → Verdict role identity_subject db (authorized role identity_subject db)
authorized-Verdict role identity_subject db =
    elim (Option-cases (user_by_subject identity_subject db)) [
      | inl nobody ↦ inr (
        _,
        >>=_err (find_current_user identity_subject) _ (found_nobody identity_subject db nobody),
        λ u o. some_ne_none o.user (sym o.found ∙ nobody),
      )
      | inr (user, found) ↦ elim (Bool-cases (is_active_account user.account_status)) [
        | inr inactive ↦ inr (
          _,
          >>=_err (find_current_user identity_subject) _
              (found_inactive identity_subject db user found inactive),
          λ u o. false≢true (
              sym inactive
              ∙ ap (λ x. is_active_account x.account_status) (some_inj.0 (sym found ∙ o.found))
              ∙ o.active),
        )
        | inl active ↦
            let step =
              >>=_ok (find_current_user identity_subject) (require role)
                (found_active identity_subject db user found active) in
            elim (role_verdict role user db) [
              | inl (held, passes) ↦ inl (
                current_user_of user db,
                step ∙ passes,
                record {
                  user = user;
                  found = found;
                  active = active;
                  role_held = held;
                  is_user = refl;
                },
              )
              | inr (not_held, e, stops) ↦ inr (
                e,
                step ∙ stops,
                λ u o. not_held (
                    subst (λ x. HasRole role x (company_of x.id db))
                      (some_inj.0 (sym o.found ∙ found)) o.role_held),
              )
            ]
      ]
    ]
