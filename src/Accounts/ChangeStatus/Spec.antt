-- ===== src/Accounts/ChangeStatus/Spec.antt =====
-- What blocking and reactivating an account checks, writes and answers, on every branch.
use seniors_empregabilidade.Prelude.{
  Bool-cases, Option-cases, ap, exists_where-replace, false, false≢true, inl, inr, none, refl, some,
  sym, true, ℕ, ◌↔◌, ◌∙◌, ◌∷◌, ◌≡◌, ◌≢◌,
}
use seniors_empregabilidade.Database.Enums.{AccountStatus}
use seniors_empregabilidade.Database.Errors.{AccountError, Constraint, Error}
use seniors_empregabilidade.Database.Session.{Result, Server, err, ok, rolled_back}
use seniors_empregabilidade.Database.Tables.{AppUser, Db}
use seniors_empregabilidade.Accounts.ChangeStatus.{
  AccountStatusRequest, AccountStatusResponse, RequestedAccountStatus, already_error, apply_status,
  change_account_status, find_and_apply, insert_event, is_already, managed_account, new_status,
  save_user, status_event, with_status,
}
use seniors_empregabilidade.Notifications.Notify.{user_exists}

is_already_iff :
    (r : RequestedAccountStatus) (s : AccountStatus) → (is_already r s ≡ true) ↔ (s ≡ new_status r)
is_already_iff RequestedAccountStatus.to_active AccountStatus.active = (λ h. refl, λ h. refl)
is_already_iff RequestedAccountStatus.to_active AccountStatus.suspended = (λ h. cc, λ h. cc)
is_already_iff RequestedAccountStatus.to_active AccountStatus.blocked = (λ h. cc, λ h. cc)
is_already_iff RequestedAccountStatus.to_blocked AccountStatus.active = (λ h. cc, λ h. cc)
is_already_iff RequestedAccountStatus.to_blocked AccountStatus.suspended = (λ h. cc, λ h. cc)
is_already_iff RequestedAccountStatus.to_blocked AccountStatus.blocked = (λ h. refl, λ h. refl)

module _ (server : Server) (administrator_id account_id : ℕ) (request : AccountStatusRequest)
    (now : ℕ) (db : Db) where
  abbrev pub changed_user : AppUser → AppUser
  changed_user user = with_status request.status now user

  -- The tables after an accepted change: the account's row and one audit event.
  abbrev pub audited : AppUser → Db
  audited user =
      let saved = save_user (changed_user user) db in
      record saved { events = status_event server administrator_id request user ∷ db.events }

  -- Every way in which the call can end, with what it means and what it leaves behind.
  pub data StatusOutcome (r : Result AccountStatusResponse × Db) : Type 0 where
    changed :
        (user : AppUser)
        → managed_account account_id db ≡ some user
        → user.account_status ≢ new_status request.status
        → user_exists administrator_id db ≡ true
        → r
          ≡ (ok (record { id = user.id; account_status = new_status request.status }), audited user)
        → StatusOutcome r
    missing :
        managed_account account_id db ≡ none
        → r ≡ (err (Error.account AccountError.account_not_found), db)
        → StatusOutcome r
    already :
        (user : AppUser)
        → managed_account account_id db ≡ some user
        → user.account_status ≡ new_status request.status
        → r ≡ (err (Error.account (already_error request.status)), db)
        → StatusOutcome r
    unknown_administrator :
        user_exists administrator_id db ≡ false
        → r ≡ (err (Error.integrity Constraint.fk_event_user_id_app_user), db)
        → StatusOutcome r

  module _ (user : AppUser) (found : managed_account account_id db ≡ some user) where
    abbrev saved_db : Db
    saved_db = save_user (changed_user user) db

    applied :
        (r : Result AccountStatusResponse × Db)
        → apply_status server administrator_id request now user db ≡ r
        → change_account_status server administrator_id account_id request now db ≡ rolled_back db r
    unfolding change_account_status find_and_apply
    applied r e = ap (rolled_back db) (rw found e)

    refuse :
        is_already request.status user.account_status ≡ true
        → apply_status server administrator_id request now user db
          ≡ (err (Error.account (already_error request.status)), db)
    unfolding apply_status
    refuse h = rw h

    known_after : user_exists administrator_id saved_db ≡ user_exists administrator_id db
    unfolding with_status
    known_after =
        exists_where-replace (λ u. u.id) administrator_id user.id (changed_user user) db.users refl

    accept :
        is_already request.status user.account_status ≡ false
        → user_exists administrator_id db ≡ true
        → apply_status server administrator_id request now user db
          ≡ (ok (record { id = user.id; account_status = new_status request.status }), audited user)
    unfolding apply_status insert_event with_status
    accept h k = rw (h, known_after ∙ k)

    no_administrator :
        is_already request.status user.account_status ≡ false
        → user_exists administrator_id db ≡ false
        → apply_status server administrator_id request now user db
          ≡ (err (Error.integrity Constraint.fk_event_user_id_app_user), saved_db)
    unfolding apply_status insert_event with_status
    no_administrator h k = rw (h, known_after ∙ k)

    user-StatusOutcome :
        StatusOutcome (change_account_status server administrator_id account_id request now db)
    user-StatusOutcome = elim (Bool-cases (is_already request.status user.account_status)) [
      | inl same ↦
          already user found ((is_already_iff request.status user.account_status).0 same)
            (applied _ (refuse same))
      | inr differs ↦ elim (Bool-cases (user_exists administrator_id db)) [
        | inl known ↦
            changed user found
              (λ e.
                false≢true (sym differs ∙ (is_already_iff request.status user.account_status).1 e))
              known (applied _ (accept differs known))
        | inr unknown ↦ unknown_administrator unknown (applied _ (no_administrator differs unknown))
      ]
    ]

-- Blocking or reactivating an account ends in one of four ways. It is done for a candidate's or a
-- company's account whose status differs from the requested one, and then changes exactly that row
-- and adds exactly one audit event with the previous status, the new one and the reason. An
-- administrator's account is answered like one that does not exist, a change to the present status
-- is refused, and every refusal leaves all tables as they were.
pub change_account_status-StatusOutcome :
    (server : Server) (administrator_id account_id : ℕ) (request : AccountStatusRequest) (now : ℕ)
    (db : Db)
    → StatusOutcome server administrator_id account_id request now db
        (change_account_status server administrator_id account_id request now db)
unfolding change_account_status find_and_apply
change_account_status-StatusOutcome server administrator_id account_id request now db =
    elim (Option-cases (managed_account account_id db)) [
      | inl n ↦ missing n (
          ap (rolled_back db) {y = (err (Error.account AccountError.account_not_found), db)} (rw n))
      | inr (user, found) ↦
          user-StatusOutcome server administrator_id account_id request now db user found
    ]
