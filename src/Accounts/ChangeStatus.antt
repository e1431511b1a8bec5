-- ===== src/Accounts/ChangeStatus.antt =====
-- app/account_management/services/change_account_status.py
pub mod Spec
use seniors_empregabilidade.Prelude.{
  Bool, Option, Str, codes, first_where, not, some, update_where, ℕ, ◌&&◌, ◌==◌, ◌∷◌,
}
use seniors_empregabilidade.Database.Enums.{
  AccountStatus, is_active_account, is_blocked_account, is_managed,
}
use seniors_empregabilidade.Database.Errors.{AccountError, Constraint, Error}
use seniors_empregabilidade.Database.Session.{
  Action, Server, gets, modify, or_raise, pure, raise_if, transaction, ◌>>=◌, ◌>>◌,
}
use seniors_empregabilidade.Database.Tables.{AppUser, Db, Event}
use seniors_empregabilidade.Notifications.Notify.{user_exists}

-- `status` of the request: the two values that an administrator may set.
pub data RequestedAccountStatus : Type 0 where
  to_active to_blocked : RequestedAccountStatus

pub record AccountStatusRequest : Type 0 where
  pub status : RequestedAccountStatus
  pub reason : Str

pub record AccountStatusResponse : Type 0 where
  pub id : ℕ
  pub account_status : AccountStatus

-- `AccountStatus(request.status)`
abbrev pub new_status : RequestedAccountStatus → AccountStatus
new_status RequestedAccountStatus.to_active = AccountStatus.active
new_status RequestedAccountStatus.to_blocked = AccountStatus.blocked

-- `new_status == account.account_status`
abbrev pub is_already : RequestedAccountStatus → AccountStatus → Bool
is_already RequestedAccountStatus.to_active s = is_active_account s
is_already RequestedAccountStatus.to_blocked s = is_blocked_account s

abbrev pub already_error : RequestedAccountStatus → AccountError
already_error RequestedAccountStatus.to_active = AccountError.account_already_active
already_error RequestedAccountStatus.to_blocked = AccountError.account_already_blocked

unfoldable pub event_type_of : RequestedAccountStatus → Str
event_type_of RequestedAccountStatus.to_active = codes "account_reactivated"
event_type_of RequestedAccountStatus.to_blocked = codes "account_blocked"

-- The account, if it is of a managed type.
abbrev pub managed_account : (account_id : ℕ) → Db → Option AppUser
managed_account account_id db =
    first_where (λ u. u.id == account_id && is_managed u.user_type) db.users

abbrev pub save_user : AppUser → Db → Db
save_user user db = record db { users = update_where (λ u. u.id == user.id) (λ _. user) db.users }

unfoldable pub with_status : RequestedAccountStatus → (now : ℕ) → AppUser → AppUser
with_status status now user = record user { account_status = new_status status; updated_at = now }

unfoldable pub status_event :
    Server → (administrator_id : ℕ) → AccountStatusRequest → AppUser → Event
status_event server administrator_id request user = record {
  id = server.uuid 0;
  user_id = some administrator_id;
  event_type = event_type_of request.status;
  details = some (record {
    target_user_id = user.id;
    previous_status = user.account_status;
    new_status = new_status request.status;
    reason = request.reason;
  });
  created_at = server.now;
}

-- The flushed `INSERT` of the event.
unfoldable pub insert_event : (administrator_id : ℕ) → Event → Action (Unit {0})
insert_event administrator_id event = do
  known ← gets (user_exists administrator_id)
  raise_if (not known) (Error.integrity Constraint.fk_event_user_id_app_user)
  modify (λ db. record db { events = event ∷ db.events })

unfoldable pub apply_status :
    Server
    → (administrator_id : ℕ) → AccountStatusRequest
    → (now : ℕ) → AppUser
    → Action AccountStatusResponse
apply_status server administrator_id request now user = do
  raise_if (is_already request.status user.account_status)
      (Error.account (already_error request.status))
  modify (save_user (with_status request.status now user))
  insert_event administrator_id (status_event server administrator_id request user)
  pure (record { id = user.id; account_status = new_status request.status })

unfoldable pub find_and_apply :
    Server
    → (administrator_id account_id : ℕ) → AccountStatusRequest
    → (now : ℕ) → Action AccountStatusResponse
find_and_apply server administrator_id account_id request now = do
  found ← gets (managed_account account_id)
  user ← or_raise found (Error.account AccountError.account_not_found)
  apply_status server administrator_id request now user

unfoldable pub change_account_status :
    Server
    → (administrator_id account_id : ℕ) → AccountStatusRequest
    → (now : ℕ) → Action AccountStatusResponse
change_account_status server administrator_id account_id request now =
    transaction (find_and_apply server administrator_id account_id request now)
