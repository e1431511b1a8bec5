-- ===== src/Registration/Attempt.antt =====
-- The `try` block that both registrations share: rows first, then the identity provider, then the
-- link between them, and what the handlers and `_log_incomplete_identity` do after a failure.
use seniors_empregabilidade.Prelude.{Bool, Option, Str, false, is_some, none, some}
use seniors_empregabilidade.Database.Errors.{Error}
use seniors_empregabilidade.Database.Session.{Action, Result, err, ok}
use seniors_empregabilidade.Database.Tables.{Db}

-- app/identity/registered_identity.py
pub record RegisteredIdentity : Type 0 where
  pub identity_subject : Str
  pub confirmed : Bool

-- `IdentityProvider.register`: an identity, or the exception that it raises.
abbrev pub Register : Type 0
Register = (email password : Str) → Result RegisteredIdentity

-- The block when it ends: without an exception, with the tables that it committed, or with an
-- exception, `identity` as it is by then.
pub data Attempt : Type 0 where
  committed : RegisteredIdentity → Db → Attempt
  failed : Error → Option RegisteredIdentity → Attempt

abbrev pub linked_attempt : RegisteredIdentity → Result (Unit {0}) × Db → Attempt
linked_attempt identity (err e, db) = failed e (some identity)
linked_attempt identity (ok _, db) = committed identity db

abbrev pub identified :
    (link : RegisteredIdentity → Action (Unit {0})) → Result RegisteredIdentity → Db → Attempt
identified link (err e) db = failed e none
identified link (ok identity) db = linked_attempt identity (link identity db)

-- The rows first, then the provider, then the link.
abbrev pub with_rows :
    (identity : Result RegisteredIdentity) (link : RegisteredIdentity → Action (Unit {0}))
    → Result (Unit {0}) × Db
    → Attempt
with_rows identity link (err e, db) = failed e none
with_rows identity link (ok _, db) = identified link identity db

-- What a registration leaves: its answer or exception, whether it has logged
-- "identity_registration_incomplete", and the tables.
pub record Registration (A : Type 0) : Type 0 where
  pub answer : Result A
  pub warned : Bool
  pub tables : Db

abbrev pub refusal : {A : Type 0} → Error → Db → Registration A
refusal e db = record { answer = err e; warned = false; tables = db }

-- After an exception: `session.rollback()`, the log entry where the provider has registered an
-- identity, and the exception that the handlers raise in its place.
abbrev pub settle_attempt :
    {A : Type 0} (translate : Error → Error) (respond : RegisteredIdentity → A) (db : Db)
    → Attempt
    → Registration A
settle_attempt translate respond db (committed identity left) = record {
  answer = ok (respond identity);
  warned = false;
  tables = left;
}
settle_attempt translate respond db (failed e identity) = record {
  answer = err (translate e);
  warned = is_some identity;
  tables = db;
}
