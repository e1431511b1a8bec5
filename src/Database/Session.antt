-- ===== src/Database/Session.antt =====
-- A service's work on a SQLAlchemy session, as state passing over the tables. A `SELECT` is a
-- search of a table, a flushed object is a row, and what a `try` block with
-- `except Exception: session.rollback(); raise` leaves behind after an exception is the tables as
-- they were when it began. PostgreSQL itself is not modelled: the identifiers and the transaction
-- time that it generates for new rows come from a `Server`.
use seniors_empregabilidade.Prelude.{
  Bool, Option, ap, false, if◌then◌else◌, inl, inr, none, refl, some, ℕ, ◌≡◌, ◌⊎◌,
}
use seniors_empregabilidade.Database.Errors.{Error}
use seniors_empregabilidade.Database.Tables.{Db}

-- What `gen_random_uuid()` returns for the n-th row of a transaction, and `now()`.
pub record Server : Type 0 where
  pub uuid : ℕ → ℕ
  pub now : ℕ

pub data Result (A : Type 0) : Type 0 where
  ok : A → Result A
  err : Error → Result A

abbrev pub Action : Type 0 → Type 0
Action A = Db → Result A × Db

module _ {A : Type 0} where
  abbrev pub pure : A → Action A
  pure a db = (ok a, db)

  abbrev pub raise : Error → Action A
  raise e db = (err e, db)

  -- A query.
  abbrev pub gets : (Db → A) → Action A
  gets f db = (ok (f db), db)

  abbrev pub or_raise : Option A → Error → Action A
  or_raise none e = raise e
  or_raise (some a) e = pure a

  abbrev pub rolled_back : Db → Result A × Db → Result A × Db
  rolled_back db (ok a, db') = (ok a, db')
  rolled_back db (err e, db') = (err e, db)

  -- `try: ...; session.commit()` with `except Exception: session.rollback(); raise`.
  abbrev pub transaction : Action A → Action A
  transaction m db = rolled_back db (m db)

-- What is left to do after a step, on its result.
abbrev pub continue : {A B : Type 0} → (A → Action B) → Result A × Db → Result B × Db
continue f (ok a, db) = f a db
continue f (err e, db) = (err e, db)

infixl 5 ◌>>=◌ ◌>>◌
abbrev pub ◌>>=◌ : {A B : Type 0} → Action A → (A → Action B) → Action B
◌>>=◌ m f db = continue f (m db)

abbrev pub ◌>>◌ : {A B : Type 0} → Action A → Action B → Action B
m >> k = m >>= λ _. k

abbrev pub raise_if : Bool → Error → Action (Unit {0})
raise_if c e db = (if c then err e else ok tt, db)

abbrev pub modify : (Db → Db) → Action (Unit {0})
modify f db = (ok tt, f db)

-- To step through a `do` block by what each of its steps does.
module _ {A B : Type 0} (m : Action A) (f : A → Action B) {db db' : Db} where
  pub >>=_ok : {a : A} → m db ≡ (ok a, db') → (m >>= f) db ≡ f a db'
  >>=_ok e = ap (continue f) e

  pub >>=_err : {e : Error} → m db ≡ (err e, db') → (m >>= f) db ≡ (err e, db')
  >>=_err e = ap (continue f) e

pub raise_if_pass : (c : Bool) (e : Error) (db : Db) → c ≡ false → raise_if c e db ≡ (ok tt, db)
raise_if_pass c e db h = rw h

pub Result-cases :
    {A : Type 0} (r : Result A) → ((a : A) × (r ≡ ok a)) ⊎ ((e : Error) × (r ≡ err e))
Result-cases (ok a) = inl (a, refl)
Result-cases (err e) = inr (e, refl)
