-- ===== src/Store/Action.antt =====
-- A handler: it reads and writes the database and may throw. The database comes back after a throw
-- too: what was written outside a transaction stays written.
use booking_platform_claude.Prelude.{Bool, true, false, Option, none, some, List, if◌then◌else◌}
use booking_platform_claude.Store.Database.{Db, Client}

-- The exceptions of @nestjs/common that the services throw, the two errors of the client, and
-- `LOCK_BUSY`; and a call of Redis that fails.
pub data Error : Type 0 where
  not_found bad_request conflict unauthorized forbidden too_many_requests : Error
  unique_violation record_not_found lock_busy redis_failure : Error

pub data Result (A : Type 0) : Type 0 where
  ok : A → Result A
  err : Error → Result A

abbrev pub Action : Type 0 → Type 0
Action A = Db → Result A × Db

module _ {A : Type 0} where
  abbrev pub pure : A → Action A
  pure a s = (ok a, s)

  abbrev pub throw : Error → Action A
  throw e s = (err e, s)

  abbrev pub gets : (Db → A) → Action A
  gets f s = (ok (f s), s)

  abbrev pub or_throw : Option A → Error → Action A
  or_throw none e = throw e
  or_throw (some a) e = pure a

-- The rest of a handler after a step: it is skipped if the step threw.
abbrev pub followed : {A B : Type 0} → Result A × Db → (A → Action B) → Result B × Db
followed (ok a, s) f = f a s
followed (err e, s) f = (err e, s)

infixl 5 ◌>>=◌ ◌>>◌
abbrev pub ◌>>=◌ : {A B : Type 0} → Action A → (A → Action B) → Action B
◌>>=◌ m f s = followed (m s) f

abbrev pub ◌>>◌ : {A B : Type 0} → Action A → Action B → Action B
m >> k = m >>= λ _. k

abbrev pub throw_if : Bool → Error → Action (Unit {0})
throw_if b e s = (if b then err e else ok tt, s)

abbrev pub put : (Db → Db) → Action (Unit {0})
put f s = (ok tt, f s)

-- A statement of an `if` without an `else`.
abbrev pub when : Bool → Action (Unit {0}) → Action (Unit {0})
when true m = m
when false m = pure tt

-- The end of a transaction that began at `before`.
abbrev pub settled : {A : Type 0} → Client → Db → Result A × Db → Result A × Db
settled c before (ok a, after) = (ok a, c.commit before after)
settled c before (err e, after) = (err e, c.rollback before after)

-- `client.$transaction(callback)`
abbrev pub transaction : {A : Type 0} → Client → Action A → Action A
transaction c m s = settled c s (m s)

-- The results of a `create`, an `update` and an `upsert`, stored back by `write`.
abbrev pub stored : {R : Type 0} → Option (List R) → (List R → Db → Db) → Action (Unit {0})
stored none write s = (err unique_violation, s)
stored (some t) write s = (ok tt, write t s)

abbrev pub stored_row : {R : Type 0} → Option (R × List R) → (List R → Db → Db) → Action R
stored_row none write s = (err record_not_found, s)
stored_row (some (r, t)) write s = (ok r, write t s)

abbrev pub stored_upsert : {R : Type 0} → Option (R × List R) → (List R → Db → Db) → Action R
stored_upsert none write s = (err unique_violation, s)
stored_upsert (some (r, t)) write s = (ok r, write t s)
