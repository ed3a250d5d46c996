-- ===== src/RedisLock.antt =====
-- apps/backend/src/common/redis/redis-lock.service.ts: the lock on a key. Redis is a parameter, with
-- what its documentation says of SET with NX and PX, GET and DEL; times are milliseconds.
-- Here Redis always answers; what its failure does to a call is in Booking.Hold.
pub mod Memory
pub mod Steps
pub mod Exclusive
use booking_platform_claude.Prelude.{
  ℕ, ◌+◌, ◌≤◌, ◌<◌, ◌≡◌, Bool, true, false, Option, none, some, ltb, ◌==◌, opt_eq, if◌then◌else◌,
}

pub record Redis : Type 1 where
  pub Store : Type 0
  -- `GET key`, at an instant
  pub get : ℕ → ℕ → Store → Option ℕ
  -- `SET key token PX ttl NX`, at an instant: whether it answered `OK`
  pub set_nx : ℕ → ℕ → ℕ → ℕ → Store → Bool × Store
  -- `DEL key`
  pub del : ℕ → Store → Store
  -- NX: it is set exactly if there was no value, and else nothing happens.
  pub set_nx_free :
      (now key token ttl : ℕ) (s : Store)
      → get now key s ≡ none
      → (set_nx now key token ttl s).0 ≡ true
  pub set_nx_taken :
      (now key token ttl v : ℕ) (s : Store)
      → get now key s ≡ some v
      → set_nx now key token ttl s ≡ (false, s)
  -- PX: the value stands for `ttl` milliseconds.
  pub get-set_nx :
      (now key token ttl t : ℕ) (s : Store)
      → get now key s ≡ none
      → now ≤ t
      → t < now + ttl
      → get t key (set_nx now key token ttl s).1 ≡ some token
  pub get-set_nx_other :
      (now key token ttl t other : ℕ) (s : Store)
      → (other == key) ≡ false
      → get t other (set_nx now key token ttl s).1 ≡ get t other s
  pub get-del : (key t : ℕ) (s : Store) → get t key (del key s) ≡ none
  pub get-del_other :
      (key t other : ℕ) (s : Store)
      → (other == key) ≡ false
      → get t other (del key s) ≡ get t other s

-- What `withLock` gives: `LOCK_BUSY`, or what its function gave, a result or an exception.
pub data Locked (A : Type 0) : Type 0 where
  busy : Locked A
  ran : A → Locked A

module _ (r : Redis) where
  -- The answer of SET, as `acquire` returns it.
  abbrev pub token_if : ℕ → Bool × r.Store → Option ℕ × r.Store
  token_if token (true, s) = (some token, s)
  token_if token (false, s) = (none, s)

  -- `acquire`, with the random token
  unfoldable pub acquire : ℕ → ℕ → ℕ → ℕ → r.Store → Option ℕ × r.Store
  acquire now key token ttl s = token_if token (r.set_nx now key token ttl s)

  -- `release`: the script deletes the key if it still has the token.
  unfoldable pub release : ℕ → ℕ → ℕ → r.Store → r.Store
  release now key token s = if opt_eq (r.get now key s) (some token) then r.del key s else s

  abbrev finally : {A : Type 0} → ℕ → ℕ → ℕ → A × r.Store → Locked A × r.Store
  finally now key token (a, s) = (ran a, release now key token s)

  abbrev guarded :
      {A : Type 0} → ℕ → ℕ → (r.Store → A × r.Store) → Option ℕ × r.Store → Locked A × r.Store
  guarded now key fn (none, s) = (busy, s)
  guarded now key fn (some token, s) = finally now key token (fn s)

  -- `withLock`, with the instants at which it asks for the lock and at which its function is done
  unfoldable pub with_lock :
      {A : Type 0} → ℕ → ℕ → ℕ → ℕ → ℕ → (r.Store → A × r.Store) → r.Store → Locked A × r.Store
  with_lock start end key token ttl fn s = guarded end key fn (acquire start key token ttl s)
