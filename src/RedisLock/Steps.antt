-- ===== src/RedisLock/Steps.antt =====
-- Processes that take and give back locks of apps/backend/src/common/redis/redis-lock.service.ts, in
-- any order, as time goes by.
use booking_platform_claude.Prelude.{
  ℕ, ◌+◌, ◌≡◌, false, not, Option, none, some, List, [], ◌∷◌, All, In, keep, ◌==◌,
}
use booking_platform_claude.RedisLock.{Redis, acquire, release}

-- Who was given a lock: the key, the token, and the instant until which it was given.
pub record Holder : Type 0 where
  pub key : ℕ
  pub token : ℕ
  pub deadline : ℕ

module _ (r : Redis) where
  pub record LockState : Type 0 where
    pub clock : ℕ
    pub store : r.Store
    pub holders : List Holder

  abbrev pub with_holder : Option ℕ → ℕ → ℕ → List Holder → List Holder
  with_holder none key deadline hs = hs
  with_holder (some token) key deadline hs =
      record { key = key; token = token; deadline = deadline } ∷ hs

  -- After a call of `acquire`, whatever it answered.
  abbrev pub after_acquire : ℕ → ℕ → ℕ → LockState → LockState
  after_acquire key token ttl st =
      let (got, s) = acquire r st.clock key token ttl st.store in
      record {
        clock = st.clock;
        store = s;
        holders = with_holder got key (st.clock + ttl) st.holders;
      }

  -- After a call of `release` by a holder.
  abbrev pub after_release : Holder → LockState → LockState
  after_release h st = record {
    clock = st.clock;
    store = release r st.clock h.key h.token st.store;
    holders = keep (λ g. not (g.token == h.token)) st.holders;
  }

  -- One step: time passes, or somebody asks for a lock with a token that nobody has, or a holder
  -- gives a lock back, in time or too late.
  pub data Step : LockState → LockState → Type 0 where
    waits : (st : LockState) (n : ℕ) → Step st (record st { clock = st.clock + n })
    asks :
        (st : LockState) (key token ttl : ℕ)
        → All (λ (h : Holder). (token == h.token) ≡ false) st.holders
        → Step st (after_acquire key token ttl st)
    gives_back : (st : LockState) (h : Holder) → In h st.holders → Step st (after_release h st)

  -- What is reached from a state in which nobody holds a lock.
  pub data Reachable : LockState → Type 0 where
    begins :
        (clock : ℕ) (s : r.Store) → Reachable (record { clock = clock; store = s; holders = [] })
    goes : (st st' : LockState) → Reachable st → Step st st' → Reachable st'
