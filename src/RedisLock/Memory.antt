-- ===== src/RedisLock/Memory.antt =====
-- A Redis that keeps its keys in a function: the laws of the parameter can be met.
use booking_platform_claude.Prelude.{
  ℕ, ◌+◌, ◌≤◌, ◌<◌, ◌≡◌, refl, sym, subst, lt→ltb, Bool, true, false, Option, none, some, ltb, ◌==◌,
  ==_refl, arith, if◌then◌else◌,
}
use booking_platform_claude.RedisLock.{Redis}

-- A value and the instant at which it expires.
abbrev pub Entries : Type 0
Entries = ℕ → Option (ℕ × ℕ)

abbrev value_at : ℕ → Option (ℕ × ℕ) → Option ℕ
value_at now none = none
value_at now (some (v, expires)) = if ltb now expires then some v else none

abbrev get_entry : ℕ → ℕ → Entries → Option ℕ
get_entry now key s = value_at now (s key)

abbrev put_entry : ℕ → Option (ℕ × ℕ) → Entries → Entries
put_entry key e s k = if k == key then e else s k

abbrev set_if_free : ℕ → ℕ → ℕ → ℕ → Entries → Option ℕ → Bool × Entries
set_if_free now key token ttl s none = (true, put_entry key (some (token, now + ttl)) s)
set_if_free now key token ttl s (some v) = (false, s)

abbrev set_entry : ℕ → ℕ → ℕ → ℕ → Entries → Bool × Entries
set_entry now key token ttl s = set_if_free now key token ttl s (get_entry now key s)

pub set_if_free-other :
    (now key token ttl t other : ℕ) (s : Entries) (o : Option ℕ)
    → (other == key) ≡ false
    → get_entry t other (set_if_free now key token ttl s o).1 ≡ get_entry t other s
set_if_free-other now key token ttl t other s none e = ground (arith, e)
set_if_free-other now key token ttl t other s (some v) e = refl

pub set_entry-get :
    (now key token ttl t : ℕ) (s : Entries)
    → get_entry now key s ≡ none
    → now ≤ t
    → t < now + ttl
    → get_entry t key (set_entry now key token ttl s).1 ≡ some token
set_entry-get now key token ttl t s e h k =
    subst (λ z. get_entry t key (set_if_free now key token ttl s z).1 ≡ some token) (sym e)
      (ground (arith, ==_refl key, lt→ltb t (now + ttl) k))

pub put_entry-none : (key t : ℕ) (s : Entries) → get_entry t key (put_entry key none s) ≡ none
put_entry-none key t s = ground (arith, ==_refl key)

pub put_entry-other :
    (key t other : ℕ) (s : Entries)
    → (other == key) ≡ false
    → get_entry t other (put_entry key none s) ≡ get_entry t other s
put_entry-other key t other s e = ground (arith, e)

abbrev pub memory_redis : Redis
memory_redis = record {
  Store = Entries;
  get = get_entry;
  set_nx = set_entry;
  del = λ key s. put_entry key none s;
  set_nx_free = λ now key token ttl s e.
      subst (λ z. (set_if_free now key token ttl s z).0 ≡ true) (sym e) refl;
  set_nx_taken = λ now key token ttl v s e.
      subst (λ z. set_if_free now key token ttl s z ≡ (false, s)) (sym e) refl;
  get-set_nx = set_entry-get;
  get-set_nx_other = λ now key token ttl t other s.
      set_if_free-other now key token ttl t other s (get_entry now key s);
  get-del = put_entry-none;
  get-del_other = put_entry-other;
}
