-- ===== src/RedisLock/Exclusive.antt =====
-- Mutual exclusion by apps/backend/src/common/redis/redis-lock.service.ts.
use booking_platform_claude.Prelude.{
  ℕ, ◌+◌, ◌≤◌, ◌<◌, ◌≡◌, refl, sym, ap, ◌∙◌, subst, Bool, true, false, not, inl, inr, Option, none,
  some, List, [], ◌∷◌, All, AllPairs, All-mono, All-In, In, keep, same_row, Bool-cases, ◌==◌,
  ==_iff, opt_eq, arith, if◌then◌else◌,
}
use booking_platform_claude.RedisLock.{Redis, token_if, acquire, release}
use booking_platform_claude.RedisLock.Steps.{
  Holder, LockState, Step, waits, asks, gives_back, Reachable, begins, goes, with_holder,
  after_acquire, after_release,
}

All-keep :
    {A : Type 0} (P Q : A → Type 0) (p : A → Bool) (xs : List A)
    → ((x : A) → p x ≡ true → P x → Q x)
    → All P xs
    → All Q (keep p xs)
All-keep P Q p [] f h = tt
All-keep P Q p (x ∷ xs) f h = elim (Bool-cases (p x)) [
  | inl hit ↦
      subst (λ b. All Q (if b then x ∷ keep p xs else keep p xs)) (sym hit)
        (f x hit h.0, All-keep P Q p xs f h.1)
  | inr miss ↦
      subst (λ b. All Q (if b then x ∷ keep p xs else keep p xs)) (sym miss)
        (All-keep P Q p xs f h.1)
]

AllPairs-keep :
    {A : Type 0} (R : A → A → Type 0) (p : A → Bool) (xs : List A)
    → AllPairs R xs
    → AllPairs R (keep p xs)
AllPairs-keep R p [] h = tt
AllPairs-keep R p (x ∷ xs) h = elim (Bool-cases (p x)) [
  | inl hit ↦
      subst (λ b. AllPairs R (if b then x ∷ keep p xs else keep p xs)) (sym hit)
        (All-keep (R x) (R x) p xs (λ y _ q. q) h.0, AllPairs-keep R p xs h.1)
  | inr miss ↦
      subst (λ b. AllPairs R (if b then x ∷ keep p xs else keep p xs)) (sym miss)
        (AllPairs-keep R p xs h.1)
]

module _ (r : Redis) where
  -- Until the holder's deadline, the key has the holder's token.
  abbrev Holds : ℕ → r.Store → Holder → Type 0
  Holds clock s h = (t : ℕ) → clock ≤ t → t < h.deadline → r.get t h.key s ≡ some h.token

  pub record IsExclusive (st : LockState r) : Type 0 where
    pub holds : All (Holds st.clock st.store) st.holders
    pub distinct : AllPairs (λ (a b : Holder). (a.token == b.token) ≡ false) st.holders

  still-Holds :
      (now key token ttl : ℕ) (s : r.Store) (h : Holder)
      → r.get now key s ≡ none
      → Holds now s h
      → Holds now (r.set_nx now key token ttl s).1 h
  still-Holds now key token ttl s h nothing held t le lt = elim (Bool-cases (h.key == key)) [
    | inl same ↦
        let here : r.get now key s ≡ some h.token =
          subst (λ z. r.get now z s ≡ some h.token) ((==_iff h.key key).0 same)
            (held now (omega (arith)) (omega (arith, le, lt))) in
        cc
    | inr other ↦ r.get-set_nx_other now key token ttl t h.key s other ∙ held t le lt
  ]

  -- The state after `SET` has answered.
  abbrev answered : ℕ → ℕ → ℕ → ℕ → List Holder → Bool × r.Store → LockState r
  answered now key token ttl hs z = record {
    clock = now;
    store = (token_if r token z).1;
    holders = with_holder r (token_if r token z).0 key (now + ttl) hs;
  }

  granted :
      (now key token ttl : ℕ) (hs : List Holder) (z : Bool × r.Store)
      → z.0 ≡ true
      → All (λ (h : Holder). (token == h.token) ≡ false) hs
      → AllPairs (λ (a b : Holder). (a.token == b.token) ≡ false) hs
      → All (Holds now z.1) hs
      → ((t : ℕ) → now ≤ t → t < now + ttl → r.get t key z.1 ≡ some token)
      → IsExclusive (answered now key token ttl hs z)
  granted now key token ttl hs (true, s) e fresh distinct held mine = record {
    holds = (mine, held);
    distinct = (fresh, distinct);
  }
  granted now key token ttl hs (false, s) e fresh distinct held mine = cc

  asked :
      (now key token ttl : ℕ) (s : r.Store) (hs : List Holder) (v : Option ℕ)
      → r.get now key s ≡ v
      → All (λ (h : Holder). (token == h.token) ≡ false) hs
      → IsExclusive (record { clock = now; store = s; holders = hs })
      → IsExclusive
          (after_acquire r key token ttl (record { clock = now; store = s; holders = hs }))
  unfolding acquire
  asked now key token ttl s hs none e fresh h =
      granted now key token ttl hs (r.set_nx now key token ttl s)
        (r.set_nx_free now key token ttl s e) fresh h.distinct
        (All-mono hs (λ g. still-Holds now key token ttl s g e) h.holds)
        (λ t le lt. r.get-set_nx now key token ttl t s e le lt)
  asked now key token ttl s hs (some v) e fresh h =
      subst (λ z. IsExclusive (answered now key token ttl hs z))
        (sym (r.set_nx_taken now key token ttl v s e)) h

  kept-Holds :
      (now : ℕ) (s : r.Store) (g h : Holder)
      → (g.token == h.token) ≡ false
      → Holds now s g
      → Holds now (release r now h.key h.token s) g
  unfolding release
  kept-Holds now s g h other held t le lt =
      elim (Bool-cases (opt_eq (r.get now h.key s) (some h.token))) [
        | inr left ↦ ground (arith, left, held t le lt)
        | inl deleted ↦ elim (Bool-cases (g.key == h.key)) [
          | inr apart ↦ ground (arith, deleted, r.get-del_other h.key t g.key s apart, held t le lt)
          | inl same ↦
              let here : r.get now h.key s ≡ some g.token =
                subst (λ z. r.get now z s ≡ some g.token) ((==_iff g.key h.key).0 same)
                  (held now (omega (arith)) (omega (arith, le, lt))) in
              absurd (ground (arith, here, deleted, other))
        ]
      ]

  waited :
      (st : LockState r) (n : ℕ) → IsExclusive st → IsExclusive (record st { clock = st.clock + n })
  waited st n h = record {
    holds = All-mono st.holders (λ g held t le lt. held t (omega (arith, le)) lt) h.holds;
    distinct = h.distinct;
  }

  given_back : (st : LockState r) (h : Holder) → IsExclusive st → IsExclusive (after_release r h st)
  given_back st h ex = record {
    holds =
        All-keep (Holds st.clock st.store)
          (Holds st.clock (release r st.clock h.key h.token st.store))
          (λ g. not (g.token == h.token)) st.holders
          (λ g other held. kept-Holds st.clock st.store g h (ground (arith, other)) held) ex.holds;
    distinct =
        AllPairs-keep (λ (a b : Holder). (a.token == b.token) ≡ false)
          (λ g. not (g.token == h.token)) st.holders ex.distinct;
  }

  step-IsExclusive : (st st' : LockState r) → Step r st st' → IsExclusive st → IsExclusive st'
  step-IsExclusive _ _ (waits st n) h = waited st n h
  step-IsExclusive _ _ (asks st key token ttl fresh) h =
      asked st.clock key token ttl st.store st.holders (r.get st.clock key st.store) refl fresh h
  step-IsExclusive _ _ (gives_back st g i) h = given_back st g h

  reachable-IsExclusive : (st : LockState r) → Reachable r st → IsExclusive st
  reachable-IsExclusive _ (begins clock s) = record { holds = tt; distinct = tt }
  reachable-IsExclusive _ (goes st0 st reach step) =
      step-IsExclusive st0 st step (reachable-IsExclusive st0 reach)

  -- If nobody holds a lock at first, then after any steps, of time, of `acquire` with a token that no holder has, and of `release` by a holder, in time or too late, two holders of one key whose times have not run out are one.
  pub Reachable-one_holder :
      (st : LockState r) (a b : Holder)
      → Reachable r st
      → In a st.holders
      → In b st.holders
      → a.key ≡ b.key
      → st.clock < a.deadline
      → st.clock < b.deadline
      → a ≡ b
  Reachable-one_holder st a b reach i j same la lb =
      let ex = reachable-IsExclusive st reach in
      let ha =
        All-In (Holds st.clock st.store) a st.holders ex.holds i st.clock (omega (arith)) la in
      let hb =
        All-In (Holds st.clock st.store) b st.holders ex.holds j st.clock (omega (arith)) lb in
      let tokens : some a.token ≡ some b.token =
        sym ha ∙ ap (λ k. r.get st.clock k st.store) same ∙ hb in
      same_row (λ h. h.token) a b st.holders ex.distinct i j (ground (arith, tokens))
