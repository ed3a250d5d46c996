-- ===== src/Store/Holds.antt =====
-- A property of the database through the steps of a handler: if it holds after the first step, and
-- each continuation keeps it, it holds at the end; a transaction keeps what its callback keeps.
use booking_platform_claude.Prelude.{
  ◌≡◌, refl, subst, sym, ap, ◌∙◌, Bool, true, false, Option, none, some, List, if◌then◌else◌,
}
use booking_platform_claude.Store.{Db, Client}
use booking_platform_claude.Store.Action.{
  Action, Error, Result, ok, err, ◌>>=◌, followed, settled, transaction, or_throw, throw_if, stored,
  stored_row,
}

module _ (P : Db → Type 0) where
  followed_holds :
      {A B : Type 0} (r : Result A × Db) (f : A → Action B)
      → P r.1
      → ((a : A) (t : Db) → r ≡ (ok a, t) → P t → P (f a t).1)
      → P (followed r f).1
  followed_holds (ok a, s) f h k = k a s refl h
  followed_holds (err e, s) f h k = h

  pub bind_holds :
      {A B : Type 0} (m : Action A) (f : A → Action B) (s : Db)
      → P (m s).1
      → ((a : A) (t : Db) → m s ≡ (ok a, t) → P t → P (f a t).1)
      → P ((m >>= f) s).1
  bind_holds m f s h k = followed_holds (m s) f h k

  settled_holds :
      {A : Type 0} (c : Client) (s : Db) (r : Result A × Db) → P s → P r.1 → P (settled c s r).1
  settled_holds c s (ok a, t) h k = subst P (sym (c.commit_lem s t)) k
  settled_holds c s (err e, t) h k = subst P (sym (c.rollback_lem s t)) h

  pub transaction_holds :
      {A : Type 0} (c : Client) (m : Action A) (s : Db) → P s → P (m s).1 → P (transaction c m s).1
  transaction_holds c m s h k = settled_holds c s (m s) h k

  pub or_throw_holds :
      {A B : Type 0} (e : Error) (o : Option A) (f : A → Action B) (s : Db)
      → P s
      → ((a : A) → o ≡ some a → P (f a s).1)
      → P ((or_throw o e >>= f) s).1
  or_throw_holds e none f s h k = h
  or_throw_holds e (some a) f s h k = k a refl

  pub throw_if_holds :
      {B : Type 0} (b : Bool) (e : Error) (f : Unit {0} → Action B) (s : Db)
      → P s
      → (b ≡ false → P (f tt s).1)
      → P ((throw_if b e >>= f) s).1
  throw_if_holds true e f s h k = h
  throw_if_holds false e f s h k = k refl

  pub choice_holds :
      {B : Type 0} (b : Bool) (m n : Action B) (s : Db)
      → P (m s).1
      → P (n s).1
      → P ((if b then m else n) s).1
  choice_holds true m n s h k = h
  choice_holds false m n s h k = k

  -- A write by `create`, by `update` or by `upsert`.
  pub stored_holds :
      {R : Type 0} (o : Option (List R)) (write : List R → Db → Db) (s : Db)
      → P s
      → ((t : List R) → o ≡ some t → P (write t s))
      → P (stored o write s).1
  stored_holds none write s h k = h
  stored_holds (some t) write s h k = k t refl

  pub stored_row_holds :
      {R : Type 0} (o : Option (R × List R)) (write : List R → Db → Db) (s : Db)
      → P s
      → ((r : R) (t : List R) → o ≡ some (r, t) → P (write t s))
      → P (stored_row o write s).1
  stored_row_holds none write s h k = h
  stored_row_holds (some (r, t)) write s h k = k r t refl

-- What a step that returned has done, and what followed.
followed_ok :
    {A B : Type 0} (r : Result A × Db) (f : A → Action B) {b : B} {t : Db}
    → followed r f ≡ (ok b, t)
    → (a : A) × (s' : Db) × (r ≡ (ok a, s')) × (f a s' ≡ (ok b, t))
followed_ok (ok a, s') f e = (a, s', refl, e)
followed_ok {B} (err x, s') f e = cc (ap (λ (z : Result B × Db). z.0) e)

pub bind_ok :
    {A B : Type 0} (m : Action A) (f : A → Action B) (s : Db) {b : B} {t : Db}
    → (m >>= f) s ≡ (ok b, t)
    → (a : A) × (s' : Db) × (m s ≡ (ok a, s')) × (f a s' ≡ (ok b, t))
bind_ok m f s e = followed_ok (m s) f e

settled_commits :
    (P : Db → Type 0) {A : Type 0} (c : Client) (s : Db) (r : Result A × Db)
    → P s
    → ((a : A) (t : Db) → r ≡ (ok a, t) → P t)
    → P (settled c s r).1
settled_commits P c s (ok a, t) h k = subst P (sym (c.commit_lem s t)) (k a t refl)
settled_commits P c s (err e, t) h k = subst P (sym (c.rollback_lem s t)) h

-- A transaction keeps what holds before it and after every callback that returns.
pub transaction_commits :
    (P : Db → Type 0) {A : Type 0} (c : Client) (m : Action A) (s : Db)
    → P s
    → ((a : A) (t : Db) → m s ≡ (ok a, t) → P t)
    → P (transaction c m s).1
transaction_commits P c m s h k = settled_commits P c s (m s) h k

settled_ok :
    {A : Type 0} (c : Client) (s : Db) (r : Result A × Db) {b : A} {t : Db}
    → settled c s r ≡ (ok b, t)
    → r ≡ (ok b, t)
settled_ok c s (ok a, t') e = rw (sym (c.commit_lem s t')) e
settled_ok {A} c s (err x, t') e = cc (ap (λ (z : Result A × Db). z.0) e)

-- A transaction that returns has done what its callback did.
pub transaction_ok :
    {A : Type 0} (c : Client) (m : Action A) (s : Db) {b : A} {t : Db}
    → transaction c m s ≡ (ok b, t)
    → m s ≡ (ok b, t)
transaction_ok c m s e = settled_ok c s (m s) e

settled_err :
    {A : Type 0} (c : Client) (s : Db) (r : Result A × Db) {e : Error} {t : Db}
    → settled c s r ≡ (err e, t)
    → t ≡ s
settled_err {A} c s (ok a, t') e = cc (ap (λ (z : Result A × Db). z.0) e)
settled_err {A} c s (err x, t') e = sym (ap (λ (z : Result A × Db). z.1) e) ∙ c.rollback_lem s t'

-- A transaction that throws has done nothing.
pub transaction_err :
    {A : Type 0} (c : Client) (m : Action A) (s : Db) {e : Error} {t : Db}
    → transaction c m s ≡ (err e, t)
    → t ≡ s
transaction_err c m s e = settled_err c s (m s) e

followed_err :
    {A B : Type 0} (P : Db → Type 0) (r : Result A × Db) (f : A → Action B) {x : Error} {t : Db}
    → followed r f ≡ (err x, t)
    → P r.1
    → ((a : A) (s' : Db) → r ≡ (ok a, s') → P s' → f a s' ≡ (err x, t) → P t)
    → P t
followed_err P (ok a, s') f e h k = k a s' refl h e
followed_err {A} {B} P (err y, s') f e h k = subst P (ap (λ (z : Result B × Db). z.1) e) h

-- What holds after a step holds after the throw of what follows.
pub bind_err :
    {A B : Type 0} (P : Db → Type 0) (m : Action A) (f : A → Action B) (s : Db) {x : Error} {t : Db}
    → (m >>= f) s ≡ (err x, t)
    → P (m s).1
    → ((a : A) (s' : Db) → m s ≡ (ok a, s') → P s' → f a s' ≡ (err x, t) → P t)
    → P t
bind_err P m f s e h k = followed_err P (m s) f e h k
