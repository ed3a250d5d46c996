-- ===== src/Store/Reads.antt =====
-- Steps that only read: each returns a value of which something is known, or throws, and leaves the
-- database as it was.
use booking_platform_claude.Prelude.{
  ◌≡◌, refl, ap, ◌∙◌, Bool, true, false, ◌⊎◌, inl, inr, Option, none, some, if◌then◌else◌,
}
use booking_platform_claude.Store.{Db}
use booking_platform_claude.Store.Action.{
  Action, Error, ok, err, ◌>>=◌, followed, or_throw, throw_if,
}

-- The step, begun at `s`, returned a value with the property, or threw.
abbrev pub Reads : {A : Type 0} (P : A → Type 0) (m : Action A) (s : Db) → Type 0
Reads {A} P m s = ((a : A) × (m s ≡ (ok a, s)) × P a) ⊎ ((e : Error) × (m s ≡ (err e, s)))

module _ {A B : Type 0} where
  pub >>=-Reads :
      (P : A → Type 0) (Q : B → Type 0) (m : Action A) (f : A → Action B) (s : Db)
      → Reads P m s
      → ((a : A) → P a → Reads Q (f a) s)
      → Reads Q (m >>= f) s
  >>=-Reads P Q m f s (inl (a, e, h)) k = elim (k a h) [
    | inl (b, e', h') ↦ inl (b, ap (λ r. followed r f) e ∙ e', h')
    | inr (x, e') ↦ inr (x, ap (λ r. followed r f) e ∙ e')
  ]
  >>=-Reads P Q m f s (inr (x, e)) k = inr (x, ap (λ r. followed r f) e)

  -- A reading step in front of a handler: the handler runs on what was read, or nothing happens.
  pub >>=-after :
      (P : A → Type 0) (m : Action A) (f : A → Action B) (s : Db)
      → Reads P m s
      → ((a : A) × P a × ((m >>= f) s ≡ f a s)) ⊎ ((e : Error) × ((m >>= f) s ≡ (err e, s)))
  >>=-after P m f s (inl (a, e, h)) = inl (a, h, ap (λ r. followed r f) e)
  >>=-after P m f s (inr (x, e)) = inr (x, ap (λ r. followed r f) e)

pub throw_if-Reads : (b : Bool) (e : Error) (s : Db) → Reads (λ _. b ≡ false) (throw_if b e) s
throw_if-Reads true e s = inr (e, refl)
throw_if-Reads false e s = inl (tt, refl, refl)

module _ {A : Type 0} (P : A → Type 0) where
  pub guarded-Reads :
      (b : Bool) (e : Error) (f : Unit {0} → Action A) (s : Db)
      → (b ≡ false → Reads P (f tt) s)
      → Reads P (throw_if b e >>= f) s
  guarded-Reads true e f s k = inr (e, refl)
  guarded-Reads false e f s k = k refl

  pub found-Reads :
      {B : Type 0} (o : Option B) (e : Error) (f : B → Action A) (s : Db)
      → ((b : B) → o ≡ some b → Reads P (f b) s)
      → Reads P (or_throw o e >>= f) s
  found-Reads none e f s k = inr (e, refl)
  found-Reads (some b) e f s k = k b refl

  pub choice-Reads :
      (b : Bool) (m n : Action A) (s : Db)
      → (b ≡ true → Reads P m s)
      → (b ≡ false → Reads P n s)
      → Reads P (if b then m else n) s
  choice-Reads true m n s h k = h refl
  choice-Reads false m n s h k = k refl

pub map-Reads :
    {A : Type 0} (P Q : A → Type 0) (m : Action A) (s : Db)
    → ((a : A) → P a → Q a)
    → Reads P m s
    → Reads Q m s
map-Reads P Q m s f (inl (a, e, h)) = inl (a, e, f a h)
map-Reads P Q m s f (inr thrown) = inr thrown
