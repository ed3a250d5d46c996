-- ===== src/Prelude/Lists.antt =====
-- Lists as tables of rows: predicates on all rows and on all pairs of rows, and their laws under
-- the row-wise update.
use Prim.Native.Nat.{ℕ, suc}
use mathlib.Core.Path.{◌≡◌, refl, subst, sym, ap, ◌∙◌}
use mathlib.Core.Logic.{◌⊎◌, inl, inr}
use mathlib.Core.Bool.{Bool, true, false, ◌||◌}
use mathlib.Core.List.{List, [], ◌∷◌, ◌++◌}
use native.Mathlib.Omega.{arith}
use booking_platform_claude.Prelude.Tests.{◌==◌, if◌then◌else◌, Bool-cases}

module _ {ℓ} {A : Type ℓ} where
  abbrev pub length : List A → ℕ
  length [] = 0
  length (x ∷ xs) = suc (length xs)

  abbrev pub any : (A → Bool) → List A → Bool
  any p [] = false
  any p (x ∷ xs) = p x || any p xs

  -- The rows that pass the test, in their order.
  abbrev pub keep : (A → Bool) → List A → List A
  keep p [] = []
  keep p (x ∷ xs) = if p x then x ∷ keep p xs else keep p xs

  abbrev pub rewrite : (A → Bool) → (A → A) → A → A
  rewrite p f x = if p x then f x else x

  -- `UPDATE … SET f WHERE p` on the rows.
  abbrev pub update_where : (A → Bool) → (A → A) → List A → List A
  update_where p f [] = []
  update_where p f (x ∷ xs) = rewrite p f x ∷ update_where p f xs

  abbrev pub All {κ} : (A → Type κ) → List A → Type κ
  All P [] = Unit
  All P (x ∷ xs) = P x × All P xs

  -- The relation holds between every row and every row behind it.
  abbrev pub AllPairs {κ} : (A → A → Type κ) → List A → Type κ
  AllPairs R [] = Unit
  AllPairs R (x ∷ xs) = All (R x) xs × AllPairs R xs

-- The row stands in the table.
abbrev pub In : {A : Type 0} → A → List A → Type 0
In a [] = ⊥
In a (x ∷ xs) = (x ≡ a) ⊎ In a xs

module _ {ℓ} {A : Type ℓ} where
  -- A test that no row passes fails on each.
  pub All-of_any : (p : A → Bool) (xs : List A) → any p xs ≡ false → All (λ x. p x ≡ false) xs
  All-of_any p [] h = tt
  All-of_any p (x ∷ xs) h = elim (Bool-cases (p x)) [
    | inl e ↦ cc
    | inr e ↦ (e, All-of_any p xs (ground arith))
  ]

  pub All-mono {κ ι} :
      {P : A → Type κ} {Q : A → Type ι} (xs : List A) → ((x : A) → P x → Q x) → All P xs → All Q xs
  All-mono [] f h = tt
  All-mono (x ∷ xs) f h = (f x h.0, All-mono xs f h.1)

  pub All-zip {κ ι ο} :
      {P : A → Type κ} {Q : A → Type ι} {R : A → Type ο} (xs : List A)
      → ((x : A) → P x → Q x → R x)
      → All P xs
      → All Q xs
      → All R xs
  All-zip [] f h k = tt
  All-zip (x ∷ xs) f h k = (f x h.0 k.0, All-zip xs f h.1 k.1)

module _ {A : Type 0} where
  -- What holds of all rows holds of a row of the table.
  pub All-In {κ} : (P : A → Type κ) (a : A) (xs : List A) → All P xs → In a xs → P a
  All-In P a [] h i = elim i [ ]
  All-In P a (x ∷ xs) h (inl e) = subst P e h.0
  All-In P a (x ∷ xs) h (inr i) = All-In P a xs h.1 i

-- A table keeps a property of its rows, or of its pairs of rows, if the rewritten rows keep it.
module _ {ℓ κ} {A : Type ℓ} (p : A → Bool) (f : A → A) where
  pub All-update_where :
      {P : A → Type κ} (Q : A → Type κ) (xs : List A)
      → ((x : A) → P x → Q (rewrite p f x))
      → All P xs
      → All Q (update_where p f xs)
  All-update_where Q [] step h = tt
  All-update_where Q (x ∷ xs) step h = (step x h.0, All-update_where Q xs step h.1)

  pub AllPairs-update_where :
      {R : A → A → Type κ} (S : A → A → Type κ) (xs : List A)
      → ((x y : A) → R x y → S (rewrite p f x) (rewrite p f y))
      → AllPairs R xs
      → AllPairs S (update_where p f xs)
  AllPairs-update_where S [] step h = tt
  AllPairs-update_where S (x ∷ xs) step h =
      (All-update_where (S (rewrite p f x)) xs (step x) h.0, AllPairs-update_where S xs step h.1)

module _ {ℓ} {A : Type ℓ} where
  -- A property of the single rows joins a relation between them.
  pub AllPairs-with {κ ι} :
      (R : A → A → Type κ) (P : A → Type ι) (xs : List A)
      → All P xs
      → AllPairs R xs
      → AllPairs (λ x y. R x y × P x × P y) xs
  AllPairs-with R P [] h k = tt
  AllPairs-with R P (x ∷ xs) h k =
      (All-zip xs (λ y r q. (r, h.0, q)) k.0 h.1, AllPairs-with R P xs h.1 k.1)

module _ {A : Type 0} where
  pub In-update_where :
      (p : A → Bool) (f : A → A) (x : A) (t : List A)
      → In x t
      → In (rewrite p f x) (update_where p f t)
  In-update_where p f x [] i = i
  In-update_where p f x (y ∷ ys) (inl e) = inl (ap (rewrite p f) e)
  In-update_where p f x (y ∷ ys) (inr i) = inr (In-update_where p f x ys i)

  pub In-++ : (a : A) (xs ys : List A) → In a (xs ++ ys) → In a xs ⊎ In a ys
  In-++ a [] ys i = inr i
  In-++ a (x ∷ xs) ys (inl e) = inl (inl e)
  In-++ a (x ∷ xs) ys (inr i) = elim (In-++ a xs ys i) [ inl j ↦ inl (inr j) | inr j ↦ inr j ]

  pub ++-In : (a : A) (xs ys : List A) → In a xs → In a (xs ++ ys)
  ++-In a [] ys i = elim i [ ]
  ++-In a (x ∷ xs) ys (inl e) = inl e
  ++-In a (x ∷ xs) ys (inr i) = inr (++-In a xs ys i)

  -- Two rows of a table whose keys differ from row to row are one row if they have one key.
  pub same_row :
      (key : A → ℕ) (a b : A) (t : List A)
      → AllPairs (λ x y. (key x == key y) ≡ false) t
      → In a t
      → In b t
      → (key a == key b) ≡ true
      → a ≡ b
  same_row key a b [] h i j e = elim i [ ]
  same_row key a b (x ∷ xs) h (inl e1) (inl e2) e = sym e1 ∙ e2
  same_row key a b (x ∷ xs) h (inl e1) (inr j) e =
      let apart = All-In (λ y. (key x == key y) ≡ false) b xs h.0 j in
      absurd (ground (arith, apart, subst (λ z. (key z == key b) ≡ true) (sym e1) e))
  same_row key a b (x ∷ xs) h (inr i) (inl e2) e =
      let apart = All-In (λ y. (key x == key y) ≡ false) a xs h.0 i in
      absurd (ground (arith, apart, subst (λ z. (key a == key z) ≡ true) (sym e2) e))
  same_row key a b (x ∷ xs) h (inr i) (inr j) e = same_row key a b xs h.1 i j e

  -- Two places of a list whose elements are related in pairs.
  pub In-AllPairs :
      (S : A → A → Type 0) (a b : A) (t : List A)
      → AllPairs S t
      → In a t
      → In b t
      → (a ≡ b) ⊎ (S a b ⊎ S b a)
  In-AllPairs S a b [] h i j = elim i [ ]
  In-AllPairs S a b (x ∷ xs) h (inl e1) (inl e2) = inl (sym e1 ∙ e2)
  In-AllPairs S a b (x ∷ xs) h (inl e1) (inr j) =
      inr (inl (subst (λ z. S z b) e1 (All-In (S x) b xs h.0 j)))
  In-AllPairs S a b (x ∷ xs) h (inr i) (inl e2) =
      inr (inr (subst (λ z. S z a) e2 (All-In (S x) a xs h.0 i)))
  In-AllPairs S a b (x ∷ xs) h (inr i) (inr j) = In-AllPairs S a b xs h.1 i j

  pub All-of_In {κ} : (P : A → Type κ) (t : List A) → ((a : A) → In a t → P a) → All P t
  All-of_In P [] f = tt
  All-of_In P (x ∷ xs) f = (f x (inl refl), All-of_In P xs (λ a i. f a (inr i)))
