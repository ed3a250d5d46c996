-- ===== src/Store/Sorted.antt =====
-- The ordered queries of the client in memory: the matching rows, sorted by insertion, and a page
-- of them.
use booking_platform_claude.Prelude.{
  ℕ, ◌-◌, ◌≡◌, refl, sym, ap, ◌∙◌, subst, min, suc, zero, Bool, true, ◌⊎◌, inl, inr, List, [], ◌∷◌,
  keep, length, In, leb, arith, Bool-cases, if◌then◌else◌,
}
use booking_platform_claude.Store.Tables.{SortOrder, asc, desc}

-- The first number stands before the second.
abbrev before : SortOrder → ℕ → ℕ → Bool
before asc a b = leb a b
before desc a b = leb b a

module _ {R : Type 0} where
  abbrev pub take : ℕ → List R → List R
  take zero xs = []
  take (suc n) [] = []
  take (suc n) (x ∷ xs) = x ∷ take n xs

  abbrev pub drop : ℕ → List R → List R
  drop zero xs = xs
  drop (suc n) [] = []
  drop (suc n) (x ∷ xs) = drop n xs

  abbrev insert : SortOrder → (R → ℕ) → R → List R → List R
  insert o key x [] = x ∷ []
  insert o key x (y ∷ ys) =
      let rest = insert o key x ys in if before o (key x) (key y) then x ∷ y ∷ ys else y ∷ rest

  abbrev sort : SortOrder → (R → ℕ) → List R → List R
  sort o key [] = []
  sort o key (x ∷ xs) = insert o key x (sort o key xs)

  abbrev pub ordered : SortOrder → (R → ℕ) → (R → Bool) → List R → List R
  ordered o key p t = sort o key (keep p t)

  abbrev pub paged : (R → ℕ) → (R → Bool) → ℕ → ℕ → List R → List R
  paged key p skip n t = take n (drop skip (ordered desc key p t))

  In-insert :
      (o : SortOrder) (key : R → ℕ) (x r : R) (xs : List R)
      → In r (insert o key x xs)
      → (x ≡ r) ⊎ In r xs
  In-insert o key x r [] i = i
  In-insert o key x r (y ∷ ys) i = elim (Bool-cases (before o (key x) (key y))) [
    | inl hit ↦ subst (λ b. In r (if b then x ∷ y ∷ ys else y ∷ insert o key x ys)) hit i
    | inr miss ↦ elim (subst (λ b. In r (if b then x ∷ y ∷ ys else y ∷ insert o key x ys)) miss i) [
      | inl same ↦ inr (inl same)
      | inr j ↦ elim (In-insert o key x r ys j) [ inl same ↦ inl same | inr k ↦ inr (inr k) ]
    ]
  ]

  insert-In :
      (o : SortOrder) (key : R → ℕ) (x r : R) (xs : List R)
      → (x ≡ r) ⊎ In r xs
      → In r (insert o key x xs)
  insert-In o key x r [] i = i
  insert-In o key x r (y ∷ ys) i = elim (Bool-cases (before o (key x) (key y))) [
    | inl hit ↦ subst (λ b. In r (if b then x ∷ y ∷ ys else y ∷ insert o key x ys)) (sym hit) i
    | inr miss ↦
        subst (λ b. In r (if b then x ∷ y ∷ ys else y ∷ insert o key x ys)) (sym miss)
          (elim i [
            | inl same ↦ inr (insert-In o key x r ys (inl same))
            | inr (inl same) ↦ inl same
            | inr (inr j) ↦ inr (insert-In o key x r ys (inr j))
          ])
  ]

  length-insert :
      (o : SortOrder) (key : R → ℕ) (x : R) (xs : List R)
      → length (insert o key x xs) ≡ suc (length xs)
  length-insert o key x [] = refl
  length-insert o key x (y ∷ ys) = ground (arith, length-insert o key x ys)

  In-sort : (o : SortOrder) (key : R → ℕ) (r : R) (xs : List R) → In r (sort o key xs) → In r xs
  In-sort o key r [] i = i
  In-sort o key r (x ∷ xs) i = elim (In-insert o key x r (sort o key xs) i) [
    | inl same ↦ inl same
    | inr j ↦ inr (In-sort o key r xs j)
  ]

  sort-In : (o : SortOrder) (key : R → ℕ) (r : R) (xs : List R) → In r xs → In r (sort o key xs)
  sort-In o key r [] i = i
  sort-In o key r (x ∷ xs) (inl same) = insert-In o key x r (sort o key xs) (inl same)
  sort-In o key r (x ∷ xs) (inr i) =
      insert-In o key x r (sort o key xs) (inr (sort-In o key r xs i))

  length-sort : (o : SortOrder) (key : R → ℕ) (xs : List R) → length (sort o key xs) ≡ length xs
  length-sort o key [] = refl
  length-sort o key (x ∷ xs) = length-insert o key x (sort o key xs) ∙ ap suc (length-sort o key xs)

  pub In-keep : (p : R → Bool) (r : R) (t : List R) → In r (keep p t) → In r t × (p r ≡ true)
  In-keep p r [] i = elim i [ ]
  In-keep p r (x ∷ xs) i = elim (Bool-cases (p x)) [
    | inl hit ↦ elim (subst (λ b. In r (if b then x ∷ keep p xs else keep p xs)) hit i) [
      | inl same ↦ (inl same, subst (λ z. p z ≡ true) same hit)
      | inr j ↦ let rest = In-keep p r xs j in (inr rest.0, rest.1)
    ]
    | inr miss ↦
        let rest =
          In-keep p r xs (subst (λ b. In r (if b then x ∷ keep p xs else keep p xs)) miss i) in
        (inr rest.0, rest.1)
  ]

  pub keep-In : (p : R → Bool) (r : R) (t : List R) → In r t → p r ≡ true → In r (keep p t)
  keep-In p r [] i h = i
  keep-In p r (x ∷ xs) (inl same) h =
      let hit : p x ≡ true = subst (λ z. p z ≡ true) (sym same) h in
      subst (λ b. In r (if b then x ∷ keep p xs else keep p xs)) (sym hit) (inl same)
  keep-In p r (x ∷ xs) (inr i) h = elim (Bool-cases (p x)) [
    | inl hit ↦
        subst (λ b. In r (if b then x ∷ keep p xs else keep p xs)) (sym hit)
          (inr (keep-In p r xs i h))
    | inr miss ↦
        subst (λ b. In r (if b then x ∷ keep p xs else keep p xs)) (sym miss) (keep-In p r xs i h)
  ]

  In-drop : (n : ℕ) (r : R) (xs : List R) → In r (drop n xs) → In r xs
  In-drop zero r xs i = i
  In-drop (suc n) r [] i = i
  In-drop (suc n) r (x ∷ xs) i = inr (In-drop n r xs i)

  In-take : (n : ℕ) (r : R) (xs : List R) → In r (take n xs) → In r xs
  In-take zero r xs i = elim i [ ]
  In-take (suc n) r [] i = i
  In-take (suc n) r (x ∷ xs) (inl same) = inl same
  In-take (suc n) r (x ∷ xs) (inr i) = inr (In-take n r xs i)

  length-take : (n : ℕ) (xs : List R) → length (take n xs) ≡ min n (length xs)
  length-take zero xs = ground arith
  length-take (suc n) [] = ground arith
  length-take (suc n) (x ∷ xs) = ground (arith, length-take n xs)

  length-drop : (n : ℕ) (xs : List R) → length (drop n xs) ≡ length xs - n
  length-drop zero xs = ground arith
  length-drop (suc n) [] = ground arith
  length-drop (suc n) (x ∷ xs) = ground (arith, length-drop n xs)

  pub ordered-some :
      (o : SortOrder) (key : R → ℕ) (p : R → Bool) (t : List R) (r : R)
      → In r (ordered o key p t)
      → In r t × (p r ≡ true)
  ordered-some o key p t r i = In-keep p r t (In-sort o key r (keep p t) i)

  pub ordered-all :
      (o : SortOrder) (key : R → ℕ) (p : R → Bool) (t : List R) (r : R)
      → In r t
      → p r ≡ true
      → In r (ordered o key p t)
  ordered-all o key p t r i h = sort-In o key r (keep p t) (keep-In p r t i h)

  pub paged-some :
      (key : R → ℕ) (p : R → Bool) (skip n : ℕ) (t : List R) (r : R)
      → In r (paged key p skip n t)
      → In r t × (p r ≡ true)
  paged-some key p skip n t r i =
      ordered-some desc key p t r
        (In-drop skip r (ordered desc key p t) (In-take n r (drop skip (ordered desc key p t)) i))

  pub length-paged :
      (key : R → ℕ) (p : R → Bool) (skip n : ℕ) (t : List R)
      → length (paged key p skip n t) ≡ min n (length (keep p t) - skip)
  length-paged key p skip n t =
      length-take n (drop skip (ordered desc key p t))
      ∙ ap (min n) (
          length-drop skip (ordered desc key p t)
          ∙ ap (λ z. z - skip) (length-sort desc key (keep p t)))
