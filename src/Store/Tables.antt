-- ===== src/Store/Tables.antt =====
-- One delegate of the Prisma client, such as `prisma.booking`: its queries over the table's rows,
-- with the documented meaning of each. Which of several matching rows `findFirst` returns is open.
use booking_platform_claude.Prelude.{
  ℕ, ◌-◌, ◌≤◌, min, ◌≡◌, Bool, true, false, not, Option, none, some, List, [], ◌∷◌, any, keep,
  length, update_where, In, if◌then◌else◌,
}

-- The row that an update returns, and the rows after it; nothing if no row matched.
abbrev pub updated {ℓ} :
    {R : Type ℓ} → (R → Bool) → (R → R) → List R → Option R → Option (R × List R)
updated p f t none = none
updated p f t (some r) = some (f r, update_where p f t)

-- The row that an upsert with an empty update returns, and the rows after it.
abbrev pub upserted {ℓ} :
    {R : Type ℓ} → (R → R → Bool) → R → List R → Option R → Option (R × List R)
upserted clash r t none = if any (clash r) t then none else some (r, r ∷ t)
upserted clash r t (some x) = some (x, t)

-- The rows after a delete by a unique key; nothing if no row matched.
abbrev pub deleted {ℓ} : {R : Type ℓ} → (R → Bool) → List R → Option R → Option (List R)
deleted p t none = none
deleted p t (some r) = some (keep (λ x. not (p x)) t)

-- The rows after all of a list were created; nothing if one of them clashes.
abbrev pub created {ℓ} : {R : Type ℓ} → (R → R → Bool) → List R → List R → Option (List R)
created clash [] t = some t
created clash (r ∷ rs) t = elim (created clash rs t) [
  | none ↦ none
  | some u ↦ if any (clash r) u then none else some (r ∷ u)
]

pub data SortOrder : Type 0 where
  asc desc : SortOrder

pub record Table (R : Type 0) (clash : R → R → Bool) : Type 0 where
  -- `findUnique`, `findFirst`
  pub find_first : (R → Bool) → List R → Option R
  -- `findFirst` with `orderBy: { key: 'desc' }`
  pub find_latest : (R → ℕ) → (R → Bool) → List R → Option R
  pub find_many : (R → Bool) → List R → List R
  -- `create`, which fails on a violated unique key
  pub create : R → List R → Option (List R)
  -- `update` by a unique key, which fails if there is no such row
  pub update : (R → Bool) → (R → R) → List R → Option (R × List R)
  pub update_many : (R → Bool) → (R → R) → List R → List R
  -- `upsert` with `update: {}`
  pub upsert : (R → Bool) → R → List R → Option (R × List R)
  -- `findMany` with `orderBy: { key: ... }`
  pub find_ordered : SortOrder → (R → ℕ) → (R → Bool) → List R → List R
  -- `findMany` with `orderBy: { key: 'desc' }`, `skip` and `take`
  pub find_page : (R → ℕ) → (R → Bool) → ℕ → ℕ → List R → List R
  -- `count`
  pub count : (R → Bool) → List R → ℕ
  -- `delete` by a unique key, which fails if there is no such row
  pub delete : (R → Bool) → List R → Option (List R)
  pub delete_many : (R → Bool) → List R → List R
  -- `createMany`
  pub create_many : List R → List R → Option (List R)
  pub find_first_some :
      (p : R → Bool) (t : List R) (r : R) → find_first p t ≡ some r → In r t × (p r ≡ true)
  pub find_first_none : (p : R → Bool) (t : List R) → find_first p t ≡ none → any p t ≡ false
  pub find_latest_some :
      (key : R → ℕ) (p : R → Bool) (t : List R) (r : R)
      → find_latest key p t ≡ some r
      → In r t × (p r ≡ true)
  pub find_latest_max :
      (key : R → ℕ) (p : R → Bool) (t : List R) (r x : R)
      → find_latest key p t ≡ some r
      → In x t
      → p x ≡ true
      → key x ≤ key r
  pub find_latest_none :
      (key : R → ℕ) (p : R → Bool) (t : List R) → find_latest key p t ≡ none → any p t ≡ false
  pub find_many_lem : (p : R → Bool) (t : List R) → find_many p t ≡ keep p t
  pub create_lem :
      (r : R) (t : List R) → create r t ≡ (if any (clash r) t then none else some (r ∷ t))
  pub update_lem :
      (p : R → Bool) (f : R → R) (t : List R) → update p f t ≡ updated p f t (find_first p t)
  pub update_many_lem :
      (p : R → Bool) (f : R → R) (t : List R) → update_many p f t ≡ update_where p f t
  pub upsert_lem :
      (p : R → Bool) (r : R) (t : List R) → upsert p r t ≡ upserted clash r t (find_first p t)
  pub find_ordered_some :
      (o : SortOrder) (key : R → ℕ) (p : R → Bool) (t : List R) (r : R)
      → In r (find_ordered o key p t)
      → In r t × (p r ≡ true)
  pub find_ordered_all :
      (o : SortOrder) (key : R → ℕ) (p : R → Bool) (t : List R) (r : R)
      → In r t
      → p r ≡ true
      → In r (find_ordered o key p t)
  pub find_page_some :
      (key : R → ℕ) (p : R → Bool) (skip take : ℕ) (t : List R) (r : R)
      → In r (find_page key p skip take t)
      → In r t × (p r ≡ true)
  pub length-find_page :
      (key : R → ℕ) (p : R → Bool) (skip take : ℕ) (t : List R)
      → length (find_page key p skip take t) ≡ min take (length (keep p t) - skip)
  pub count_lem : (p : R → Bool) (t : List R) → count p t ≡ length (keep p t)
  pub delete_lem : (p : R → Bool) (t : List R) → delete p t ≡ deleted p t (find_first p t)
  pub delete_many_lem : (p : R → Bool) (t : List R) → delete_many p t ≡ keep (λ r. not (p r)) t
  pub create_many_lem : (rs t : List R) → create_many rs t ≡ created clash rs t
