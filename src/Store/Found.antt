-- ===== src/Store/Found.antt =====
-- What a query finds after an update.
use booking_platform_claude.Prelude.{
  ◌≡◌, subst, Bool, true, Option, none, some, List, [], ◌∷◌, All, All-In, All-update_where,
  update_where, rewrite, arith,
}
use booking_platform_claude.Store.Tables.{Table, updated}

pub All-unit : {A : Type 0} (xs : List A) → All (λ (x : A). Unit {0}) xs
All-unit [] = tt
All-unit (x ∷ xs) = (tt, All-unit xs)

module _ {R : Type 0} {clash : R → R → Bool} (t : Table R clash) (p : R → Bool) (f : R → R) where
  -- What every rewritten row that passes a test has, the row that the test finds has.
  pub find_first-update_where :
      (Q : R → Type 0) (q : R → Bool) (xs : List R) (r : R)
      → ((x : R) → q (rewrite p f x) ≡ true → Q (rewrite p f x))
      → t.find_first q (update_where p f xs) ≡ some r
      → Q r
  find_first-update_where Q q xs r step e =
      let (place, hit) = t.find_first_some q (update_where p f xs) r e in
      All-In (λ x. q x ≡ true → Q x) r (update_where p f xs)
        (All-update_where p f (λ x. q x ≡ true → Q x) xs (λ x _. step x) (All-unit xs)) place hit

  updated_rows :
      (xs ys : List R) (r : R) (o : Option R)
      → updated p f xs o ≡ some (r, ys)
      → ys ≡ update_where p f xs
  updated_rows xs ys r none e = cc
  updated_rows xs ys r (some x) e = ground arith

  -- An update that succeeds rewrites the rows that it names.
  pub update-rows :
      (xs ys : List R) (r : R) → t.update p f xs ≡ some (r, ys) → ys ≡ update_where p f xs
  update-rows xs ys r e =
      updated_rows xs ys r (t.find_first p xs)
        (subst (λ z. z ≡ some (r, ys)) (t.update_lem p f xs) e)
