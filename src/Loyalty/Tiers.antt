-- ===== src/Loyalty/Tiers.antt =====
-- The tiers of loyalty.service.ts against the points.
use booking_platform_claude.Prelude.{
  ℕ, ◌+◌, ◌≡◌, refl, sym, subst, ◌∙◌, Bool, true, false, Option, none, some, List, ◌∷◌, ◌==◌, any,
  All, All-update_where, update_where, rewrite, arith, Option-cases, Bool-cases, inl, inr,
  if◌then◌else◌,
}
use booking_platform_claude.Schema.{
  LoyaltyTransaction, LoyaltyAccount, LoyaltyReason, loyalty_account_clash,
}
use booking_platform_claude.Store.{Db, Client, Env, upserted, updated}
use booking_platform_claude.Store.Holds.{bind_holds}
use booking_platform_claude.Loyalty.{
  tier_of, new_account, upsert_account, set_points, log_points, add_points,
}

-- The tier of an account is the one of its points.
abbrev pub IsRanked : LoyaltyAccount → Type 0
IsRanked a = a.tier ≡ tier_of a.points

unfoldable pub AllRanked : Db → Type 0
AllRanked s = All IsRanked s.loyalty_accounts

upserted-IsRanked :
    (r w : LoyaltyAccount) (xs ys : List LoyaltyAccount) (o : Option LoyaltyAccount)
    → IsRanked r
    → All IsRanked xs
    → upserted loyalty_account_clash r xs o ≡ some (w, ys)
    → All IsRanked ys
upserted-IsRanked r w xs ys none ranked h e = elim (Bool-cases (any (loyalty_account_clash r) xs)) [
  | inl clash ↦ absurd (ground arith)
  | inr fresh ↦ let rows : r ∷ xs ≡ ys = ground arith in subst (All IsRanked) rows (ranked, h)
]
upserted-IsRanked r w xs ys (some x) ranked h e =
    let rows : xs ≡ ys = ground arith in subst (All IsRanked) rows h

rewritten :
    (p : LoyaltyAccount → Bool) (points : ℕ) (x : LoyaltyAccount) (b : Bool)
    → p x ≡ b
    → rewrite p (λ a. record a { points = points; tier = tier_of points }) x
      ≡ (if b then record x { points = points; tier = tier_of points } else x)
rewritten p points x b e = rw e refl

rewrite-IsRanked :
    (p : LoyaltyAccount → Bool) (points : ℕ) (x : LoyaltyAccount)
    → IsRanked x
    → IsRanked (rewrite p (λ a. record a { points = points; tier = tier_of points }) x)
rewrite-IsRanked p points x h = elim (Bool-cases (p x)) [
  | inl hit ↦ subst IsRanked (sym (rewritten p points x true hit)) refl
  | inr miss ↦ subst IsRanked (sym (rewritten p points x false miss)) h
]

updated-IsRanked :
    (p : LoyaltyAccount → Bool) (points : ℕ) (w : LoyaltyAccount) (xs ys : List LoyaltyAccount)
    (o : Option LoyaltyAccount)
    → All IsRanked xs
    → updated p (λ a. record a { points = points; tier = tier_of points }) xs o ≡ some (w, ys)
    → All IsRanked ys
updated-IsRanked p points w xs ys none h e = absurd (ground arith)
updated-IsRanked p points w xs ys (some x) h e =
    let set : LoyaltyAccount → LoyaltyAccount =
      λ a. record a { points = points; tier = tier_of points } in
    let rows : update_where p set xs ≡ ys = ground arith in
    subst (All IsRanked) rows (All-update_where p set IsRanked xs (rewrite-IsRanked p points) h)

module _ (c : Client) (env : Env) where
  upsert-AllRanked :
      (k user_id : ℕ) (s : Db) → AllRanked s → AllRanked (upsert_account c env k user_id s).1
  unfolding AllRanked upsert_account
  upsert-AllRanked k user_id s h =
      let p = λ (a : LoyaltyAccount). a.user_id == user_id in
      let r = new_account (env.uuid k) user_id in
      let law = c.loyalty_account.upsert_lem p r s.loyalty_accounts in
      elim (Option-cases (c.loyalty_account.upsert p r s.loyalty_accounts)) [
        | inl nothing ↦ rw nothing h
        | inr ((x, ys), done) ↦ rw done (
            upserted-IsRanked r x s.loyalty_accounts ys
              (c.loyalty_account.find_first p s.loyalty_accounts) refl h (sym law ∙ done))
      ]

  set_points-AllRanked :
      (user_id points : ℕ) (s : Db) → AllRanked s → AllRanked (set_points c env user_id points s).1
  unfolding AllRanked set_points
  set_points-AllRanked user_id points s h =
      let p = λ (a : LoyaltyAccount). a.user_id == user_id in
      let law =
        c.loyalty_account.update_lem p (λ a. record a { points = points; tier = tier_of points })
          s.loyalty_accounts in
      elim (Option-cases (
        c.loyalty_account.update p (λ a. record a { points = points; tier = tier_of points })
          s.loyalty_accounts)) [
            | inl nothing ↦ rw nothing h
            | inr ((x, ys), done) ↦ rw done (
                updated-IsRanked p points x s.loyalty_accounts ys
                  (c.loyalty_account.find_first p s.loyalty_accounts) h (sym law ∙ done))
          ]

  log-AllRanked :
      (tx : LoyaltyTransaction) (s : Db) → AllRanked s → AllRanked (log_points c env tx s).1
  unfolding AllRanked log_points
  log-AllRanked tx s h = subst (All IsRanked) (ground arith) h

  -- If every account has the tier of its points, every account has after points are added, whether the
  -- call returns or throws.
  pub add_points-AllRanked :
      (k user_id points : ℕ) (reason : LoyaltyReason) (ref : Option ℕ) (s : Db)
      → AllRanked s
      → AllRanked (add_points c env k user_id points reason ref s).1
  unfolding add_points
  add_points-AllRanked k user_id points reason ref s h =
      bind_holds AllRanked (upsert_account c env k user_id) _ s (upsert-AllRanked k user_id s h)
        λ a t _ ht.
          bind_holds AllRanked (set_points c env user_id (a.points + points)) _ t
            (set_points-AllRanked user_id (a.points + points) t ht) λ _ u _ hu. log-AllRanked _ u hu
