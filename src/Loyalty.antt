-- ===== src/Loyalty.antt =====
-- apps/backend/src/modules/loyalty/loyalty.service.ts: points for purchases, and the tier that the
-- points give. An amount of money is in hundredths of a toman.
pub mod Frame
pub mod Tiers
use booking_platform_claude.Prelude.{
  ℕ, ◌+◌, ◌*◌, ◌/◌, Option, List, [], ◌∷◌, leb, ◌==◌, if◌then◌else◌,
}
use booking_platform_claude.Schema.{
  Tier, bronze, silver, gold, LoyaltyAccount, LoyaltyTransaction, LoyaltyReason,
}
use booking_platform_claude.Store.{Db, Client, Env}
use booking_platform_claude.Store.Action.{
  Action, pure, ◌>>=◌, ◌>>◌, stored, stored_row, stored_upsert,
}

-- `TIER_THRESHOLDS`
abbrev pub tier_thresholds : List (Tier × ℕ)
tier_thresholds = (gold, 5000) ∷ (silver, 1000) ∷ (bronze, 0) ∷ []

-- `TIER_THRESHOLDS.find((t) => newPoints >= t.minPoints)?.tier ?? 'BRONZE'`
abbrev pub find_tier : ℕ → List (Tier × ℕ) → Tier
find_tier points [] = bronze
find_tier points ((tier, min_points) ∷ rest) =
    if leb min_points points then tier else find_tier points rest

abbrev pub tier_of : ℕ → Tier
tier_of points = find_tier points tier_thresholds

-- `TOMAN_PER_POINT`, in hundredths
abbrev pub toman_per_point : ℕ
toman_per_point = 10000 * 100

abbrev pub new_account : ℕ → ℕ → LoyaltyAccount
new_account id user_id = record { id = id; user_id = user_id; points = 0; tier = bronze }

abbrev set_accounts : List LoyaltyAccount → Db → Db
set_accounts t s = record s { loyalty_accounts = t }

abbrev set_transactions : List LoyaltyTransaction → Db → Db
set_transactions t s = record s { loyalty_transactions = t }

module _ (c : Client) (env : Env) where
  -- The account, made if it is missing, under the `k`-th new identifier.
  unfoldable pub upsert_account : ℕ → ℕ → Action LoyaltyAccount
  upsert_account k user_id s =
      stored_upsert
        (c.loyalty_account.upsert (λ a. a.user_id == user_id) (new_account (env.uuid k) user_id)
          s.loyalty_accounts)
        set_accounts s

  -- `getMine`, less the last twenty transactions that it includes for display
  pub get_mine : ℕ → Action LoyaltyAccount
  get_mine user_id = upsert_account 0 user_id

  -- The new points and tier of the account of a user.
  unfoldable pub set_points : ℕ → ℕ → Action LoyaltyAccount
  set_points user_id points s =
      stored_row
        (c.loyalty_account.update (λ a. a.user_id == user_id)
          (λ a. record a { points = points; tier = tier_of points }) s.loyalty_accounts)
        set_accounts s

  unfoldable pub log_points : LoyaltyTransaction → Action (Unit {0})
  log_points tx s =
      stored (c.loyalty_transaction.create tx s.loyalty_transactions) set_transactions s

  -- `addPoints`, with the `k`-th and the next new identifier
  unfoldable pub add_points : ℕ → ℕ → ℕ → LoyaltyReason → Option ℕ → Action (Unit {0})
  unfolding upsert_account set_points log_points
  add_points k user_id points reason reference_id = do
    account ← upsert_account k user_id
    let new_points = account.points + points
    set_points user_id new_points
    log_points (record {
      id = env.uuid (k + 1);
      account_id = account.id;
      points = points;
      reason = reason;
      reference_id = reference_id;
    })

  -- `earnFromPurchase`
  unfoldable pub earn_from_purchase : ℕ → ℕ → ℕ → LoyaltyReason → Option ℕ → Action (Unit {0})
  unfolding add_points
  earn_from_purchase k user_id amount reason reference_id =
      let points = amount / toman_per_point in
      let earn = add_points k user_id points reason reference_id in
      if leb points 0 then pure tt else earn
