-- ===== src/Loyalty/Frame.antt =====
-- loyalty.service.ts writes the accounts and their transactions only.
use booking_platform_claude.Prelude.{ℕ, ◌≡◌, Option, arith}
use booking_platform_claude.Schema.{LoyaltyReason}
use booking_platform_claude.Store.{Db, Client, Env}
use booking_platform_claude.Loyalty.{add_points, earn_from_purchase}

module _ (c : Client) (env : Env) where
  pub add_points-bookings :
      (k user_id points : ℕ) (reason : LoyaltyReason) (ref : Option ℕ) (s : Db)
      → (add_points c env k user_id points reason ref s).1.bookings ≡ s.bookings
  unfolding add_points
  add_points-bookings k user_id points reason ref s = ground arith

  pub earn_from_purchase-bookings :
      (k user_id points : ℕ) (reason : LoyaltyReason) (ref : Option ℕ) (s : Db)
      → (earn_from_purchase c env k user_id points reason ref s).1.bookings ≡ s.bookings
  unfolding earn_from_purchase
  earn_from_purchase-bookings k user_id points reason ref s = ground arith
