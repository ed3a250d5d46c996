-- ===== src/Coupon/Frame.antt =====
-- coupon.service.ts leaves the bookings alone.
use booking_platform_claude.Prelude.{ℕ, ◌≡◌, Option, arith}
use booking_platform_claude.Schema.{Coupon}
use booking_platform_claude.Store.{Db, Client, Env}
use booking_platform_claude.Coupon.{check_coupon, check_and_compute, check_and_redeem, link_usage}

module _ (c : Client) (env : Env) where
  -- A check reads only.
  pub check_coupon-reads :
      (coupon : Coupon) (user_id : ℕ) (business_id : Option ℕ) (amount : ℕ) (s : Db)
      → (check_coupon c env coupon user_id business_id amount s).1 ≡ s
  unfolding check_coupon
  check_coupon-reads coupon user_id business_id amount s = ground arith

  pub check_and_compute-reads :
      (code user_id : ℕ) (business_id : Option ℕ) (amount : ℕ) (s : Db)
      → (check_and_compute c env code user_id business_id amount s).1 ≡ s
  unfolding check_and_compute
  check_and_compute-reads code user_id business_id amount s = ground arith

  pub check_and_redeem-bookings :
      (k code user_id : ℕ) (business_id : Option ℕ) (amount : ℕ) (s : Db)
      → (check_and_redeem c env k code user_id business_id amount s).1.bookings ≡ s.bookings
  unfolding check_and_redeem
  check_and_redeem-bookings k code user_id business_id amount s = ground arith

  pub link_usage-bookings :
      (coupon_id user_id booking_id : ℕ) (s : Db)
      → (link_usage c env coupon_id user_id booking_id s).1.bookings ≡ s.bookings
  unfolding link_usage
  link_usage-bookings coupon_id user_id booking_id s = ground arith
