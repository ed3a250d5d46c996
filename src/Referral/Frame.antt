-- ===== src/Referral/Frame.antt =====
-- referral.service.ts leaves the bookings alone.
use booking_platform_claude.Prelude.{ℕ, ◌≡◌, refl, Option, none, some, arith}
use booking_platform_claude.Schema.{Referral}
use booking_platform_claude.Store.{Db, Client, Env}
use booking_platform_claude.Loyalty.Frame.{add_points-bookings}
use booking_platform_claude.Referral.{reward, reward_pending, reward_if_eligible}

module _ (c : Client) (env : Env) where
  reward-bookings : (k : ℕ) (r : Referral) (s : Db) → (reward c env k r s).1.bookings ≡ s.bookings
  unfolding reward
  reward-bookings k r s = grind (arith, add_points-bookings)

  reward_pending-bookings :
      (k : ℕ) (o : Option Referral) (s : Db) → (reward_pending c env k o s).1.bookings ≡ s.bookings
  reward_pending-bookings k none s = refl
  reward_pending-bookings k (some r) s = ground (arith, reward-bookings k r s)

  pub reward_if_eligible-bookings :
      (k id : ℕ) (s : Db) → (reward_if_eligible c env k id s).1.bookings ≡ s.bookings
  unfolding reward_if_eligible
  reward_if_eligible-bookings k id s =
      reward_pending-bookings k (c.referral.find_first _ s.referrals) s
