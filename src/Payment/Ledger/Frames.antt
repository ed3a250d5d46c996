-- ===== src/Payment/Ledger/Frames.antt =====
-- The steps of the payments that leave the wallets and their lines alone.
use booking_platform_claude.Prelude.{
  ℕ, ◌+◌, ◌/◌, ◌==◌, leb, Bool, true, false, if◌then◌else◌, ◌≡◌, refl, ◌∙◌, none, some, Option,
  arith,
}
use booking_platform_claude.Schema.{
  Payment, Booking, AuditLog, Referral, LoyaltyReason, booking_purchase, referral_success,
  referral_welcome, is_referral_pending,
}
use booking_platform_claude.Store.{Db, Client, Env}
use booking_platform_claude.Store.Action.{Action, pure}
use booking_platform_claude.Store.Holds.{bind_holds}
use booking_platform_claude.Booking.Slot.{update_booking}
use booking_platform_claude.Booking.Confirm.{award_post_purchase_rewards}
use booking_platform_claude.Loyalty.{toman_per_point, earn_from_purchase, add_points}
use booking_platform_claude.Referral.{
  referral_reward_points, reward_pending, reward_if_eligible, reward, mark_rewarded,
}
use booking_platform_claude.Payment.{update_payment, create_payment}
use booking_platform_claude.Audit.{log_audit}

-- Neither the wallets nor their lines differ.
pub record SameMoney (s t : Db) : Type 0 where
  pub wallets : t.wallets ≡ s.wallets
  pub lines : t.wallet_transactions ≡ s.wallet_transactions

pub SameMoney-trans : {s t u : Db} → SameMoney s t → SameMoney t u → SameMoney s u
SameMoney-trans h k = record { wallets = k.wallets ∙ h.wallets; lines = k.lines ∙ h.lines }

either_same :
    (b : Bool) (m : Action (Unit {0})) (s : Db)
    → SameMoney s (m s).1
    → SameMoney s ((if b then pure tt else m) s).1
either_same true m s h = record { wallets = refl; lines = refl }
either_same false m s h = h

or_same :
    (b : Bool) (m : Action (Unit {0})) (s : Db)
    → SameMoney s (m s).1
    → SameMoney s ((if b then m else pure tt) s).1
or_same true m s h = h
or_same false m s h = record { wallets = refl; lines = refl }

module _ (c : Client) (env : Env) where
  pub update_payment-SameMoney :
      (id : ℕ) (change : Payment → Payment) (s : Db)
      → SameMoney s (update_payment c env id change s).1
  unfolding update_payment
  update_payment-SameMoney id change s = ground arith

  pub create_payment-SameMoney : (p : Payment) (s : Db) → SameMoney s (create_payment c env p s).1
  unfolding create_payment
  create_payment-SameMoney p s = ground arith

  pub log_audit-SameMoney : (entry : AuditLog) (s : Db) → SameMoney s (log_audit c entry s).1
  unfolding log_audit
  log_audit-SameMoney entry s = ground arith

  pub update_booking-SameMoney :
      (id : ℕ) (change : Booking → Booking) (s : Db) → SameMoney s (update_booking c id change s).1
  unfolding update_booking
  update_booking-SameMoney id change s = ground arith

  add_points-SameMoney :
      (k user_id points : ℕ) (reason : LoyaltyReason) (ref : Option ℕ) (s : Db)
      → SameMoney s (add_points c env k user_id points reason ref s).1
  unfolding add_points
  add_points-SameMoney k user_id points reason ref s = ground arith

  earn-SameMoney :
      (k user_id amount : ℕ) (reason : LoyaltyReason) (ref : Option ℕ) (s : Db)
      → SameMoney s (earn_from_purchase c env k user_id amount reason ref s).1
  unfolding earn_from_purchase
  earn-SameMoney k user_id amount reason ref s =
      either_same (leb (amount / toman_per_point) 0)
        (add_points c env k user_id (amount / toman_per_point) reason ref) s
        (add_points-SameMoney k user_id (amount / toman_per_point) reason ref s)

  mark_rewarded-SameMoney : (id : ℕ) (s : Db) → SameMoney s (mark_rewarded c env id s).1
  unfolding mark_rewarded
  mark_rewarded-SameMoney id s = ground arith

  reward-SameMoney : (k : ℕ) (r : Referral) (s : Db) → SameMoney s (reward c env k r s).1
  unfolding reward
  reward-SameMoney k r s =
      bind_holds (SameMoney s)
        (add_points c env k r.referrer_id referral_reward_points referral_success (some r.id)) _ s
        (add_points-SameMoney k r.referrer_id referral_reward_points referral_success (some r.id) s)
        λ _ t _ ht.
          bind_holds (SameMoney s)
            (add_points c env (k + 2) r.referee_id referral_reward_points referral_welcome
              (some r.id))
            _ t
            (SameMoney-trans ht (
              add_points-SameMoney (k + 2) r.referee_id referral_reward_points referral_welcome
                (some r.id) t))
            λ _ u _ hu.
              bind_holds (SameMoney s) (mark_rewarded c env r.id) _ u
                (SameMoney-trans hu (mark_rewarded-SameMoney r.id u)) λ _ v _ hv. hv

  reward_pending-SameMoney :
      (k : ℕ) (o : Option Referral) (s : Db) → SameMoney s (reward_pending c env k o s).1
  reward_pending-SameMoney k none s = record { wallets = refl; lines = refl }
  reward_pending-SameMoney k (some r) s =
      or_same (is_referral_pending r.status) (reward c env k r) s (reward-SameMoney k r s)

  reward_if-SameMoney :
      (k user_id : ℕ) (s : Db) → SameMoney s (reward_if_eligible c env k user_id s).1
  unfolding reward_if_eligible
  reward_if-SameMoney k user_id s =
      reward_pending-SameMoney k (c.referral.find_first (λ r. r.referee_id == user_id) s.referrals)
        s

  pub award-SameMoney :
      (k user_id amount : ℕ) (s : Db)
      → SameMoney s (award_post_purchase_rewards c env k user_id amount s).1
  unfolding award_post_purchase_rewards
  award-SameMoney k user_id amount s =
      bind_holds (SameMoney s) (earn_from_purchase c env k user_id amount booking_purchase none) _ s
        (earn-SameMoney k user_id amount booking_purchase none s)
        λ _ t _ ht. SameMoney-trans ht (reward_if-SameMoney (k + 2) user_id t)
