-- ===== src/System/Frames.antt =====
-- The steps and methods of booking.service.ts that leave the wallets and their lines alone.
use booking_platform_claude.Prelude.{
  ℕ, refl, Bool, true, false, ◌&&◌, Option, none, some, ◌==◌, arith,
}
use booking_platform_claude.Schema.{Booking}
use booking_platform_claude.Store.{Db, Client, Env}
use booking_platform_claude.Store.Action.{not_found}
use booking_platform_claude.Store.Holds.{bind_holds, or_throw_holds}
use booking_platform_claude.Coupon.{CouponCheckResult, check_and_redeem, link_usage}
use booking_platform_claude.Booking.Types.{TargetStatus}
use booking_platform_claude.Booking.Slot.{
  load_and_validate_context, check_staff, assert_slot_free, create_booking, update_booking,
  find_booking, get_owned_booking,
}
use booking_platform_claude.Booking.Hold.{redeem_if_given, link_if_redeemed}
use booking_platform_claude.Booking.Cancel.{
  cancel_internal, cancel_by_user, cancel_by_business, update_status, release_expired_holds,
}
use booking_platform_claude.Payment.Ledger.Frames.{SameMoney}

module _ (c : Client) (env : Env) where
  pub check_and_redeem-SameMoney :
      (k code user_id : ℕ) (business_id : Option ℕ) (amount : ℕ) (s : Db)
      → SameMoney s (check_and_redeem c env k code user_id business_id amount s).1
  unfolding check_and_redeem
  check_and_redeem-SameMoney k code user_id business_id amount s = ground arith

  pub redeem-SameMoney :
      (user_id : ℕ) (code : Option ℕ) (business_id price : ℕ) (s : Db)
      → SameMoney s (redeem_if_given c env user_id code business_id price s).1
  redeem-SameMoney user_id none business_id price s = ground arith
  redeem-SameMoney user_id (some code) business_id price s =
      bind_holds (SameMoney s) (check_and_redeem c env 1 code user_id (some business_id) price) _ s
        (check_and_redeem-SameMoney 1 code user_id (some business_id) price s) λ _ t _ ht. ht

  pub create_booking-SameMoney : (b : Booking) (s : Db) → SameMoney s (create_booking c b s).1
  unfolding create_booking
  create_booking-SameMoney b s = ground arith

  pub context-SameMoney :
      (business_id branch_id service_id : ℕ) (staff : Option ℕ) (s : Db)
      → SameMoney s (load_and_validate_context c business_id branch_id service_id staff s).1
  unfolding load_and_validate_context check_staff
  context-SameMoney business_id branch_id service_id staff s = ground arith

  pub free-SameMoney :
      (branch_id : ℕ) (staff : Option ℕ) (start end : ℕ) (exclude : Option ℕ) (s : Db)
      → SameMoney s (assert_slot_free c branch_id staff start end exclude s).1
  unfolding assert_slot_free
  free-SameMoney branch_id staff start end exclude s = ground arith

  pub link-SameMoney :
      (user_id id : ℕ) (r : Option CouponCheckResult) (s : Db)
      → SameMoney s (link_if_redeemed c env user_id id r s).1
  unfolding link_usage
  link-SameMoney user_id id none s = ground arith
  link-SameMoney user_id id (some r) s = ground arith

  pub cancel_internal-SameMoney :
      (b : Booking) (reason : Option ℕ) (by_user : Bool) (s : Db)
      → SameMoney s (cancel_internal c env b reason by_user s).1
  unfolding cancel_internal update_booking
  cancel_internal-SameMoney b reason by_user s = ground arith

  pub cancel_by_user-SameMoney :
      (booking_id user_id : ℕ) (reason : Option ℕ) (s : Db)
      → SameMoney s (cancel_by_user c env booking_id user_id reason s).1
  unfolding cancel_by_user get_owned_booking find_booking
  cancel_by_user-SameMoney booking_id user_id reason s =
      or_throw_holds (SameMoney s) not_found
        (c.booking.find_first (λ b. b.id == booking_id && b.user_id == user_id) s.bookings) _ s
        (record { wallets = refl; lines = refl }) λ b _. cancel_internal-SameMoney b reason true s

  pub cancel_by_business-SameMoney :
      (business_id booking_id : ℕ) (reason : Option ℕ) (s : Db)
      → SameMoney s (cancel_by_business c env business_id booking_id reason s).1
  unfolding cancel_by_business find_booking
  cancel_by_business-SameMoney business_id booking_id reason s =
      or_throw_holds (SameMoney s) not_found
        (c.booking.find_first (λ b. b.id == booking_id && b.business_id == business_id) s.bookings)
        _ s (record { wallets = refl; lines = refl })
        λ b _. cancel_internal-SameMoney b reason false s

  pub update_status-SameMoney :
      (business_id booking_id : ℕ) (target : TargetStatus) (s : Db)
      → SameMoney s (update_status c env business_id booking_id target s).1
  unfolding update_status find_booking update_booking
  update_status-SameMoney business_id booking_id target s = ground arith

  pub release-SameMoney : (s : Db) → SameMoney s (release_expired_holds c env s).1
  unfolding release_expired_holds
  release-SameMoney s = ground arith
