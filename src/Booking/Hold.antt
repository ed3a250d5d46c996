-- ===== src/Booking/Hold.antt =====
-- `hold` of booking.service.ts: the first step, a temporary claim on a slot.
use booking_platform_claude.Prelude.{ℕ, ◌+◌, ◌-◌, Option, none, some}
use booking_platform_claude.Schema.{Booking, BookingStatus, Business, Service}
use booking_platform_claude.Store.{Db, Client, Env, LockOutcome}
use booking_platform_claude.Store.Action.{
  Action, Result, err, conflict, redis_failure, pure, throw, ◌>>=◌, ◌>>◌, transaction,
}
use booking_platform_claude.Coupon.{CouponCheckResult, check_and_redeem, link_usage}
use booking_platform_claude.Booking.Types.{HoldBookingDto, hold_ttl, deposit_for, end_of}
use booking_platform_claude.Booking.Slot.{
  load_and_validate_context, assert_slot_free, create_booking,
}

-- The end of `finally` when the release of the lock fails: its exception takes the place of the
-- result or the exception of the function, whose writes stay.
abbrev pub unreleased_after : {A : Type 0} → Result A × Db → Result A × Db
unreleased_after (r, s) = (err redis_failure, s)

-- `lock.withLock(key, fn)`, and the `catch` that turns `LOCK_BUSY` into a conflict and throws any other exception again.
abbrev pub with_lock : {A : Type 0} → LockOutcome → Action A → Action A
with_lock LockOutcome.unreachable run = throw redis_failure
with_lock LockOutcome.taken run = throw conflict
with_lock LockOutcome.released run = run
with_lock LockOutcome.unreleased run = λ s. unreleased_after (run s)

-- `discountAmount` and `redeemedCouponId`
abbrev pub discount_taken : Option CouponCheckResult → ℕ
discount_taken none = 0
discount_taken (some r) = r.discount_amount

module _ (c : Client) (env : Env) where
  abbrev pub redeem_if_given : ℕ → Option ℕ → ℕ → ℕ → Action (Option CouponCheckResult)
  redeem_if_given user_id none business_id price = pure none
  redeem_if_given user_id (some code) business_id price = do
    r ← check_and_redeem c env 1 code user_id (some business_id) price
    pure (some r)

  abbrev pub link_if_redeemed : ℕ → ℕ → Option CouponCheckResult → Action (Unit {0})
  link_if_redeemed user_id booking_id none = pure tt
  link_if_redeemed user_id booking_id (some r) = do
    link_usage c env r.coupon_id user_id booking_id
    pure tt

  -- The row that `hold` creates.
  abbrev pub held_booking : ℕ → HoldBookingDto → Business → Service → ℕ → Booking
  held_booking user_id dto business service discount_amount = record {
    id = env.uuid 0;
    user_id = user_id;
    business_id = dto.business_id;
    branch_id = dto.branch_id;
    staff_member_id = dto.staff_member_id;
    service_id = dto.service_id;
    start_time = dto.start_time;
    end_time = end_of service dto.start_time;
    status = BookingStatus.hold;
    price_snapshot = service.price;
    discount_amount = discount_amount;
    coupon_code = dto.coupon_code;
    deposit_required = deposit_for service (service.price - discount_amount);
    cancellation_policy_snapshot = business.cancellation_policy;
    hold_expires_at = some (env.now + hold_ttl);
    cancelled_at = none;
    cancel_reason = none;
    recurring_group_id = none;
  }

  -- The callback of the transaction in `hold`.
  unfoldable pub claim_slot : ℕ → HoldBookingDto → Business → Service → Action Booking
  claim_slot user_id dto business service = do
    assert_slot_free c dto.branch_id dto.staff_member_id dto.start_time
        (end_of service dto.start_time) none
    redeemed ← redeem_if_given user_id dto.coupon_code dto.business_id service.price
    booking ← create_booking c (held_booking user_id dto business service (discount_taken redeemed))
    link_if_redeemed user_id booking.id redeemed
    pure booking

  -- `hold`
  unfoldable pub hold : ℕ → HoldBookingDto → Action Booking
  hold user_id dto = do
    (business, service) ←
        load_and_validate_context c dto.business_id dto.branch_id dto.service_id dto.staff_member_id
    with_lock env.lock (transaction c (claim_slot user_id dto business service))
