-- ===== src/Booking/Cancel.antt =====
-- `cancelByUser`, `cancelByBusiness`, `updateStatus` and `releaseExpiredHolds` of booking.service.ts,
-- and the cron job of booking-cleanup.service.ts that calls the last.
use booking_platform_claude.Prelude.{
  ℕ, ◌+◌, ◌*◌, Bool, true, false, ◌&&◌, not, Option, none, some, ltb, ◌==◌, length, if◌then◌else◌,
}
use booking_platform_claude.Schema.{
  Booking, BookingStatus, is_hold, CancellationPolicy, CancelReason,
}
use booking_platform_claude.Store.{Client, Env}
use booking_platform_claude.Store.Action.{
  Action, bad_request, pure, gets, put, throw_if, ◌>>=◌, ◌>>◌,
}
use booking_platform_claude.Booking.Status.{is_allowed}
use booking_platform_claude.Booking.Types.{TargetStatus, status_of, set_bookings}
use booking_platform_claude.Booking.Slot.{find_booking, get_owned_booking, update_booking}

-- The result of a cancellation.
pub record Cancellation : Type 0 where
  pub booking : Booking
  pub fee_applied : Bool
  pub fee_percent : ℕ

-- `cancelledByUser && hoursUntilStart < policy.freeCancelHours`
abbrev pub fee_applies : Bool → ℕ → ℕ → CancellationPolicy → Bool
fee_applies by_user now start_time policy =
    by_user && ltb start_time (now + policy.free_cancel_hours * 3600000)

-- A reason that is missing leaves the column as it is.
abbrev pub reason_or : Option ℕ → Option CancelReason → Option CancelReason
reason_or none old = old
reason_or (some r) old = some (CancelReason.given r)

abbrev pub mark_cancelled : ℕ → Option ℕ → Booking → Booking
mark_cancelled now reason b = record b {
  status = BookingStatus.cancelled;
  cancelled_at = some now;
  cancel_reason = reason_or reason b.cancel_reason;
}

abbrev pub cancel_time : TargetStatus → ℕ → Option ℕ → Option ℕ
cancel_time TargetStatus.cancelled now old = some now
cancel_time _ now old = old

abbrev pub set_status : TargetStatus → ℕ → Booking → Booking
set_status target now b = record b {
  status = status_of target;
  cancelled_at = cancel_time target now b.cancelled_at;
}

-- `{ status: 'HOLD', holdExpiresAt: { lt: new Date() } }`; null is never less.
abbrev pub is_before : Option ℕ → ℕ → Bool
is_before none now = false
is_before (some t) now = ltb t now

abbrev pub is_overdue : ℕ → Booking → Bool
is_overdue now b = is_hold b.status && is_before b.hold_expires_at now

abbrev pub release_hold : Booking → Booking
release_hold b = record b {
  status = BookingStatus.cancelled;
  cancel_reason = some CancelReason.auto_expired;
}

module _ (c : Client) (env : Env) where
  -- `cancelInternal`
  unfoldable pub cancel_internal : Booking → Option ℕ → Bool → Action Cancellation
  cancel_internal booking reason by_user = do
    throw_if (not (is_allowed booking.status BookingStatus.cancelled)) bad_request
    let policy = booking.cancellation_policy_snapshot
    let applies = fee_applies by_user env.now booking.start_time policy
    updated ← update_booking c booking.id (mark_cancelled env.now reason)
    pure (record {
      booking = updated;
      fee_applied = applies;
      fee_percent = if applies then policy.fee_percent else 0;
    })

  -- `cancelByUser`
  unfoldable pub cancel_by_user : ℕ → ℕ → Option ℕ → Action Cancellation
  cancel_by_user booking_id user_id reason = do
    booking ← get_owned_booking c booking_id user_id
    cancel_internal booking reason true

  abbrev find_of_business : ℕ → ℕ → Action Booking
  find_of_business business_id booking_id =
      find_booking c (λ b. b.id == booking_id && b.business_id == business_id)

  -- `cancelByBusiness`
  unfoldable pub cancel_by_business : ℕ → ℕ → Option ℕ → Action Cancellation
  cancel_by_business business_id booking_id reason = do
    booking ← find_of_business business_id booking_id
    cancel_internal booking reason false

  -- `updateStatus`
  unfoldable pub update_status : ℕ → ℕ → TargetStatus → Action Booking
  update_status business_id booking_id target = do
    booking ← find_of_business business_id booking_id
    throw_if (not (is_allowed booking.status (status_of target))) bad_request
    update_booking c booking_id (set_status target env.now)

  -- `releaseExpiredHolds`, which `handleExpiredHolds` calls every minute
  unfoldable pub release_expired_holds : Action ℕ
  release_expired_holds = do
    overdue ← gets (λ s. c.booking.find_many (is_overdue env.now) s.bookings)
    put (λ s. set_bookings (c.booking.update_many (is_overdue env.now) release_hold s.bookings) s)
    pure (length overdue)
