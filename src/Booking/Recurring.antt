-- ===== src/Booking/Recurring.antt =====
-- `createRecurring` of booking.service.ts: weekly bookings, all of them or none.
use booking_platform_claude.Prelude.{ℕ, zero, suc, ◌+◌, ◌*◌, none, some, List, [], ◌∷◌}
use booking_platform_claude.Schema.{Booking, BookingStatus, Business, Service}
use booking_platform_claude.Store.{Client, Env}
use booking_platform_claude.Store.Action.{Action, pure, ◌>>=◌, ◌>>◌, transaction}
use booking_platform_claude.Booking.Types.{CreateRecurringBookingDto, hold_ttl, deposit_for, end_of}
use booking_platform_claude.Booking.Slot.{
  load_and_validate_context, assert_slot_free, create_booking,
}

-- `7 * 24 * 60 * 60000`
abbrev pub week_millis : ℕ
week_millis = 7 * 24 * 60 * 60000

-- The starts of the occurrences from the `i`-th on.
abbrev pub starts_from : ℕ → ℕ → ℕ → List ℕ
starts_from first_start i zero = []
starts_from first_start i (suc n) =
    (first_start + i * week_millis) ∷ starts_from first_start (i + 1) n

module _ (c : Client) (env : Env) where
  abbrev pub recurring_booking :
      ℕ → CreateRecurringBookingDto → Business → Service → ℕ → ℕ → Booking
  recurring_booking user_id dto business service id start = record {
    id = id;
    user_id = user_id;
    business_id = dto.business_id;
    branch_id = dto.branch_id;
    staff_member_id = dto.staff_member_id;
    service_id = dto.service_id;
    start_time = start;
    end_time = end_of service start;
    status = BookingStatus.hold;
    price_snapshot = service.price;
    discount_amount = 0;
    coupon_code = none;
    deposit_required = deposit_for service service.price;
    cancellation_policy_snapshot = business.cancellation_policy;
    hold_expires_at = some (env.now + hold_ttl);
    cancelled_at = none;
    cancel_reason = none;
    recurring_group_id = some (env.uuid 0);
  }

  -- The loop of the transaction's callback; `k` numbers the new identifiers.
  unfoldable pub create_each :
      ℕ → CreateRecurringBookingDto → Business → Service → ℕ → List ℕ → Action (List Booking)
  create_each user_id dto business service k [] = pure []
  create_each user_id dto business service k (start ∷ starts) = do
    assert_slot_free c dto.branch_id dto.staff_member_id start (end_of service start) none
    booking ← create_booking c (recurring_booking user_id dto business service (env.uuid k) start)
    others ← create_each user_id dto business service (k + 1) starts
    pure (booking ∷ others)

  -- `createRecurring`. A conflict is thrown again as a conflict, with a longer message.
  unfoldable pub create_recurring : ℕ → CreateRecurringBookingDto → Action (List Booking)
  create_recurring user_id dto = do
    (business, service) ←
        load_and_validate_context c dto.business_id dto.branch_id dto.service_id dto.staff_member_id
    transaction c
        (create_each user_id dto business service 1 (starts_from dto.start_time 0 dto.occurrences))
