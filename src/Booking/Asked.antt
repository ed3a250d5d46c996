-- ===== src/Booking/Asked.antt =====
-- The row that `hold` of booking.service.ts must create, field by field.
use booking_platform_claude.Prelude.{
  ℕ, ◌+◌, ◌-◌, ◌*◌, ◌/◌, ◌≡◌, ap, Bool, true, false, Option, none, some, arith, Option-cases,
  Bool-cases, inl, inr,
}
use booking_platform_claude.Schema.{Booking, BookingStatus, Business, Service}
use booking_platform_claude.Store.{Client, Env}
use booking_platform_claude.Booking.Types.{HoldBookingDto, deposit_for}
use booking_platform_claude.Booking.Hold.{held_booking}

-- The deposit of a service for a price: its percentage, to the nearest hundredth, if it asks for one.
abbrev pub deposit_due : Bool → Option ℕ → ℕ → ℕ
deposit_due false percent price = 0
deposit_due true none price = 0
deposit_due true (some percent) price = (price * percent + 5000) / 10000

-- The row of a hold that was asked for, with its identifier and the time of the request.
abbrev pub asked_row : ℕ → ℕ → ℕ → HoldBookingDto → Business → Service → ℕ → Booking
asked_row id now user_id dto business service discount = record {
  id = id;
  user_id = user_id;
  business_id = dto.business_id;
  branch_id = dto.branch_id;
  staff_member_id = dto.staff_member_id;
  service_id = dto.service_id;
  start_time = dto.start_time;
  end_time = dto.start_time + service.duration_minutes * 60000;
  status = BookingStatus.hold;
  price_snapshot = service.price;
  discount_amount = discount;
  coupon_code = dto.coupon_code;
  deposit_required =
      deposit_due service.requires_deposit service.deposit_percent (service.price - discount);
  cancellation_policy_snapshot = business.cancellation_policy;
  hold_expires_at = some (now + 300000);
  cancelled_at = none;
  cancel_reason = none;
  recurring_group_id = none;
}

pub deposit_due_lem :
    (service : Service) (price : ℕ)
    → deposit_for service price ≡ deposit_due service.requires_deposit service.deposit_percent price
deposit_due_lem service price = elim (Bool-cases service.requires_deposit) [
  | inl due ↦ elim (Option-cases service.deposit_percent) [
    | inl nothing ↦ ground (arith, due, nothing)
    | inr (percent, given) ↦ ground (arith, due, given)
  ]
  | inr free ↦ ground (arith, free)
]

pub held-asked :
    (c : Client) (env : Env) (user_id : ℕ) (dto : HoldBookingDto) (business : Business)
    (service : Service) (discount : ℕ)
    → held_booking c env user_id dto business service discount
      ≡ asked_row (env.uuid 0) env.now user_id dto business service discount
held-asked c env user_id dto business service discount =
    ap
      (λ z. record (asked_row (env.uuid 0) env.now user_id dto business service discount) {
        deposit_required = z;
      })
      (deposit_due_lem service (service.price - discount))
