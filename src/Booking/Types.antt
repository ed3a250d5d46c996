-- ===== src/Booking/Types.antt =====
-- The inputs of booking.service.ts (its `dto` folder), its constants and its rounding.
use booking_platform_claude.Prelude.{ℕ, ◌+◌, ◌*◌, ◌/◌, Option, none, some, List, if◌then◌else◌}
use booking_platform_claude.Schema.{Booking, BookingStatus, Service}
use booking_platform_claude.Store.{Db}

pub record HoldBookingDto : Type 0 where
  pub business_id : ℕ
  pub branch_id : ℕ
  pub service_id : ℕ
  pub staff_member_id : Option ℕ
  pub start_time : ℕ
  pub coupon_code : Option ℕ

pub record CreateRecurringBookingDto : Type 0 where
  pub business_id : ℕ
  pub branch_id : ℕ
  pub service_id : ℕ
  pub staff_member_id : Option ℕ
  pub start_time : ℕ
  pub occurrences : ℕ

-- The four targets that `UpdateBookingStatusDto` admits.
pub data TargetStatus : Type 0 where
  confirmed completed no_show cancelled : TargetStatus

abbrev pub status_of : TargetStatus → BookingStatus
status_of TargetStatus.confirmed = BookingStatus.confirmed
status_of TargetStatus.completed = BookingStatus.completed
status_of TargetStatus.no_show = BookingStatus.no_show
status_of TargetStatus.cancelled = BookingStatus.cancelled

-- `HOLD_TTL_MINUTES` in milliseconds
abbrev pub hold_ttl : ℕ
hold_ttl = 5 * 60000

-- `round2((amount * percent) / 100)`, all three in hundredths
abbrev pub percent_of : ℕ → ℕ → ℕ
percent_of amount percent = (amount * percent + 5000) / 10000

abbrev pub percent_or_zero : Option ℕ → ℕ
percent_or_zero none = 0
percent_or_zero (some p) = p

-- `service.requiresDeposit ? round2(price * Number(depositPercent ?? 0) / 100) : 0`
abbrev pub deposit_for : Service → ℕ → ℕ
deposit_for service price =
    if service.requires_deposit
    then percent_of price (percent_or_zero service.deposit_percent)
    else 0

-- `new Date(start.getTime() + service.durationMinutes * 60000)`
abbrev pub end_of : Service → ℕ → ℕ
end_of service start = start + service.duration_minutes * 60000

abbrev pub set_bookings : List Booking → Db → Db
set_bookings t s = record s { bookings = t }
