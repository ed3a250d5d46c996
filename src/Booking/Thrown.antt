-- ===== src/Booking/Thrown.antt =====
-- The errors of `hold` of booking.service.ts, those of the lock included.
use booking_platform_claude.Schema.{Booking}
use booking_platform_claude.Store.Action.{Action}
