-- ===== src/Booking/Safety.antt =====
-- No two active bookings for one branch and one member of staff (or nobody in particular) overlap: the
-- condition that `hold`, `createRecurring` and `reschedule` check.
pub mod History
pub mod Rows
pub mod Queries
pub mod Steps
pub mod Claims
pub mod Changes
pub mod Moves
use booking_platform_claude.Prelude.{
  ℕ, ◌≡◌, Bool, true, false, ◌&&◌, List, ltb, ◌==◌, opt_eq, AllPairs,
}
use booking_platform_claude.Schema.{Booking}
use booking_platform_claude.Availability.{is_active}

-- Both hold the same place at a common time.
abbrev pub double_booked : Booking → Booking → Bool
double_booked a b =
    a.branch_id == b.branch_id
    && (opt_eq a.staff_member_id b.staff_member_id
        && (is_active a.status
            && (is_active b.status
                && (ltb a.start_time b.end_time && ltb b.start_time a.end_time))))

-- Two rows of the table: different bookings, not double-booked.
pub record Apart (a b : Booking) : Type 0 where
  pub ids_differ : (a.id == b.id) ≡ false
  pub disjoint : double_booked a b ≡ false

unfoldable pub NoDoubleBooking : List Booking → Type 0
NoDoubleBooking t = AllPairs Apart t
