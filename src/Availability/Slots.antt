-- ===== src/Availability/Slots.antt =====
-- `generateSlots` of availability.service.ts: the loop that walks a working window in steps of the
-- service's duration.
pub mod Sound
pub mod Complete
pub mod Ends
use booking_platform_claude.Prelude.{
  ℕ, zero, suc, ◌+◌, ◌-◌, ◌*◌, ◌/◌, Bool, ◌&&◌, ◌||◌, List, [], ◌∷◌, ltb, leb, any, if◌then◌else◌,
}
use booking_platform_claude.Schema.{Booking, TimeOfDay}

abbrev pub minute_millis : ℕ
minute_millis = 60000

abbrev pub day_millis : ℕ
day_millis = 86400000

pub record Window : Type 0 where
  pub start_time : TimeOfDay
  pub end_time : TimeOfDay

-- `setUTCHours(h, m, 0, 0)` on the midnight of a day
abbrev pub at_time : ℕ → TimeOfDay → ℕ
at_time date t = date * day_millis + t.hours * 3600000 + t.minutes * minute_millis

-- `b => cursor < b.endTime && slotEnd > b.startTime`
abbrev pub overlaps : ℕ → ℕ → Booking → Bool
overlaps cursor slot_end b = ltb cursor b.end_time && ltb b.start_time slot_end

-- `inPast || overlapsBooking`
abbrev pub is_blocked : ℕ → List Booking → ℕ → ℕ → Bool
is_blocked now bookings cursor slot_end = leb cursor now || any (overlaps cursor slot_end) bookings

module _ (now step window_end : ℕ) (bookings : List Booking) where
  -- The `while` loop, on fuel.
  unfoldable pub slots_from : ℕ → ℕ → List ℕ
  slots_from zero cursor = []
  slots_from (suc fuel) cursor =
      let rest = slots_from fuel (cursor + step) in
      let kept = if is_blocked now bookings cursor (cursor + step) then rest else cursor ∷ rest in
      if leb (cursor + step) window_end then kept else []

-- One round more than the window has steps; the loop ends by its test (`Complete`).
unfoldable pub generate_slots : ℕ → ℕ → Window → ℕ → List Booking → List ℕ
unfolding slots_from
generate_slots now date window duration bookings =
    let step = duration * minute_millis in
    let cursor = at_time date window.start_time in
    let window_end = at_time date window.end_time in
    slots_from now step window_end bookings (suc ((window_end - cursor) / step)) cursor
