-- ===== src/Availability/Slots/Complete.antt =====
-- `generateSlots` of availability.service.ts: which slots it must offer.
use native.Mathlib.Nat.{le-div_iff_mul-le}
use booking_platform_claude.Prelude.{
  ℕ, zero, suc, ◌+◌, ◌-◌, ◌*◌, ◌/◌, ◌≤◌, ◌<◌, ◌≡◌, sym, subst, false, List, arith, any, In,
}
use booking_platform_claude.Schema.{Booking}
use booking_platform_claude.Availability.Slots.{
  Window, at_time, minute_millis, overlaps, is_blocked, slots_from, generate_slots,
}

module _ (now step window_end : ℕ) (bookings : List Booking) where
  slots_from_complete :
      (fuel cursor i slot : ℕ)
      → i < fuel
      → slot ≡ cursor + i * step
      → slot + step ≤ window_end
      → is_blocked now bookings slot (slot + step) ≡ false
      → In slot (slots_from now step window_end bookings fuel cursor)
  unfolding slots_from
  slots_from_complete zero cursor i slot h e fits free = absurd (omega arith)
  slots_from_complete (suc fuel) cursor zero slot h e fits free =
      let here : cursor ≡ slot = omega arith in
      subst (λ x. In slot (slots_from now step window_end bookings (suc fuel) x)) (sym here)
        (ground arith)
  slots_from_complete (suc fuel) cursor (suc i) slot h e fits free =
      let later =
        slots_from_complete fuel (cursor + step) i slot (omega arith) (grind arith) fits free in
      let fits_here : cursor + step ≤ window_end = grind arith in ground (arith, later)

fuel_suffices :
    (i step start finish slot : ℕ)
    → 0 < step
    → slot ≡ start + i * step
    → slot + step ≤ finish
    → i < suc ((finish - start) / step)
fuel_suffices i step start finish slot positive e fits =
    let below : i * step ≤ finish - start = omega arith in
    omega (arith, (le-div_iff_mul-le {x = i} {y = finish - start} positive).1 below)

-- A whole number of steps from the window's start, an instant whose step fits into the window,
-- which is in the future and overlaps no booking of the list, is offered, if the duration is not 0.
pub generate_slots_complete :
    (now date : ℕ) (window : Window) (duration : ℕ) (bookings : List Booking) (i slot : ℕ)
    → 0 < duration
    → slot ≡ at_time date window.start_time + i * (duration * minute_millis)
    → slot + duration * minute_millis ≤ at_time date window.end_time
    → now < slot
    → any (overlaps slot (slot + duration * minute_millis)) bookings ≡ false
    → In slot (generate_slots now date window duration bookings)
unfolding generate_slots
generate_slots_complete now date window duration bookings i slot pos_duration e fits future free =
    let step = duration * minute_millis in
    let start = at_time date window.start_time in
    let finish = at_time date window.end_time in
    slots_from_complete now step finish bookings (suc ((finish - start) / step)) start i slot
      (fuel_suffices i step start finish slot (omega arith) e fits) e fits (ground arith)
