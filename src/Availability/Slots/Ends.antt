-- ===== src/Availability/Slots/Ends.antt =====
-- `generateSlots` of availability.service.ts: its `while` loop as a relation, without fuel.
use native.Mathlib.Nat.{lt-div-mul-add}
use booking_platform_claude.Prelude.{
  ℕ, zero, suc, ◌+◌, ◌-◌, ◌*◌, ◌/◌, ◌<◌, ◌≡◌, sym, subst, true, false, List, [], ◌∷◌, leb, arith,
  Bool-cases, inl, inr,
}
use booking_platform_claude.Schema.{Booking}
use booking_platform_claude.Availability.Slots.{
  Window, at_time, minute_millis, is_blocked, slots_from, generate_slots,
}

-- A run of the loop from a cursor, to its end, with the slots it pushes.
pub data LoopRun (now step window_end : ℕ) (bookings : List Booking) : ℕ → List ℕ → Type 0 where
  stops :
      (cursor : ℕ)
      → leb (cursor + step) window_end ≡ false
      → LoopRun now step window_end bookings cursor []
  skips :
      (cursor : ℕ) (slots : List ℕ)
      → leb (cursor + step) window_end ≡ true
      → is_blocked now bookings cursor (cursor + step) ≡ true
      → LoopRun now step window_end bookings (cursor + step) slots
      → LoopRun now step window_end bookings cursor slots
  offers :
      (cursor : ℕ) (slots : List ℕ)
      → leb (cursor + step) window_end ≡ true
      → is_blocked now bookings cursor (cursor + step) ≡ false
      → LoopRun now step window_end bookings (cursor + step) slots
      → LoopRun now step window_end bookings cursor (cursor ∷ slots)

module _ (now step window_end : ℕ) (bookings : List Booking) where
  slots_from-LoopRun :
      (fuel cursor : ℕ)
      → window_end < cursor + fuel * step + step
      → LoopRun now step window_end bookings cursor
          (slots_from now step window_end bookings fuel cursor)
  unfolding slots_from
  slots_from-LoopRun zero cursor h = stops cursor (ground arith)
  slots_from-LoopRun (suc fuel) cursor h =
      let run = LoopRun now step window_end bookings cursor in
      let later = slots_from now step window_end bookings fuel (cursor + step) in
      let rest = slots_from-LoopRun fuel (cursor + step) (grind arith) in
      elim (Bool-cases (leb (cursor + step) window_end)) [
        | inl fits ↦ elim (Bool-cases (is_blocked now bookings cursor (cursor + step))) [
          | inl blocked ↦
              let same : slots_from now step window_end bookings (suc fuel) cursor ≡ later =
                ground (arith, fits, blocked) in
              subst run (sym same) (skips cursor later fits blocked rest)
          | inr free ↦
              let same : slots_from now step window_end bookings (suc fuel) cursor
                  ≡ cursor ∷ later =
                ground (arith, fits, free) in
              subst run (sym same) (offers cursor later fits free rest)
        ]
        | inr over ↦
            let same : slots_from now step window_end bookings (suc fuel) cursor ≡ [] =
              ground (arith, over) in
            subst run (sym same) (stops cursor over)
      ]

enough_fuel :
    (step start finish : ℕ)
    → 0 < step
    → finish < start + suc ((finish - start) / step) * step + step
enough_fuel step start finish positive =
    let near = lt-div-mul-add {a = finish - start} {b = step} positive in grind (arith, near)

-- if the duration is not 0, the loop of `generateSlots` ends, and the offered slots are those it pushed.
pub generate_slots-LoopRun :
    (now date : ℕ) (window : Window) (duration : ℕ) (bookings : List Booking)
    → 0 < duration
    → LoopRun now
        (duration * minute_millis)
        (at_time date window.end_time)
        bookings
        (at_time date window.start_time)
        (generate_slots now date window duration bookings)
unfolding generate_slots
generate_slots-LoopRun now date window duration bookings positive =
    let step = duration * minute_millis in
    let start = at_time date window.start_time in
    let finish = at_time date window.end_time in
    slots_from-LoopRun now step finish bookings (suc ((finish - start) / step)) start
      (enough_fuel step start finish (omega arith))
