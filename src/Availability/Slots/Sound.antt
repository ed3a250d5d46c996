-- ===== src/Availability/Slots/Sound.antt =====
-- `generateSlots` of availability.service.ts: what it may offer.
use booking_platform_claude.Prelude.{
  ℕ, zero, suc, ◌+◌, ◌-◌, ◌*◌, ◌/◌, ◌≤◌, ◌<◌, ◌≡◌, false, List, [], ◌∷◌, arith, any, All, AllPairs,
}
use booking_platform_claude.Schema.{Booking}
use booking_platform_claude.Availability.Slots.{
  Window, at_time, minute_millis, overlaps, slots_from, generate_slots,
}

-- A slot lies in the window, a whole number of steps behind its start, begins in the future, and
-- no booking overlaps it.
pub record IsFree (now start step window_end : ℕ) (bookings : List Booking) (slot : ℕ)
    : Type 0 where
  pub from_start : start ≤ slot
  pub to_end : slot + step ≤ window_end
  pub in_future : now < slot
  pub unbooked : any (overlaps slot (slot + step)) bookings ≡ false

module _ (now step window_end : ℕ) (bookings : List Booking) where
  IsFree-earlier :
      (start start' : ℕ) (slots : List ℕ)
      → start' ≤ start
      → All (IsFree now start step window_end bookings) slots
      → All (IsFree now start' step window_end bookings) slots
  IsFree-earlier start start' [] h a = tt
  IsFree-earlier start start' (x ∷ xs) h a = (
    record {
      from_start = omega arith;
      to_end = a.0.to_end;
      in_future = a.0.in_future;
      unbooked = a.0.unbooked;
    },
    IsFree-earlier start start' xs h a.1,
  )

  slots_from-IsFree :
      (fuel cursor : ℕ)
      → All
          (IsFree now cursor step window_end bookings)
          (slots_from now step window_end bookings fuel cursor)
  unfolding slots_from
  slots_from-IsFree zero cursor = tt
  slots_from-IsFree (suc fuel) cursor =
      let rest =
        IsFree-earlier (cursor + step) cursor
          (slots_from now step window_end bookings fuel (cursor + step)) (omega arith)
          (slots_from-IsFree fuel (cursor + step)) in
      ground (arith, rest)

  -- Each slot ends before the next one begins.
  abbrev pub Apart : ℕ → ℕ → Type 0
  Apart a b = a + step ≤ b

  Apart-of_free :
      (start cursor : ℕ) (slots : List ℕ)
      → cursor + step ≤ start
      → All (IsFree now start step window_end bookings) slots
      → All (Apart cursor) slots
  Apart-of_free start cursor [] h a = tt
  Apart-of_free start cursor (x ∷ xs) h a =
      (omega (arith, a.0.from_start), Apart-of_free start cursor xs h a.1)

  slots_from-Apart :
      (fuel cursor : ℕ) → AllPairs Apart (slots_from now step window_end bookings fuel cursor)
  unfolding slots_from
  slots_from-Apart zero cursor = tt
  slots_from-Apart (suc fuel) cursor = ground (
    arith,
    slots_from-Apart fuel (cursor + step),
    Apart-of_free (cursor + step) cursor
        (slots_from now step window_end bookings fuel (cursor + step)) (omega arith)
        (slots_from-IsFree fuel (cursor + step)),
  )

-- Every slot that is offered lies in the working window, begins after the present, and overlaps no
-- booking of the list; each ends before the next begins.
pub generate_slots-IsFree :
    (now date : ℕ) (window : Window) (duration : ℕ) (bookings : List Booking)
    → All
        (IsFree now
          (at_time date window.start_time)
          (duration * minute_millis)
          (at_time date window.end_time)
          bookings)
        (generate_slots now date window duration bookings)
      × AllPairs
          (λ a b. a + duration * minute_millis ≤ b)
          (generate_slots now date window duration bookings)
unfolding generate_slots
generate_slots-IsFree now date window duration bookings =
    let step = duration * minute_millis in
    let start = at_time date window.start_time in
    let finish = at_time date window.end_time in
    let fuel = suc ((finish - start) / step) in
    (
      slots_from-IsFree now step finish bookings fuel start,
      slots_from-Apart now step finish bookings fuel start,
    )
