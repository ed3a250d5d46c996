-- ===== src/Booking/Safety/Queries.antt =====
-- The two writes of the booking table, and its queries, against the absence of double bookings.
use booking_platform_claude.Prelude.{
  List, ℕ, ◌≡◌, refl, sym, subst, Bool, true, false, inl, inr, Option, none, some, any, arith,
  Option-cases, Bool-cases,
}
use booking_platform_claude.Schema.{Booking, booking_clash}
use booking_platform_claude.Store.{Db, Client}
use booking_platform_claude.Store.Action.{ok}
use booking_platform_claude.Booking.Types.{set_bookings}
use booking_platform_claude.Booking.Slot.{
  occupies, assert_slot_free, create_booking, update_booking, find_booking,
  load_and_validate_context,
}
use booking_platform_claude.Booking.Reschedule.{move_to}
use booking_platform_claude.Booking.Safety.{NoDoubleBooking}
use booking_platform_claude.Booking.Safety.Rows.{
  StaysPut, NoDoubleBooking-create, NoDoubleBooking-update, NoDoubleBooking-update_row,
  NoDoubleBooking-move, AllFollowed-stays, AllFollowed-row, AllFollowed-move,
}
use booking_platform_claude.Booking.Safety.History.{AllFollowed, AllFollowed-∷}
use booking_platform_claude.Prelude.{In, ◌==◌}

-- No double bookings, and each booking of an earlier table has followed the diagram of statuses.
unfoldable pub IsSafe : List Booking → Db → Type 0
IsSafe t0 s = NoDoubleBooking s.bookings × AllFollowed t0 s.bookings

pub IsSafe-same :
    (t0 : List Booking) (s t : Db) → t.bookings ≡ s.bookings → IsSafe t0 s → IsSafe t0 t
unfolding IsSafe
IsSafe-same t0 s t e = subst (λ z. NoDoubleBooking z × AllFollowed t0 z) (sym e)

-- The slot of a new row is free.
pub IsFreeFor : Booking → Db → Type 0
IsFreeFor b s =
    any (occupies b.branch_id b.staff_member_id b.start_time b.end_time none) s.bookings ≡ false

pub IsFreeFor-same :
    (b : Booking) (s t : Db)
    → t.bookings ≡ s.bookings
    → any (occupies b.branch_id b.staff_member_id b.start_time b.end_time none) s.bookings ≡ false
    → IsFreeFor b t
unfolding IsFreeFor
IsFreeFor-same b s t e h = rw e h

module _ (c : Client) where
  pub create_booking-IsSafe :
      (t0 : List Booking) (b : Booking) (s : Db)
      → IsFreeFor b s
      → IsSafe t0 s
      → IsSafe t0 (create_booking c b s).1
  unfolding IsSafe IsFreeFor create_booking
  create_booking-IsSafe t0 b s free h = elim (Bool-cases (any (booking_clash b) s.bookings)) [
    | inl clash ↦ ground (arith, c.booking.create_lem b s.bookings)
    | inr fresh ↦ ground (
      arith,
      c.booking.create_lem b s.bookings,
      NoDoubleBooking-create b s.bookings fresh free h.0,
      AllFollowed-∷ b t0 s.bookings h.1,
    )
  ]

  pub update_booking-IsSafe :
      (t0 : List Booking) (b : Booking) (f : Booking → Booking) (s : Db)
      → In b s.bookings
      → StaysPut b (f b)
      → IsSafe t0 s
      → IsSafe t0 (update_booking c b.id f s).1
  unfolding IsSafe update_booking
  update_booking-IsSafe t0 b f s i stays h = ground (
    arith,
    c.booking.update_lem (λ r. r.id == b.id) f s.bookings,
    NoDoubleBooking-update_row b f s.bookings i stays h.0,
    AllFollowed-row b f t0 s.bookings i stays h.0 h.1,
  )

  pub update_many-IsSafe :
      (t0 : List Booking) (p : Booking → Bool) (f : Booking → Booking) (s : Db)
      → ((a : Booking) → p a ≡ true → StaysPut a (f a))
      → IsSafe t0 s
      → IsSafe t0 (set_bookings (c.booking.update_many p f s.bookings) s)
  unfolding IsSafe
  update_many-IsSafe t0 p f s keeps h = rw (c.booking.update_many_lem p f s.bookings) (
    NoDoubleBooking-update p f s.bookings keeps h.0,
    AllFollowed-stays p f t0 s.bookings keeps h.1,
  )

  pub move_booking-IsSafe :
      (t0 : List Booking) (b : Booking) (start end' : ℕ) (s : Db)
      → In b s.bookings
      → any (occupies b.branch_id b.staff_member_id start end' (some b.id)) s.bookings ≡ false
      → IsSafe t0 s
      → IsSafe t0 (update_booking c b.id (move_to start end') s).1
  unfolding IsSafe update_booking
  move_booking-IsSafe t0 b start end' s i free h = ground (
    arith,
    c.booking.update_lem (λ r. r.id == b.id) (move_to start end') s.bookings,
    NoDoubleBooking-move b start end' s.bookings i free h.0,
    AllFollowed-move b start end' t0 s.bookings h.1,
  )

  pub load_and_validate_context-reads :
      (business_id branch_id service_id : ℕ) (staff_id : Option ℕ) (s : Db)
      → (load_and_validate_context c business_id branch_id service_id staff_id s).1 ≡ s
  unfolding load_and_validate_context
  load_and_validate_context-reads business_id branch_id service_id none s = ground arith
  load_and_validate_context-reads business_id branch_id service_id (some staff_id) s = ground arith

  pub assert_slot_free-reads :
      (branch_id : ℕ) (staff_id : Option ℕ) (start end' : ℕ) (exclude : Option ℕ) (s : Db)
      → (assert_slot_free c branch_id staff_id start end' exclude s).1 ≡ s
  unfolding assert_slot_free
  assert_slot_free-reads branch_id staff_id start end' exclude s = refl

  -- A slot that passes the check is free.
  pub assert_slot_free_lem :
      (branch_id : ℕ) (staff_id : Option ℕ) (start end' : ℕ) (exclude : Option ℕ) (s t : Db)
      (u : Unit {0})
      → assert_slot_free c branch_id staff_id start end' exclude s ≡ (ok u, t)
      → (t ≡ s) × (any (occupies branch_id staff_id start end' exclude) s.bookings ≡ false)
  unfolding assert_slot_free
  assert_slot_free_lem branch_id staff_id start end' exclude s t u e = (
    ground arith,
    ground (
      arith,
      c.booking.find_first_none (occupies branch_id staff_id start end' exclude) s.bookings,
    ),
  )

  -- A booking that a query finds stands in the table and meets the query.
  pub find_booking-reads : (p : Booking → Bool) (s : Db) → (find_booking c p s).1 ≡ s
  unfolding find_booking
  find_booking-reads p s = ground arith

  pub find_booking_lem :
      (p : Booking → Bool) (s t : Db) (b : Booking)
      → find_booking c p s ≡ (ok b, t)
      → (t ≡ s) × In b s.bookings × (p b ≡ true)
  unfolding find_booking
  find_booking_lem p s t b e = elim (Option-cases (c.booking.find_first p s.bookings)) [
    | inl missing ↦ ground arith
    | inr (r, found) ↦
        let facts = c.booking.find_first_some p s.bookings r found in
        let same : r ≡ b = ground arith in
        (
          ground arith,
          subst (λ x. In x s.bookings) same facts.0,
          subst (λ x. p x ≡ true) same facts.1,
        )
  ]
