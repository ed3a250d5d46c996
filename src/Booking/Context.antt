-- ===== src/Booking/Context.antt =====
-- What `loadAndValidateContext`, `assertSlotFree` and the creation of a row give in booking.service.ts.
use booking_platform_claude.Prelude.{
  ℕ, ◌≡◌, true, false, ◌&&◌, Option, some, ◌∷◌, ◌==◌, arith, Option-cases, inl, inr, In, any,
}
use booking_platform_claude.Schema.{Booking, Business, Service, is_approved}
use booking_platform_claude.Store.{Db, Client}
use booking_platform_claude.Store.Action.{ok}
use booking_platform_claude.Booking.Slot.{
  load_and_validate_context, check_staff, create_booking, assert_slot_free, occupies,
}

-- The business and the service that a request names: an approved business of the table, and one of its active services.
pub record IsContext (business_id service_id : ℕ) (s : Db) (business : Business) (service : Service)
    : Type 0 where
  pub of_table : In business s.businesses
  pub is_business : ((business.id == business_id) ≡ true) × (is_approved business.status ≡ true)
  pub on_offer : In service s.services
  pub is_service :
      ((service.id == service_id) ≡ true)
      × ((service.business_id == business_id) ≡ true)
      × (service.is_active ≡ true)

module _ (c : Client) where
  pub load_and_validate_context-IsContext :
      (business_id branch_id service_id : ℕ) (staff : Option ℕ) (s t : Db)
      (found : Business × Service)
      → load_and_validate_context c business_id branch_id service_id staff s ≡ (ok found, t)
      → IsContext business_id service_id s found.0 found.1
  unfolding load_and_validate_context check_staff
  load_and_validate_context-IsContext business_id branch_id service_id staff s t (business, service)
        e =
      let p = λ (b : Business). b.id == business_id && is_approved b.status in
      let q =
        λ (v : Service). v.id == service_id && (v.business_id == business_id && v.is_active) in
      let b_found : c.business.find_first p s.businesses ≡ some business = ground arith in
      let v_found : c.service.find_first q s.services ≡ some service = ground arith in
      let (b_in, b_hit) = c.business.find_first_some p s.businesses business b_found in
      let (v_in, v_hit) = c.service.find_first_some q s.services service v_found in
      record {
        of_table = b_in;
        is_business = ground arith;
        on_offer = v_in;
        is_service = ground arith;
      }

  pub create_booking-adds :
      (b r : Booking) (s t : Db)
      → create_booking c b s ≡ (ok r, t)
      → (r ≡ b) × (t.bookings ≡ b ∷ s.bookings)
  unfolding create_booking
  create_booking-adds b r s t e = let law = c.booking.create_lem b s.bookings in ground arith

  pub assert_slot_free-finds :
      (branch_id : ℕ) (staff : Option ℕ) (start end : ℕ) (exclude : Option ℕ) (s t : Db)
      (u : Unit {0})
      → assert_slot_free c branch_id staff start end exclude s ≡ (ok u, t)
      → (t ≡ s) × (any (occupies branch_id staff start end exclude) s.bookings ≡ false)
  unfolding assert_slot_free
  assert_slot_free-finds branch_id staff start end exclude s t u e =
      elim (Option-cases
        (c.booking.find_first (occupies branch_id staff start end exclude) s.bookings)) [
          | inl nothing ↦ (
            ground arith,
            c.booking.find_first_none (occupies branch_id staff start end exclude) s.bookings
                nothing,
          )
          | inr (b, found) ↦ absurd (ground arith)
        ]
