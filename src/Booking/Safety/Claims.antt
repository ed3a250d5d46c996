-- ===== src/Booking/Safety/Claims.antt =====
-- `hold` and `createRecurring` keep the bookings free of double bookings.
use booking_platform_claude.Prelude.{
  ℕ, ◌≡◌, refl, sym, ap, ◌∙◌, Option, none, some, List, [], ◌∷◌, ◌+◌, arith,
}
use booking_platform_claude.Schema.{Booking, Business, Service}
use booking_platform_claude.Store.{Db, Client, Env}
use booking_platform_claude.Store.Holds.{bind_holds, transaction_holds}
use booking_platform_claude.Store.Action.{Action, Result, transaction}
use booking_platform_claude.Coupon.Frame.{check_and_redeem-bookings, link_usage-bookings}
use booking_platform_claude.Coupon.{CouponCheckResult}
use booking_platform_claude.Booking.Types.{HoldBookingDto, CreateRecurringBookingDto, end_of}
use booking_platform_claude.Booking.Slot.{
  load_and_validate_context, assert_slot_free, create_booking,
}
use booking_platform_claude.Booking.Hold.{
  discount_taken, redeem_if_given, link_if_redeemed, held_booking, claim_slot, hold,
}
use booking_platform_claude.Booking.Recurring.{
  starts_from, recurring_booking, create_each, create_recurring,
}
use booking_platform_claude.Booking.Safety.Steps.{locked-IsSafe}
use booking_platform_claude.Booking.Safety.Queries.{
  load_and_validate_context-reads, IsSafe, IsSafe-same, IsFreeFor-same, create_booking-IsSafe,
  assert_slot_free-reads, assert_slot_free_lem,
}

module _ (c : Client) (env : Env) where
  redeem_if_given-bookings :
      (user_id : ℕ) (code : Option ℕ) (business_id price : ℕ) (s : Db)
      → (redeem_if_given c env user_id code business_id price s).1.bookings ≡ s.bookings
  redeem_if_given-bookings user_id none business_id price s = refl
  redeem_if_given-bookings user_id (some code) business_id price s =
      ground (arith, check_and_redeem-bookings c env 1 code user_id (some business_id) price s)

  link_if_redeemed-bookings :
      (user_id booking_id : ℕ) (r : Option CouponCheckResult) (s : Db)
      → (link_if_redeemed c env user_id booking_id r s).1.bookings ≡ s.bookings
  link_if_redeemed-bookings user_id booking_id none s = refl
  link_if_redeemed-bookings user_id booking_id (some r) s =
      ground (arith, link_usage-bookings c env r.coupon_id user_id booking_id s)

  claim_slot-IsSafe :
      (t0 : List Booking) (user_id : ℕ) (dto : HoldBookingDto) (business : Business)
      (service : Service) (s : Db)
      → IsSafe t0 s
      → IsSafe t0 (claim_slot c env user_id dto business service s).1
  unfolding claim_slot
  claim_slot-IsSafe t0 user_id dto business service s h =
      bind_holds (IsSafe t0) asserting _ s
        (IsSafe-same t0 s _ (ap (λ (z : Db). z.bookings) (reads s)) h)
        λ u t asserted ht.
          let (same, free) =
            assert_slot_free_lem c dto.branch_id dto.staff_member_id dto.start_time
              (end_of service dto.start_time) none s t u asserted in
          bind_holds (IsSafe t0) redeeming _ t (IsSafe-same t0 t _ (redeemed_same t) ht)
            λ redeemed v taken hv.
              let now_same : v.bookings ≡ s.bookings =
                sym (ap (λ (z : Result (Option CouponCheckResult) × Db). z.1.bookings) taken)
                ∙ redeemed_same t
                ∙ ap (λ (z : Db). z.bookings) same in
              let row = held_booking c env user_id dto business service (discount_taken redeemed) in
              bind_holds (IsSafe t0) (create_booking c row) _ v
                (create_booking-IsSafe c t0 row v (IsFreeFor-same row s v now_same free) hv)
                λ booking w created hw.
                  bind_holds (IsSafe t0) (link_if_redeemed c env user_id booking.id redeemed) _ w
                    (IsSafe-same t0 w _ (link_if_redeemed-bookings user_id booking.id redeemed w)
                      hw)
                    λ _ x _ hx. hx
    where
      asserting : Action (Unit {0})
      asserting =
          assert_slot_free c dto.branch_id dto.staff_member_id dto.start_time
            (end_of service dto.start_time) none

      reads : (z : Db) → (asserting z).1 ≡ z
      reads =
          assert_slot_free-reads c dto.branch_id dto.staff_member_id dto.start_time
            (end_of service dto.start_time) none

      redeeming : Action (Option CouponCheckResult)
      redeeming = redeem_if_given c env user_id dto.coupon_code dto.business_id service.price

      redeemed_same : (z : Db) → (redeeming z).1.bookings ≡ z.bookings
      redeemed_same = redeem_if_given-bookings user_id dto.coupon_code dto.business_id service.price

  -- A hold leaves no double booking, whether it succeeds or throws.
  pub hold-IsSafe :
      (t0 : List Booking) (user_id : ℕ) (dto : HoldBookingDto) (s : Db)
      → IsSafe t0 s
      → IsSafe t0 (hold c env user_id dto s).1
  unfolding hold
  hold-IsSafe t0 user_id dto s h =
      bind_holds (IsSafe t0)
        (load_and_validate_context c dto.business_id dto.branch_id dto.service_id
          dto.staff_member_id)
        _ s
        (IsSafe-same t0 s _
          (ap (λ (z : Db). z.bookings)
            (load_and_validate_context-reads c dto.business_id dto.branch_id dto.service_id
              dto.staff_member_id s))
          h)
        λ (business, service) t _ ht.
          locked-IsSafe t0 env.lock (transaction c (claim_slot c env user_id dto business service))
            t ht
            (transaction_holds (IsSafe t0) c (claim_slot c env user_id dto business service) t ht
              (claim_slot-IsSafe t0 user_id dto business service t ht))

  create_each-IsSafe :
      (t0 : List Booking) (user_id : ℕ) (dto : CreateRecurringBookingDto) (business : Business)
      (service : Service) (k : ℕ) (starts : List ℕ) (s : Db)
      → IsSafe t0 s
      → IsSafe t0 (create_each c env user_id dto business service k starts s).1
  unfolding create_each
  create_each-IsSafe t0 user_id dto business service k [] s h = h
  create_each-IsSafe t0 user_id dto business service k (start ∷ starts) s h =
      let finish = end_of service start in
      bind_holds (IsSafe t0)
        (assert_slot_free c dto.branch_id dto.staff_member_id start finish none) _ s
        (IsSafe-same t0 s _
          (ap (λ (z : Db). z.bookings)
            (assert_slot_free-reads c dto.branch_id dto.staff_member_id start finish none s))
          h)
        λ u t asserted ht.
          let (same, free) =
            assert_slot_free_lem c dto.branch_id dto.staff_member_id start finish none s t u
              asserted in
          let row = recurring_booking c env user_id dto business service (env.uuid k) start in
          bind_holds (IsSafe t0) (create_booking c row) _ t
            (create_booking-IsSafe c t0 row t
              (IsFreeFor-same row s t (ap (λ (z : Db). z.bookings) same) free) ht)
            λ booking v _ hv.
              bind_holds (IsSafe t0) (create_each c env user_id dto business service (k + 1) starts)
                _ v (create_each-IsSafe t0 user_id dto business service (k + 1) starts v hv)
                λ _ x _ hx. hx

  -- So does a series of weekly bookings.
  pub create_recurring-IsSafe :
      (t0 : List Booking) (user_id : ℕ) (dto : CreateRecurringBookingDto) (s : Db)
      → IsSafe t0 s
      → IsSafe t0 (create_recurring c env user_id dto s).1
  unfolding create_recurring
  create_recurring-IsSafe t0 user_id dto s h =
      bind_holds (IsSafe t0)
        (load_and_validate_context c dto.business_id dto.branch_id dto.service_id
          dto.staff_member_id)
        _ s
        (IsSafe-same t0 s _
          (ap (λ (z : Db). z.bookings)
            (load_and_validate_context-reads c dto.business_id dto.branch_id dto.service_id
              dto.staff_member_id s))
          h)
        λ (business, service) t _ ht.
          transaction_holds (IsSafe t0) c
            (create_each c env user_id dto business service 1
              (starts_from dto.start_time 0 dto.occurrences))
            t ht
            (create_each-IsSafe t0 user_id dto business service 1
              (starts_from dto.start_time 0 dto.occurrences) t ht)
