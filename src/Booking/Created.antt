-- ===== src/Booking/Created.antt =====
-- The result of `hold` of booking.service.ts.
use booking_platform_claude.Prelude.{
  ℕ, ◌≤◌, ◌≡◌, refl, sym, ap, subst, ◌∙◌, false, Option, none, some, ◌∷◌, arith, any,
}
use booking_platform_claude.Schema.{Booking, Business, Service}
use booking_platform_claude.Store.{Db, Client, Env, LockOutcome}
use booking_platform_claude.Store.Action.{Action, Result, ok, transaction, ◌>>=◌, ◌>>◌, pure}
use booking_platform_claude.Store.Holds.{bind_ok, transaction_ok}
use booking_platform_claude.Coupon.{CouponCheckResult, check_and_redeem}
use booking_platform_claude.Coupon.Terms.{IsDiscount-le}
use booking_platform_claude.Coupon.Discount.{IsAccepted, check_and_redeem-IsAccepted}
use booking_platform_claude.Coupon.Frame.{check_and_redeem-bookings, link_usage-bookings}
use booking_platform_claude.Booking.Types.{HoldBookingDto, end_of}
use booking_platform_claude.Booking.Slot.{
  load_and_validate_context, create_booking, assert_slot_free, occupies,
}
use booking_platform_claude.Booking.Hold.{
  with_lock, claim_slot, hold, held_booking, redeem_if_given, link_if_redeemed, discount_taken,
}
use booking_platform_claude.Booking.Atomic.{load_and_validate_context-reads}
use booking_platform_claude.Booking.Asked.{asked_row, held-asked}
use booking_platform_claude.Booking.Context.{
  IsContext, load_and_validate_context-IsContext, create_booking-adds, assert_slot_free-finds,
}

-- The discount of a request: none without a coupon's code, else what the coupon gives for the price.
abbrev pub IsReduced : Env → ℕ → Option ℕ → ℕ → ℕ → Db → ℕ → Type 0
IsReduced env user_id none business_id price s discount = discount ≡ 0
IsReduced env user_id (some code) business_id price s discount =
    (r : CouponCheckResult) × IsAccepted code env.now user_id (some business_id) price s r
    × (discount ≡ r.discount_amount)

module _ (c : Client) where
  redeem-result :
      (env : Env) (user_id : ℕ) (code : Option ℕ) (business_id price : ℕ) (s t : Db)
      (r : Option CouponCheckResult)
      → redeem_if_given c env user_id code business_id price s ≡ (ok r, t)
      → IsReduced env user_id code business_id price s (discount_taken r)
        × (t.bookings ≡ s.bookings)
  redeem-result env user_id none business_id price s t r e = (ground arith, ground arith)
  redeem-result env user_id (some code) business_id price s t r e =
      let (taken, s', redeemed, rest) =
        bind_ok (check_and_redeem c env 1 code user_id (some business_id) price) _ s e in
      let accepted =
        (check_and_redeem-IsAccepted c env 1 code user_id (some business_id) price s s' taken
          redeemed).1 in
      let frame : s'.bookings ≡ s.bookings =
        subst (λ (z : Result CouponCheckResult × Db). z.1.bookings ≡ s.bookings) redeemed
          (check_and_redeem-bookings c env 1 code user_id (some business_id) price s) in
      ((taken, accepted, ground arith), ground arith)

  IsReduced-le :
      (env : Env) (user_id : ℕ) (code : Option ℕ) (business_id price : ℕ) (s : Db) (discount : ℕ)
      → IsReduced env user_id code business_id price s discount
      → discount ≤ price
  IsReduced-le env user_id none business_id price s discount h = ground (arith, h)
  IsReduced-le env user_id (some code) business_id price s discount (r, accepted, same) =
      ground
        (arith, same, IsDiscount-le accepted.coupon price r.discount_amount accepted.is_discount)

  link-bookings :
      (env : Env) (user_id id : ℕ) (r : Option CouponCheckResult) (s : Db)
      → (link_if_redeemed c env user_id id r s).1.bookings ≡ s.bookings
  link-bookings env user_id id none s = refl
  link-bookings env user_id id (some r) s =
      ground (arith, link_usage-bookings c env r.coupon_id user_id id s)

-- A booking that `hold` returned: the asked row at the price of the service, with the discount of the coupon if there is one; it was added to the table, where nothing active overlapped it.
pub record IsHeld (env : Env) (user_id : ℕ) (dto : HoldBookingDto) (s t : Db) (b : Booking)
    : Type 0 where
  pub business : Business
  pub service : Service
  pub discount : ℕ
  pub context : IsContext dto.business_id dto.service_id s business service
  pub row : b ≡ asked_row (env.uuid 0) env.now user_id dto business service discount
  pub reduced : IsReduced env user_id dto.coupon_code dto.business_id service.price s discount
  pub discount_le : discount ≤ service.price
  pub added : t.bookings ≡ b ∷ s.bookings
  pub was_free :
      any (occupies dto.branch_id dto.staff_member_id dto.start_time b.end_time none) s.bookings
      ≡ false

module _ (c : Client) (env : Env) where
  linked :
      (user_id : ℕ) (created b : Booking) (taken : Option CouponCheckResult) (s s' t : Db)
      (u : Unit {0})
      → link_if_redeemed c env user_id created.id taken s ≡ (ok u, s')
      → pure created s' ≡ (ok b, t)
      → (b ≡ created) × (t.bookings ≡ s.bookings)
  linked user_id created b taken s s' t u e f =
      let kept : s'.bookings ≡ s.bookings =
        subst (λ (z : Result (Unit {0}) × Db). z.1.bookings ≡ s.bookings) e
          (link-bookings c env user_id created.id taken s) in
      (ground arith, sym (ap (λ (z : Result Booking × Db). z.1.bookings) f) ∙ kept)

  create_and_link :
      (user_id : ℕ) (row : Booking) (taken : Option CouponCheckResult) (s t : Db) (b : Booking)
      → (create_booking c row >>= λ booking.
            link_if_redeemed c env user_id booking.id taken >> pure booking)
          s
        ≡ (ok b, t)
      → (b ≡ row) × (t.bookings ≡ b ∷ s.bookings)
  create_and_link user_id row taken s t b e =
      let (created, s', e1, r1) = bind_ok (create_booking c row) _ s e in
      let (is_row, grown) = create_booking-adds c row created s s' e1 in
      let (v, s'', e2, r2) = bind_ok (link_if_redeemed c env user_id created.id taken) _ s' r1 in
      let (same, rows) = linked user_id created b taken s' s'' t v e2 r2 in
      (same ∙ is_row, rows ∙ grown ∙ ap (λ z. z ∷ s.bookings) (sym (same ∙ is_row)))

  claim_slot-result :
      (user_id : ℕ) (dto : HoldBookingDto) (business : Business) (service : Service) (s t : Db)
      (b : Booking)
      → claim_slot c env user_id dto business service s ≡ (ok b, t)
      → (discount : ℕ) × (b ≡ held_booking c env user_id dto business service discount)
        × IsReduced env user_id dto.coupon_code dto.business_id service.price s discount
        × (t.bookings ≡ b ∷ s.bookings)
        × (any
              (occupies dto.branch_id dto.staff_member_id dto.start_time
                (end_of service dto.start_time)
                none)
              s.bookings
            ≡ false)
  unfolding claim_slot
  claim_slot-result user_id dto business service s t b e =
      let (u, s1, e1, r1) =
        bind_ok
          (assert_slot_free c dto.branch_id dto.staff_member_id dto.start_time
            (end_of service dto.start_time) none)
          _ s e in
      let (same, free) =
        assert_slot_free-finds c dto.branch_id dto.staff_member_id dto.start_time
          (end_of service dto.start_time) none s s1 u e1 in
      let (taken, s2, e2, r2) =
        bind_ok (redeem_if_given c env user_id dto.coupon_code dto.business_id service.price) _ s1
          r1 in
      let (bound, kept) =
        redeem-result c env user_id dto.coupon_code dto.business_id service.price s1 s2 taken e2 in
      let (is_row, grown) =
        create_and_link user_id
          (held_booking c env user_id dto business service (discount_taken taken)) taken s2 t b
          r2 in
      let before : s2.bookings ≡ s.bookings = kept ∙ ap (λ (z : Db). z.bookings) same in
      let reduced =
        subst
          (λ z.
            IsReduced env user_id dto.coupon_code dto.business_id service.price z
              (discount_taken taken))
          same bound in
      (discount_taken taken, is_row, reduced, grown ∙ ap (λ z. b ∷ z) before, free)

  locked-result :
      (lock : LockOutcome) (m : Action Booking) (s t : Db) (b : Booking)
      → with_lock lock (transaction c m) s ≡ (ok b, t)
      → m s ≡ (ok b, t)
  locked-result LockOutcome.released m s t b e = transaction_ok c m s e
  locked-result LockOutcome.unreachable m s t b e = cc (ap (λ (z : Result Booking × Db). z.0) e)
  locked-result LockOutcome.taken m s t b e = cc (ap (λ (z : Result Booking × Db). z.0) e)
  locked-result LockOutcome.unreleased m s t b e = cc (ap (λ (z : Result Booking × Db). z.0) e)

  -- What the transaction wrote that `hold` runs, when it returned.
  pub claimed-IsHeld :
      (user_id : ℕ) (dto : HoldBookingDto) (found : Business × Service) (s s1 t : Db) (b : Booking)
      → load_and_validate_context c dto.business_id dto.branch_id dto.service_id dto.staff_member_id
          s
        ≡ (ok found, s1)
      → claim_slot c env user_id dto found.0 found.1 s1 ≡ (ok b, t)
      → IsHeld env user_id dto s t b
  claimed-IsHeld user_id dto found s s1 t b e1 claimed =
      let context =
        load_and_validate_context-IsContext c dto.business_id dto.branch_id dto.service_id
          dto.staff_member_id s s1 found e1 in
      let same : s1 ≡ s =
        subst (λ (z : Result (Business × Service) × Db). z.1 ≡ s) e1
          (load_and_validate_context-reads c env dto.business_id dto.branch_id dto.service_id
            dto.staff_member_id s) in
      let (discount, row, bound, added, free) =
        claim_slot-result user_id dto found.0 found.1 s1 t b claimed in
      let reduced =
        subst (λ z. IsReduced env user_id dto.coupon_code dto.business_id found.1.price z discount)
          same bound in
      let asked = row ∙ held-asked c env user_id dto found.0 found.1 discount in
      record {
        business = found.0;
        service = found.1;
        discount = discount;
        context = context;
        row = asked;
        reduced = reduced;
        discount_le =
            IsReduced-le c env user_id dto.coupon_code dto.business_id found.1.price s discount
              reduced;
        added = added ∙ ap (λ (z : Db). b ∷ z.bookings) same;
        was_free = rw row (
            subst
              (λ (z : Db).
                any
                  (occupies dto.branch_id dto.staff_member_id dto.start_time
                    (end_of found.1 dto.start_time) none)
                  z.bookings
                ≡ false)
              same free);
      }

  -- A booking that `hold` returns is, field by field, the row for the request, made for an approved business and one of its
  -- active services, at that service's price and for its duration, held for five minutes from now, with no discount if no coupon is given and else that of a coupon that is applicable, at most the price, and with the deposit that the service asks for of the rest; the table is the old one with that row, and no active booking of the old table overlapped it.
  pub hold-IsHeld :
      (user_id : ℕ) (dto : HoldBookingDto) (s t : Db) (b : Booking)
      → hold c env user_id dto s ≡ (ok b, t)
      → IsHeld env user_id dto s t b
  unfolding hold
  hold-IsHeld user_id dto s t b e =
      let (found, s1, e1, r1) =
        bind_ok
          (load_and_validate_context c dto.business_id dto.branch_id dto.service_id
            dto.staff_member_id)
          _ s e in
      claimed-IsHeld user_id dto found s s1 t b e1
        (locked-result env.lock (claim_slot c env user_id dto found.0 found.1) s1 t b r1)
