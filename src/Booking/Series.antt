-- ===== src/Booking/Series.antt =====
-- The result of `createRecurring` of booking.service.ts.
use booking_platform_claude.Prelude.{
  ℕ, zero, suc, ◌+◌, ◌*◌, ◌≡◌, refl, sym, ap, subst, ◌∙◌, none, some, List, [], ◌∷◌, arith, length,
}
use booking_platform_claude.Schema.{Booking, BookingStatus, Business, Service}
use booking_platform_claude.Store.{Db, Client, Env}
use booking_platform_claude.Store.Action.{Result, ok, pure}
use booking_platform_claude.Store.Holds.{bind_ok, transaction_ok}
use booking_platform_claude.Booking.Types.{CreateRecurringBookingDto, end_of}
use booking_platform_claude.Booking.Slot.{
  load_and_validate_context, create_booking, assert_slot_free,
}
use booking_platform_claude.Booking.Recurring.{
  create_each, create_recurring, starts_from, recurring_booking,
}
use booking_platform_claude.Booking.Atomic.{load_and_validate_context-reads}
use booking_platform_claude.Booking.Asked.{deposit_due, deposit_due_lem}
use booking_platform_claude.Booking.Context.{
  IsContext, load_and_validate_context-IsContext, create_booking-adds, assert_slot_free-finds,
}

-- The rows that the loop creates at the given times, the first with the `k`-th new identifier.
abbrev series :
    Client → Env → ℕ → CreateRecurringBookingDto → Business → Service → ℕ → List ℕ → List Booking
series c env user_id dto business service k [] = []
series c env user_id dto business service k (start ∷ starts) =
    recurring_booking c env user_id dto business service (env.uuid k) start
    ∷ series c env user_id dto business service (k + 1) starts

-- The row of the `i`-th week: at the time of the first start that many weeks later, held for five minutes at the full price, in the group of the series.
abbrev pub weekly_row : Env → ℕ → CreateRecurringBookingDto → Business → Service → ℕ → Booking
weekly_row env user_id dto business service i = record {
  id = env.uuid (i + 1);
  user_id = user_id;
  business_id = dto.business_id;
  branch_id = dto.branch_id;
  staff_member_id = dto.staff_member_id;
  service_id = dto.service_id;
  start_time = dto.start_time + i * 604800000;
  end_time = dto.start_time + i * 604800000 + service.duration_minutes * 60000;
  status = BookingStatus.hold;
  price_snapshot = service.price;
  discount_amount = 0;
  coupon_code = none;
  deposit_required = deposit_due service.requires_deposit service.deposit_percent service.price;
  cancellation_policy_snapshot = business.cancellation_policy;
  hold_expires_at = some (env.now + 300000);
  cancelled_at = none;
  cancel_reason = none;
  recurring_group_id = some (env.uuid 0);
}

-- The rows of `n` weeks from the `i`-th on.
abbrev pub weekly_rows :
    Env → ℕ → CreateRecurringBookingDto → Business → Service → ℕ → ℕ → List Booking
weekly_rows env user_id dto business service i zero = []
weekly_rows env user_id dto business service i (suc n) =
    weekly_row env user_id dto business service i
    ∷ weekly_rows env user_id dto business service (i + 1) n

series-weekly_rows :
    (c : Client) (env : Env) (user_id : ℕ) (dto : CreateRecurringBookingDto) (business : Business)
    (service : Service) (i n : ℕ)
    → series c env user_id dto business service (i + 1) (starts_from dto.start_time i n)
      ≡ weekly_rows env user_id dto business service i n
series-weekly_rows c env user_id dto business service i zero = refl
series-weekly_rows c env user_id dto business service i (suc n) =
    ap
      (λ z.
        record (weekly_row env user_id dto business service i) { deposit_required = z }
        ∷ series c env user_id dto business service (i + 1 + 1)
            (starts_from dto.start_time (i + 1) n))
      (deposit_due_lem service service.price)
    ∙ ap (λ z. weekly_row env user_id dto business service i ∷ z)
        (series-weekly_rows c env user_id dto business service (i + 1) n)

-- The rows in front of a table, the last first.
abbrev pub stacked : List Booking → List Booking → List Booking
stacked [] t = t
stacked (b ∷ bs) t = stacked bs (b ∷ t)

length-starts_from : (first_start i n : ℕ) → length (starts_from first_start i n) ≡ n
length-starts_from first_start i zero = refl
length-starts_from first_start i (suc n) = ap suc (length-starts_from first_start (i + 1) n)

length-series :
    (c : Client) (env : Env) (user_id : ℕ) (dto : CreateRecurringBookingDto) (business : Business)
    (service : Service) (k : ℕ) (times : List ℕ)
    → length (series c env user_id dto business service k times) ≡ length times
length-series c env user_id dto business service k [] = refl
length-series c env user_id dto business service k (t ∷ ts) =
    ap suc (length-series c env user_id dto business service (k + 1) ts)

-- The bookings that a recurring booking created for an approved business and its service.
pub record IsSeries (env : Env) (user_id : ℕ) (dto : CreateRecurringBookingDto) (s t : Db)
    (bs : List Booking) : Type 0 where
  pub business : Business
  pub service : Service
  pub context : IsContext dto.business_id dto.service_id s business service
  pub rows : bs ≡ weekly_rows env user_id dto business service 0 dto.occurrences
  pub count : length bs ≡ dto.occurrences
  pub added : t.bookings ≡ stacked bs s.bookings

module _ (c : Client) (env : Env) where
  joined :
      (b row : Booking) (others rest bs : List Booking) (s s1 s2 s3 t : Db)
      → s1 ≡ s
      → b ≡ row
      → s2.bookings ≡ row ∷ s1.bookings
      → others ≡ rest
      → s3.bookings ≡ stacked others s2.bookings
      → pure (b ∷ others) s3 ≡ (ok bs, t)
      → (bs ≡ row ∷ rest) × (t.bookings ≡ stacked bs s.bookings)
  joined b row others rest bs s s1 s2 s3 t same is_row grown is_rest stack e =
      let returned : b ∷ others ≡ bs = ground arith in
      let ended = ap (λ (z : Result (List Booking) × Db). z.1.bookings) e in
      let before : s2.bookings ≡ b ∷ s.bookings =
        grown ∙ ap (λ (z : Db). row ∷ z.bookings) same ∙ ap (λ z. z ∷ s.bookings) (sym is_row) in
      (
        sym returned ∙ ap (λ z. z ∷ others) is_row ∙ ap (λ z. row ∷ z) is_rest,
        sym ended ∙ stack ∙ ap (stacked others) before ∙ ap (λ z. stacked z s.bookings) returned,
      )

  create_each-series :
      (user_id : ℕ) (dto : CreateRecurringBookingDto) (business : Business) (service : Service)
      (k : ℕ) (times : List ℕ) (s t : Db) (bs : List Booking)
      → create_each c env user_id dto business service k times s ≡ (ok bs, t)
      → (bs ≡ series c env user_id dto business service k times)
        × (t.bookings ≡ stacked bs s.bookings)
  unfolding create_each
  create_each-series user_id dto business service k [] s t bs e = (ground arith, ground arith)
  create_each-series user_id dto business service k (start ∷ starts) s t bs e =
      let (u, s1, e1, r1) =
        bind_ok
          (assert_slot_free c dto.branch_id dto.staff_member_id start (end_of service start) none) _
          s e in
      let (same, free) =
        assert_slot_free-finds c dto.branch_id dto.staff_member_id start (end_of service start) none
          s s1 u e1 in
      let row = recurring_booking c env user_id dto business service (env.uuid k) start in
      let (b, s2, e2, r2) = bind_ok (create_booking c row) _ s1 r1 in
      let (is_row, grown) = create_booking-adds c row b s1 s2 e2 in
      let (others, s3, e3, r3) =
        bind_ok (create_each c env user_id dto business service (k + 1) starts) _ s2 r2 in
      let (rest, stack) =
        create_each-series user_id dto business service (k + 1) starts s2 s3 others e3 in
      joined b row others (series c env user_id dto business service (k + 1) starts) bs s s1 s2 s3 t
        same is_row grown rest stack r3

  -- A recurring booking that returns created, for an approved business and one of its active services, exactly
  -- the asked number of rows, field by field: one a week from the first start on, held for five minutes from now at the service's price, without a discount, with the deposit that the service asks for, and all of one new group; the table is the old one with those rows in front, the last first.
  pub create_recurring-IsSeries :
      (user_id : ℕ) (dto : CreateRecurringBookingDto) (s t : Db) (bs : List Booking)
      → create_recurring c env user_id dto s ≡ (ok bs, t)
      → IsSeries env user_id dto s t bs
  unfolding create_recurring
  create_recurring-IsSeries user_id dto s t bs e =
      let (found, s1, e1, r1) =
        bind_ok
          (load_and_validate_context c dto.business_id dto.branch_id dto.service_id
            dto.staff_member_id)
          _ s e in
      let context =
        load_and_validate_context-IsContext c dto.business_id dto.branch_id dto.service_id
          dto.staff_member_id s s1 found e1 in
      let same : s1 ≡ s =
        subst (λ (z : Result (Business × Service) × Db). z.1 ≡ s) e1
          (load_and_validate_context-reads c env dto.business_id dto.branch_id dto.service_id
            dto.staff_member_id s) in
      let times = starts_from dto.start_time 0 dto.occurrences in
      let done = transaction_ok c (create_each c env user_id dto found.0 found.1 1 times) s1 r1 in
      let (rows, stack) = create_each-series user_id dto found.0 found.1 1 times s1 t bs done in
      record {
        business = found.0;
        service = found.1;
        context = context;
        rows = rows ∙ series-weekly_rows c env user_id dto found.0 found.1 0 dto.occurrences;
        count =
            ap length rows
            ∙ length-series c env user_id dto found.0 found.1 1 times
            ∙ length-starts_from dto.start_time 0 dto.occurrences;
        added = stack ∙ ap (λ (z : Db). stacked bs z.bookings) same;
      }
