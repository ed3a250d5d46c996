-- ===== src/Payment/Callback/Bookings.antt =====
-- `handleCallback` and `refund` of payment.service.ts keep the bookings free of double bookings.
use booking_platform_claude.Prelude.{
  List, ℕ, pos, ◌+◌, ◌-◌, ◌≡◌, refl, Bool, true, false, not, Option, none, some, arith, In, ◌==◌,
  Option-cases, inl, inr,
}
use booking_platform_claude.Schema.{
  Booking, is_pending, is_initiated, is_success, Payment, Gateway, Wallet, WalletTxType,
}
use booking_platform_claude.Store.{Db, Client, Env}
use booking_platform_claude.Store.Holds.{bind_holds, transaction_holds}
use booking_platform_claude.Store.Action.{bad_request, not_found}
use booking_platform_claude.Booking.Slot.{update_booking}
use booking_platform_claude.Booking.Safety.Changes.{award_post_purchase_rewards-bookings}
use booking_platform_claude.Booking.Safety.Steps.{
  guarded_holds, required_holds, framed_holds, either_holds,
}
use booking_platform_claude.Booking.Safety.Queries.{IsSafe, IsSafe-same, update_booking-IsSafe}
use booking_platform_claude.Payment.{confirm_paid, update_payment}
use booking_platform_claude.Payment.Bookings.{
  confirm_paid-StaysPut, post_entry-bookings, update_payment-bookings,
}
use booking_platform_claude.Payment.MockGateway.{VerifyResult, verified, refused}
use booking_platform_claude.Payment.Callback.{
  mark_failed, mark_success, credit_topup, confirm_pending, confirm_booking, is_topup,
  find_booking_of, deliver, settle, conclude, process, is_referred, handle_callback, upsert_wallet,
  give_back, refund,
}
use booking_platform_claude.Audit.{log_audit}

module _ (c : Client) (env : Env) where
  confirm_pending-IsSafe :
      (t0 : List Booking) (payment : Payment) (b : Booking) (pending : Bool) (s : Db)
      → In b s.bookings
      → is_pending b.status ≡ pending
      → IsSafe t0 s
      → IsSafe t0 (confirm_pending c env payment b pending s).1
  confirm_pending-IsSafe t0 payment b false s i e h = h
  confirm_pending-IsSafe t0 payment b true s i e h =
      let amount = b.price_snapshot - b.discount_amount in
      bind_holds (IsSafe t0) (update_booking c b.id confirm_paid) _ s
        (update_booking-IsSafe c t0 b confirm_paid s i (confirm_paid-StaysPut b e) h)
        λ _ t _ ht.
          IsSafe-same t0 t _ (award_post_purchase_rewards-bookings c env 0 payment.user_id amount t)
            ht

  credit_topup-bookings :
      (payment : Payment) (w : Option Wallet) (s : Db)
      → (credit_topup c env payment w s).1.bookings ≡ s.bookings
  unfolding credit_topup
  credit_topup-bookings payment none s = refl
  credit_topup-bookings payment (some w) s =
      post_entry-bookings c env 0 w WalletTxType.topup (w.balance + payment.amount)
        (pos payment.amount) payment.id s

  confirm_found-IsSafe :
      (t0 : List Booking) (payment : Payment) (id : Option ℕ) (s : Db)
      → IsSafe t0 s
      → IsSafe t0 (confirm_booking c env payment (find_booking_of c env id s) s).1
  unfolding confirm_booking
  confirm_found-IsSafe t0 payment none s h = h
  confirm_found-IsSafe t0 payment (some id) s h =
      let p = λ (b : Booking). b.id == id in
      elim (Option-cases (c.booking.find_first p s.bookings)) [
        | inl missing ↦ rw (missing, confirm_booking) h
        | inr (b, found) ↦
            rw (found, confirm_booking)
              (confirm_pending-IsSafe t0 payment b (is_pending b.status) s
                (c.booking.find_first_some p s.bookings b found).0 refl h)
      ]

  deliver-IsSafe :
      (t0 : List Booking) (payment : Payment) (s : Db)
      → IsSafe t0 s
      → IsSafe t0 (deliver c env payment s).1
  unfolding deliver
  deliver-IsSafe t0 payment s h =
      let wallet = c.wallet.find_first (λ w. w.user_id == payment.user_id) s.wallets in
      let booking = find_booking_of c env payment.booking_id s in
      either_holds t0 (is_topup c env payment.type) (credit_topup c env payment wallet)
        (confirm_booking c env payment booking) s
        (IsSafe-same t0 s _ (credit_topup-bookings payment wallet s) h)
        (confirm_found-IsSafe t0 payment payment.booking_id s h)

  settle-IsSafe :
      (t0 : List Booking) (payment : Payment) (s : Db)
      → IsSafe t0 s
      → IsSafe t0 (settle c env payment s).1
  unfolding settle
  settle-IsSafe t0 payment s h =
      framed_holds t0 (update_payment c env payment.id (mark_success env.now)) _ s h
        (update_payment-bookings c env payment.id (mark_success env.now) s)
        λ _ t _ ht.
          bind_holds (IsSafe t0) (deliver c env payment) _ t (deliver-IsSafe t0 payment t ht)
            λ _ u _ hu. hu

  conclude-IsSafe :
      (t0 : List Booking) (payment : Payment) (answer : VerifyResult) (s : Db)
      → IsSafe t0 s
      → IsSafe t0 (conclude c env payment answer s).1
  unfolding conclude
  conclude-IsSafe t0 payment verified s h =
      transaction_holds (IsSafe t0) c (settle c env payment) s h (settle-IsSafe t0 payment s h)
  conclude-IsSafe t0 payment (refused reason) s h =
      framed_holds t0 (update_payment c env payment.id (mark_failed reason)) _ s h
        (update_payment-bookings c env payment.id (mark_failed reason) s) λ _ t _ ht. ht

  pub handle_callback-IsSafe :
      (t0 : List Booking) (verify : Option ℕ → ℕ → VerifyResult) (gateway : Gateway)
      (ref : Option ℕ) (s : Db)
      → IsSafe t0 s
      → IsSafe t0 (handle_callback c env verify gateway ref s).1
  unfolding handle_callback process
  handle_callback-IsSafe t0 verify gateway ref s h =
      required_holds t0 not_found (c.payment.find_first (is_referred c env gateway ref) s.payments)
        _ s h
        λ payment.
          either_holds t0 (not (is_initiated payment.status)) _
            (conclude c env payment (verify ref payment.amount)) s h
            (conclude-IsSafe t0 payment (verify ref payment.amount) s h)

  give_back-bookings :
      (payment : Payment) (admin_id reason : ℕ) (s : Db)
      → (give_back c env payment admin_id reason s).1.bookings ≡ s.bookings
  unfolding give_back upsert_wallet log_audit
  give_back-bookings payment admin_id reason s =
      grind (arith, update_payment-bookings, post_entry-bookings)

  pub refund-IsSafe :
      (t0 : List Booking) (payment_id admin_id reason : ℕ) (s : Db)
      → IsSafe t0 s
      → IsSafe t0 (refund c env payment_id admin_id reason s).1
  unfolding refund
  refund-IsSafe t0 payment_id admin_id reason s h =
      required_holds t0 not_found (c.payment.find_first (λ p. p.id == payment_id) s.payments) _ s h
        λ payment. guarded_holds t0 bad_request (not (is_success payment.status)) _ s h λ _.
          transaction_holds (IsSafe t0) c (give_back c env payment admin_id reason) s h
            (IsSafe-same t0 s _ (give_back-bookings payment admin_id reason s) h)
