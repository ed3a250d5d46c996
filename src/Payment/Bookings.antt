-- ===== src/Payment/Bookings.antt =====
-- `initiate` of payment.service.ts and `topup` of wallet.service.ts keep the bookings free of double bookings: a
-- pending booking is confirmed where it stands.
use booking_platform_claude.Prelude.{
  List, ℕ, ℤ, pos, ◌-◌, ◌-ℤ◌, ◌≡◌, refl, sym, subst, ◌∙◌, Bool, true, false, ◌&&◌, not, arith, In,
  ◌==◌, Option-cases, inl, inr, leb,
}
use booking_platform_claude.Schema.{Booking, is_pending, Payment, Wallet, WalletTxType}
use booking_platform_claude.Store.{Db, Client, Env}
use booking_platform_claude.Store.Holds.{bind_holds, transaction_holds}
use booking_platform_claude.Store.Action.{Action, ◌>>=◌, ◌>>◌, bad_request}
use booking_platform_claude.Booking.Slot.{update_booking}
use booking_platform_claude.Booking.Confirm.{award_post_purchase_rewards}
use booking_platform_claude.Booking.Safety.Rows.{StaysPut}
use booking_platform_claude.Booking.Safety.Changes.{award_post_purchase_rewards-bookings}
use booking_platform_claude.Booking.Safety.Steps.{guarded_holds, required_holds, framed_holds}
use booking_platform_claude.Booking.Safety.Queries.{IsSafe, IsSafe-same, update_booking-IsSafe}
use booking_platform_claude.Payment.{
  get_mine, Method, by_wallet, by_gateway, lacks_funds, confirm_paid, wallet_payment,
  create_payment, update_payment, set_balance, log_transaction, post_entry, spend, pay_from_wallet,
  open_session, pay_from_gateway, topup, pay, initiate,
}

pub confirm_paid-StaysPut : (b : Booking) → is_pending b.status ≡ true → StaysPut b (confirm_paid b)
confirm_paid-StaysPut b held = ground arith

pub not-false : (a : Bool) → not a ≡ false → a ≡ true
not-false a h = ground arith

module _ (c : Client) (env : Env) where
  pub post_entry-bookings :
      (k : ℕ) (w : Wallet) (type : WalletTxType) (balance : ℕ) (amount : ℤ) (ref : ℕ) (s : Db)
      → (post_entry c env k w type balance amount ref s).1.bookings ≡ s.bookings
  unfolding post_entry set_balance log_transaction
  post_entry-bookings k w type balance amount ref s = ground arith

  create_payment-bookings :
      (p : Payment) (s : Db) → (create_payment c env p s).1.bookings ≡ s.bookings
  unfolding create_payment
  create_payment-bookings p s = ground arith

  pub update_payment-bookings :
      (id : ℕ) (f : Payment → Payment) (s : Db)
      → (update_payment c env id f s).1.bookings ≡ s.bookings
  unfolding update_payment
  update_payment-bookings id f s = ground arith

  -- A pending booking is confirmed, and the customer rewarded.
  confirmed-IsSafe :
      (t0 : List Booking) {A : Type 0} (b : Booking) (k user_id : ℕ) (last : Action A) (s : Db)
      → In b s.bookings
      → is_pending b.status ≡ true
      → ((t : Db) → (last t).1 ≡ t)
      → IsSafe t0 s
      → IsSafe t0
          ((do
            booking ← update_booking c b.id confirm_paid
            award_post_purchase_rewards c env k user_id
                (booking.price_snapshot - booking.discount_amount)
            last)
            s).1
  confirmed-IsSafe t0 b k user_id last s i held reads h =
      bind_holds (IsSafe t0) (update_booking c b.id confirm_paid) _ s
        (update_booking-IsSafe c t0 b confirm_paid s i (confirm_paid-StaysPut b held) h)
        λ booking t _ ht.
          framed_holds t0
            (award_post_purchase_rewards c env k user_id
              (booking.price_snapshot - booking.discount_amount))
            (λ _. last) t ht
            (award_post_purchase_rewards-bookings c env k user_id
              (booking.price_snapshot - booking.discount_amount) t)
            λ _ u _ hu. subst (IsSafe t0) (sym (reads u)) hu

  spend-IsSafe :
      (t0 : List Booking) (user_id amount : ℕ) (b : Booking) (s : Db)
      → In b s.bookings
      → is_pending b.status ≡ true
      → IsSafe t0 s
      → IsSafe t0 (spend c env user_id b.id amount s).1
  unfolding spend
  spend-IsSafe t0 user_id amount b s i held h =
      let found = c.wallet.find_first (λ w. w.user_id == user_id) s.wallets in
      guarded_holds t0 bad_request (lacks_funds found amount) _ s h λ _.
        required_holds t0 bad_request found _ s h λ wallet.
          let balance = wallet.balance - amount in
          let minus = pos 0 -ℤ pos amount in
          framed_holds t0 (post_entry c env 0 wallet WalletTxType.payment balance minus b.id) _ s h
            (post_entry-bookings 0 wallet WalletTxType.payment balance minus b.id s)
            λ _ t same ht.
              framed_holds t0 (create_payment c env (wallet_payment c env user_id b.id amount)) _ t
                ht (create_payment-bookings (wallet_payment c env user_id b.id amount) t)
                λ _ u again hu.
                  confirmed-IsSafe t0 b 2 user_id _ u (subst (In b) (sym (again ∙ same)) i) held
                    (λ t. refl) hu

  open_session-bookings :
      (session : ℕ → ℕ → ℕ) (p : Payment) (s : Db)
      → (open_session c env session p s).1.bookings ≡ s.bookings
  unfolding open_session create_payment update_payment
  open_session-bookings session p s = ground arith

  pay-IsSafe :
      (t0 : List Booking) (session : ℕ → ℕ → ℕ) (method : Method) (user_id amount : ℕ) (b : Booking)
      (s : Db)
      → In b s.bookings
      → is_pending b.status ≡ true
      → IsSafe t0 s
      → IsSafe t0 (pay c env session method user_id b.id amount s).1
  unfolding pay_from_wallet pay_from_gateway
  pay-IsSafe t0 session by_wallet user_id amount b s i held h =
      transaction_holds (IsSafe t0) c (spend c env user_id b.id amount) s h
        (spend-IsSafe t0 user_id amount b s i held h)
  pay-IsSafe t0 session by_gateway user_id amount b s i held h =
      IsSafe-same t0 s _ (open_session-bookings session _ s) h

  pub topup-IsSafe :
      (t0 : List Booking) (session : ℕ → ℕ → ℕ) (user_id amount : ℕ) (s : Db)
      → IsSafe t0 s
      → IsSafe t0 (topup c env session user_id amount s).1
  unfolding topup
  topup-IsSafe t0 session user_id amount s h =
      IsSafe-same t0 s _ (open_session-bookings session _ s) h

  pub get_mine-IsSafe :
      (t0 : List Booking) (user_id : ℕ) (s : Db)
      → IsSafe t0 s
      → IsSafe t0 (get_mine c env user_id s).1
  unfolding get_mine
  get_mine-IsSafe t0 user_id s h = IsSafe-same t0 s _ (ground arith) h

  pub initiate-IsSafe :
      (t0 : List Booking) (session : ℕ → ℕ → ℕ) (user_id booking_id : ℕ) (method : Method) (s : Db)
      → IsSafe t0 s
      → IsSafe t0 (initiate c env session user_id booking_id method s).1
  unfolding initiate
  initiate-IsSafe t0 session user_id booking_id method s h =
      let p = λ (b : Booking). b.id == booking_id && b.user_id == user_id in
      let facts = c.booking.find_first_some p s.bookings in
      elim (Option-cases (c.booking.find_first p s.bookings)) [
        | inl missing ↦ rw missing h
        | inr (b, found) ↦ rw found (
            guarded_holds t0 bad_request (not (is_pending b.status)) _ s h λ pending.
              guarded_holds t0 bad_request (leb b.deposit_required 0) _ s h λ _.
                pay-IsSafe t0 session method user_id b.deposit_required b s (facts b found).0
                  (not-false (is_pending b.status) pending) h)
      ]
