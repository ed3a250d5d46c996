-- ===== src/Payment/Ledger/Spending.antt =====
-- Payments from the wallet, and the sessions of the gateway, keep the ledger.
use booking_platform_claude.Prelude.{
  ℕ, ◌-◌, pos, ◌-ℤ◌, ◌≡◌, sym, ap, subst, ◌∙◌, false, ◌&&◌, not, none, some, ◌==◌, ltb, leb, In,
}
use booking_platform_claude.Schema.{Wallet, WalletTxType, Payment, PaymentType, is_pending}
use booking_platform_claude.Store.{Db, Client, Env}
use booking_platform_claude.Store.Action.{
  Result, ok, ◌>>=◌, ◌>>◌, pure, or_throw, throw_if, bad_request, not_found,
}
use booking_platform_claude.Store.Holds.{
  bind_ok, bind_holds, or_throw_holds, throw_if_holds, transaction_commits,
}
use booking_platform_claude.Booking.Slot.{update_booking}
use booking_platform_claude.Booking.Confirm.{award_post_purchase_rewards}
use booking_platform_claude.Payment.{
  Method, by_gateway, by_wallet, confirm_paid, post_entry, update_payment, create_payment,
  lacks_funds, wallet_payment, gateway_payment, spend, Initiated, paid_from_wallet, open_session,
  pay, pay_from_wallet, pay_from_gateway, topup, initiate,
}
use booking_platform_claude.Payment.Ledger.{LedgerHolds}
use booking_platform_claude.Payment.Ledger.Frames.{
  SameMoney, SameMoney-trans, update_payment-SameMoney, create_payment-SameMoney,
  update_booking-SameMoney, award-SameMoney,
}
use booking_platform_claude.Payment.Ledger.Methods.{
  sum_down, post_entry-LedgerHolds, SameMoney-LedgerHolds,
}
use booking_platform_claude.Payment.Ledger.Deposits.{or_throw_ok, throw_if_ok}

module _ (c : Client) (env : Env) where
  paid-SameMoney :
      (user_id booking_id amount : ℕ) (s : Db)
      → SameMoney s
          ((create_payment c env (wallet_payment c env user_id booking_id amount)
              >> (update_booking c booking_id confirm_paid >>= λ booking.
                  award_post_purchase_rewards c env 2 user_id
                    (booking.price_snapshot - booking.discount_amount)
                  >> pure (paid_from_wallet (wallet_payment c env user_id booking_id amount))))
            s).1
  paid-SameMoney user_id booking_id amount s =
      bind_holds (SameMoney s)
        (create_payment c env (wallet_payment c env user_id booking_id amount)) _ s
        (create_payment-SameMoney c env (wallet_payment c env user_id booking_id amount) s)
        λ _ t _ ht.
          bind_holds (SameMoney s) (update_booking c booking_id confirm_paid) _ t
            (SameMoney-trans ht (update_booking-SameMoney c env booking_id confirm_paid t))
            λ b u _ hu.
              bind_holds (SameMoney s)
                (award_post_purchase_rewards c env 2 user_id (b.price_snapshot - b.discount_amount))
                _ u
                (SameMoney-trans hu
                  (award-SameMoney c env 2 user_id (b.price_snapshot - b.discount_amount) u))
                λ _ v _ hv. hv

  charged :
      (user_id booking_id amount : ℕ) (w : Wallet) (s t : Db) (r : Initiated)
      → In w s.wallets
      → ltb w.balance amount ≡ false
      → LedgerHolds s
      → (post_entry c env 0 w WalletTxType.payment
              (w.balance - amount)
              (pos 0 -ℤ pos amount)
              booking_id
            >> (create_payment c env (wallet_payment c env user_id booking_id amount)
                >> (update_booking c booking_id confirm_paid >>= λ booking.
                    award_post_purchase_rewards c env 2 user_id
                      (booking.price_snapshot - booking.discount_amount)
                    >> pure (paid_from_wallet (wallet_payment c env user_id booking_id amount)))))
          s
        ≡ (ok r, t)
      → LedgerHolds t
  charged user_id booking_id amount w s t r place enough h e =
      let (u, s1, e1, r1) =
        bind_ok
          (post_entry c env 0 w WalletTxType.payment (w.balance - amount) (pos 0 -ℤ pos amount)
            booking_id)
          _ s e in
      let h1 =
        post_entry-LedgerHolds c env 0 w WalletTxType.payment (w.balance - amount)
          (pos 0 -ℤ pos amount) booking_id s s1 u place (sum_down w.balance amount enough) h e1 in
      SameMoney-LedgerHolds c env
        (subst (λ (z : Result Initiated × Db). SameMoney s1 z.1) r1
          (paid-SameMoney user_id booking_id amount s1))
        h1

  spend-LedgerHolds :
      (user_id booking_id amount : ℕ) (s t : Db) (r : Initiated)
      → LedgerHolds s
      → spend c env user_id booking_id amount s ≡ (ok r, t)
      → LedgerHolds t
  unfolding spend
  spend-LedgerHolds user_id booking_id amount s t r h e =
      let mine = λ (w : Wallet). w.user_id == user_id in
      let found = c.wallet.find_first mine s.wallets in
      let (u, s1, e1, r1) = bind_ok (throw_if (lacks_funds found amount) bad_request) _ s e in
      let (enough, same1) = throw_if_ok (lacks_funds found amount) bad_request s s1 u e1 in
      let (w, s2, e2, r2) = bind_ok (or_throw found bad_request) _ s1 r1 in
      let (hit, same2) = or_throw_ok found bad_request s1 s2 w e2 in
      let same : s2 ≡ s = same2 ∙ same1 in
      let place =
        subst (λ (z : Db). In w z.wallets) (sym same)
          (c.wallet.find_first_some mine s.wallets w hit).0 in
      charged user_id booking_id amount w s2 t r place
        (sym (ap (λ o. lacks_funds o amount) hit) ∙ enough) (subst LedgerHolds (sym same) h) r2

  open_session-SameMoney :
      (session : ℕ → ℕ → ℕ) (p : Payment) (s : Db) → SameMoney s (open_session c env session p s).1
  unfolding open_session
  open_session-SameMoney session p s =
      bind_holds (SameMoney s) (create_payment c env p) _ s (create_payment-SameMoney c env p s)
        λ _ t _ ht.
          bind_holds (SameMoney s)
            (update_payment c env p.id
              (λ q. record q { gateway_ref_id = some (session p.amount p.id) }))
            _ t
            (SameMoney-trans ht (
              update_payment-SameMoney c env p.id
                (λ q. record q { gateway_ref_id = some (session p.amount p.id) }) t))
            λ _ u _ hu. hu

  pay-LedgerHolds :
      (session : ℕ → ℕ → ℕ) (method : Method) (user_id booking_id amount : ℕ) (s : Db)
      → LedgerHolds s
      → LedgerHolds (pay c env session method user_id booking_id amount s).1
  unfolding pay_from_wallet pay_from_gateway
  pay-LedgerHolds session by_wallet user_id booking_id amount s h =
      transaction_commits LedgerHolds c (spend c env user_id booking_id amount) s h
        (λ r t e. spend-LedgerHolds user_id booking_id amount s t r h e)
  pay-LedgerHolds session by_gateway user_id booking_id amount s h =
      SameMoney-LedgerHolds c env
        (open_session-SameMoney session
          (gateway_payment c env user_id (some booking_id) PaymentType.deposit amount) s)
        h

  pub topup-LedgerHolds :
      (session : ℕ → ℕ → ℕ) (user_id amount : ℕ) (s : Db)
      → LedgerHolds s
      → LedgerHolds (topup c env session user_id amount s).1
  unfolding topup
  topup-LedgerHolds session user_id amount s h =
      SameMoney-LedgerHolds c env
        (open_session-SameMoney session
          (gateway_payment c env user_id none PaymentType.wallet_topup amount) s)
        h

  pub initiate-LedgerHolds :
      (session : ℕ → ℕ → ℕ) (user_id booking_id : ℕ) (method : Method) (s : Db)
      → LedgerHolds s
      → LedgerHolds (initiate c env session user_id booking_id method s).1
  unfolding initiate
  initiate-LedgerHolds session user_id booking_id method s h =
      or_throw_holds LedgerHolds not_found
        (c.booking.find_first (λ b. b.id == booking_id && b.user_id == user_id) s.bookings) _ s h
        λ b _. throw_if_holds LedgerHolds (not (is_pending b.status)) bad_request _ s h λ _.
          throw_if_holds LedgerHolds (leb b.deposit_required 0) bad_request _ s h
            λ _. pay-LedgerHolds session method user_id b.id b.deposit_required s h
