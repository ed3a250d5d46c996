-- ===== src/Payment/Ledger/Deposits.antt =====
-- Deposits, top-ups and the gateway's callback keep the ledger.
use booking_platform_claude.Prelude.{
  ℕ, ◌+◌, ◌-◌, pos, ◌≡◌, refl, ap, subst, Bool, true, false, not, Option, none, some, ◌==◌, In,
  arith, if◌then◌else◌,
}
use booking_platform_claude.Schema.{
  Wallet, WalletTxType, Payment, Booking, Gateway, is_pending, is_initiated,
}
use booking_platform_claude.Store.{Db, Client, Env}
use booking_platform_claude.Store.Action.{Error, Result, ok, or_throw, throw_if, not_found}
use booking_platform_claude.Store.Holds.{
  bind_ok, bind_holds, or_throw_holds, choice_holds, transaction_commits,
}
use booking_platform_claude.Booking.Slot.{update_booking}
use booking_platform_claude.Payment.{confirm_paid, update_payment, CallbackResult}
use booking_platform_claude.Payment.MockGateway.{VerifyResult, verified, refused}
use booking_platform_claude.Payment.Callback.{
  mark_success, mark_failed, credit_topup, confirm_pending, confirm_booking, is_topup,
  find_booking_of, deliver, settle, conclude, process, is_referred, handle_callback,
}
use booking_platform_claude.Payment.Ledger.{LedgerHolds}
use booking_platform_claude.Payment.Ledger.Frames.{
  SameMoney, SameMoney-trans, update_payment-SameMoney, update_booking-SameMoney, award-SameMoney,
}
use booking_platform_claude.Payment.Ledger.Methods.{
  sum_up, post_entry-LedgerHolds, SameMoney-LedgerHolds, ok-SameMoney,
}

pub or_throw_ok :
    {A : Type 0} (o : Option A) (e : Error) (s t : Db) (a : A)
    → or_throw o e s ≡ (ok a, t)
    → (o ≡ some a) × (t ≡ s)
or_throw_ok none e s t a h = absurd (ground arith)
or_throw_ok (some x) e s t a h = (ground arith, ground arith)

pub throw_if_ok :
    (b : Bool) (e : Error) (s t : Db) (u : Unit {0})
    → throw_if b e s ≡ (ok u, t)
    → (b ≡ false) × (t ≡ s)
throw_if_ok true e s t u h = absurd (ground arith)
throw_if_ok false e s t u h = (refl, ground arith)

unchanged : (s : Db) → SameMoney s s
unchanged s = record { wallets = refl; lines = refl }

module _ (c : Client) (env : Env) where
  confirm_pending-SameMoney :
      (payment : Payment) (b : Booking) (pending : Bool) (s : Db)
      → SameMoney s (confirm_pending c env payment b pending s).1
  confirm_pending-SameMoney payment b false s = unchanged s
  confirm_pending-SameMoney payment b true s =
      bind_holds (SameMoney s) (update_booking c b.id confirm_paid) _ s
        (update_booking-SameMoney c env b.id confirm_paid s)
        λ _ t _ ht.
          SameMoney-trans ht
            (award-SameMoney c env 0 payment.user_id (b.price_snapshot - b.discount_amount) t)

  confirm_booking-SameMoney :
      (payment : Payment) (b : Option Booking) (s : Db)
      → SameMoney s (confirm_booking c env payment b s).1
  unfolding confirm_booking
  confirm_booking-SameMoney payment none s = unchanged s
  confirm_booking-SameMoney payment (some b) s =
      confirm_pending-SameMoney payment b (is_pending b.status) s

  credit_topup-LedgerHolds :
      (payment : Payment) (o : Option Wallet) (s t : Db) (u : Unit {0})
      → ((w : Wallet) → o ≡ some w → In w s.wallets)
      → LedgerHolds s
      → credit_topup c env payment o s ≡ (ok u, t)
      → LedgerHolds t
  unfolding credit_topup
  credit_topup-LedgerHolds payment none s t u found h e =
      subst LedgerHolds (ap (λ (z : Result (Unit {0}) × Db). z.1) e) h
  credit_topup-LedgerHolds payment (some w) s t u found h e =
      post_entry-LedgerHolds c env 0 w WalletTxType.topup (w.balance + payment.amount)
        (pos payment.amount) payment.id s t u (found w refl) (sum_up w.balance payment.amount) h e

  delivered :
      (top_up : Bool) (payment : Payment) (o : Option Wallet) (b : Option Booking) (s t : Db)
      (u : Unit {0})
      → ((w : Wallet) → o ≡ some w → In w s.wallets)
      → LedgerHolds s
      → (if top_up then credit_topup c env payment o else confirm_booking c env payment b) s
        ≡ (ok u, t)
      → LedgerHolds t
  delivered true payment o b s t u found h e = credit_topup-LedgerHolds payment o s t u found h e
  delivered false payment o b s t u found h e =
      SameMoney-LedgerHolds c env
        (ok-SameMoney c env (confirm_booking c env payment b) s t u
          (confirm_booking-SameMoney payment b s) e)
        h

  settle-LedgerHolds :
      (payment : Payment) (s t : Db) (r : CallbackResult)
      → LedgerHolds s
      → settle c env payment s ≡ (ok r, t)
      → LedgerHolds t
  unfolding settle deliver
  settle-LedgerHolds payment s t r h e =
      let change = mark_success env.now in
      let (p, s1, e1, r1) = bind_ok (update_payment c env payment.id change) _ s e in
      let h1 =
        SameMoney-LedgerHolds c env
          (ok-SameMoney c env (update_payment c env payment.id change) s s1 p
            (update_payment-SameMoney c env payment.id change s) e1)
          h in
      let (u, s2, e2, r2) = bind_ok (deliver c env payment) _ s1 r1 in
      let mine = λ (w : Wallet). w.user_id == payment.user_id in
      let h2 =
        delivered (is_topup c env payment.type) payment (c.wallet.find_first mine s1.wallets)
          (find_booking_of c env payment.booking_id s1) s1 s2 u
          (λ w found. (c.wallet.find_first_some mine s1.wallets w found).0) h1 e2 in
      subst LedgerHolds (ap (λ (z : Result CallbackResult × Db). z.1) r2) h2

  conclude-LedgerHolds :
      (payment : Payment) (answer : VerifyResult) (s : Db)
      → LedgerHolds s
      → LedgerHolds (conclude c env payment answer s).1
  unfolding conclude
  conclude-LedgerHolds payment verified s h =
      transaction_commits LedgerHolds c (settle c env payment) s h
        (λ r t e. settle-LedgerHolds payment s t r h e)
  conclude-LedgerHolds payment (refused reason) s h =
      bind_holds LedgerHolds (update_payment c env payment.id (mark_failed reason)) _ s
        (SameMoney-LedgerHolds c env
          (update_payment-SameMoney c env payment.id (mark_failed reason) s) h)
        λ _ t _ ht. ht

  pub handle_callback-LedgerHolds :
      (verify : Option ℕ → ℕ → VerifyResult) (gateway : Gateway) (ref : Option ℕ) (s : Db)
      → LedgerHolds s
      → LedgerHolds (handle_callback c env verify gateway ref s).1
  unfolding handle_callback process
  handle_callback-LedgerHolds verify gateway ref s h =
      or_throw_holds LedgerHolds not_found
        (c.payment.find_first (is_referred c env gateway ref) s.payments) _ s h
        λ payment _.
          choice_holds LedgerHolds (not (is_initiated payment.status)) _
            (conclude c env payment (verify ref payment.amount)) s h
            (conclude-LedgerHolds payment (verify ref payment.amount) s h)
