-- ===== src/Payment/Callback.antt =====
-- `handleCallback` and `refund` of payment.service.ts.
pub mod Bookings
pub mod Replay
use booking_platform_claude.Prelude.{
  ℕ, ◌+◌, ◌-◌, pos, Bool, true, false, ◌&&◌, not, Option, none, some, List, ◌==◌, opt_eq,
  if◌then◌else◌,
}
use booking_platform_claude.Schema.{
  Payment, PaymentType, PaymentStatus, is_initiated, is_success, Gateway, Wallet, WalletTxType,
  Booking, is_pending, AuditLog, AuditAction, FailureReason,
}
use booking_platform_claude.Audit.{log_audit}
use booking_platform_claude.Store.{Db, Client, Env}
use booking_platform_claude.Store.Action.{
  Action, bad_request, not_found, pure, gets, or_throw, throw_if, ◌>>=◌, ◌>>◌, transaction, stored,
  stored_upsert,
}
use booking_platform_claude.Booking.Slot.{update_booking}
use booking_platform_claude.Booking.Confirm.{award_post_purchase_rewards}
use booking_platform_claude.Payment.{
  CallbackResult, gateway_eq, new_wallet, confirm_paid, set_wallets, update_payment, post_entry,
}
use booking_platform_claude.Payment.MockGateway.{VerifyResult, verified, refused}

abbrev pub mark_failed : FailureReason → Payment → Payment
mark_failed reason p = record p { status = PaymentStatus.failed; failure_reason = some reason }

abbrev pub mark_success : ℕ → Payment → Payment
mark_success now p = record p { status = PaymentStatus.success; callback_verified_at = some now }

abbrev pub mark_refunded : Payment → Payment
mark_refunded p = record p { status = PaymentStatus.refunded }

module _ (c : Client) (env : Env) where
  -- A verified top-up: credited if the user has a wallet.
  unfoldable pub credit_topup : Payment → Option Wallet → Action (Unit {0})
  credit_topup payment none = pure tt
  credit_topup payment (some wallet) =
      post_entry c env 0 wallet WalletTxType.topup (wallet.balance + payment.amount)
        (pos payment.amount) payment.id

  abbrev pub confirm_pending : Payment → Booking → Bool → Action (Unit {0})
  confirm_pending payment booking false = pure tt
  confirm_pending payment booking true = do
    update_booking c booking.id confirm_paid
    award_post_purchase_rewards c env 0 payment.user_id
        (booking.price_snapshot - booking.discount_amount)

  -- A verified deposit: the booking is confirmed if it is still pending.
  unfoldable pub confirm_booking : Payment → Option Booking → Action (Unit {0})
  confirm_booking payment none = pure tt
  confirm_booking payment (some booking) =
      confirm_pending payment booking (is_pending booking.status)

  abbrev pub is_topup : PaymentType → Bool
  is_topup PaymentType.wallet_topup = true
  is_topup _ = false

  abbrev pub find_booking_of : Option ℕ → Db → Option Booking
  find_booking_of none s = none
  find_booking_of (some id) s = c.booking.find_first (λ b. b.id == id) s.bookings

  -- What the payment was for.
  unfoldable pub deliver : Payment → Action (Unit {0})
  deliver payment = do
    wallet ← gets (λ s. c.wallet.find_first (λ w. w.user_id == payment.user_id) s.wallets)
    booking ← gets (find_booking_of payment.booking_id)
    if is_topup payment.type then credit_topup payment wallet else confirm_booking payment booking

  -- The callback of the transaction in `handleCallback`.
  unfoldable pub settle : Payment → Action CallbackResult
  settle payment = do
    update_payment c env payment.id (mark_success env.now)
    deliver payment
    pure (record { already_processed = false; status = PaymentStatus.success })

  unfoldable pub conclude : Payment → VerifyResult → Action CallbackResult
  conclude payment verified = transaction c (settle payment)
  conclude payment (refused reason) = do
    update_payment c env payment.id (mark_failed reason)
    pure (record { already_processed = false; status = PaymentStatus.failed })

  unfoldable pub process :
      (Option ℕ → ℕ → VerifyResult) → Option ℕ → Payment → Action CallbackResult
  process verify ref payment =
      if not (is_initiated payment.status)
      then pure (record { already_processed = true; status = payment.status })
      else conclude payment (verify ref payment.amount)

  -- `{ gatewayRefId, gateway: gatewayName }`: a reference that is missing is no condition.
  abbrev pub is_referred : Gateway → Option ℕ → Payment → Bool
  is_referred gateway none p = gateway_eq p.gateway gateway
  is_referred gateway (some ref) p =
      opt_eq p.gateway_ref_id (some ref) && gateway_eq p.gateway gateway

  -- `handleCallback`; `verify` is the gateway's answer. The query of the request may leave the reference out.
  unfoldable pub handle_callback :
      (Option ℕ → ℕ → VerifyResult) → Gateway → Option ℕ → Action CallbackResult
  handle_callback verify gateway ref = do
    found ← gets (λ s. c.payment.find_first (is_referred gateway ref) s.payments)
    payment ← or_throw found not_found
    process verify ref payment

  unfoldable pub upsert_wallet : ℕ → Action Wallet
  upsert_wallet user_id s =
      stored_upsert
        (c.wallet.upsert (λ w. w.user_id == user_id) (new_wallet (env.uuid 0) user_id) s.wallets)
        set_wallets s

  -- The callback of the transaction in `refund`.
  unfoldable pub give_back : Payment → ℕ → ℕ → Action (Unit {0})
  give_back payment admin_id reason = do
    update_payment c env payment.id mark_refunded
    wallet ← upsert_wallet payment.user_id
    post_entry c env 1 wallet WalletTxType.refund (wallet.balance + payment.amount)
        (pos payment.amount) payment.id
    log_audit c (record {
      id = env.uuid 2;
      actor_id = admin_id;
      action = AuditAction.payment_refunded;
      entity_id = payment.id;
      amount = some payment.amount;
      reason = some reason;
    })

  -- `refund`
  unfoldable pub refund : ℕ → ℕ → ℕ → Action (Unit {0})
  refund payment_id admin_id reason = do
    found ← gets (λ s. c.payment.find_first (λ p. p.id == payment_id) s.payments)
    payment ← or_throw found not_found
    throw_if (not (is_success payment.status)) bad_request
    transaction c (give_back payment admin_id reason)
