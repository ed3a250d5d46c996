-- ===== src/Payment.antt =====
-- apps/backend/src/modules/payment/payment.service.ts and apps/backend/src/modules/wallet/wallet.service.ts: deposits, top-ups
-- and refunds. Amounts are in hundredths of a toman.
pub mod MockGateway
pub mod Callback
pub mod Bookings
pub mod Ledger
use booking_platform_claude.Prelude.{
  ℕ, ◌+◌, ◌-◌, ℤ, pos, ◌-ℤ◌, Bool, true, false, ◌&&◌, ◌||◌, not, Option, none, some, List, ltb, leb,
  ◌==◌, opt_eq, if◌then◌else◌,
}
use booking_platform_claude.Schema.{
  Payment, PaymentType, PaymentStatus, is_initiated, is_success, Gateway, Wallet, WalletTransaction,
  WalletTxType, Booking, BookingStatus, is_pending, AuditLog, AuditAction,
}
use booking_platform_claude.Store.{Db, Client, Env}
use booking_platform_claude.Store.Action.{
  Action, bad_request, not_found, pure, gets, or_throw, throw_if, ◌>>=◌, ◌>>◌, transaction, stored,
  stored_row, stored_upsert,
}
use booking_platform_claude.Booking.Slot.{update_booking}
use booking_platform_claude.Booking.Confirm.{award_post_purchase_rewards}

-- `InitiatePaymentDto.method`
pub data Method : Type 0 where
  by_gateway by_wallet : Method

-- The results of `initiate` and of `handleCallback`.
pub data Initiated : Type 0 where
  paid_from_wallet : Payment → Initiated
  payment_url : ℕ → Initiated

pub record CallbackResult : Type 0 where
  pub already_processed : Bool
  pub status : PaymentStatus

abbrev pub gateway_eq : Gateway → Gateway → Bool
gateway_eq Gateway.wallet Gateway.wallet = true
gateway_eq Gateway.mock Gateway.mock = true
gateway_eq _ _ = false

abbrev pub set_payments : List Payment → Db → Db
set_payments t s = record s { payments = t }

abbrev pub set_wallets : List Wallet → Db → Db
set_wallets t s = record s { wallets = t }

abbrev pub set_wallet_transactions : List WalletTransaction → Db → Db
set_wallet_transactions t s = record s { wallet_transactions = t }

abbrev pub new_wallet : ℕ → ℕ → Wallet
new_wallet id user_id = record { id = id; user_id = user_id; balance = 0 }

abbrev pub set_balance_to : ℕ → Wallet → Wallet
set_balance_to balance w = record w { balance = balance }

abbrev pub confirm_paid : Booking → Booking
confirm_paid b = record b { status = BookingStatus.confirmed }

-- `!wallet || Number(wallet.balance) < amount`
abbrev pub lacks_funds : Option Wallet → ℕ → Bool
lacks_funds none amount = true
lacks_funds (some w) amount = ltb w.balance amount

module _ (c : Client) (env : Env) where
  unfoldable pub create_payment : Payment → Action (Unit {0})
  create_payment p s = stored (c.payment.create p s.payments) set_payments s

  -- `payment.update({ where: { id }, data })`
  unfoldable pub update_payment : ℕ → (Payment → Payment) → Action Payment
  update_payment id change s =
      stored_row (c.payment.update (λ p. p.id == id) change s.payments) set_payments s

  -- `wallet.update({ where: { userId }, data: { balance } })`
  unfoldable pub set_balance : ℕ → ℕ → Action Wallet
  set_balance user_id balance s =
      stored_row (c.wallet.update (λ w. w.user_id == user_id) (set_balance_to balance) s.wallets)
        set_wallets s

  unfoldable pub log_transaction : WalletTransaction → Action (Unit {0})
  log_transaction tx s =
      stored (c.wallet_transaction.create tx s.wallet_transactions) set_wallet_transactions s

  -- The new balance of a wallet and its line in the ledger, with the `k`-th new identifier.
  unfoldable pub post_entry : ℕ → Wallet → WalletTxType → ℕ → ℤ → ℕ → Action (Unit {0})
  post_entry k wallet type balance amount reference_id = do
    set_balance wallet.user_id balance
    log_transaction (record {
      id = env.uuid k;
      wallet_id = wallet.id;
      type = type;
      amount = amount;
      balance_after = balance;
      reference_id = some reference_id;
    })

  abbrev pub wallet_payment : ℕ → ℕ → ℕ → Payment
  wallet_payment user_id booking_id amount = record {
    id = env.uuid 1;
    booking_id = some booking_id;
    user_id = user_id;
    type = PaymentType.deposit;
    status = PaymentStatus.success;
    amount = amount;
    gateway = Gateway.wallet;
    gateway_ref_id = none;
    callback_verified_at = some env.now;
    failure_reason = none;
    created_at = env.now;
  }

  -- The callback of the transaction in `payFromWallet`.
  unfoldable pub spend : ℕ → ℕ → ℕ → Action Initiated
  spend user_id booking_id amount = do
    found ← gets (λ s. c.wallet.find_first (λ w. w.user_id == user_id) s.wallets)
    throw_if (lacks_funds found amount) bad_request
    wallet ← or_throw found bad_request
    post_entry 0 wallet WalletTxType.payment (wallet.balance - amount) (pos 0 -ℤ pos amount)
        booking_id
    create_payment (wallet_payment user_id booking_id amount)
    booking ← update_booking c booking_id confirm_paid
    award_post_purchase_rewards c env 2 user_id (booking.price_snapshot - booking.discount_amount)
    pure (paid_from_wallet (wallet_payment user_id booking_id amount))

  -- `payFromWallet`
  unfoldable pub pay_from_wallet : ℕ → ℕ → ℕ → Action Initiated
  pay_from_wallet user_id booking_id amount = transaction c (spend user_id booking_id amount)

  abbrev pub gateway_payment : ℕ → Option ℕ → PaymentType → ℕ → Payment
  gateway_payment user_id booking_id type amount = record {
    id = env.uuid 0;
    booking_id = booking_id;
    user_id = user_id;
    type = type;
    status = PaymentStatus.initiated;
    amount = amount;
    gateway = Gateway.mock;
    gateway_ref_id = none;
    callback_verified_at = none;
    failure_reason = none;
    created_at = env.now;
  }

  -- A payment over the gateway: the row, the gateway's session (its reference is `session amount id`),
  -- and the reference in the row.
  unfoldable pub open_session : (ℕ → ℕ → ℕ) → Payment → Action Initiated
  open_session session payment = do
    create_payment payment
    let ref = session payment.amount payment.id
    update_payment payment.id (λ p. record p { gateway_ref_id = some ref })
    pure (payment_url ref)

  -- `payFromGateway`
  unfoldable pub pay_from_gateway : (ℕ → ℕ → ℕ) → ℕ → ℕ → ℕ → Action Initiated
  pay_from_gateway session user_id booking_id amount =
      open_session session (gateway_payment user_id (some booking_id) PaymentType.deposit amount)

  -- `WalletService.topup`
  unfoldable pub topup : (ℕ → ℕ → ℕ) → ℕ → ℕ → Action Initiated
  topup session user_id amount =
      open_session session (gateway_payment user_id none PaymentType.wallet_topup amount)

  -- `WalletService.getMine`, less the last twenty transactions that it includes for display
  unfoldable pub get_mine : ℕ → Action Wallet
  get_mine user_id s =
      stored_upsert
        (c.wallet.upsert (λ w. w.user_id == user_id) (new_wallet (env.uuid 0) user_id) s.wallets)
        set_wallets s

  abbrev pub pay : (ℕ → ℕ → ℕ) → Method → ℕ → ℕ → ℕ → Action Initiated
  pay session by_wallet user_id booking_id amount = pay_from_wallet user_id booking_id amount
  pay session by_gateway user_id booking_id amount =
      pay_from_gateway session user_id booking_id amount

  -- `initiate`
  unfoldable pub initiate : (ℕ → ℕ → ℕ) → ℕ → ℕ → Method → Action Initiated
  initiate session user_id booking_id method = do
    found ←
        gets
          (λ s. c.booking.find_first (λ b. b.id == booking_id && b.user_id == user_id) s.bookings)
    booking ← or_throw found not_found
    throw_if (not (is_pending booking.status)) bad_request
    throw_if (leb booking.deposit_required 0) bad_request
    pay session method user_id booking.id booking.deposit_required
