-- ===== src/Tests/Money.antt =====
-- The theorems on payments, coupons and settlements, applied.
use booking_platform_claude.Prelude.{
  List, ℕ, ◌≡◌, refl, false, some, [], ◌∷◌, ◌↔◌, keep, pos, ◌+ℤ◌, ◌-ℤ◌,
}
use booking_platform_claude.Schema.{BookingStatus, Settlement, already_used}
use booking_platform_claude.Store.{Db, Env}
use booking_platform_claude.Store.Memory.{memory}
use booking_platform_claude.Store.Action.{ok, err, Error}
use booking_platform_claude.Payment.{update_payment, post_entry, set_balance, log_transaction}
use booking_platform_claude.Payment.Callback.{refund, give_back, upsert_wallet}
use booking_platform_claude.Audit.{log_audit}
use booking_platform_claude.Payment.Callback.Replay.{refund_once}
use booking_platform_claude.Payment.MockGateway.{
  verified, refused, Sessions, create_session, verify,
}
use booking_platform_claude.Payment.MockGateway.SingleUse.{
  GatewayCall, creates, verifies, after_calls, verify_once, verify-create_session,
}
use booking_platform_claude.Coupon.{
  CouponCheckResult, check_and_redeem, check_and_compute, check_coupon, create_usage, count_usage,
  discount_of, rounded_discount,
}
use booking_platform_claude.Coupon.Discount.{IsAccepted, IsRedeemed, check_and_redeem-IsAccepted}
use booking_platform_claude.Settlement.{
  commission_of, gross_from, is_settled, run_for_business, create_settlement,
}
use booking_platform_claude.Settlement.Sums.{total, run_for_business-sums}
use booking_platform_claude.Payment.Ledger.{LedgerHolds}
use booking_platform_claude.System.{Call, refunds, run}
use booking_platform_claude.System.Ledger.{run-LedgerHolds}
use booking_platform_claude.Tests.{clock, shop_db}

-- After a first refund of the deposit, to a wallet that is made for it.
abbrev refunded_db : Db
refunded_db = (refund memory (clock 1000) 6 9 0 (shop_db BookingStatus.confirmed)).1

refund_once_example :
    (e : Error) × (refund memory (clock 2000) 6 9 1 refunded_db ≡ (err e, refunded_db))
unfolding refund give_back update_payment upsert_wallet post_entry set_balance log_transaction
    log_audit
refund_once_example =
    refund_once memory (clock 1000) (clock 2000) 6 9 0 9 1 (shop_db BookingStatus.confirmed)
      refunded_db refl

-- One open session, for a hundred.
abbrev sessions : Sessions
sessions = (5, record { amount = 100; used = false }) ∷ []

-- A second try with another amount, a new session, and its verification.
abbrev meanwhile : List GatewayCall
meanwhile = verifies 5 70 ∷ creates 8 70 ∷ verifies 8 70 ∷ []

verify_once_example :
    (verify 5 100 (after_calls meanwhile (verify 5 100 sessions).1)).0 ≡ refused already_used
unfolding verify
verify_once_example = verify_once 5 100 100 meanwhile sessions refl (tt, (refl, (tt, tt)))

abbrev sum_due : ℕ
sum_due = 70

verify-create_session_example :
    ((verify 8 sum_due (create_session 8 sum_due sessions)).0 ≡ verified) ↔ (sum_due ≡ sum_due)
verify-create_session_example = verify-create_session 8 sum_due sum_due sessions

abbrev four_lakh : CouponCheckResult
four_lakh = record { coupon_id = 4; discount_amount = 4000000 }

check_and_redeem-IsAccepted_example :
    (check_and_compute memory (clock 1000) 55 7 (some 1) 20000000 (shop_db BookingStatus.confirmed)
      ≡ (ok four_lakh, shop_db BookingStatus.confirmed))
    × IsAccepted 55 1000 7 (some 1) 20000000 (shop_db BookingStatus.confirmed) four_lakh
    × IsRedeemed 101 7
        (shop_db BookingStatus.confirmed)
        (check_and_redeem memory
          (clock 1000)
          1
          55
          7
          (some 1)
          20000000
          (shop_db BookingStatus.confirmed)).1
        four_lakh
unfolding check_and_redeem check_and_compute check_coupon create_usage count_usage discount_of
    rounded_discount
check_and_redeem-IsAccepted_example =
    check_and_redeem-IsAccepted memory (clock 1000) 1 55 7 (some 1) 20000000
      (shop_db BookingStatus.confirmed)
      (check_and_redeem memory (clock 1000) 1 55 7 (some 1) 20000000
        (shop_db BookingStatus.confirmed)).1
      four_lakh refl

-- A tenth of the deposit.
abbrev month : Settlement
month = record {
  id = 100;
  business_id = 1;
  period_start = 0;
  period_end = 1000;
  gross_amount = 4000000;
  commission_amount = 400000;
  net_amount = pos 3600000;
}

run_for_business-sums_example :
    (month.gross_amount
      ≡ total (
          keep
            (is_settled memory (clock 1000) 1 0 1000 (shop_db BookingStatus.confirmed))
            (shop_db BookingStatus.confirmed).payments))
    × (month.net_amount +ℤ pos month.commission_amount ≡ pos month.gross_amount)
unfolding run_for_business create_settlement gross_from commission_of ◌-ℤ◌
run_for_business-sums_example =
    run_for_business-sums memory (clock 1000) 0 1 0 1000 (shop_db BookingStatus.confirmed)
      (run_for_business memory (clock 1000) 0 1 0 1000 (shop_db BookingStatus.confirmed)).1 month
      refl

-- The deposit is refunded to a new wallet, and refused the second time.
abbrev refunds_twice : List (Env × Call)
refunds_twice = (clock 1000, refunds 6 9 0) ∷ (clock 2000, refunds 6 9 1) ∷ []

no_wallets : LedgerHolds (shop_db BookingStatus.confirmed)
unfolding LedgerHolds
no_wallets = record { keyed = tt; balanced = tt; owned = tt }

run-LedgerHolds_example : LedgerHolds (run memory refunds_twice (shop_db BookingStatus.confirmed))
run-LedgerHolds_example =
    run-LedgerHolds memory refunds_twice (shop_db BookingStatus.confirmed) no_wallets
