-- ===== src/Settlement.antt =====
-- apps/backend/src/modules/settlement/settlement.service.ts: what the platform owes a business for a period.
-- Amounts and the commission are in hundredths.
pub mod Sums
use booking_platform_claude.Prelude.{
  ℕ, ◌+◌, ◌*◌, ◌/◌, ℤ, pos, ◌-ℤ◌, Bool, true, false, ◌&&◌, Option, none, some, List, [], ◌∷◌, leb,
  ◌==◌,
}
use booking_platform_claude.Schema.{
  Payment, PaymentType, is_success, Business, is_approved, Settlement, Booking,
}
use booking_platform_claude.Store.{Db, Client, Env}
use booking_platform_claude.Store.Action.{
  Action, not_found, pure, gets, or_throw, ◌>>=◌, ◌>>◌, stored,
}

-- `type: { in: ['DEPOSIT', 'FULL_PAYMENT'] }`
abbrev pub is_sale : PaymentType → Bool
is_sale PaymentType.deposit = true
is_sale PaymentType.full_payment = true
is_sale _ = false

-- `Math.round((grossAmount * commissionPercent) / 100)`, a whole number of toman
unfoldable pub commission_of : ℕ → ℕ → ℕ
commission_of gross percent = (gross * percent + 500000) / 1000000 * 100

-- `amounts.reduce((sum, n) => sum + n, 0)`
unfoldable pub gross_from : ℕ → List Payment → ℕ
gross_from acc [] = acc
gross_from acc (p ∷ ps) = gross_from (acc + p.amount) ps

abbrev set_settlements : List Settlement → Db → Db
set_settlements t s = record s { settlements = t }

module _ (c : Client) (env : Env) where
  -- `booking: { businessId }`: the payment's booking is one of the business.
  abbrev pub is_of_business : ℕ → Option ℕ → Db → Bool
  is_of_business business_id none s = false
  is_of_business business_id (some booking_id) s =
      elim (c.booking.find_first (λ b. b.id == booking_id) s.bookings) [
        | none ↦ false
        | some b ↦ b.business_id == business_id
      ]

  abbrev pub is_settled : ℕ → ℕ → ℕ → Db → Payment → Bool
  is_settled business_id period_start period_end s p =
      is_success p.status
      && (is_sale p.type
          && (leb period_start p.created_at
              && (leb p.created_at period_end && is_of_business business_id p.booking_id s)))

  abbrev pub new_settlement : ℕ → Business → ℕ → ℕ → ℕ → Settlement
  new_settlement k business period_start period_end gross = record {
    id = env.uuid k;
    business_id = business.id;
    period_start = period_start;
    period_end = period_end;
    gross_amount = gross;
    commission_amount = commission_of gross business.commission_percent;
    net_amount = pos gross -ℤ pos (commission_of gross business.commission_percent);
  }

  unfoldable pub create_settlement : Settlement → Action (Unit {0})
  create_settlement row s = stored (c.settlement.create row s.settlements) set_settlements s

  -- `runForBusiness`, with the `k`-th new identifier
  unfoldable pub run_for_business : ℕ → ℕ → ℕ → ℕ → Action Settlement
  unfolding gross_from commission_of create_settlement
  run_for_business k business_id period_start period_end = do
    found ← gets (λ s. c.business.find_first (λ b. b.id == business_id) s.businesses)
    business ← or_throw found not_found
    payments ←
        gets
          (λ s. c.payment.find_many (is_settled business_id period_start period_end s) s.payments)
    let row = new_settlement k business period_start period_end (gross_from 0 payments)
    create_settlement row
    pure row

  -- The loop of `runBatch`: each business by itself.
  unfoldable pub run_each : ℕ → ℕ → ℕ → List Business → Action (List Settlement)
  run_each k period_start period_end [] = pure []
  run_each k period_start period_end (b ∷ bs) = do
    row ← run_for_business k b.id period_start period_end
    rows ← run_each (k + 1) period_start period_end bs
    pure (row ∷ rows)

  abbrev pub run_chosen : Option ℕ → ℕ → ℕ → Action (List Settlement)
  run_chosen (some business_id) period_start period_end = do
    row ← run_for_business 0 business_id period_start period_end
    pure (row ∷ [])
  run_chosen none period_start period_end = do
    businesses ← gets (λ s. c.business.find_many (λ b. is_approved b.status) s.businesses)
    run_each 0 period_start period_end businesses

  -- `runBatch`
  unfoldable pub run_batch : Option ℕ → ℕ → ℕ → Action (List Settlement)
  run_batch business_id period_start period_end = run_chosen business_id period_start period_end
