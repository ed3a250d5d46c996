-- ===== src/Settlement/Sums.antt =====
-- The amounts of a settlement.
use booking_platform_claude.Prelude.{
  ℕ, ◌+◌, ◌≡◌, pos, ◌+ℤ◌, ◌-ℤ◌, List, [], ◌∷◌, arith, keep, int_laws,
}
use booking_platform_claude.Schema.{Payment, Settlement}
use booking_platform_claude.Store.{Db, Client, Env}
use booking_platform_claude.Store.Action.{ok}
use booking_platform_claude.Settlement.{gross_from, is_settled, run_for_business}

-- The sum of the amounts.
abbrev pub total : List Payment → ℕ
total [] = 0
total (p ∷ ps) = p.amount + total ps

gross_from-total : (acc : ℕ) (ps : List Payment) → gross_from acc ps ≡ acc + total ps
unfolding gross_from
gross_from-total acc [] = omega arith
gross_from-total acc (p ∷ ps) = omega (arith, gross_from-total (acc + p.amount) ps)

net_and_commission : (a b : ℕ) → (pos a -ℤ pos b) +ℤ pos b ≡ pos a
net_and_commission a b = grind int_laws

module _ (c : Client) (env : Env) where
  -- The gross amount of a settlement that is returned is the sum of the successful sales of the business in the
  -- period, and its net amount and its commission add up to it.
  pub run_for_business-sums :
      (k business_id from to : ℕ) (s t : Db) (row : Settlement)
      → run_for_business c env k business_id from to s ≡ (ok row, t)
      → (row.gross_amount ≡ total (keep (is_settled c env business_id from to s) s.payments))
        × (row.net_amount +ℤ pos row.commission_amount ≡ pos row.gross_amount)
  unfolding run_for_business
  run_for_business-sums k business_id from to s t row e =
      let many = c.payment.find_many_lem (is_settled c env business_id from to s) s.payments in
      let gross = gross_from-total 0 (keep (is_settled c env business_id from to s) s.payments) in
      (ground arith, ground (arith, net_and_commission row.gross_amount row.commission_amount))
