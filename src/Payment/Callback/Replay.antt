-- ===== src/Payment/Callback/Replay.antt =====
-- `refund` of payment.service.ts a second time.
use booking_platform_claude.Prelude.{
  ℕ, ◌≡◌, sym, subst, true, false, some, ◌==◌, arith, Option-cases, inl, inr,
}
use booking_platform_claude.Schema.{Payment, is_success}
use booking_platform_claude.Store.{Db, Client, Env}
use booking_platform_claude.Store.Action.{Error, ok, err, bad_request, not_found, transaction}
use booking_platform_claude.Store.Holds.{bind_ok, transaction_ok}
use booking_platform_claude.Store.Found.{find_first-update_where, update-rows}
use booking_platform_claude.Payment.{update_payment, post_entry, set_balance, log_transaction}
use booking_platform_claude.Payment.Callback.{mark_refunded, upsert_wallet, give_back, refund}
use booking_platform_claude.Audit.{log_audit}

abbrev IsNotSuccess : Payment → Type 0
IsNotSuccess p = is_success p.status ≡ false

module _ (c : Client) (env : Env) where
  -- The payment with the identifier, if there is one, is not to be refunded.
  unfoldable IsSpent : ℕ → Db → Type 0
  IsSpent id s =
      (p : Payment) → c.payment.find_first (λ p. p.id == id) s.payments ≡ some p → IsNotSuccess p

  mark_refunded-IsSpent :
      (payment_id : ℕ) (s t : Db) (p : Payment)
      → update_payment c env payment_id mark_refunded s ≡ (ok p, t)
      → IsSpent payment_id t
  unfolding update_payment IsSpent
  mark_refunded-IsSpent payment_id s t p e q found =
      elim (Option-cases (c.payment.update (λ p. p.id == payment_id) mark_refunded s.payments)) [
        | inl nothing ↦ absurd (ground arith)
        | inr ((r, ys), done) ↦
            let rows : t.payments ≡ ys = ground arith in
            let marked =
              update-rows c.payment (λ p. p.id == payment_id) mark_refunded s.payments ys r done in
            find_first-update_where c.payment (λ p. p.id == payment_id) mark_refunded IsNotSuccess
              (λ p. p.id == payment_id) s.payments q (λ x hit. ground arith)
              (rw (sym marked, sym rows) found)
      ]

  give_back-IsSpent :
      (payment : Payment) (admin_id reason : ℕ) (s t : Db)
      → give_back c env payment admin_id reason s ≡ (ok tt, t)
      → IsSpent payment.id t
  unfolding give_back upsert_wallet post_entry log_audit set_balance log_transaction IsSpent
  give_back-IsSpent payment admin_id reason s t e =
      let (p, s', done, rest) = bind_ok (update_payment c env payment.id mark_refunded) _ s e in
      let spent = mark_refunded-IsSpent payment.id s s' p done in
      let same : t.payments ≡ s'.payments = ground arith in
      λ q found.
        spent q (subst (λ z. c.payment.find_first (λ p. p.id == payment.id) z ≡ some q) same found)

  give_back-started :
      (payment : Payment) (payment_id admin_id reason : ℕ) (s t : Db)
      → (payment.id == payment_id) ≡ true
      → transaction c (give_back c env payment admin_id reason) s ≡ (ok tt, t)
      → IsSpent payment_id t
  unfolding IsSpent
  give_back-started payment payment_id admin_id reason s t same e p found =
      let id : payment.id ≡ payment_id = ground arith in
      give_back-IsSpent payment admin_id reason s t
        (transaction_ok c (give_back c env payment admin_id reason) s e) p
        (subst (λ z. c.payment.find_first (λ p. p.id == z) t.payments ≡ some p) (sym id) found)

  refund-IsSpent :
      (payment_id admin_id reason : ℕ) (s t : Db)
      → refund c env payment_id admin_id reason s ≡ (ok tt, t)
      → IsSpent payment_id t
  unfolding refund
  refund-IsSpent payment_id admin_id reason s t e =
      elim (Option-cases (c.payment.find_first (λ p. p.id == payment_id) s.payments)) [
        | inl nothing ↦ absurd (ground arith)
        | inr (payment, found) ↦
            give_back-started payment payment_id admin_id reason s t
              (c.payment.find_first_some (λ p. p.id == payment_id) s.payments payment found).1
              (ground arith)
      ]

-- A refund that returned is not given again: in the state that it left, a second call for the payment, by
-- whomever, at any time and for any reason, throws and writes nothing.
pub refund_once :
    (c : Client) (env later : Env) (payment_id admin_id reason admin_id' reason' : ℕ) (s t : Db)
    → refund c env payment_id admin_id reason s ≡ (ok tt, t)
    → (e : Error) × (refund c later payment_id admin_id' reason' t ≡ (err e, t))
unfolding refund IsSpent
refund_once c env later payment_id admin_id reason admin_id' reason' s t e =
    elim (Option-cases (c.payment.find_first (λ p. p.id == payment_id) t.payments)) [
      | inl nothing ↦ (not_found, ground arith)
      | inr (payment, found) ↦
          let spent = refund-IsSpent c env payment_id admin_id reason s t e payment found in
          (bad_request, ground arith)
    ]
