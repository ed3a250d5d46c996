-- ===== src/Payment/Ledger/Methods.antt =====
-- The methods that move money keep the ledger.
use booking_platform_claude.Prelude.{
  ℕ, ◌+◌, ◌-◌, ℤ, pos, ◌+ℤ◌, ◌-ℤ◌, int_laws, ◌≡◌, refl, sym, ap, subst, ◌∙◌, ◌≤◌, inl, inr, false,
  not, Option, none, some, List, ◌∷◌, ◌==◌, ltb, any, In, Option-cases, Bool-cases, arith,
  update_where,
}
use booking_platform_claude.Schema.{
  Wallet, WalletTransaction, WalletTxType, wallet_clash, Payment, AuditLog, is_success,
}
use booking_platform_claude.Store.{Db, Client, Env, upserted}
use booking_platform_claude.Store.Action.{Action, Result, ok, ◌>>◌, bad_request, not_found}
use booking_platform_claude.Store.Holds.{
  bind_ok, or_throw_holds, throw_if_holds, transaction_commits,
}
use booking_platform_claude.Store.Found.{update-rows}
use booking_platform_claude.Payment.{
  set_balance_to, get_mine, new_wallet, set_balance, log_transaction, post_entry, update_payment,
}
use booking_platform_claude.Payment.Callback.{upsert_wallet, give_back, refund, mark_refunded}
use booking_platform_claude.Audit.{log_audit}
use booking_platform_claude.Payment.Ledger.{IsLedger, LedgerHolds}
use booking_platform_claude.Payment.Ledger.Frames.{
  SameMoney, update_payment-SameMoney, log_audit-SameMoney,
}
use booking_platform_claude.Payment.Ledger.Rows.{IsLedger-post, IsLedger-open}

pub LedgerHolds-same :
    (s t : Db)
    → t.wallets ≡ s.wallets
    → t.wallet_transactions ≡ s.wallet_transactions
    → LedgerHolds s
    → LedgerHolds t
unfolding LedgerHolds
LedgerHolds-same s t e f h = rw (e, f) h

pub sum_up : (a b : ℕ) → pos (a + b) ≡ pos b +ℤ pos a
sum_up a b = grind int_laws

pub sum_down : (a b : ℕ) → ltb a b ≡ false → pos (a - b) ≡ (pos 0 -ℤ pos b) +ℤ pos a
sum_down a b h = let enough : b ≤ a = ground arith in grind int_laws

module _ (c : Client) (env : Env) where
  set_balance-rows :
      (user_id balance : ℕ) (s t : Db) (w : Wallet)
      → set_balance c env user_id balance s ≡ (ok w, t)
      → (t.wallets ≡ update_where (λ z. z.user_id == user_id) (set_balance_to balance) s.wallets)
        × (t.wallet_transactions ≡ s.wallet_transactions)
  unfolding set_balance
  set_balance-rows user_id balance s t w e =
      elim (Option-cases
        (c.wallet.update (λ w. w.user_id == user_id) (set_balance_to balance) s.wallets)) [
          | inl nothing ↦ absurd (ground arith)
          | inr ((r, ys), done) ↦
              let rows =
                update-rows c.wallet (λ w. w.user_id == user_id) (set_balance_to balance) s.wallets
                  ys r done in
              (ground arith, ground arith)
        ]

  log_transaction-rows :
      (tx : WalletTransaction) (s t : Db) (u : Unit {0})
      → log_transaction c env tx s ≡ (ok u, t)
      → (t.wallets ≡ s.wallets) × (t.wallet_transactions ≡ tx ∷ s.wallet_transactions)
  unfolding log_transaction
  log_transaction-rows tx s t u e =
      let law = c.wallet_transaction.create_lem tx s.wallet_transactions in
      (ground arith, ground arith)

  pub post_entry-LedgerHolds :
      (k : ℕ) (w : Wallet) (type : WalletTxType) (balance : ℕ) (amount : ℤ) (ref : ℕ) (s t : Db)
      (u : Unit {0})
      → In w s.wallets
      → pos balance ≡ amount +ℤ pos w.balance
      → LedgerHolds s
      → post_entry c env k w type balance amount ref s ≡ (ok u, t)
      → LedgerHolds t
  unfolding LedgerHolds post_entry
  post_entry-LedgerHolds k w type balance amount ref s t u place sum h e =
      let tx : WalletTransaction = record {
        id = env.uuid k;
        wallet_id = w.id;
        type = type;
        amount = amount;
        balance_after = balance;
        reference_id = some ref;
      } in
      let (r, s1, e1, r1) = bind_ok (set_balance c env w.user_id balance) _ s e in
      let (ws, txs) = set_balance-rows w.user_id balance s s1 r e1 in
      let (ws', txs') = log_transaction-rows tx s1 t u r1 in
      rw (ws' ∙ ws, txs' ∙ ap (λ z. tx ∷ z) txs)
        (IsLedger-post w balance tx s.wallet_transactions refl sum s.wallets place h)

  pub upserted-LedgerHolds :
      (r w : Wallet) (s t : Db) (o : Option Wallet) (ys : List Wallet)
      → r.balance ≡ 0
      → ((x : Wallet) → o ≡ some x → In x s.wallets)
      → upserted wallet_clash r s.wallets o ≡ some (w, ys)
      → IsLedger s.wallets s.wallet_transactions
      → In w ys × IsLedger ys s.wallet_transactions
  upserted-LedgerHolds r w s t none ys empty found e h =
      elim (Bool-cases (any (wallet_clash r) s.wallets)) [
        | inl clash ↦ absurd (ground arith)
        | inr fresh ↦
            let same : r ≡ w = ground arith in
            let rows : r ∷ s.wallets ≡ ys = ground arith in
            (
              subst (In w) rows (inl same),
              subst (λ z. IsLedger z s.wallet_transactions) rows
                  (IsLedger-open r s.wallets s.wallet_transactions empty fresh h),
            )
      ]
  upserted-LedgerHolds r w s t (some x) ys empty found e h =
      let same : x ≡ w = ground arith in
      let rows : s.wallets ≡ ys = ground arith in
      (
        subst (In w) rows (subst (λ z. In z s.wallets) same (found x refl)),
        subst (λ z. IsLedger z s.wallet_transactions) rows h,
      )

  upsert_wallet-LedgerHolds :
      (user_id : ℕ) (s t : Db) (w : Wallet)
      → LedgerHolds s
      → upsert_wallet c env user_id s ≡ (ok w, t)
      → In w t.wallets × LedgerHolds t
  unfolding LedgerHolds upsert_wallet
  upsert_wallet-LedgerHolds user_id s t w h e =
      let p = λ (w : Wallet). w.user_id == user_id in
      let r = new_wallet (env.uuid 0) user_id in
      let law = c.wallet.upsert_lem p r s.wallets in
      elim (Option-cases (c.wallet.upsert p r s.wallets)) [
        | inl nothing ↦ absurd (ground arith)
        | inr ((x, ys), done) ↦
            let (place, holds) =
              upserted-LedgerHolds r x s t (c.wallet.find_first p s.wallets) ys refl
                (λ y found. (c.wallet.find_first_some p s.wallets y found).0) (sym law ∙ done) h in
            let same : x ≡ w = ground arith in
            let rows : ys ≡ t.wallets = ground arith in
            let lines : s.wallet_transactions ≡ t.wallet_transactions = ground arith in
            (
              subst (λ z. In w z) rows (subst (λ z. In z ys) same place),
              rw (sym rows, sym lines) holds,
            )
      ]

  pub get_mine-LedgerHolds :
      (user_id : ℕ) (s : Db) → LedgerHolds s → LedgerHolds (get_mine c env user_id s).1
  unfolding LedgerHolds get_mine
  get_mine-LedgerHolds user_id s h =
      let p = λ (w : Wallet). w.user_id == user_id in
      let r = new_wallet (env.uuid 0) user_id in
      let law = c.wallet.upsert_lem p r s.wallets in
      elim (Option-cases (c.wallet.upsert p r s.wallets)) [
        | inl nothing ↦ rw nothing h
        | inr ((x, ys), done) ↦ rw done (
            (upserted-LedgerHolds r x s s (c.wallet.find_first p s.wallets) ys refl
              (λ y found. (c.wallet.find_first_some p s.wallets y found).0) (sym law ∙ done) h).1)
      ]

  pub SameMoney-LedgerHolds : {s t : Db} → SameMoney s t → LedgerHolds s → LedgerHolds t
  SameMoney-LedgerHolds {s} {t} same h = LedgerHolds-same s t same.wallets same.lines h

  -- A step that leaves the wallets alone, and returned.
  pub ok-SameMoney :
      {A : Type 0} (m : Action A) (s t : Db) (a : A)
      → SameMoney s (m s).1
      → m s ≡ (ok a, t)
      → SameMoney s t
  ok-SameMoney {A} m s t a same e = subst (λ (z : Result A × Db). SameMoney s z.1) e same

  credited :
      (payment : Payment) (entry : AuditLog) (w : Wallet) (s t : Db) (u : Unit {0})
      → In w s.wallets
      → LedgerHolds s
      → (post_entry c env 1 w WalletTxType.refund
              (w.balance + payment.amount)
              (pos payment.amount)
              payment.id
            >> log_audit c entry)
          s
        ≡ (ok u, t)
      → LedgerHolds t
  credited payment entry w s t u place h e =
      let (v, s1, e1, r1) =
        bind_ok
          (post_entry c env 1 w WalletTxType.refund (w.balance + payment.amount)
            (pos payment.amount) payment.id)
          _ s e in
      let h1 =
        post_entry-LedgerHolds 1 w WalletTxType.refund (w.balance + payment.amount)
          (pos payment.amount) payment.id s s1 v place (sum_up w.balance payment.amount) h e1 in
      SameMoney-LedgerHolds
        (ok-SameMoney (log_audit c entry) s1 t u (log_audit-SameMoney c env entry s1) r1) h1

  give_back-LedgerHolds :
      (payment : Payment) (admin_id reason : ℕ) (s t : Db) (u : Unit {0})
      → LedgerHolds s
      → give_back c env payment admin_id reason s ≡ (ok u, t)
      → LedgerHolds t
  unfolding give_back
  give_back-LedgerHolds payment admin_id reason s t u h e =
      let (p, s1, e1, r1) = bind_ok (update_payment c env payment.id mark_refunded) _ s e in
      let h1 =
        SameMoney-LedgerHolds
          (ok-SameMoney (update_payment c env payment.id mark_refunded) s s1 p
            (update_payment-SameMoney c env payment.id mark_refunded s) e1)
          h in
      let (w, s2, e2, r2) = bind_ok (upsert_wallet c env payment.user_id) _ s1 r1 in
      let (place, h2) = upsert_wallet-LedgerHolds payment.user_id s1 s2 w h1 e2 in
      credited payment _ w s2 t u place h2 r2

  pub refund-LedgerHolds :
      (payment_id admin_id reason : ℕ) (s : Db)
      → LedgerHolds s
      → LedgerHolds (refund c env payment_id admin_id reason s).1
  unfolding refund
  refund-LedgerHolds payment_id admin_id reason s h =
      or_throw_holds LedgerHolds not_found
        (c.payment.find_first (λ p. p.id == payment_id) s.payments) _ s h
        λ payment _.
          throw_if_holds LedgerHolds (not (is_success payment.status)) bad_request _ s h λ _.
            transaction_commits LedgerHolds c (give_back c env payment admin_id reason) s h
              (λ u t e. give_back-LedgerHolds payment admin_id reason s t u h e)
