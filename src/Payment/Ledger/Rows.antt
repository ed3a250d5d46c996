-- ===== src/Payment/Ledger/Rows.antt =====
-- A wallet is opened, or its balance changes by a line in the ledger.
use booking_platform_claude.Prelude.{
  ℕ, pos, ◌+ℤ◌, ◌≡◌, refl, sym, ap, subst, ◌∙◌, inl, inr, true, false, List, [], ◌∷◌, ◌==◌, any,
  All, AllPairs, In, rewrite, update_where, All-mono, All-zip, All-In, All-of_any, All-update_where,
  AllPairs-update_where, Bool-cases, arith,
}
use booking_platform_claude.Schema.{Wallet, WalletTransaction, wallet_clash}
use booking_platform_claude.Payment.{set_balance_to}
use booking_platform_claude.Payment.Ledger.{ledger_sum, IsBalanced, IsOwned, NoClash, IsLedger}

-- A row of the user, or with the identifier, of the wallet is the wallet.
pub record IsTheWallet (w x : Wallet) : Type 0 where
  pub by_user : (x.user_id == w.user_id) ≡ true → x ≡ w
  pub by_id : (x.id == w.id) ≡ true → x ≡ w

other_wallet : (w x y : Wallet) → y ≡ w → NoClash y x → IsTheWallet w x
other_wallet w x y e apart = record {
  by_user = λ h. absurd (ground (arith, ap (λ (z : Wallet). z.user_id) e));
  by_id = λ h. absurd (ground (arith, ap (λ (z : Wallet). z.id) e));
}

In-IsTheWallet :
    (w : Wallet) (ws : List Wallet) → In w ws → AllPairs NoClash ws → All (IsTheWallet w) ws
In-IsTheWallet w [] i h = tt
In-IsTheWallet w (y ∷ ys) (inl e) h =
    (record { by_user = λ _. e; by_id = λ _. e }, All-mono ys (λ x. other_wallet w x y e) h.0)
In-IsTheWallet w (y ∷ ys) (inr i) h =
    let apart = All-In (NoClash y) w ys h.0 i in
    (
      record { by_user = λ same. absurd (ground arith); by_id = λ same. absurd (ground arith) },
      In-IsTheWallet w ys i h.1,
    )

NoClash-set_balance :
    (user_id balance : ℕ) (x y : Wallet)
    → NoClash x y
    → NoClash
        (rewrite (λ z. z.user_id == user_id) (set_balance_to balance) x)
        (rewrite (λ z. z.user_id == user_id) (set_balance_to balance) y)
NoClash-set_balance user_id balance x y h = ground arith

any-set_balance :
    (user_id balance id : ℕ) (ws : List Wallet)
    → any
        (λ (w : Wallet). w.id == id)
        (update_where (λ z. z.user_id == user_id) (set_balance_to balance) ws)
      ≡ any (λ (w : Wallet). w.id == id) ws
any-set_balance user_id balance id [] = refl
any-set_balance user_id balance id (w ∷ ws) = ground (arith, any-set_balance user_id balance id ws)

any-In : (w : Wallet) (ws : List Wallet) → In w ws → any (λ (x : Wallet). x.id == w.id) ws ≡ true
any-In w [] i = elim i [ ]
any-In w (x ∷ xs) (inl e) = ground (arith, ap (λ (z : Wallet). z.id) e)
any-In w (x ∷ xs) (inr i) = ground (arith, any-In w xs i)

id-rewrite :
    (user_id balance : ℕ) (x : Wallet)
    → (rewrite (λ z. z.user_id == user_id) (set_balance_to balance) x).id ≡ x.id
id-rewrite user_id balance x = ground arith

module _ (w : Wallet) (balance : ℕ) (tx : WalletTransaction) (txs : List WalletTransaction)
    (same_wallet : tx.wallet_id ≡ w.id) (sum : pos balance ≡ tx.amount +ℤ pos w.balance) where
  posted_here : IsBalanced txs w → ledger_sum w.id (tx ∷ txs) ≡ pos balance
  posted_here before =
      let hit : (tx.wallet_id == w.id) ≡ true = ground arith in rw (hit, before) (sym sum)

  posted_elsewhere :
      (x : Wallet) → (x.id == w.id) ≡ false → ledger_sum x.id (tx ∷ txs) ≡ ledger_sum x.id txs
  posted_elsewhere x miss =
      let apart : (tx.wallet_id == x.id) ≡ false = ground arith in rw apart refl

  -- Each row's balance after a line of the wallet.
  posted_row :
      (x : Wallet)
      → IsTheWallet w x × IsBalanced txs x
      → IsBalanced (tx ∷ txs) (rewrite (λ z. z.user_id == w.user_id) (set_balance_to balance) x)
  posted_row x (the, before) = elim (Bool-cases (x.user_id == w.user_id)) [
    | inl hit ↦
        let row : rewrite (λ z. z.user_id == w.user_id) (set_balance_to balance) x
            ≡ set_balance_to balance x =
          rw hit refl in
        let here = posted_here (subst (IsBalanced txs) (the.by_user hit) before) in
        subst (IsBalanced (tx ∷ txs)) (sym row) (
          subst (λ (z : Wallet). ledger_sum z.id (tx ∷ txs) ≡ pos balance) (sym (the.by_user hit))
            here)
    | inr miss ↦
        let apart : (x.id == w.id) ≡ false = elim (Bool-cases (x.id == w.id)) [
          | inl same ↦ absurd (ground (arith, ap (λ (z : Wallet). z.user_id) (the.by_id same)))
          | inr differ ↦ differ
        ] in
        let row : rewrite (λ z. z.user_id == w.user_id) (set_balance_to balance) x ≡ x =
          rw miss refl in
        subst (IsBalanced (tx ∷ txs)) (sym row) (posted_elsewhere x apart ∙ before)
  ]

  -- A line of a wallet keeps the ledger.
  pub IsLedger-post :
      (ws : List Wallet)
      → In w ws
      → IsLedger ws txs
      → IsLedger (update_where (λ z. z.user_id == w.user_id) (set_balance_to balance) ws) (tx ∷ txs)
  IsLedger-post ws place l = record {
    keyed =
        AllPairs-update_where (λ z. z.user_id == w.user_id) (set_balance_to balance) NoClash ws
          (NoClash-set_balance w.user_id balance) l.keyed;
    balanced =
        All-update_where (λ z. z.user_id == w.user_id) (set_balance_to balance)
          {P = λ x. IsTheWallet w x × IsBalanced txs x} (IsBalanced (tx ∷ txs)) ws posted_row
          (All-zip ws (λ x a b. (a, b)) (In-IsTheWallet w ws place l.keyed) l.balanced);
    owned = (
      any-set_balance w.user_id balance tx.wallet_id ws
          ∙ ap (λ id. any (λ (x : Wallet). x.id == id) ws) same_wallet
          ∙ any-In w ws place,
      All-mono txs (λ y owned. any-set_balance w.user_id balance y.wallet_id ws ∙ owned) l.owned,
    );
  }

-- A new wallet has no line.
unowned_sum :
    (id : ℕ) (ws : List Wallet) (txs : List WalletTransaction)
    → any (λ (x : Wallet). x.id == id) ws ≡ false
    → All (IsOwned ws) txs
    → ledger_sum id txs ≡ pos 0
unowned_sum id ws [] fresh h = refl
unowned_sum id ws (tx ∷ txs) fresh h =
    let apart : (tx.wallet_id == id) ≡ false = elim (Bool-cases (tx.wallet_id == id)) [
      | inl same ↦
          let e : tx.wallet_id ≡ id = ground arith in
          absurd (ground (arith, ap (λ i. any (λ (x : Wallet). x.id == i) ws) e, h.0))
      | inr differ ↦ differ
    ] in
    rw apart (unowned_sum id ws txs fresh h.1)

no_clash :
    (r : Wallet) (ws : List Wallet)
    → any (wallet_clash r) ws ≡ false
    → any (λ (x : Wallet). x.id == r.id) ws ≡ false
no_clash r [] h = refl
no_clash r (x ∷ xs) h = ground (arith, no_clash r xs)

-- Opening a wallet keeps the ledger.
pub IsLedger-open :
    (r : Wallet) (ws : List Wallet) (txs : List WalletTransaction)
    → r.balance ≡ 0
    → any (wallet_clash r) ws ≡ false
    → IsLedger ws txs
    → IsLedger (r ∷ ws) txs
IsLedger-open r ws txs empty fresh l = record {
  keyed = (All-of_any (wallet_clash r) ws fresh, l.keyed);
  balanced =
      (unowned_sum r.id ws txs (no_clash r ws fresh) l.owned ∙ ap pos (sym empty), l.balanced);
  owned = All-mono txs (λ y owned. ground arith) l.owned;
}
