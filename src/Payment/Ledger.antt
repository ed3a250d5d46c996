-- ===== src/Payment/Ledger.antt =====
-- The wallets of payment.service.ts and wallet.service.ts against their lines, the wallet transactions.
pub mod Rows
pub mod Frames
pub mod Methods
pub mod Deposits
pub mod Spending
use booking_platform_claude.Prelude.{
  ℕ, ℤ, pos, ◌+ℤ◌, ◌≡◌, true, false, List, [], ◌∷◌, ◌==◌, any, All, AllPairs, if◌then◌else◌,
}
use booking_platform_claude.Schema.{Wallet, WalletTransaction, wallet_clash}
use booking_platform_claude.Store.{Db}

-- The sum of the transactions of a wallet.
abbrev pub ledger_sum : ℕ → List WalletTransaction → ℤ
ledger_sum id [] = pos 0
ledger_sum id (tx ∷ txs) =
    if tx.wallet_id == id then tx.amount +ℤ ledger_sum id txs else ledger_sum id txs

abbrev pub IsBalanced : List WalletTransaction → Wallet → Type 0
IsBalanced txs w = ledger_sum w.id txs ≡ pos w.balance

abbrev pub IsOwned : List Wallet → WalletTransaction → Type 0
IsOwned ws tx = any (λ (w : Wallet). w.id == tx.wallet_id) ws ≡ true

abbrev pub NoClash : Wallet → Wallet → Type 0
NoClash a b = wallet_clash a b ≡ false

-- The unique keys hold, each balance is the sum of the wallet's transactions, and each transaction refers
-- to a wallet.
pub record IsLedger (ws : List Wallet) (txs : List WalletTransaction) : Type 0 where
  pub keyed : AllPairs NoClash ws
  pub balanced : All (IsBalanced txs) ws
  pub owned : All (IsOwned ws) txs

unfoldable pub LedgerHolds : Db → Type 0
LedgerHolds s = IsLedger s.wallets s.wallet_transactions
