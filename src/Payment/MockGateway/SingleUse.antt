-- ===== src/Payment/MockGateway/SingleUse.antt =====
-- `createSession` and `verify` of mock-payment.gateway.ts on one session.
use booking_platform_claude.Prelude.{
  ℕ, ◌≡◌, refl, inl, inr, ◌↔◌, if◌then◌else◌, true, false, some, List, [], ◌∷◌, All, Bool-cases,
  ◌==◌, arith, Option-cases,
}
use booking_platform_claude.Schema.{already_used}
use booking_platform_claude.Payment.MockGateway.{
  Sessions, Session, verified, refused, get, put, create_session, verify,
}

pub get-put :
    (key k : ℕ) (v : Session) (m : Sessions)
    → get k (put key v m) ≡ (if key == k then some v else get k m)
get-put key k v [] = refl
get-put key k v ((j, w) ∷ m) = ground (arith, get-put key k v m)

-- A call of the gateway: a new session with the reference that is generated, or a verification.
pub data GatewayCall : Type 0 where
  creates : ℕ → ℕ → GatewayCall
  verifies : ℕ → ℕ → GatewayCall

abbrev pub after_call : GatewayCall → Sessions → Sessions
after_call (creates ref amount) m = create_session ref amount m
after_call (verifies ref expected) m = (verify ref expected m).1

abbrev pub after_calls : List GatewayCall → Sessions → Sessions
after_calls [] m = m
after_calls (call ∷ calls) m = after_calls calls (after_call call m)

-- No new session takes the reference: the generated ones differ.
abbrev pub LeavesAlone : ℕ → GatewayCall → Type 0
LeavesAlone ref (creates r amount) = (r == ref) ≡ false
LeavesAlone ref (verifies r expected) = Unit

abbrev IsUsed : ℕ → Sessions → Type 0
IsUsed ref m = (s : Session) × (get ref m ≡ some s) × (s.used ≡ true)

verify-IsUsed :
    (ref r expected : ℕ) (m : Sessions) → IsUsed ref m → IsUsed ref (verify r expected m).1
unfolding verify
verify-IsUsed ref r expected m (s, at, used) = elim (Option-cases (get r m)) [
  | inl missing ↦ (s, ground (arith, at, missing), used)
  | inr (x, found) ↦ elim (Bool-cases (r == ref)) [
    | inl same ↦ (s, ground (arith, at, found, used, same), used)
    | inr other ↦
        (s, ground (arith, at, found, other, get-put r ref (record x { used = true }) m), used)
  ]
]

call-IsUsed :
    (ref : ℕ) (call : GatewayCall) (m : Sessions)
    → LeavesAlone ref call
    → IsUsed ref m
    → IsUsed ref (after_call call m)
unfolding create_session
call-IsUsed ref (creates r amount) m other (s, at, used) =
    (s, ground (arith, at, other, get-put r ref (record { amount = amount; used = false }) m), used)
call-IsUsed ref (verifies r expected) m other h = verify-IsUsed ref r expected m h

calls-IsUsed :
    (ref : ℕ) (calls : List GatewayCall) (m : Sessions)
    → All (LeavesAlone ref) calls
    → IsUsed ref m
    → IsUsed ref (after_calls calls m)
calls-IsUsed ref [] m alone h = h
calls-IsUsed ref (call ∷ calls) m alone h =
    calls-IsUsed ref calls (after_call call m) alone.1 (call-IsUsed ref call m alone.0 h)

verified-IsUsed :
    (ref amount : ℕ) (m : Sessions)
    → (verify ref amount m).0 ≡ verified
    → IsUsed ref (verify ref amount m).1
unfolding verify
verified-IsUsed ref amount m h = elim (Option-cases (get ref m)) [
  | inl e ↦ absurd (ground (arith, e))
  | inr (s, e) ↦ (
    record s { used = true },
    ground (arith, e, get-put ref ref (record s { used = true }) m),
    refl,
  )
]

used_refused :
    (ref later : ℕ) (m : Sessions) → IsUsed ref m → (verify ref later m).0 ≡ refused already_used
unfolding verify
used_refused ref later m (s, at, used) = ground (arith, at, used)

-- a session that was verified is refused as already used after any further calls of the gateway, verifications of any sessions and new sessions with other references, whatever amount is expected.
pub verify_once :
    (ref amount later : ℕ) (calls : List GatewayCall) (m : Sessions)
    → (verify ref amount m).0 ≡ verified
    → All (LeavesAlone ref) calls
    → (verify ref later (after_calls calls (verify ref amount m).1)).0 ≡ refused already_used
verify_once ref amount later calls m h alone =
    used_refused ref later (after_calls calls (verify ref amount m).1)
      (calls-IsUsed ref calls (verify ref amount m).1 alone (verified-IsUsed ref amount m h))

-- A session that was just created for an amount is verified for exactly that amount.
pub verify-create_session :
    (ref amount expected : ℕ) (m : Sessions)
    → ((verify ref expected (create_session ref amount m)).0 ≡ verified) ↔ (amount ≡ expected)
unfolding verify create_session
verify-create_session ref amount expected m = (
  λ h. ground (arith, get-put ref ref (record { amount = amount; used = false }) m),
  λ h. ground (arith, get-put ref ref (record { amount = amount; used = false }) m),
)
