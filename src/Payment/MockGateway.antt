-- ===== src/Payment/MockGateway.antt =====
-- apps/backend/src/common/payment-gateway: the interface of a gateway, and the mock that keeps its
-- sessions in a map.
pub mod SingleUse
use booking_platform_claude.Prelude.{
  ℕ, Bool, true, false, Option, none, some, List, [], ◌∷◌, ◌==◌, not, if◌then◌else◌,
}
use booking_platform_claude.Schema.{FailureReason, unknown_session, already_used, wrong_amount}

-- `VerifyResult`
pub data VerifyResult : Type 0 where
  verified : VerifyResult
  refused : FailureReason → VerifyResult

pub record Session : Type 0 where
  pub amount : ℕ
  pub used : Bool

-- `sessions: Map<string, { amount, used }>`
abbrev pub Sessions : Type 0
Sessions = List (ℕ × Session)

abbrev pub get : ℕ → Sessions → Option Session
get key [] = none
get key ((k, v) ∷ m) = if k == key then some v else get key m

abbrev pub put : ℕ → Session → Sessions → Sessions
put key v [] = (key, v) ∷ []
put key v ((k, w) ∷ m) = if k == key then (key, v) ∷ m else (k, w) ∷ put key v m

-- `createSession`, with the reference that is generated
unfoldable pub create_session : ℕ → ℕ → Sessions → Sessions
create_session ref amount m = put ref (record { amount = amount; used = false }) m

abbrev pub verify_session : ℕ → ℕ → Session → Sessions → VerifyResult × Sessions
verify_session ref expected s m =
    if s.used
    then (refused already_used, m)
    else if not (s.amount == expected)
    then (refused wrong_amount, m)
    else (verified, put ref (record s { used = true }) m)

abbrev pub verify_found : ℕ → ℕ → Option Session → Sessions → VerifyResult × Sessions
verify_found ref expected none m = (refused unknown_session, m)
verify_found ref expected (some s) m = verify_session ref expected s m

-- `verify`
unfoldable pub verify : ℕ → ℕ → Sessions → VerifyResult × Sessions
verify ref expected m = verify_found ref expected (get ref m) m
