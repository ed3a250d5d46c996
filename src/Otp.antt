-- ===== src/Otp.antt =====
-- apps/backend/src/modules/otp/otp.service.ts: one-time codes. The digest and the random code are parameters;
-- the text message that carries the code is not modelled.
pub mod Codes
pub mod Accepted
use booking_platform_claude.Prelude.{
  ℕ, ◌+◌, ◌*◌, Bool, ◌&&◌, not, Option, none, some, List, ltb, leb, ◌==◌, is_some, if◌then◌else◌,
  true, false,
}
use booking_platform_claude.Schema.{OtpCode, OtpPurpose, purpose_eq}
use booking_platform_claude.Store.{Db, Client, Env}
use booking_platform_claude.Store.Action.{
  Action, bad_request, too_many_requests, pure, throw, gets, or_throw, throw_if, ◌>>=◌, ◌>>◌,
  stored, stored_row,
}

-- `OTP_TTL_MINUTES` and `RESEND_COOLDOWN_SECONDS`, in milliseconds
abbrev pub otp_ttl : ℕ
otp_ttl = 5 * 60 * 1000

abbrev pub resend_cooldown : ℕ
resend_cooldown = 60 * 1000

abbrev pub max_verify_attempts : ℕ
max_verify_attempts = 5

-- The two settings that `debugExposeEnabled` reads.
pub record OtpConfig : Type 0 where
  pub is_production : Bool
  pub debug_expose : Bool

abbrev pub debug_expose_enabled : OtpConfig → Bool
debug_expose_enabled config = not config.is_production && config.debug_expose

abbrev pub set_otp_codes : List OtpCode → Db → Db
set_otp_codes t s = record s { otp_codes = t }

-- `{ phone, purpose, consumedAt: null }`
abbrev pub is_open : ℕ → OtpPurpose → OtpCode → Bool
is_open phone purpose r =
    r.phone == phone && (purpose_eq r.purpose purpose && not (is_some r.consumed_at))

-- `secondsSinceLast < RESEND_COOLDOWN_SECONDS`
abbrev pub is_cooling_down : ℕ → Option OtpCode → Bool
is_cooling_down now none = false
is_cooling_down now (some recent) = ltb now (recent.created_at + resend_cooldown)

abbrev pub count_attempt : OtpCode → OtpCode
count_attempt r = record r { attempts = r.attempts + 1 }

abbrev pub consume : ℕ → OtpCode → OtpCode
consume now r = record r { consumed_at = some now }

module _ (sha256 : ℕ → ℕ) (c : Client) (env : Env) where
  -- The latest code of a phone and a purpose that is not consumed.
  unfoldable pub latest_open : ℕ → OtpPurpose → Db → Option OtpCode
  latest_open phone purpose s =
      c.otp_code.find_latest (λ r. r.created_at) (is_open phone purpose) s.otp_codes

  abbrev pub new_otp_code : ℕ → OtpPurpose → Option ℕ → ℕ → OtpCode
  new_otp_code phone purpose user_id code = record {
    id = env.uuid 0;
    user_id = user_id;
    phone = phone;
    code_hash = sha256 code;
    purpose = purpose;
    attempts = 0;
    expires_at = env.now + otp_ttl;
    consumed_at = none;
    created_at = env.now;
  }

  -- `requestOtp`, with the random code
  unfoldable pub request_otp : OtpConfig → ℕ → ℕ → OtpPurpose → Option ℕ → Action (Option ℕ)
  unfolding latest_open
  request_otp config code phone purpose user_id = do
    recent ← gets (latest_open phone purpose)
    throw_if (is_cooling_down env.now recent) too_many_requests
    λ s.
        stored (c.otp_code.create (new_otp_code phone purpose user_id code) s.otp_codes)
          set_otp_codes s
    pure (if debug_expose_enabled config then some code else none)

  unfoldable pub update_code : ℕ → (OtpCode → OtpCode) → Action OtpCode
  update_code id change s =
      stored_row (c.otp_code.update (λ r. r.id == id) change s.otp_codes) set_otp_codes s

  -- `verifyOtp` from the record on
  unfoldable pub verify_record : OtpCode → ℕ → Action Bool
  unfolding update_code
  verify_record r code = do
    throw_if (ltb r.expires_at env.now) bad_request
    throw_if (leb max_verify_attempts r.attempts) too_many_requests
    if r.code_hash == sha256 code
        then update_code r.id (consume env.now) >> pure true
        else update_code r.id count_attempt >> pure false

  -- `verifyOtp`
  unfoldable pub verify_otp : ℕ → OtpPurpose → ℕ → Action Bool
  unfolding latest_open verify_record
  verify_otp phone purpose code = do
    found ← gets (latest_open phone purpose)
    r ← or_throw found bad_request
    verify_record r code
