-- ===== src/Api/Auth.antt =====
-- apps/backend/src/modules/auth/auth.controller.ts: the routes below `auth` and the cookie that keeps
-- the refresh token. Times, identifiers and random texts come with the request; the empty text is 0.
pub mod Ended
use booking_platform_claude.Prelude.{ℕ, Bool, true, false, Option, none, some, ◌==◌, if◌then◌else◌}
use booking_platform_claude.Store.{Client, Env}
use booking_platform_claude.Store.Action.{Action, pure, ◌>>=◌, ◌>>◌}
use booking_platform_claude.Otp.{OtpConfig}
use booking_platform_claude.Auth.{
  VerifyRegisterDto, request_register_otp, verify_register_and_create_user, login_with_password,
  request_login_otp, verify_login_otp, forgot_password, reset_password, get_me,
}
use booking_platform_claude.Auth.Tokens.{Crypto, DeviceContext, TokenPair, refresh_tokens, logout}
use booking_platform_claude.Guards.{AuthenticatedUser}

-- What the answer does to the cookie `refresh_token`.
pub data CookieChange : Type 0 where
  unchanged cleared : CookieChange
  set_to : ℕ → CookieChange

-- An answer's access token, if it has one, and its cookie; its messages are left out.
pub record AuthAnswer : Type 0 where
  pub access_token : Option ℕ
  pub cookie : CookieChange

pub data AuthRequest : Type 0 where
  asks_register_code : ℕ → AuthRequest
  registers : VerifyRegisterDto → AuthRequest
  logs_in : ℕ → ℕ → AuthRequest
  asks_login_code : ℕ → AuthRequest
  logs_in_by_code : ℕ → ℕ → AuthRequest
  refreshes : Option ℕ → AuthRequest
  logs_out : Option ℕ → AuthRequest
  forgets_password : ℕ → AuthRequest
  resets_password : ℕ → ℕ → ℕ → AuthRequest

-- `req.cookies?.[REFRESH_COOKIE_NAME] ?? dto?.refreshToken`
abbrev pub raw_token : Option ℕ → Option ℕ → Option ℕ
raw_token none body = body
raw_token (some token) body = some token

abbrev no_token : AuthAnswer
no_token = record { access_token = none; cookie = unchanged }

-- `setRefreshCookie`, and the answer with the access token
abbrev with_tokens : Action TokenPair → Action AuthAnswer
with_tokens m = do
  tokens ← m
  pure (record { access_token = some tokens.access_token; cookie = set_to tokens.refresh_token })

abbrev only_message : {A : Type 0} → Action A → Action AuthAnswer
only_message m = m >>= λ _. pure no_token

module _ (h : Crypto) (config : OtpConfig) (c : Client) (env : Env) where
  -- `refresh`, with the new random token
  unfoldable pub refresh_route : ℕ → DeviceContext → Option ℕ → Action AuthAnswer
  refresh_route raw ctx none = pure no_token
  refresh_route raw ctx (some token) =
      if token == 0 then pure no_token else with_tokens (refresh_tokens h c env raw token ctx)

  abbrev log_out_if_given : Option ℕ → Action (Unit {0})
  log_out_if_given none = pure tt
  log_out_if_given (some token) = if token == 0 then pure tt else logout h c env token

  -- `logout`
  unfoldable pub logout_route : Option ℕ → Action AuthAnswer
  logout_route token = do
    log_out_if_given token
    pure (record { access_token = none; cookie = cleared })

  -- A route's handler, with the cookie of the request, a random code and a random token.
  unfoldable pub handle_auth : ℕ → ℕ → DeviceContext → Option ℕ → AuthRequest → Action AuthAnswer
  unfolding refresh_route logout_route
  handle_auth code raw ctx cookie (asks_register_code phone) =
      only_message (request_register_otp h c env config code phone)
  handle_auth code raw ctx cookie (registers dto) =
      with_tokens (verify_register_and_create_user h c env raw dto ctx)
  handle_auth code raw ctx cookie (logs_in phone password) =
      with_tokens (login_with_password h c env raw phone password ctx)
  handle_auth code raw ctx cookie (asks_login_code phone) =
      only_message (request_login_otp h c env config code phone)
  handle_auth code raw ctx cookie (logs_in_by_code phone given) =
      with_tokens (verify_login_otp h c env raw phone given ctx)
  handle_auth code raw ctx cookie (refreshes body) = refresh_route raw ctx (raw_token cookie body)
  handle_auth code raw ctx cookie (logs_out body) = logout_route (raw_token cookie body)
  handle_auth code raw ctx cookie (forgets_password phone) =
      only_message (forgot_password h c env config code phone)
  handle_auth code raw ctx cookie (resets_password phone given password) =
      only_message (reset_password h c env phone given password)
