-- ===== src/Auth.antt =====
-- apps/backend/src/modules/auth/auth.service.ts: registration, login, recovery and the rotation of refresh
-- tokens. bcrypt, SHA-256, the signing of access tokens and the random tokens are parameters.
pub mod Tokens
pub mod Revoked
pub mod Rotation
use booking_platform_claude.Prelude.{
  ℕ, ◌+◌, ◌*◌, Bool, true, false, ◌&&◌, ◌||◌, not, Option, none, some, List, ltb, ◌==◌, is_some,
  if◌then◌else◌,
}
use booking_platform_claude.Schema.{
  User, GlobalRole, AccountStatus, is_account_active, OtpPurpose, Wallet, LoyaltyAccount,
}
use booking_platform_claude.Store.{Db, Client, Env}
use booking_platform_claude.Store.Action.{
  Action, bad_request, conflict, unauthorized, pure, throw, gets, or_throw, throw_if, when, ◌>>=◌,
  ◌>>◌, stored, stored_row,
}
use booking_platform_claude.Loyalty.{new_account}
use booking_platform_claude.Referral.{register_referral}
use booking_platform_claude.Payment.{new_wallet, set_wallets}
use booking_platform_claude.Otp.{OtpConfig, request_otp, verify_otp}
use Tokens.{Crypto, DeviceContext, TokenPair, issue_token_pair, revoke_of_user, set_users}

-- `VerifyRegisterDto`
pub record VerifyRegisterDto : Type 0 where
  pub phone : ℕ
  pub code : ℕ
  pub full_name : ℕ
  pub password : ℕ
  pub referral_code : Option ℕ

-- `!user || user.status !== 'ACTIVE'`
abbrev pub is_inactive : Option User → Bool
is_inactive none = true
is_inactive (some u) = not (is_account_active u.status)

module _ (h : Crypto) (c : Client) (env : Env) where
  abbrev pub user_by_phone : ℕ → Db → Option User
  user_by_phone phone s = c.user.find_first (λ u. u.phone == phone) s.users

  -- `requestRegisterOtp`, with the random code
  unfoldable pub request_register_otp : OtpConfig → ℕ → ℕ → Action (Option ℕ)
  request_register_otp config code phone = do
    existing ← gets (user_by_phone phone)
    throw_if (is_some existing) conflict
    request_otp h.sha256 c env config code phone OtpPurpose.register none

  abbrev pub new_user : VerifyRegisterDto → User
  new_user dto = record {
    id = env.uuid 0;
    phone = dto.phone;
    email = none;
    password_hash = h.hash_password dto.password;
    full_name = dto.full_name;
    avatar_url = none;
    global_role = GlobalRole.user;
    status = AccountStatus.active;
    phone_verified = true;
    email_verified = false;
    deleted_at = none;
  }

  abbrev set_accounts : List LoyaltyAccount → Db → Db
  set_accounts t s = record s { loyalty_accounts = t }

  unfoldable pub create_user : User → Action (Unit {0})
  create_user u s = stored (c.user.create u s.users) set_users s

  unfoldable pub create_wallet : ℕ → Action (Unit {0})
  create_wallet user_id s =
      stored (c.wallet.create (new_wallet (env.uuid 1) user_id) s.wallets) set_wallets s

  unfoldable pub create_account : ℕ → Action (Unit {0})
  create_account user_id s =
      stored (c.loyalty_account.create (new_account (env.uuid 2) user_id) s.loyalty_accounts)
        set_accounts s

  abbrev refer : Option ℕ → ℕ → Action (Unit {0})
  refer none user_id = pure tt
  refer (some code) user_id = register_referral c env 3 code user_id

  -- `verifyRegisterAndCreateUser`, with the random refresh token
  unfoldable pub verify_register_and_create_user :
      ℕ → VerifyRegisterDto → DeviceContext → Action TokenPair
  verify_register_and_create_user raw dto ctx = do
    is_valid ← verify_otp h.sha256 c env dto.phone OtpPurpose.register dto.code
    throw_if (not is_valid) bad_request
    existing ← gets (user_by_phone dto.phone)
    throw_if (is_some existing) conflict
    let user = new_user dto
    create_user user
    create_wallet user.id
    create_account user.id
    refer dto.referral_code user.id
    issue_token_pair h c env 4 raw user.id user.global_role ctx

  -- `loginWithPassword`
  unfoldable pub login_with_password : ℕ → ℕ → ℕ → DeviceContext → Action TokenPair
  login_with_password raw phone password ctx = do
    found ← gets (user_by_phone phone)
    throw_if (is_inactive found) unauthorized
    user ← or_throw found unauthorized
    throw_if (not (h.verify_password password user.password_hash)) unauthorized
    issue_token_pair h c env 0 raw user.id user.global_role ctx

  -- `requestLoginOtp`: an unknown phone gets the answer of a known one.
  unfoldable pub request_login_otp : OtpConfig → ℕ → ℕ → Action (Option ℕ)
  request_login_otp config code phone = do
    found ← gets (user_by_phone phone)
    if is_inactive found then pure none else (do
      user ← or_throw found unauthorized
      request_otp h.sha256 c env config code phone OtpPurpose.login (some user.id))

  -- `verifyLoginOtp`
  unfoldable pub verify_login_otp : ℕ → ℕ → ℕ → DeviceContext → Action TokenPair
  verify_login_otp raw phone code ctx = do
    found ← gets (user_by_phone phone)
    throw_if (is_inactive found) unauthorized
    user ← or_throw found unauthorized
    is_valid ← verify_otp h.sha256 c env phone OtpPurpose.login code
    throw_if (not is_valid) bad_request
    issue_token_pair h c env 0 raw user.id user.global_role ctx

  abbrev request_reset : OtpConfig → ℕ → ℕ → Option User → Action (Option ℕ)
  request_reset config code phone none = pure none
  request_reset config code phone (some user) =
      request_otp h.sha256 c env config code phone OtpPurpose.reset_password (some user.id)

  -- `forgotPassword`
  unfoldable pub forgot_password : OtpConfig → ℕ → ℕ → Action (Option ℕ)
  forgot_password config code phone = do
    found ← gets (user_by_phone phone)
    request_reset config code phone found

  unfoldable pub set_password : ℕ → ℕ → Action User
  set_password user_id password s =
      stored_row
        (c.user.update (λ u. u.id == user_id)
          (λ u. record u { password_hash = h.hash_password password }) s.users)
        set_users s

  -- `resetPassword`
  unfoldable pub reset_password : ℕ → ℕ → ℕ → Action (Unit {0})
  reset_password phone code new_password = do
    found ← gets (user_by_phone phone)
    user ← or_throw found bad_request
    is_valid ← verify_otp h.sha256 c env phone OtpPurpose.reset_password code
    throw_if (not is_valid) bad_request
    set_password user.id new_password
    revoke_of_user c env user.id

  -- `getMe`
  unfoldable pub get_me : ℕ → Action User
  get_me user_id = do
    found ← gets (λ s. c.user.find_first (λ u. u.id == user_id) s.users)
    or_throw found unauthorized
