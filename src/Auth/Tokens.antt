-- ===== src/Auth/Tokens.antt =====
-- `issueTokenPair`, `refreshTokens` and `logout` of auth.service.ts, and the revocations of users.service.ts.
use booking_platform_claude.Prelude.{
  ℕ, ◌+◌, ◌*◌, Bool, true, ◌&&◌, ◌||◌, not, Option, none, some, List, ltb, ◌==◌, is_some,
}
use booking_platform_claude.Schema.{
  User, RefreshToken, GlobalRole, AccountStatus, is_account_active,
}
use booking_platform_claude.Store.{Db, Client, Env}
use booking_platform_claude.Store.Action.{
  Action, unauthorized, not_found, pure, gets, or_throw, put, throw_if, ◌>>=◌, ◌>>◌, stored,
  stored_row,
}

-- node's crypto, bcrypt and the JWT service, and `parseDays(JWT_REFRESH_EXPIRES_IN)`.
pub record Crypto : Type 0 where
  pub sha256 : ℕ → ℕ
  pub hash_password : ℕ → ℕ
  pub verify_password : ℕ → ℕ → Bool
  pub sign_access_token : ℕ → GlobalRole → ℕ
  pub refresh_days : ℕ

pub record DeviceContext : Type 0 where
  pub device_info : Option ℕ
  pub ip_address : Option ℕ

pub record TokenPair : Type 0 where
  pub access_token : ℕ
  pub refresh_token : ℕ

abbrev pub set_users : List User → Db → Db
set_users t s = record s { users = t }

abbrev pub set_refresh_tokens : List RefreshToken → Db → Db
set_refresh_tokens t s = record s { refresh_tokens = t }

abbrev pub revoke : ℕ → RefreshToken → RefreshToken
revoke now r = record r { revoked_at = some now }

-- `!record || record.revokedAt || record.expiresAt < new Date()`
abbrev pub is_dead : ℕ → Option RefreshToken → Bool
is_dead now none = true
is_dead now (some r) = is_some r.revoked_at || ltb r.expires_at now

-- `!user || user.status !== 'ACTIVE'`
abbrev pub lacks_account : Option User → Bool
lacks_account none = true
lacks_account (some u) = not (is_account_active u.status)

-- `{ userId, revokedAt: null }`
abbrev pub is_live_of_user : ℕ → RefreshToken → Bool
is_live_of_user user_id r = r.user_id == user_id && not (is_some r.revoked_at)

-- `{ tokenHash, revokedAt: null }`
abbrev pub is_live_of_hash : ℕ → RefreshToken → Bool
is_live_of_hash token_hash r = r.token_hash == token_hash && not (is_some r.revoked_at)

module _ (c : Client) (env : Env) where
  unfoldable pub revoke_of_user : ℕ → Action (Unit {0})
  revoke_of_user user_id = put (λ s.
      set_refresh_tokens
        (c.refresh_token.update_many (is_live_of_user user_id) (revoke env.now) s.refresh_tokens) s)

  -- `refreshToken.update({ where: { id }, data: { revokedAt } })`
  unfoldable pub revoke_by_id : ℕ → Action RefreshToken
  revoke_by_id id s =
      stored_row (c.refresh_token.update (λ r. r.id == id) (revoke env.now) s.refresh_tokens)
        set_refresh_tokens s

  -- `UsersService.revokeSession`
  unfoldable pub revoke_session : ℕ → ℕ → Action (Unit {0})
  unfolding revoke_by_id
  revoke_session user_id session_id = do
    found ← gets (λ s. c.refresh_token.find_first (λ r. r.id == session_id) s.refresh_tokens)
    session ← or_throw found not_found
    throw_if (not (session.user_id == user_id)) not_found
    revoke_by_id session_id
    pure tt

  -- `UsersService.requestAccountDeletion`
  unfoldable pub request_account_deletion : ℕ → Action (Unit {0})
  unfolding revoke_of_user
  request_account_deletion user_id = do
    λ s.
        stored_row
          (c.user.update (λ u. u.id == user_id)
            (λ u. record u {
              status = AccountStatus.deleted;
              deleted_at = some env.now;
              email = none;
            })
            s.users)
          set_users s
    revoke_of_user user_id

module _ (h : Crypto) (c : Client) (env : Env) where
  abbrev pub new_refresh_token : ℕ → ℕ → ℕ → DeviceContext → RefreshToken
  new_refresh_token k raw user_id ctx = record {
    id = env.uuid k;
    user_id = user_id;
    token_hash = h.sha256 raw;
    device_info = ctx.device_info;
    ip_address = ctx.ip_address;
    expires_at = env.now + h.refresh_days * 24 * 60 * 60 * 1000;
    revoked_at = none;
    created_at = env.now;
  }

  -- `issueTokenPair`, with the `k`-th new identifier and the random refresh token
  unfoldable pub issue_token_pair : ℕ → ℕ → ℕ → GlobalRole → DeviceContext → Action TokenPair
  issue_token_pair k raw user_id role ctx = do
    λ s.
        stored (c.refresh_token.create (new_refresh_token k raw user_id ctx) s.refresh_tokens)
          set_refresh_tokens s
    pure (record { access_token = h.sign_access_token user_id role; refresh_token = raw })

  -- `refreshTokens`
  unfoldable pub refresh_tokens : ℕ → ℕ → DeviceContext → Action TokenPair
  unfolding revoke_by_id issue_token_pair
  refresh_tokens raw raw_refresh_token ctx = do
    found ← gets (λ s.
        c.refresh_token.find_first (λ r. r.token_hash == h.sha256 raw_refresh_token)
          s.refresh_tokens)
    throw_if (is_dead env.now found) unauthorized
    token ← or_throw found unauthorized
    found_user ← gets (λ s. c.user.find_first (λ u. u.id == token.user_id) s.users)
    throw_if (lacks_account found_user) unauthorized
    user ← or_throw found_user unauthorized
    revoke_by_id c env token.id
    issue_token_pair 0 raw user.id user.global_role ctx

  -- `logout`
  unfoldable pub logout : ℕ → Action (Unit {0})
  logout raw_refresh_token = put (λ s.
      set_refresh_tokens
        (c.refresh_token.update_many (is_live_of_hash (h.sha256 raw_refresh_token)) (revoke env.now)
          s.refresh_tokens)
        s)
