-- ===== src/Users.antt =====
-- apps/backend/src/modules/users/users.service.ts: the profile and the list of sessions. Its other two
-- methods, which revoke refresh tokens, are in Auth/Tokens.antt.
pub mod Profile
use booking_platform_claude.Prelude.{
  ℕ, Bool, false, ◌&&◌, not, Option, none, some, List, ltb, ◌==◌, opt_eq, is_some, if◌then◌else◌,
}
use booking_platform_claude.Schema.{User, RefreshToken}
use booking_platform_claude.Store.{Client, Env, SortOrder}
use booking_platform_claude.Store.Action.{
  Action, conflict, pure, gets, throw_if, ◌>>=◌, ◌>>◌, stored_row,
}
use booking_platform_claude.Coupon.{or_old, or_old_option}
use booking_platform_claude.Auth.Tokens.{set_users}

-- `UpdateProfileDto`; an email that is given is not empty, as `@IsEmail` demands.
pub record UpdateProfileDto : Type 0 where
  pub full_name : Option ℕ
  pub email : Option ℕ
  pub avatar_url : Option ℕ

-- `existing && existing.id !== userId`
abbrev pub is_of_other : ℕ → Option User → Bool
is_of_other user_id none = false
is_of_other user_id (some u) = not (u.id == user_id)

abbrev pub with_profile : UpdateProfileDto → User → User
with_profile dto u = record u {
  full_name = or_old dto.full_name u.full_name;
  email = or_old_option dto.email u.email;
  avatar_url = or_old_option dto.avatar_url u.avatar_url;
  email_verified = if is_some dto.email then false else u.email_verified;
}

module _ (c : Client) (env : Env) where
  -- `if (dto.email) { ... }`
  abbrev pub check_email : ℕ → Option ℕ → Action (Unit {0})
  check_email user_id none = pure tt
  check_email user_id (some email) = do
    existing ← gets (λ s. c.user.find_first (λ u. opt_eq u.email (some email)) s.users)
    throw_if (is_of_other user_id existing) conflict

  unfoldable pub set_profile : ℕ → (User → User) → Action User
  set_profile user_id f s = stored_row (c.user.update (λ u. u.id == user_id) f s.users) set_users s

  -- `updateProfile`
  unfoldable pub update_profile : ℕ → UpdateProfileDto → Action User
  update_profile user_id dto = do
    check_email user_id dto.email
    set_profile user_id (with_profile dto)

  -- `{ userId, revokedAt: null, expiresAt: { gt: new Date() } }`
  abbrev pub is_open_session : ℕ → RefreshToken → Bool
  is_open_session user_id r =
      r.user_id == user_id && (not (is_some r.revoked_at) && ltb env.now r.expires_at)

  -- `listSessions`
  unfoldable pub list_sessions : ℕ → Action (List RefreshToken)
  list_sessions user_id = gets (λ s.
      c.refresh_token.find_ordered SortOrder.desc (λ r. r.created_at) (is_open_session user_id)
        s.refresh_tokens)
