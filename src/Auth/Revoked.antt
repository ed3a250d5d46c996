-- ===== src/Auth/Revoked.antt =====
-- Refresh tokens that were revoked: after a logout, and after a password reset.
use booking_platform_claude.Prelude.{
  ℕ, ◌≡◌, sym, true, not, ◌==◌, is_some, update_where, arith, Option-cases, inl, inr, All, In,
  All-update_where,
}
use booking_platform_claude.Schema.{RefreshToken, User, OtpPurpose}
use booking_platform_claude.Store.{Db, Client, Env}
use booking_platform_claude.Store.Action.{ok, err, unauthorized, throw_if, bad_request, ◌>>=◌, ◌>>◌}
use booking_platform_claude.Store.Holds.{bind_ok}
use booking_platform_claude.Store.Found.{All-unit, find_first-update_where}
use booking_platform_claude.Otp.{verify_otp}
use booking_platform_claude.Auth.{reset_password, set_password}
use booking_platform_claude.Auth.Tokens.{
  Crypto, DeviceContext, revoke, is_live_of_hash, is_live_of_user, logout, refresh_tokens,
  revoke_of_user,
}

abbrev IsRevoked : RefreshToken → Type 0
IsRevoked r = is_some r.revoked_at ≡ true

-- After a logout with a refresh token, that token buys no new pair: in the state that the logout left, whoever presents it gets
-- the 401 exception, and nothing is written.
pub logout-refresh_tokens :
    (h : Crypto) (c : Client) (env later : Env) (raw_refresh_token raw : ℕ) (ctx : DeviceContext)
    (s : Db)
    → refresh_tokens h c later raw raw_refresh_token ctx (logout h c env raw_refresh_token s).1
      ≡ (err unauthorized, (logout h c env raw_refresh_token s).1)
unfolding logout refresh_tokens
logout-refresh_tokens h c env later raw_refresh_token raw ctx s =
    let live = is_live_of_hash (h.sha256 raw_refresh_token) in
    let many = c.refresh_token.update_many_lem live (revoke env.now) s.refresh_tokens in
    elim (Option-cases (
      c.refresh_token.find_first (λ r. r.token_hash == h.sha256 raw_refresh_token)
        (c.refresh_token.update_many live (revoke env.now) s.refresh_tokens))) [
          | inl nothing ↦ ground arith
          | inr (r, found) ↦
              let dead : is_some r.revoked_at ≡ true =
                find_first-update_where c.refresh_token live (revoke env.now) IsRevoked
                  (λ r. r.token_hash == h.sha256 raw_refresh_token) s.refresh_tokens r
                  (λ x hit. ground arith) (rw (sym many) found) in
              ground arith
        ]

-- Every refresh token of the user is revoked.
abbrev pub AllRevoked : ℕ → Db → Type 0
AllRevoked user_id s =
    All (λ (r : RefreshToken). (r.user_id == user_id) ≡ true → is_some r.revoked_at ≡ true)
      s.refresh_tokens

module _ (h : Crypto) (c : Client) (env : Env) where
  revoke_of_user-AllRevoked :
      (user_id : ℕ) (s t : Db) → revoke_of_user c env user_id s ≡ (ok tt, t) → AllRevoked user_id t
  unfolding revoke_of_user
  revoke_of_user-AllRevoked user_id s t e =
      let live = is_live_of_user user_id in
      let rows = c.refresh_token.update_many_lem live (revoke env.now) s.refresh_tokens in
      let same : t.refresh_tokens ≡ update_where live (revoke env.now) s.refresh_tokens =
        ground arith in
      rw same (
        All-update_where live (revoke env.now) {P = λ (r : RefreshToken). Unit {0}}
          (λ (r : RefreshToken). (r.user_id == user_id) ≡ true → is_some r.revoked_at ≡ true)
          s.refresh_tokens (λ x _ mine. ground arith) (All-unit s.refresh_tokens))

  reset_of_user :
      (phone code new_password : ℕ) (u : User) (s t : Db)
      → (verify_otp h.sha256 c env phone OtpPurpose.reset_password code >>= λ is_valid.
            throw_if (not is_valid) bad_request
            >> (set_password h c env u.id new_password >> revoke_of_user c env u.id))
          s
        ≡ (ok tt, t)
      → AllRevoked u.id t
  reset_of_user phone code new_password u s t e =
      let (b, s1, e1, r1) =
        bind_ok (verify_otp h.sha256 c env phone OtpPurpose.reset_password code) _ s e in
      let (y, s2, e2, r2) = bind_ok (throw_if (not b) bad_request) _ s1 r1 in
      let (w, s3, e3, r3) = bind_ok (set_password h c env u.id new_password) _ s2 r2 in
      revoke_of_user-AllRevoked u.id s3 t r3

  -- A password reset that returns was for a user with the phone number, and leaves no refresh token of that user
  -- unrevoked.
  pub reset_password-AllRevoked :
      (phone code new_password : ℕ) (s t : Db)
      → reset_password h c env phone code new_password s ≡ (ok tt, t)
      → (u : User) × In u s.users × ((u.phone == phone) ≡ true) × AllRevoked u.id t
  unfolding reset_password
  reset_password-AllRevoked phone code new_password s t e =
      elim (Option-cases (c.user.find_first (λ u. u.phone == phone) s.users)) [
        | inl nothing ↦ absurd (ground arith)
        | inr (u, found) ↦
            let (place, hit) = c.user.find_first_some (λ u. u.phone == phone) s.users u found in
            (u, place, hit, reset_of_user phone code new_password u s t (ground arith))
      ]
