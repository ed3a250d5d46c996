-- ===== src/Api/Auth/Ended.antt =====
-- The end of a session, as the routes of apps/backend/src/modules/auth/auth.controller.ts see it.
use booking_platform_claude.Prelude.{
  ℕ, ◌≡◌, sym, ap, ◌∙◌, subst, false, Option, none, some, ◌==◌, arith,
}
use booking_platform_claude.Store.{Client, Env, Db}
use booking_platform_claude.Store.Action.{Result, ok, err, unauthorized}
use booking_platform_claude.Otp.{OtpConfig}
use booking_platform_claude.Auth.Tokens.{Crypto, DeviceContext, logout}
use booking_platform_claude.Auth.Revoked.{logout-refresh_tokens}
use booking_platform_claude.Api.Auth.{
  AuthAnswer, cleared, refreshes, logs_out, handle_auth, refresh_route, logout_route,
}

answered_cookie :
    (answer : AuthAnswer) (s t : Db)
    → ◌≡◌ {A = Result AuthAnswer × Db}
        (ok (record { access_token = none; cookie = cleared }), s)
        (ok answer, t)
    → answer.cookie ≡ cleared
answered_cookie answer s t e = ground arith

module _ (h : Crypto) (config : OtpConfig) (c : Client) where
  logout_route-logout :
      (env : Env) (token : ℕ) (s : Db)
      → (token == 0) ≡ false
      → logout_route h config c env (some token) s
        ≡ (ok (record { access_token = none; cookie = cleared }), (logout h c env token s).1)
  unfolding logout_route logout
  logout_route-logout env token s given = ground (arith, given)

  refresh_route-refused :
      (env later : Env) (raw token : ℕ) (ctx : DeviceContext) (s : Db)
      → (token == 0) ≡ false
      → refresh_route h config c later raw ctx (some token) (logout h c env token s).1
        ≡ (err unauthorized, (logout h c env token s).1)
  unfolding refresh_route
  refresh_route-refused env later raw token ctx s given =
      ground (arith, given, logout-refresh_tokens h c env later token raw ctx s)

  -- a logout route that answers, with a refresh token in the cookie that is not empty, clears the cookie, and in the state that it left the refresh route with that token, whatever the body and at any time, throws the 401 exception and writes nothing.
  pub logs_out-refreshes :
      (env later : Env) (code raw code' raw' token : ℕ) (ctx there : DeviceContext)
      (body body' : Option ℕ) (s t : Db) (answer : AuthAnswer)
      → (token == 0) ≡ false
      → handle_auth h config c env code raw ctx (some token) (logs_out body) s ≡ (ok answer, t)
      → (answer.cookie ≡ cleared)
        × (handle_auth h config c later code' raw' there (some token) (refreshes body') t
            ≡ (err unauthorized, t))
  unfolding handle_auth
  logs_out-refreshes env later code raw code' raw' token ctx there body body' s t answer given e =
      let run = sym (logout_route-logout env token s given) ∙ e in
      let state : (logout h c env token s).1 ≡ t = ap (λ (z : Result AuthAnswer × Db). z.1) run in
      (
        answered_cookie answer (logout h c env token s).1 t run,
        subst
            (λ z. refresh_route h config c later raw' there (some token) z ≡ (err unauthorized, z))
            state (refresh_route-refused env later raw' token there s given),
      )
