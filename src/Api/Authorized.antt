-- ===== src/Api/Authorized.antt =====
-- What the guards mean for the routes of apps/backend/src/modules.
use booking_platform_claude.Prelude.{ℕ, ◌≡◌, Bool, ◌⊎◌, Option}
use booking_platform_claude.Store.{Db, Client, Env}
use booking_platform_claude.Store.Action.{Error, err}
use booking_platform_claude.Store.Reads.{>>=-after}
use booking_platform_claude.Guards.{AuthenticatedUser, admit}
use booking_platform_claude.Guards.Admitted.{IsAllowed, admit-Reads}
use booking_platform_claude.Api.{Request, access_of, path_business, handle, serve}

module _ (contains : ℕ → ℕ → Bool) (c : Client) (env : Env) where
  -- Whatever the request and its token, either the request is allowed, by an active account if the route is not public, with one of the route's global roles and, as an administrator or by an active membership of the path's business, with one of its business roles, and then serving it is running its handler; or it throws and writes nothing.
  pub serve-IsAllowed :
      (sub : Option ℕ) (r : Request) (s : Db)
      → ((user : Option AuthenticatedUser) × IsAllowed (access_of r) (path_business r) sub s user
          × (serve contains c env sub r s ≡ handle contains c env r user s))
        ⊎ ((e : Error) × (serve contains c env sub r s ≡ (err e, s)))
  unfolding serve
  serve-IsAllowed sub r s =
      >>=-after (IsAllowed (access_of r) (path_business r) sub s)
        (admit c env (access_of r) (path_business r) sub) (handle contains c env r) s
        (admit-Reads c env (access_of r) (path_business r) sub s)
