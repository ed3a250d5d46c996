-- ===== src/Api/Managed.antt =====
-- Runs of the requests that open, review and run businesses: below `businesses` and
-- `admin/businesses` of apps/backend/src/modules.
use booking_platform_claude.Prelude.{
  ℕ, refl, subst, sym, Bool, inl, inr, Option, none, some, List, [], ◌∷◌, All,
}
use booking_platform_claude.Store.{Db, Client, Env}
use booking_platform_claude.Store.Action.{Action}
use booking_platform_claude.Guards.{AuthenticatedUser}
use booking_platform_claude.Business.Review.{approve, reject, suspend, review_entry}
use booking_platform_claude.Business.Owned.{Owned, create_business-Owned, reviewed-Owned}
use booking_platform_claude.Business.{CreateBusinessDto, create_business}
use booking_platform_claude.Schema.{AuditAction, BusinessStatus}
use booking_platform_claude.Api.{
  Request, of_business, creates_business, approves, rejects, suspends, handle, serve, serve_each,
  by_user,
}
use booking_platform_claude.Api.Authorized.{serve-IsAllowed}
use booking_platform_claude.Api.Business.{BusinessRequest}
use booking_platform_claude.Api.Owned.{handle_business-Owned, done-Owned}

-- The requests that open, review or run a business.
pub data IsManagement : Request → Type 0 where
  runs : (id : ℕ) (r : BusinessRequest) → IsManagement (of_business id r)
  opens : (dto : CreateBusinessDto) → IsManagement (creates_business dto)
  admits : (id : ℕ) → IsManagement (approves id)
  refuses : (id reason : ℕ) → IsManagement (rejects id reason)
  halts : (id reason : ℕ) → IsManagement (suspends id reason)

module _ (contains : ℕ → ℕ → Bool) (c : Client) where
  by_user-Owned :
      (user : Option AuthenticatedUser) (f : ℕ → Action (Unit {0})) (s : Db)
      → Owned s
      → ((me : ℕ) → Owned (f me s).1)
      → Owned (by_user user f s).1
  by_user-Owned none f s h k = h
  by_user-Owned (some user) f s h k = k user.id

  handle-Owned :
      (env : Env) (r : Request) (user : Option AuthenticatedUser) (s : Db)
      → IsManagement r
      → Owned s
      → Owned (handle contains c env r user s).1
  unfolding handle approve reject suspend
  handle-Owned env _ user s (runs id r) h = handle_business-Owned c env id r s h
  handle-Owned env _ user s (opens dto) h = by_user-Owned user _ s h (λ me.
      done-Owned c env (create_business c env me dto) s (create_business-Owned c env me dto s h))
  handle-Owned env _ user s (admits id) h = by_user-Owned user _ s h (λ me.
      done-Owned c env (approve c env id me) s (
        reviewed-Owned c env id
          (λ b. record b { status = BusinessStatus.approved; reject_reason = none })
          (review_entry c env me AuditAction.business_approved id none) s (λ b. (refl, refl)) h))
  handle-Owned env _ user s (refuses id reason) h = by_user-Owned user _ s h (λ me.
      done-Owned c env (reject c env id me reason) s (
        reviewed-Owned c env id
          (λ b. record b { status = BusinessStatus.rejected; reject_reason = some reason })
          (review_entry c env me AuditAction.business_rejected id (some reason)) s
          (λ b. (refl, refl)) h))
  handle-Owned env _ user s (halts id reason) h = by_user-Owned user _ s h (λ me.
      done-Owned c env (suspend c env id me reason) s (
        reviewed-Owned c env id
          (λ b. record b { status = BusinessStatus.suspended; reject_reason = some reason })
          (review_entry c env me AuditAction.business_suspended id (some reason)) s
          (λ b. (refl, refl)) h))

  -- A request that opens, reviews or runs a business, whoever sends it and whatever it answers, keeps the owners.
  serve-Owned :
      (env : Env) (sub : Option ℕ) (r : Request) (s : Db)
      → IsManagement r
      → Owned s
      → Owned (serve contains c env sub r s).1
  serve-Owned env sub r s e h = elim (serve-IsAllowed contains c env sub r s) [
    | inl (user, allowed, same) ↦ subst (λ z. Owned z.1) (sym same) (handle-Owned env r user s e h)
    | inr (x, thrown) ↦ subst (λ z. Owned z.1) (sym thrown) h
  ]

  -- If every business has its active owner among the staff and no two members of staff have one identifier, then so it is after any sequence of requests that open, review or run businesses, whoever sends them, whether they are answered or refused, each served to its end before the next.
  pub serve_each-Owned :
      (rs : List (Env × Option ℕ × Request)) (s : Db)
      → All (λ (r : Env × Option ℕ × Request). IsManagement r.2) rs
      → Owned s
      → Owned (serve_each contains c rs s)
  unfolding serve_each
  serve_each-Owned [] s e h = h
  serve_each-Owned ((env, sub, r) ∷ rs) s e h =
      serve_each-Owned rs (serve contains c env sub r s).1 e.1 (serve-Owned env sub r s e.0 h)
