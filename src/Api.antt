-- ===== src/Api.antt =====
-- The requests that the backend serves: the controllers of apps/backend/src/modules, each route with
-- its decorators, behind the guards. The other routes, which only read for display and write nothing, are left out; those of
-- auth.controller.ts, which are public, are in Api/Auth.antt. What the payment gateway answers comes with the request.
pub mod Business
pub mod Auth
pub mod Authorized
pub mod Frames
pub mod Owned
pub mod Managed
use booking_platform_claude.Prelude.{ℕ, Bool, true, false, Option, none, some, List, [], ◌∷◌}
use booking_platform_claude.Schema.{GlobalRole, Gateway}
use booking_platform_claude.Store.{Client, Env, Db}
use booking_platform_claude.Store.Action.{Action, unauthorized, throw, ◌>>=◌}
use booking_platform_claude.Booking.Types.{HoldBookingDto, CreateRecurringBookingDto}
use booking_platform_claude.Booking.Hold.{hold}
use booking_platform_claude.Booking.Confirm.{confirm, confirm_group}
use booking_platform_claude.Booking.Cancel.{cancel_by_user}
use booking_platform_claude.Booking.Reschedule.{reschedule}
use booking_platform_claude.Booking.Recurring.{create_recurring}
use booking_platform_claude.Payment.{Method, initiate, topup}
use booking_platform_claude.Payment.MockGateway.{VerifyResult}
use booking_platform_claude.Payment.Callback.{handle_callback, refund}
use booking_platform_claude.Settlement.{run_batch}
use booking_platform_claude.Coupon.{CreateCouponDto, UpdateCouponDto}
use booking_platform_claude.Coupon
use booking_platform_claude.Payment
use booking_platform_claude.Loyalty
use booking_platform_claude.Users.{UpdateProfileDto, update_profile, list_sessions}
use booking_platform_claude.Auth.Tokens.{revoke_session, request_account_deletion}
use booking_platform_claude.Business.{
  CreateBusinessDto, SearchBusinessDto, create_business, search, find_one_public,
}
use booking_platform_claude.Business.Review.{list_pending_for_admin, approve, reject, suspend}
use booking_platform_claude.Guards.{Access, AuthenticatedUser, admit}
use Business.{BusinessRequest, business_roles_of, handle_business, done}

pub data Request : Type 0 where
  of_business : ℕ → BusinessRequest → Request
  creates_business : CreateBusinessDto → Request
  searches : SearchBusinessDto → Request
  views : ℕ → Request
  lists_pending : Request
  approves : ℕ → Request
  rejects : ℕ → ℕ → Request
  suspends : ℕ → ℕ → Request
  holds : HoldBookingDto → Request
  creates_recurring : CreateRecurringBookingDto → Request
  confirms : ℕ → Request
  confirms_group : ℕ → Request
  cancels : ℕ → Option ℕ → Request
  reschedules : ℕ → ℕ → Request
  pays : (ℕ → ℕ → ℕ) → ℕ → Method → Request
  calls_back : (Option ℕ → ℕ → VerifyResult) → Gateway → Option ℕ → Request
  refunds : ℕ → ℕ → Request
  tops_up : (ℕ → ℕ → ℕ) → ℕ → Request
  runs_settlements : Option ℕ → ℕ → ℕ → Request
  creates_global_coupon : CreateCouponDto → Request
  updates_any_coupon : ℕ → UpdateCouponDto → Request
  views_wallet : Request
  views_loyalty : Request
  updates_profile : UpdateProfileDto → Request
  lists_sessions : Request
  revokes_session : ℕ → Request
  deletes_account : Request

-- The three kinds of route outside a business: for anyone, for who is logged in, for administrators.
abbrev open_to_all : Access
open_to_all = record { is_public = true; roles = []; business_roles = [] }

abbrev logged_in : Access
logged_in = record { is_public = false; roles = []; business_roles = [] }

abbrev admins_only : Access
admins_only = record { is_public = false; roles = GlobalRole.admin ∷ []; business_roles = [] }

-- The decorators of a request's route, and the `id` of its path where that is a business.
unfoldable pub access_of : Request → Access
unfolding business_roles_of
access_of (of_business id r) = record {
  is_public = false;
  roles = [];
  business_roles = business_roles_of r;
}
access_of (searches dto) = open_to_all
access_of (views id) = open_to_all
access_of (calls_back verify gateway ref) = open_to_all
access_of lists_pending = admins_only
access_of (approves id) = admins_only
access_of (rejects id reason) = admins_only
access_of (suspends id reason) = admins_only
access_of (refunds id reason) = admins_only
access_of (runs_settlements id period_start period_end) = admins_only
access_of (creates_global_coupon dto) = admins_only
access_of (updates_any_coupon id dto) = admins_only
access_of (creates_business dto) = logged_in
access_of (holds dto) = logged_in
access_of (creates_recurring dto) = logged_in
access_of (confirms id) = logged_in
access_of (confirms_group id) = logged_in
access_of (cancels id reason) = logged_in
access_of (reschedules id start) = logged_in
access_of (pays session id method) = logged_in
access_of (tops_up session amount) = logged_in
access_of views_wallet = logged_in
access_of views_loyalty = logged_in
access_of (updates_profile dto) = logged_in
access_of lists_sessions = logged_in
access_of (revokes_session id) = logged_in
access_of deletes_account = logged_in

abbrev pub path_business : Request → Option ℕ
path_business (of_business id r) = some id
path_business _ = none

-- `@CurrentUser() user`, which the guards have set on every route that reads it.
abbrev pub by_user : Option AuthenticatedUser → (ℕ → Action (Unit {0})) → Action (Unit {0})
by_user none f = throw unauthorized
by_user (some user) f = f user.id

module _ (contains : ℕ → ℕ → Bool) (c : Client) (env : Env) where
  -- The route's handler, with the user that the guards left in the request.
  unfoldable pub handle : Request → Option AuthenticatedUser → Action (Unit {0})
  handle (of_business id r) user = handle_business c env id r
  handle (searches dto) user = done (search c env contains dto)
  handle (views id) user = done (find_one_public c env id)
  handle (calls_back verify gateway ref) user = done (handle_callback c env verify gateway ref)
  handle lists_pending user = done (list_pending_for_admin c env)
  handle (approves id) user = by_user user (λ me. done (approve c env id me))
  handle (rejects id reason) user = by_user user (λ me. done (reject c env id me reason))
  handle (suspends id reason) user = by_user user (λ me. done (suspend c env id me reason))
  handle (refunds id reason) user = by_user user (λ me. refund c env id me reason)
  handle (runs_settlements id period_start period_end) user =
      done (run_batch c env id period_start period_end)
  handle (creates_global_coupon dto) user = Coupon.create c env none dto
  handle (updates_any_coupon id dto) user = done (Coupon.update c env id dto)
  handle (creates_business dto) user = by_user user (λ me. done (create_business c env me dto))
  handle (holds dto) user = by_user user (λ me. done (hold c env me dto))
  handle (creates_recurring dto) user = by_user user (λ me. done (create_recurring c env me dto))
  handle (confirms id) user = by_user user (λ me. done (confirm c env 0 id me))
  handle (confirms_group id) user = by_user user (λ me. done (confirm_group c env id me))
  handle (cancels id reason) user = by_user user (λ me. done (cancel_by_user c env id me reason))
  handle (reschedules id start) user = by_user user (λ me. done (reschedule c env id me start))
  handle (pays session id method) user =
      by_user user (λ me. done (initiate c env session me id method))
  handle (tops_up session amount) user = by_user user (λ me. done (topup c env session me amount))
  handle views_wallet user = by_user user (λ me. done (Payment.get_mine c env me))
  handle views_loyalty user = by_user user (λ me. done (Loyalty.get_mine c env me))
  handle (updates_profile dto) user = by_user user (λ me. done (update_profile c env me dto))
  handle lists_sessions user = by_user user (λ me. done (list_sessions c env me))
  handle (revokes_session id) user = by_user user (λ me. revoke_session c env me id)
  handle deletes_account user = by_user user (λ me. request_account_deletion c env me)

  -- A request with its bearer token: the guards, then the handler.
  unfoldable pub serve : Option ℕ → Request → Action (Unit {0})
  serve sub r = admit c env (access_of r) (path_business r) sub >>= handle r

-- The database after a sequence of requests, each with its clock and its token, and each served to
-- its end before the next.
unfoldable pub serve_each : (ℕ → ℕ → Bool) → Client → List (Env × Option ℕ × Request) → Db → Db
serve_each contains c [] s = s
serve_each contains c ((env, sub, r) ∷ rs) s =
    serve_each contains c rs (serve contains c env sub r s).1
