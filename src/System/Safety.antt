-- ===== src/System/Safety.antt =====
-- Double bookings through a run of the calls of System.
use booking_platform_claude.Schema.{Booking}
use booking_platform_claude.Prelude.{◌≡◌, true, In, List, [], ◌∷◌}
use booking_platform_claude.Store.{Db, Client, Env}
use booking_platform_claude.Booking.Safety.{NoDoubleBooking}
use booking_platform_claude.Booking.Safety.History.{
  AllFollowed, AllFollowed-refl, HasFollowed-can_become, can_become,
}
use booking_platform_claude.Booking.Safety.Queries.{IsSafe}
use booking_platform_claude.Booking.Safety.Claims.{hold-IsSafe, create_recurring-IsSafe}
use booking_platform_claude.Booking.Safety.Changes.{
  confirm-IsSafe, confirm_group-IsSafe, cancel_by_user-IsSafe, cancel_by_business-IsSafe,
  update_status-IsSafe, release_expired_holds-IsSafe,
}
use booking_platform_claude.Booking.Safety.Moves.{reschedule-IsSafe}
use booking_platform_claude.Payment.Bookings.{initiate-IsSafe, topup-IsSafe, get_mine-IsSafe}
use booking_platform_claude.Payment.Callback.Bookings.{handle_callback-IsSafe, refund-IsSafe}
use booking_platform_claude.System.{
  Call, holds, creates_recurring, confirms, confirms_group, user_cancels, business_cancels,
  reschedules, sets_status, releases_holds, pays, tops_up, calls_back, views_wallet, refunds, step,
  run,
}

module _ (c : Client) where
  step-IsSafe :
      (t0 : List Booking) (env : Env) (call : Call) (s : Db)
      → IsSafe t0 s
      → IsSafe t0 (step c env call s)
  unfolding step
  step-IsSafe t0 env (holds user_id dto) s h = hold-IsSafe c env t0 user_id dto s h
  step-IsSafe t0 env (creates_recurring user_id dto) s h =
      create_recurring-IsSafe c env t0 user_id dto s h
  step-IsSafe t0 env (confirms booking_id user_id) s h =
      confirm-IsSafe c env t0 0 booking_id user_id s h
  step-IsSafe t0 env (confirms_group group_id user_id) s h =
      confirm_group-IsSafe c env t0 group_id user_id s h
  step-IsSafe t0 env (user_cancels booking_id user_id reason) s h =
      cancel_by_user-IsSafe c env t0 booking_id user_id reason s h
  step-IsSafe t0 env (business_cancels business_id booking_id reason) s h =
      cancel_by_business-IsSafe c env t0 business_id booking_id reason s h
  step-IsSafe t0 env (reschedules booking_id user_id start) s h =
      reschedule-IsSafe c env t0 booking_id user_id start s h
  step-IsSafe t0 env (sets_status business_id booking_id target) s h =
      update_status-IsSafe c env t0 business_id booking_id target s h
  step-IsSafe t0 env releases_holds s h = release_expired_holds-IsSafe c env t0 s h
  step-IsSafe t0 env (pays session user_id booking_id method) s h =
      initiate-IsSafe c env t0 session user_id booking_id method s h
  step-IsSafe t0 env (tops_up session user_id amount) s h =
      topup-IsSafe c env t0 session user_id amount s h
  step-IsSafe t0 env (calls_back verify gateway ref) s h =
      handle_callback-IsSafe c env t0 verify gateway ref s h
  step-IsSafe t0 env (views_wallet user_id) s h = get_mine-IsSafe c env t0 user_id s h
  step-IsSafe t0 env (refunds payment_id admin_id reason) s h =
      refund-IsSafe c env t0 payment_id admin_id reason s h

  run-IsSafe :
      (t0 : List Booking) (calls : List (Env × Call)) (s : Db)
      → IsSafe t0 s
      → IsSafe t0 (run c calls s)
  unfolding run
  run-IsSafe t0 [] s h = h
  run-IsSafe t0 ((env, call) ∷ calls) s h =
      run-IsSafe t0 calls (step c env call s) (step-IsSafe t0 env call s h)

  -- If the table of bookings has no double booking, it has none after any sequence of calls, each run to its
  -- end before the next begins, whatever the calls' clocks, identifiers and locks.
  pub run-NoDoubleBooking :
      (calls : List (Env × Call)) (s : Db)
      → NoDoubleBooking s.bookings
      → NoDoubleBooking (run c calls s).bookings
  unfolding IsSafe
  run-NoDoubleBooking calls s h = (run-IsSafe s.bookings calls s (h, AllFollowed-refl s.bookings)).0

  -- If the table of bookings has no double booking, then after any sequence of calls, each run to its end before the next begins, whatever the calls' clocks, identifiers and locks, each booking of the table still stands in it, with a status to which the allowed transitions lead from its old one.
  pub run-AllFollowed :
      (calls : List (Env × Call)) (s : Db)
      → NoDoubleBooking s.bookings
      → AllFollowed s.bookings (run c calls s).bookings
  unfolding IsSafe
  run-AllFollowed calls s h = (run-IsSafe s.bookings calls s (h, AllFollowed-refl s.bookings)).1

  -- if the table of bookings has no double booking, then after any sequence of calls, each run to its end before the next begins, a booking of the table still stands in it: a completed, cancelled or missed one with that status, a confirmed one neither pending nor a hold again, and a pending one not a hold again.
  pub run-can_become :
      (calls : List (Env × Call)) (s : Db) (a : Booking)
      → NoDoubleBooking s.bookings
      → In a s.bookings
      → (b : Booking) × In b (run c calls s).bookings
        × (b.id ≡ a.id)
        × (can_become a.status b.status ≡ true)
  run-can_become calls s a h i =
      HasFollowed-can_become s.bookings (run c calls s).bookings a (run-AllFollowed calls s h) i
