-- ===== src/System.antt =====
-- The calls that reach the booking table or the wallets, from the controllers, the gateway's callback and the cron job, and
-- a run of the backend: any sequence of them, each with its own clock, identifiers and lock.
pub mod Safety
pub mod Frames
pub mod Money
pub mod Ledger
use booking_platform_claude.Prelude.{ℕ, Bool, Option, List, [], ◌∷◌}
use booking_platform_claude.Schema.{Gateway}
use booking_platform_claude.Store.{Db, Client, Env}
use booking_platform_claude.Booking.Types.{HoldBookingDto, CreateRecurringBookingDto, TargetStatus}
use booking_platform_claude.Booking.Hold.{hold}
use booking_platform_claude.Booking.Confirm.{confirm, confirm_group}
use booking_platform_claude.Booking.Cancel.{
  cancel_by_user, cancel_by_business, update_status, release_expired_holds,
}
use booking_platform_claude.Booking.Reschedule.{reschedule}
use booking_platform_claude.Booking.Recurring.{create_recurring}
use booking_platform_claude.Payment.{Method, initiate, topup, get_mine}
use booking_platform_claude.Payment.MockGateway.{VerifyResult}
use booking_platform_claude.Payment.Callback.{handle_callback, refund}

-- The identifiers of users, bookings, businesses and payments are numbers; a call of a gateway comes with
-- what the gateway answers.
pub data Call : Type 0 where
  holds : ℕ → HoldBookingDto → Call
  creates_recurring : ℕ → CreateRecurringBookingDto → Call
  confirms : ℕ → ℕ → Call
  confirms_group : ℕ → ℕ → Call
  user_cancels : ℕ → ℕ → Option ℕ → Call
  business_cancels : ℕ → ℕ → Option ℕ → Call
  reschedules : ℕ → ℕ → ℕ → Call
  sets_status : ℕ → ℕ → TargetStatus → Call
  releases_holds : Call
  pays : (ℕ → ℕ → ℕ) → ℕ → ℕ → Method → Call
  tops_up : (ℕ → ℕ → ℕ) → ℕ → ℕ → Call
  calls_back : (Option ℕ → ℕ → VerifyResult) → Gateway → Option ℕ → Call
  views_wallet : ℕ → Call
  refunds : ℕ → ℕ → ℕ → Call

module _ (c : Client) where
  -- The database after a call, whether it returned or threw.
  unfoldable pub step : Env → Call → Db → Db
  step env (holds user_id dto) s = (hold c env user_id dto s).1
  step env (creates_recurring user_id dto) s = (create_recurring c env user_id dto s).1
  step env (confirms booking_id user_id) s = (confirm c env 0 booking_id user_id s).1
  step env (confirms_group group_id user_id) s = (confirm_group c env group_id user_id s).1
  step env (user_cancels booking_id user_id reason) s =
      (cancel_by_user c env booking_id user_id reason s).1
  step env (business_cancels business_id booking_id reason) s =
      (cancel_by_business c env business_id booking_id reason s).1
  step env (reschedules booking_id user_id start) s =
      (reschedule c env booking_id user_id start s).1
  step env (sets_status business_id booking_id target) s =
      (update_status c env business_id booking_id target s).1
  step env releases_holds s = (release_expired_holds c env s).1
  step env (pays session user_id booking_id method) s =
      (initiate c env session user_id booking_id method s).1
  step env (tops_up session user_id amount) s = (topup c env session user_id amount s).1
  step env (calls_back verify gateway ref) s = (handle_callback c env verify gateway ref s).1
  step env (views_wallet user_id) s = (get_mine c env user_id s).1
  step env (refunds payment_id admin_id reason) s = (refund c env payment_id admin_id reason s).1

  unfoldable pub run : List (Env × Call) → Db → Db
  run [] s = s
  run ((env, call) ∷ calls) s = run calls (step env call s)
