-- ===== src/System/Ledger.antt =====
-- The wallets and their lines through a run of the calls of System.
use booking_platform_claude.Prelude.{ℕ, sym, subst, ◌&&◌, not, some, List, [], ◌∷◌, ◌==◌, any}
use booking_platform_claude.Schema.{Booking}
use booking_platform_claude.Store.{Db, Client, Env}
use booking_platform_claude.Store.Action.{bad_request, not_found, conflict, record_not_found}
use booking_platform_claude.Store.Holds.{bind_holds, or_throw_holds, throw_if_holds}
use booking_platform_claude.Availability.{FreeSlot, is_active, get_free_slots}
use booking_platform_claude.Booking.Types.{end_of}
use booking_platform_claude.Booking.Slot.{assert_slot_free, find_booking, get_owned_booking}
use booking_platform_claude.Booking.Reschedule.{reschedule, move_booking, move_to, slot_query}
use booking_platform_claude.Booking.Safety.Moves.{get_free_slots-reads}
use booking_platform_claude.Payment.Ledger.{LedgerHolds}
use booking_platform_claude.Payment.Ledger.Frames.{
  SameMoney, SameMoney-trans, update_booking-SameMoney,
}
use booking_platform_claude.Payment.Ledger.Methods.{
  SameMoney-LedgerHolds, refund-LedgerHolds, get_mine-LedgerHolds,
}
use booking_platform_claude.Payment.Ledger.Deposits.{handle_callback-LedgerHolds}
use booking_platform_claude.Payment.Ledger.Spending.{initiate-LedgerHolds, topup-LedgerHolds}
use booking_platform_claude.System.Frames.{
  free-SameMoney, cancel_by_user-SameMoney, cancel_by_business-SameMoney, update_status-SameMoney,
  release-SameMoney,
}
use booking_platform_claude.System.Money.{
  unmoved, locked-SameMoney, hold-SameMoney, create_recurring-SameMoney, confirm-SameMoney,
  confirm_group-SameMoney,
}
use booking_platform_claude.System.{
  Call, holds, creates_recurring, confirms, confirms_group, user_cancels, business_cancels,
  reschedules, sets_status, releases_holds, pays, tops_up, calls_back, views_wallet, refunds, step,
  run,
}

module _ (c : Client) (env : Env) where
  move-SameMoney :
      (b : Booking) (start end : ℕ) (s : Db) → SameMoney s (move_booking c env b start end s).1
  unfolding move_booking
  move-SameMoney b start end s =
      bind_holds (SameMoney s)
        (assert_slot_free c b.branch_id b.staff_member_id start end (some b.id)) _ s
        (free-SameMoney c env b.branch_id b.staff_member_id start end (some b.id) s)
        λ _ t _ ht. SameMoney-trans ht (update_booking-SameMoney c env b.id (move_to start end) t)

  reschedule-SameMoney :
      (booking_id user_id new_start : ℕ) (s : Db)
      → SameMoney s (reschedule c env booking_id user_id new_start s).1
  unfolding reschedule get_owned_booking find_booking
  reschedule-SameMoney booking_id user_id new_start s =
      or_throw_holds (SameMoney s) not_found
        (c.booking.find_first (λ b. b.id == booking_id && b.user_id == user_id) s.bookings) _ s
        unmoved
        λ b _. throw_if_holds (SameMoney s) (not (is_active b.status)) bad_request _ s unmoved λ _.
          or_throw_holds (SameMoney s) record_not_found
            (c.service.find_first (λ v. v.id == b.service_id) s.services) _ s unmoved
            λ service _.
              bind_holds (SameMoney s) (get_free_slots c env b.business_id (slot_query b new_start))
                _ s
                (subst (SameMoney s)
                  (sym (get_free_slots-reads c env b.business_id (slot_query b new_start) s))
                  unmoved)
                λ slots t _ ht.
                  throw_if_holds (SameMoney s)
                    (not (any (λ (f : FreeSlot). f.start_time == new_start) slots)) conflict _ t ht
                    λ _.
                      locked-SameMoney c env env.lock
                        (move_booking c env b new_start (end_of service new_start)) s t ht
                        (move-SameMoney b new_start (end_of service new_start) t)

module _ (c : Client) where
  step-LedgerHolds :
      (env : Env) (call : Call) (s : Db) → LedgerHolds s → LedgerHolds (step c env call s)
  unfolding step
  step-LedgerHolds env (holds user_id dto) s h =
      SameMoney-LedgerHolds c env (hold-SameMoney c env user_id dto s) h
  step-LedgerHolds env (creates_recurring user_id dto) s h =
      SameMoney-LedgerHolds c env (create_recurring-SameMoney c env user_id dto s) h
  step-LedgerHolds env (confirms booking_id user_id) s h =
      SameMoney-LedgerHolds c env (confirm-SameMoney c env 0 booking_id user_id s) h
  step-LedgerHolds env (confirms_group group_id user_id) s h =
      SameMoney-LedgerHolds c env (confirm_group-SameMoney c env group_id user_id s) h
  step-LedgerHolds env (user_cancels booking_id user_id reason) s h =
      SameMoney-LedgerHolds c env (cancel_by_user-SameMoney c env booking_id user_id reason s) h
  step-LedgerHolds env (business_cancels business_id booking_id reason) s h =
      SameMoney-LedgerHolds c env
        (cancel_by_business-SameMoney c env business_id booking_id reason s) h
  step-LedgerHolds env (reschedules booking_id user_id start) s h =
      SameMoney-LedgerHolds c env (reschedule-SameMoney c env booking_id user_id start s) h
  step-LedgerHolds env (sets_status business_id booking_id target) s h =
      SameMoney-LedgerHolds c env (update_status-SameMoney c env business_id booking_id target s) h
  step-LedgerHolds env releases_holds s h =
      SameMoney-LedgerHolds c env (release-SameMoney c env s) h
  step-LedgerHolds env (pays session user_id booking_id method) s h =
      initiate-LedgerHolds c env session user_id booking_id method s h
  step-LedgerHolds env (tops_up session user_id amount) s h =
      topup-LedgerHolds c env session user_id amount s h
  step-LedgerHolds env (calls_back verify gateway ref) s h =
      handle_callback-LedgerHolds c env verify gateway ref s h
  step-LedgerHolds env (views_wallet user_id) s h = get_mine-LedgerHolds c env user_id s h
  step-LedgerHolds env (refunds payment_id admin_id reason) s h =
      refund-LedgerHolds c env payment_id admin_id reason s h

  -- If the wallets have different identifiers and users, each balance is the sum of the wallet's lines and each line is of a
  -- wallet of the table, then the same holds after any sequence of calls, each run to its end before the next
  -- begins, whatever the calls' clocks, identifiers and locks and whatever the gateway answers.
  pub run-LedgerHolds :
      (calls : List (Env × Call)) (s : Db) → LedgerHolds s → LedgerHolds (run c calls s)
  unfolding run
  run-LedgerHolds [] s h = h
  run-LedgerHolds ((env, call) ∷ calls) s h =
      run-LedgerHolds calls (step c env call s) (step-LedgerHolds env call s h)
