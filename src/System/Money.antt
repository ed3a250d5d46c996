-- ===== src/System/Money.antt =====
-- `hold`, `createRecurring` and `confirm` leave the wallets and their lines alone.
use booking_platform_claude.Prelude.{
  ℕ, ◌+◌, ◌-◌, refl, ◌&&◌, not, none, some, List, [], ◌∷◌, ◌==◌, opt_eq,
}
use booking_platform_claude.Schema.{Booking, BookingStatus, Business, Service, is_hold}
use booking_platform_claude.Store.{Db, Client, Env, LockOutcome}
use booking_platform_claude.Store.Action.{Action, throw, bad_request, not_found, transaction, ◌>>◌}
use booking_platform_claude.Store.Holds.{
  bind_holds, transaction_holds, or_throw_holds, throw_if_holds, choice_holds,
}
use booking_platform_claude.Booking.Types.{HoldBookingDto, CreateRecurringBookingDto, end_of}
use booking_platform_claude.Booking.Slot.{
  load_and_validate_context, assert_slot_free, create_booking, update_booking, find_booking,
  get_owned_booking,
}
use booking_platform_claude.Booking.Hold.{
  with_lock, claim_slot, hold, held_booking, redeem_if_given, link_if_redeemed, discount_taken,
}
use booking_platform_claude.Booking.Recurring.{
  create_each, create_recurring, recurring_booking, starts_from,
}
use booking_platform_claude.Booking.Confirm.{
  confirm, confirm_each, confirm_group, finish_confirm, reward_if_confirmed,
  award_post_purchase_rewards, confirm_hold, expire_hold, is_expired, next_status, none_found,
}
use booking_platform_claude.Payment.Ledger.Frames.{
  SameMoney, SameMoney-trans, update_booking-SameMoney, award-SameMoney,
}
use booking_platform_claude.System.Frames.{
  redeem-SameMoney, create_booking-SameMoney, context-SameMoney, free-SameMoney, link-SameMoney,
}

pub unmoved : {s : Db} → SameMoney s s
unmoved = record { wallets = refl; lines = refl }

module _ (c : Client) (env : Env) where
  claim_slot-SameMoney :
      (user_id : ℕ) (dto : HoldBookingDto) (business : Business) (service : Service) (s : Db)
      → SameMoney s (claim_slot c env user_id dto business service s).1
  unfolding claim_slot
  claim_slot-SameMoney user_id dto business service s =
      bind_holds (SameMoney s)
        (assert_slot_free c dto.branch_id dto.staff_member_id dto.start_time
          (end_of service dto.start_time) none)
        _ s
        (free-SameMoney c env dto.branch_id dto.staff_member_id dto.start_time
          (end_of service dto.start_time) none s)
        λ _ t _ ht.
          bind_holds (SameMoney s)
            (redeem_if_given c env user_id dto.coupon_code dto.business_id service.price) _ t
            (SameMoney-trans ht
              (redeem-SameMoney c env user_id dto.coupon_code dto.business_id service.price t))
            λ r u _ hu.
              bind_holds (SameMoney s)
                (create_booking c
                  (held_booking c env user_id dto business service (discount_taken r)))
                _ u
                (SameMoney-trans hu (
                  create_booking-SameMoney c env
                    (held_booking c env user_id dto business service (discount_taken r)) u))
                λ b v _ hv.
                  bind_holds (SameMoney s) (link_if_redeemed c env user_id b.id r) _ v
                    (SameMoney-trans hv (link-SameMoney c env user_id b.id r v)) λ _ w _ hw. hw

  pub locked-SameMoney :
      (lock : LockOutcome) (m : Action Booking) (s t : Db)
      → SameMoney s t
      → SameMoney t (m t).1
      → SameMoney s (with_lock lock (transaction c m) t).1
  locked-SameMoney LockOutcome.unreachable m s t h k = h
  locked-SameMoney LockOutcome.taken m s t h k = h
  locked-SameMoney LockOutcome.released m s t h k =
      transaction_holds (SameMoney s) c m t h (SameMoney-trans h k)
  locked-SameMoney LockOutcome.unreleased m s t h k =
      transaction_holds (SameMoney s) c m t h (SameMoney-trans h k)

  pub hold-SameMoney :
      (user_id : ℕ) (dto : HoldBookingDto) (s : Db) → SameMoney s (hold c env user_id dto s).1
  unfolding hold
  hold-SameMoney user_id dto s =
      bind_holds (SameMoney s)
        (load_and_validate_context c dto.business_id dto.branch_id dto.service_id
          dto.staff_member_id)
        _ s
        (context-SameMoney c env dto.business_id dto.branch_id dto.service_id dto.staff_member_id s)
        λ found t _ ht.
          locked-SameMoney env.lock (claim_slot c env user_id dto found.0 found.1) s t ht
            (claim_slot-SameMoney user_id dto found.0 found.1 t)

  create_each-SameMoney :
      (user_id : ℕ) (dto : CreateRecurringBookingDto) (business : Business) (service : Service)
      (k : ℕ) (times : List ℕ) (s : Db)
      → SameMoney s (create_each c env user_id dto business service k times s).1
  unfolding create_each
  create_each-SameMoney user_id dto business service k [] s = unmoved
  create_each-SameMoney user_id dto business service k (start ∷ starts) s =
      bind_holds (SameMoney s)
        (assert_slot_free c dto.branch_id dto.staff_member_id start (end_of service start) none) _ s
        (free-SameMoney c env dto.branch_id dto.staff_member_id start (end_of service start) none s)
        λ _ t _ ht.
          bind_holds (SameMoney s)
            (create_booking c
              (recurring_booking c env user_id dto business service (env.uuid k) start))
            _ t
            (SameMoney-trans ht (
              create_booking-SameMoney c env
                (recurring_booking c env user_id dto business service (env.uuid k) start) t))
            λ b u _ hu.
              bind_holds (SameMoney s)
                (create_each c env user_id dto business service (k + 1) starts) _ u
                (SameMoney-trans hu
                  (create_each-SameMoney user_id dto business service (k + 1) starts u))
                λ _ v _ hv. hv

  pub create_recurring-SameMoney :
      (user_id : ℕ) (dto : CreateRecurringBookingDto) (s : Db)
      → SameMoney s (create_recurring c env user_id dto s).1
  unfolding create_recurring
  create_recurring-SameMoney user_id dto s =
      bind_holds (SameMoney s)
        (load_and_validate_context c dto.business_id dto.branch_id dto.service_id
          dto.staff_member_id)
        _ s
        (context-SameMoney c env dto.business_id dto.branch_id dto.service_id dto.staff_member_id s)
        λ found t _ ht.
          let times = starts_from dto.start_time 0 dto.occurrences in
          transaction_holds (SameMoney s) c (create_each c env user_id dto found.0 found.1 1 times)
            t ht (SameMoney-trans ht (create_each-SameMoney user_id dto found.0 found.1 1 times t))

  rewarded-SameMoney :
      (status : BookingStatus) (rewards : Action (Unit {0})) (s : Db)
      → SameMoney s (rewards s).1
      → SameMoney s (reward_if_confirmed status rewards s).1
  rewarded-SameMoney BookingStatus.confirmed rewards s h = h
  rewarded-SameMoney _ rewards s h = unmoved

  finish_confirm-SameMoney :
      (k user_id : ℕ) (b : Booking) (status : BookingStatus) (s : Db)
      → SameMoney s (finish_confirm c env k user_id b status s).1
  unfolding finish_confirm
  finish_confirm-SameMoney k user_id b status s =
      let rewards =
        award_post_purchase_rewards c env k user_id (b.price_snapshot - b.discount_amount) in
      bind_holds (SameMoney s) (update_booking c b.id (confirm_hold status)) _ s
        (update_booking-SameMoney c env b.id (confirm_hold status) s)
        λ _ t _ ht.
          bind_holds (SameMoney s) (reward_if_confirmed status rewards) _ t
            (SameMoney-trans ht (
              rewarded-SameMoney status rewards t
                (award-SameMoney c env k user_id (b.price_snapshot - b.discount_amount) t)))
            λ _ u _ hu. hu

  pub confirm-SameMoney :
      (k booking_id user_id : ℕ) (s : Db) → SameMoney s (confirm c env k booking_id user_id s).1
  unfolding confirm get_owned_booking find_booking
  confirm-SameMoney k booking_id user_id s =
      or_throw_holds (SameMoney s) not_found
        (c.booking.find_first (λ b. b.id == booking_id && b.user_id == user_id) s.bookings) _ s
        unmoved
        λ b _. throw_if_holds (SameMoney s) (not (is_hold b.status)) bad_request _ s unmoved λ _.
          let status = next_status (c.service.find_first (λ v. v.id == b.service_id) s.services) in
          choice_holds (SameMoney s) (is_expired b.hold_expires_at env.now)
            (update_booking c booking_id expire_hold >> throw bad_request) _ s
            (bind_holds (SameMoney s) (update_booking c booking_id expire_hold) _ s
              (update_booking-SameMoney c env booking_id expire_hold s) λ _ t _ ht. ht)
            (transaction_holds (SameMoney s) c (finish_confirm c env k user_id b status) s unmoved
              (finish_confirm-SameMoney k user_id b status s))

  confirm_each-SameMoney :
      (k user_id : ℕ) (bs : List Booking) (s : Db)
      → SameMoney s (confirm_each c env k user_id bs s).1
  unfolding confirm_each
  confirm_each-SameMoney k user_id [] s = unmoved
  confirm_each-SameMoney k user_id (b ∷ bs) s =
      bind_holds (SameMoney s) (confirm c env k b.id user_id) _ s
        (confirm-SameMoney k b.id user_id s)
        λ _ t _ ht.
          bind_holds (SameMoney s) (confirm_each c env (k + 6) user_id bs) _ t
            (SameMoney-trans ht (confirm_each-SameMoney (k + 6) user_id bs t)) λ _ u _ hu. hu

  pub confirm_group-SameMoney :
      (group_id user_id : ℕ) (s : Db) → SameMoney s (confirm_group c env group_id user_id s).1
  unfolding confirm_group
  confirm_group-SameMoney group_id user_id s =
      let bs =
        c.booking.find_many
          (λ b. opt_eq b.recurring_group_id (some group_id) && b.user_id == user_id) s.bookings in
      throw_if_holds (SameMoney s) (none_found bs) not_found _ s unmoved
        λ _. confirm_each-SameMoney 0 user_id bs s
