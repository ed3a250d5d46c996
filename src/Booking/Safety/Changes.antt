-- ===== src/Booking/Safety/Changes.antt =====
-- `confirm`, `confirmGroup`, the cancellations, `updateStatus` and `releaseExpiredHolds` keep the
-- bookings free of double bookings: they move no booking and revive none.
use booking_platform_claude.Prelude.{
  ℕ, ◌+◌, ◌-◌, ◌≡◌, subst, Bool, true, false, ◌&&◌, not, Option, some, List, [], ◌∷◌, arith, In,
  ◌==◌, opt_eq, ==_iff,
}
use booking_platform_claude.Schema.{Booking, BookingStatus, is_hold, Service}
use booking_platform_claude.Store.{Db, Client, Env}
use booking_platform_claude.Store.Holds.{bind_holds, transaction_holds}
use booking_platform_claude.Store.Action.{Action, ◌>>◌, throw, bad_request, not_found}
use booking_platform_claude.Loyalty.Frame.{earn_from_purchase-bookings}
use booking_platform_claude.Referral.Frame.{reward_if_eligible-bookings}
use booking_platform_claude.Booking.Status.{is_allowed}
use booking_platform_claude.Booking.Types.{TargetStatus, status_of}
use booking_platform_claude.Booking.Slot.{get_owned_booking, update_booking}
use booking_platform_claude.Booking.Confirm.{
  expire_hold, confirm_hold, next_status, is_expired, none_found, reward_if_confirmed,
  award_post_purchase_rewards, finish_confirm, confirm, confirm_each, confirm_group,
}
use booking_platform_claude.Booking.Cancel.{
  mark_cancelled, set_status, is_overdue, release_hold, cancel_internal, cancel_by_user,
  cancel_by_business, update_status, release_expired_holds,
}
use booking_platform_claude.Booking.Safety.Steps.{found_holds, guarded_holds, either_holds}
use booking_platform_claude.Booking.Safety.Rows.{StaysPut}
use booking_platform_claude.Booking.Safety.Queries.{
  IsSafe, IsSafe-same, update_booking-IsSafe, update_many-IsSafe,
}

expire_hold-StaysPut : (b : Booking) → is_hold b.status ≡ true → StaysPut b (expire_hold b)
expire_hold-StaysPut b held = ground arith

confirm_hold-StaysPut :
    (b : Booking) (status : BookingStatus)
    → is_hold b.status ≡ true
    → is_allowed BookingStatus.hold status ≡ true
    → StaysPut b (confirm_hold status b)
confirm_hold-StaysPut b status held allowed = ground arith

next_status_allowed :
    (service : Option Service) → is_allowed BookingStatus.hold (next_status service) ≡ true
next_status_allowed service = ground arith

mark_cancelled-StaysPut :
    (b : Booking) (now : ℕ) (reason : Option ℕ)
    → is_allowed b.status BookingStatus.cancelled ≡ true
    → StaysPut b (mark_cancelled now reason b)
mark_cancelled-StaysPut b now reason allowed = ground arith

set_status-StaysPut :
    (b : Booking) (target : TargetStatus) (now : ℕ)
    → is_allowed b.status (status_of target) ≡ true
    → StaysPut b (set_status target now b)
set_status-StaysPut b target now allowed = ground arith

release_hold-StaysPut :
    (now : ℕ) (b : Booking) → is_overdue now b ≡ true → StaysPut b (release_hold b)
release_hold-StaysPut now b overdue = ground arith

and_left : (a b : Bool) → (a && b) ≡ true → a ≡ true
and_left a b h = ground arith

not-false : (a : Bool) → not a ≡ false → a ≡ true
not-false a h = ground arith

module _ (c : Client) (env : Env) where
  pub award_post_purchase_rewards-bookings :
      (k user_id amount : ℕ) (s : Db)
      → (award_post_purchase_rewards c env k user_id amount s).1.bookings ≡ s.bookings
  unfolding award_post_purchase_rewards
  award_post_purchase_rewards-bookings k user_id amount s =
      grind (arith, earn_from_purchase-bookings, reward_if_eligible-bookings)

  reward_if_confirmed-IsSafe :
      (t0 : List Booking) (status : BookingStatus) (rewards : Action (Unit {0})) (s : Db)
      → IsSafe t0 s
      → IsSafe t0 (rewards s).1
      → IsSafe t0 (reward_if_confirmed status rewards s).1
  reward_if_confirmed-IsSafe t0 BookingStatus.confirmed rewards s h k = k
  reward_if_confirmed-IsSafe t0 _ rewards s h k = h

  finish_confirm-IsSafe :
      (t0 : List Booking) (k user_id : ℕ) (b : Booking) (status : BookingStatus) (s : Db)
      → In b s.bookings
      → is_hold b.status ≡ true
      → is_allowed BookingStatus.hold status ≡ true
      → IsSafe t0 s
      → IsSafe t0 (finish_confirm c env k user_id b status s).1
  unfolding finish_confirm
  finish_confirm-IsSafe t0 k user_id b status s i held allowed h =
      let rewards =
        award_post_purchase_rewards c env k user_id (b.price_snapshot - b.discount_amount) in
      bind_holds (IsSafe t0) (update_booking c b.id (confirm_hold status)) _ s
        (update_booking-IsSafe c t0 b (confirm_hold status) s i
          (confirm_hold-StaysPut b status held allowed) h)
        λ updated t _ ht.
          bind_holds (IsSafe t0) (reward_if_confirmed status rewards) _ t
            (reward_if_confirmed-IsSafe t0 status rewards t ht (
              IsSafe-same t0 t _
                (award_post_purchase_rewards-bookings k user_id
                  (b.price_snapshot - b.discount_amount) t)
                ht))
            λ _ x _ hx. hx

  expire_hold-IsSafe :
      (t0 : List Booking) (b : Booking) (booking_id : ℕ) (s : Db)
      → In b s.bookings
      → (b.id == booking_id) ≡ true
      → is_hold b.status ≡ true
      → IsSafe t0 s
      → IsSafe t0 (update_booking c booking_id expire_hold s).1
  expire_hold-IsSafe t0 b booking_id s i e held h =
      let same : b.id ≡ booking_id = ground arith in
      subst (λ (n : ℕ). IsSafe t0 (update_booking c n expire_hold s).1) same
        (update_booking-IsSafe c t0 b expire_hold s i (expire_hold-StaysPut b held) h)

  -- A confirmation, also one that comes too late and cancels the hold.
  pub confirm-IsSafe :
      (t0 : List Booking) (k booking_id user_id : ℕ) (s : Db)
      → IsSafe t0 s
      → IsSafe t0 (confirm c env k booking_id user_id s).1
  unfolding confirm get_owned_booking
  confirm-IsSafe t0 k booking_id user_id s h =
      found_holds t0 c (λ b. b.id == booking_id && b.user_id == user_id) _ s h
        λ b i e. guarded_holds t0 bad_request (not (is_hold b.status)) _ s h λ held.
          either_holds t0 (is_expired b.hold_expires_at env.now)
            (update_booking c booking_id expire_hold >> throw bad_request) _ s
            (bind_holds (IsSafe t0) (update_booking c booking_id expire_hold) _ s
              (expire_hold-IsSafe t0 b booking_id s i (and_left _ (b.user_id == user_id) e)
                (not-false _ held) h)
              λ _ t _ ht. ht)
            (let status =
                next_status (c.service.find_first (λ v. v.id == b.service_id) s.services) in
              transaction_holds (IsSafe t0) c (finish_confirm c env k user_id b status) s h (
                finish_confirm-IsSafe t0 k user_id b status s i (not-false _ held)
                  (next_status_allowed
                    (c.service.find_first (λ v. v.id == b.service_id) s.services))
                  h))

  confirm_each-IsSafe :
      (t0 : List Booking) (k user_id : ℕ) (bs : List Booking) (s : Db)
      → IsSafe t0 s
      → IsSafe t0 (confirm_each c env k user_id bs s).1
  unfolding confirm_each
  confirm_each-IsSafe t0 k user_id [] s h = h
  confirm_each-IsSafe t0 k user_id (b ∷ bs) s h =
      bind_holds (IsSafe t0) (confirm c env k b.id user_id) _ s
        (confirm-IsSafe t0 k b.id user_id s h)
        λ first t _ ht.
          bind_holds (IsSafe t0) (confirm_each c env (k + 6) user_id bs) _ t
            (confirm_each-IsSafe t0 (k + 6) user_id bs t ht) λ _ x _ hx. hx

  pub confirm_group-IsSafe :
      (t0 : List Booking) (group_id user_id : ℕ) (s : Db)
      → IsSafe t0 s
      → IsSafe t0 (confirm_group c env group_id user_id s).1
  unfolding confirm_group
  confirm_group-IsSafe t0 group_id user_id s h =
      let bs =
        c.booking.find_many
          (λ b. opt_eq b.recurring_group_id (some group_id) && b.user_id == user_id) s.bookings in
      guarded_holds t0 not_found (none_found bs) _ s h λ _. confirm_each-IsSafe t0 0 user_id bs s h

  cancel_internal-IsSafe :
      (t0 : List Booking) (b : Booking) (reason : Option ℕ) (by_user : Bool) (s : Db)
      → In b s.bookings
      → IsSafe t0 s
      → IsSafe t0 (cancel_internal c env b reason by_user s).1
  unfolding cancel_internal
  cancel_internal-IsSafe t0 b reason by_user s i h =
      guarded_holds t0 bad_request (not (is_allowed b.status BookingStatus.cancelled)) _ s h
        λ allowed.
          bind_holds (IsSafe t0) (update_booking c b.id (mark_cancelled env.now reason)) _ s
            (update_booking-IsSafe c t0 b (mark_cancelled env.now reason) s i
              (mark_cancelled-StaysPut b env.now reason (not-false _ allowed)) h)
            λ _ x _ hx. hx

  pub cancel_by_user-IsSafe :
      (t0 : List Booking) (booking_id user_id : ℕ) (reason : Option ℕ) (s : Db)
      → IsSafe t0 s
      → IsSafe t0 (cancel_by_user c env booking_id user_id reason s).1
  unfolding cancel_by_user get_owned_booking
  cancel_by_user-IsSafe t0 booking_id user_id reason s h =
      found_holds t0 c (λ b. b.id == booking_id && b.user_id == user_id) _ s h
        λ b i _. cancel_internal-IsSafe t0 b reason true s i h

  pub cancel_by_business-IsSafe :
      (t0 : List Booking) (business_id booking_id : ℕ) (reason : Option ℕ) (s : Db)
      → IsSafe t0 s
      → IsSafe t0 (cancel_by_business c env business_id booking_id reason s).1
  unfolding cancel_by_business
  cancel_by_business-IsSafe t0 business_id booking_id reason s h =
      found_holds t0 c (λ b. b.id == booking_id && b.business_id == business_id) _ s h
        λ b i _. cancel_internal-IsSafe t0 b reason false s i h

  -- A change of status by the business, within the table of transitions.
  pub update_status-IsSafe :
      (t0 : List Booking) (business_id booking_id : ℕ) (target : TargetStatus) (s : Db)
      → IsSafe t0 s
      → IsSafe t0 (update_status c env business_id booking_id target s).1
  unfolding update_status
  update_status-IsSafe t0 business_id booking_id target s h =
      found_holds t0 c (λ b. b.id == booking_id && b.business_id == business_id) _ s h
        λ b i e.
          guarded_holds t0 bad_request (not (is_allowed b.status (status_of target))) _ s h
            λ allowed.
              let same : b.id ≡ booking_id =
                (==_iff b.id booking_id).0 (and_left _ (b.business_id == business_id) e) in
              subst (λ (n : ℕ). IsSafe t0 (update_booking c n (set_status target env.now) s).1) same
                (update_booking-IsSafe c t0 b (set_status target env.now) s i
                  (set_status-StaysPut b target env.now (not-false _ allowed)) h)

  -- The cron job.
  pub release_expired_holds-IsSafe :
      (t0 : List Booking) (s : Db) → IsSafe t0 s → IsSafe t0 (release_expired_holds c env s).1
  unfolding release_expired_holds
  release_expired_holds-IsSafe t0 s h =
      update_many-IsSafe c t0 (is_overdue env.now) release_hold s (release_hold-StaysPut env.now) h
