-- ===== src/Booking/Confirm.antt =====
-- `confirm`, `confirmGroup` and `awardPostPurchaseRewards` of booking.service.ts.
use booking_platform_claude.Prelude.{
  ℕ, ◌+◌, ◌-◌, Bool, true, false, ◌&&◌, not, Option, none, some, List, [], ◌∷◌, ltb, ◌==◌, opt_eq,
  if◌then◌else◌,
}
use booking_platform_claude.Schema.{
  Booking, BookingStatus, is_hold, Service, CancelReason, booking_purchase,
}
use booking_platform_claude.Store.{Client, Env}
use booking_platform_claude.Store.Action.{
  Action, bad_request, not_found, pure, throw, gets, throw_if, ◌>>=◌, ◌>>◌, transaction,
}
use booking_platform_claude.Loyalty.{earn_from_purchase}
use booking_platform_claude.Referral.{reward_if_eligible}
use booking_platform_claude.Booking.Slot.{get_owned_booking, update_booking}

-- `!booking.holdExpiresAt || booking.holdExpiresAt < new Date()`
abbrev pub is_expired : Option ℕ → ℕ → Bool
is_expired none now = true
is_expired (some t) now = ltb t now

-- `service?.requiresDeposit`
abbrev pub wants_deposit : Option Service → Bool
wants_deposit none = false
wants_deposit (some service) = service.requires_deposit

abbrev pub next_status : Option Service → BookingStatus
next_status service =
    if wants_deposit service then BookingStatus.pending else BookingStatus.confirmed

abbrev pub expire_hold : Booking → Booking
expire_hold b = record b {
  status = BookingStatus.cancelled;
  cancel_reason = some CancelReason.confirm_expired;
}

abbrev pub confirm_hold : BookingStatus → Booking → Booking
confirm_hold status b = record b { status = status; hold_expires_at = none }

-- `if (nextStatus === 'CONFIRMED')`
abbrev pub reward_if_confirmed : BookingStatus → Action (Unit {0}) → Action (Unit {0})
reward_if_confirmed BookingStatus.confirmed rewards = rewards
reward_if_confirmed _ rewards = pure tt

abbrev pub none_found : List Booking → Bool
none_found [] = true
none_found (b ∷ bs) = false

module _ (c : Client) (env : Env) where
  -- `awardPostPurchaseRewards`, with six new identifiers from the `k`-th on
  unfoldable pub award_post_purchase_rewards : ℕ → ℕ → ℕ → Action (Unit {0})
  award_post_purchase_rewards k user_id amount = do
    earn_from_purchase c env k user_id amount booking_purchase none
    reward_if_eligible c env (k + 2) user_id

  -- The callback of the transaction in `confirm`.
  unfoldable pub finish_confirm : ℕ → ℕ → Booking → BookingStatus → Action Booking
  finish_confirm k user_id booking status = do
    updated ← update_booking c booking.id (confirm_hold status)
    reward_if_confirmed status
        (award_post_purchase_rewards k user_id (booking.price_snapshot - booking.discount_amount))
    pure updated

  -- `confirm`. An overdue hold is cancelled before the exception, and stays cancelled.
  unfoldable pub confirm : ℕ → ℕ → ℕ → Action Booking
  confirm k booking_id user_id = do
    booking ← get_owned_booking c booking_id user_id
    throw_if (not (is_hold booking.status)) bad_request
    if is_expired booking.hold_expires_at env.now
        then update_booking c booking_id expire_hold >> throw bad_request
        else (do
          service ← gets (λ s. c.service.find_first (λ v. v.id == booking.service_id) s.services)
          transaction c (finish_confirm k user_id booking (next_status service)))

  -- The loop of `confirmGroup`: each confirmation stands by itself.
  unfoldable pub confirm_each : ℕ → ℕ → List Booking → Action (List Booking)
  confirm_each k user_id [] = pure []
  confirm_each k user_id (b ∷ bs) = do
    first ← confirm k b.id user_id
    others ← confirm_each (k + 6) user_id bs
    pure (first ∷ others)

  -- `confirmGroup`
  unfoldable pub confirm_group : ℕ → ℕ → Action (List Booking)
  confirm_group group_id user_id = do
    bookings ← gets (λ s.
        c.booking.find_many
          (λ b. opt_eq b.recurring_group_id (some group_id) && b.user_id == user_id) s.bookings)
    throw_if (none_found bookings) not_found
    confirm_each 0 user_id bookings
