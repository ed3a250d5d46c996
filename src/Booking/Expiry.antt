-- ===== src/Booking/Expiry.antt =====
-- Holds that ran out: `confirm` and `releaseExpiredHolds`.
use booking_platform_claude.Prelude.{
  ℕ, ◌≡◌, refl, ◌∙◌, ap, Bool, false, Option, some, ltb, List, [], ◌∷◌, arith, length, keep, any,
  update_where,
}
use booking_platform_claude.Schema.{Booking, BookingStatus, CancelReason}
use booking_platform_claude.Store.{Db, Client, Env}
use booking_platform_claude.Store.Action.{ok}
use booking_platform_claude.Booking.Cancel.{is_overdue, release_hold, release_expired_holds}

-- A hold whose time is over.
abbrev pub ran_out : ℕ → BookingStatus → Option ℕ → Bool
ran_out now BookingStatus.hold (some until) = ltb until now
ran_out now _ _ = false

abbrev pub has_run_out : ℕ → Booking → Bool
has_run_out now b = ran_out now b.status b.hold_expires_at

-- The row of a hold that is given up, with the reason.
abbrev pub given_up : CancelReason → Booking → Booking
given_up reason b = record b { status = BookingStatus.cancelled; cancel_reason = some reason }

is_overdue-has_run_out : (now : ℕ) (b : Booking) → is_overdue now b ≡ has_run_out now b
is_overdue-has_run_out now b = ground arith

released_rows :
    (now : ℕ) (t : List Booking)
    → update_where (is_overdue now) release_hold t
      ≡ update_where (has_run_out now) (given_up CancelReason.auto_expired) t
released_rows now [] = refl
released_rows now (b ∷ bs) = ground (arith, released_rows now bs, is_overdue-has_run_out now b)

overdue_rows : (now : ℕ) (t : List Booking) → keep (is_overdue now) t ≡ keep (has_run_out now) t
overdue_rows now [] = refl
overdue_rows now (b ∷ bs) = ground (arith, overdue_rows now bs, is_overdue-has_run_out now b)

none_overdue :
    (now : ℕ) (t : List Booking)
    → any (has_run_out now) (update_where (has_run_out now) (given_up CancelReason.auto_expired) t)
      ≡ false
none_overdue now [] = refl
none_overdue now (b ∷ bs) = ground (arith, none_overdue now bs)

-- The cleanup job returns the number of holds whose time is over, gives exactly those the status cancelled and the reason that they expired, leaves the other rows, and afterwards there are none.
pub release_expired_holds-clears :
    (c : Client) (env : Env) (s : Db)
    → ((release_expired_holds c env s).0 ≡ ok (length (keep (has_run_out env.now) s.bookings)))
      × ((release_expired_holds c env s).1.bookings
          ≡ update_where (has_run_out env.now) (given_up CancelReason.auto_expired) s.bookings)
      × (any (has_run_out env.now) (release_expired_holds c env s).1.bookings ≡ false)
unfolding release_expired_holds
release_expired_holds-clears c env s =
    let found = c.booking.find_many_lem (is_overdue env.now) s.bookings in
    let rows =
      c.booking.update_many_lem (is_overdue env.now) release_hold s.bookings
      ∙ released_rows env.now s.bookings in
    (
      ap (λ z. ok (length z)) (found ∙ overdue_rows env.now s.bookings),
      rows,
      ap (any (has_run_out env.now)) rows ∙ none_overdue env.now s.bookings,
    )
