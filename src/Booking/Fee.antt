-- ===== src/Booking/Fee.antt =====
-- The result of `cancelByUser` and of `cancelByBusiness`.
use booking_platform_claude.Prelude.{
  ℕ, ◌+◌, ◌*◌, ◌<◌, ◌≡◌, refl, ◌↔◌, subst, Bool, true, ◌&&◌, Option, none, some, ◌==◌, ==_iff, In,
  update_where, arith, Option-cases, inl, inr, if◌then◌else◌,
}
use booking_platform_claude.Schema.{Booking, BookingStatus, CancelReason}
use booking_platform_claude.Store.{Db, Client, Env}
use booking_platform_claude.Store.Action.{ok}
use booking_platform_claude.Store.Found.{update-rows}
use booking_platform_claude.Availability.{is_active}
use booking_platform_claude.Booking.Slot.{update_booking, find_booking, get_owned_booking}
use booking_platform_claude.Booking.Cancel.{
  Cancellation, mark_cancelled, cancel_internal, cancel_by_user,
}

-- The user is late: fewer hours are left before the start than the policy gives for free.
abbrev pub IsLate : ℕ → Booking → Type 0
IsLate now b = b.start_time < now + b.cancellation_policy_snapshot.free_cancel_hours * 3600000

-- The row of a cancelled booking: its new status, the time, and the reason if one was given.
abbrev pub cancelled_row : ℕ → Option ℕ → Booking → Booking
cancelled_row now none b = record b { status = BookingStatus.cancelled; cancelled_at = some now }
cancelled_row now (some text) b = record b {
  status = BookingStatus.cancelled;
  cancelled_at = some now;
  cancel_reason = some (CancelReason.given text);
}

-- A cancellation: a booking of the table with the identifier, which was active, and the rows after it; the fee, if any, is what its policy says.
pub record IsCancelled (booking_id : ℕ) (by_user : Bool) (now : ℕ) (reason : Option ℕ) (s t : Db)
    (r : Cancellation) (booking : Booking) : Type 0 where
  pub in_table : In booking s.bookings
  pub same_id : booking.id ≡ booking_id
  pub was_active : is_active booking.status ≡ true
  pub rows :
      t.bookings ≡ update_where (λ b. b.id == booking_id) (cancelled_row now reason) s.bookings
  pub charged : (r.fee_applied ≡ true) ↔ ((by_user ≡ true) × IsLate now booking)
  pub fee :
      r.fee_percent
      ≡ (if r.fee_applied then booking.cancellation_policy_snapshot.fee_percent else 0)

marked_row : (now : ℕ) (reason : Option ℕ) → mark_cancelled now reason ≡ cancelled_row now reason
marked_row now none = refl
marked_row now (some text) = refl

module _ (c : Client) (env : Env) where
  cancel_internal-IsCancelled :
      (b : Booking) (reason : Option ℕ) (by_user : Bool) (s t : Db) (r : Cancellation)
      → In b s.bookings
      → cancel_internal c env b reason by_user s ≡ (ok r, t)
      → IsCancelled b.id by_user env.now reason s t r b
  unfolding cancel_internal update_booking
  cancel_internal-IsCancelled b reason by_user s t r place e =
      elim (Option-cases
        (c.booking.update (λ x. x.id == b.id) (mark_cancelled env.now reason) s.bookings)) [
          | inl nothing ↦ absurd (ground arith)
          | inr ((x, ys), done) ↦
              let rows =
                update-rows c.booking (λ x. x.id == b.id) (mark_cancelled env.now reason) s.bookings
                  ys x done in
              let written : t.bookings
                  ≡ update_where (λ x. x.id == b.id) (mark_cancelled env.now reason) s.bookings =
                ground arith in
              record {
                in_table = place;
                was_active = ground arith;
                same_id = refl;
                rows =
                    subst (λ f. t.bookings ≡ update_where (λ x. x.id == b.id) f s.bookings)
                      (marked_row env.now reason) written;
                charged = (λ h. ground arith, λ h. ground arith);
                fee = ground arith;
              }
        ]

  -- A cancellation by the user that returns was of an active booking of that user with the asked identifier; the rows with that identifier
  -- have the status cancelled, the time and the given reason, and the others stay. The fee is charged exactly if fewer hours are left before the start than
  -- the booking's policy gives for free, and is then the policy's percentage, else 0.
  pub cancel_by_user-IsCancelled :
      (booking_id user_id : ℕ) (reason : Option ℕ) (s t : Db) (r : Cancellation)
      → cancel_by_user c env booking_id user_id reason s ≡ (ok r, t)
      → (b : Booking) × ((b.user_id == user_id) ≡ true)
        × IsCancelled booking_id true env.now reason s t r b
  unfolding cancel_by_user get_owned_booking find_booking
  cancel_by_user-IsCancelled booking_id user_id reason s t r e =
      let mine = λ (b : Booking). b.id == booking_id && b.user_id == user_id in
      elim (Option-cases (c.booking.find_first mine s.bookings)) [
        | inl nothing ↦ absurd (ground arith)
        | inr (b, found) ↦
            let (place, hit) = c.booking.find_first_some mine s.bookings b found in
            let same = (==_iff b.id booking_id).0 (ground (arith, hit)) in
            (
              b,
              ground arith,
              subst (λ z. IsCancelled z true env.now reason s t r b) same
                  (cancel_internal-IsCancelled b reason true s t r place (ground arith)),
            )
      ]
