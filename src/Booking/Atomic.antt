-- ===== src/Booking/Atomic.antt =====
-- The errors of `createRecurring` of booking.service.ts.
use booking_platform_claude.Prelude.{ℕ, ◌≡◌, Option, ◌∙◌, arith}
use booking_platform_claude.Store.{Db, Client, Env}
use booking_platform_claude.Store.Action.{Error, err}
use booking_platform_claude.Store.Holds.{bind_err, transaction_err}
use booking_platform_claude.Booking.Types.{CreateRecurringBookingDto}
use booking_platform_claude.Booking.Slot.{load_and_validate_context, check_staff}
use booking_platform_claude.Booking.Recurring.{create_each, create_recurring, starts_from}

module _ (c : Client) (env : Env) where
  pub load_and_validate_context-reads :
      (business_id branch_id service_id : ℕ) (staff : Option ℕ) (s : Db)
      → (load_and_validate_context c business_id branch_id service_id staff s).1 ≡ s
  unfolding load_and_validate_context check_staff
  load_and_validate_context-reads business_id branch_id service_id staff s = ground arith

  -- A recurring booking that throws has written nothing: none of its occurrences stands.
  pub create_recurring-err :
      (user_id : ℕ) (dto : CreateRecurringBookingDto) (s t : Db) (e : Error)
      → create_recurring c env user_id dto s ≡ (err e, t)
      → t ≡ s
  unfolding create_recurring
  create_recurring-err user_id dto s t e h =
      bind_err (λ z. z ≡ s)
        (load_and_validate_context c dto.business_id dto.branch_id dto.service_id
          dto.staff_member_id)
        _ s h
        (load_and_validate_context-reads dto.business_id dto.branch_id dto.service_id
          dto.staff_member_id s)
        (λ found s' _ same rest.
          transaction_err c
            (create_each c env user_id dto found.0 found.1 1
              (starts_from dto.start_time 0 dto.occurrences))
            s' rest
          ∙ same)
