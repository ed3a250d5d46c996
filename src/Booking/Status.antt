-- ===== src/Booking/Status.antt =====
-- The status of a booking: `ALLOWED_STATUS_TRANSITIONS` of booking.service.ts.
use booking_platform_claude.Prelude.{Bool, true, false, List, [], ◌∷◌, any}
use booking_platform_claude.Schema.{
  BookingStatus, hold, pending, confirmed, completed, cancelled, no_show,
}

abbrev pub status_eq : BookingStatus → BookingStatus → Bool
status_eq hold hold = true
status_eq pending pending = true
status_eq confirmed confirmed = true
status_eq completed completed = true
status_eq cancelled cancelled = true
status_eq no_show no_show = true
status_eq _ _ = false

-- `ALLOWED_STATUS_TRANSITIONS`
abbrev pub allowed_status_transitions : BookingStatus → List BookingStatus
allowed_status_transitions hold = pending ∷ confirmed ∷ cancelled ∷ []
allowed_status_transitions pending = confirmed ∷ cancelled ∷ []
allowed_status_transitions confirmed = completed ∷ no_show ∷ cancelled ∷ []
allowed_status_transitions completed = []
allowed_status_transitions cancelled = []
allowed_status_transitions no_show = []

-- `ALLOWED_STATUS_TRANSITIONS[from]?.includes(to)`
abbrev pub is_allowed : BookingStatus → BookingStatus → Bool
is_allowed from to = any (status_eq to) (allowed_status_transitions from)
