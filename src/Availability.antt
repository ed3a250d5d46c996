-- ===== src/Availability.antt =====
-- apps/backend/src/modules/booking/availability.service.ts: the free slots of a day. An instant is in
-- milliseconds, a day is its number since 1970-01-01 (UTC), and an ISO string is its instant.
pub mod Slots
use booking_platform_claude.Prelude.{
  ℕ, ◌+◌, ◌*◌, ◌%◌, Bool, true, false, ◌&&◌, ◌||◌, not, Option, none, some, List, [], ◌∷◌, ◌++◌,
  map, ltb, leb, ◌==◌, opt_eq, is_some, if◌then◌else◌,
}
use booking_platform_claude.Schema.{
  BookingStatus, hold, pending, confirmed, Booking, Service, ServiceStaff, WorkingHours, Holiday,
  TimeOfDay,
}
use booking_platform_claude.Store.{Db, Client, Env}
use booking_platform_claude.Store.Action.{
  Action, not_found, pure, gets, or_throw, throw_if, ◌>>=◌, ◌>>◌,
}
use Slots.{Window, generate_slots, day_millis, minute_millis}

pub record FreeSlot : Type 0 where
  pub start_time : ℕ
  pub end_time : ℕ
  pub available_staff_ids : List (Option ℕ)

-- `CheckAvailabilityDto`
pub record CheckAvailabilityDto : Type 0 where
  pub service_id : ℕ
  pub staff_member_id : Option ℕ
  pub branch_id : Option ℕ
  pub date : ℕ

-- `ACTIVE_BOOKING_STATUSES`
abbrev pub is_active : BookingStatus → Bool
is_active hold = true
is_active pending = true
is_active confirmed = true
is_active _ = false

-- `getUTCDay` of a day; the first of January 1970 was a Thursday.
abbrev pub utc_day : ℕ → ℕ
utc_day date = (date + 4) % 7

-- `dayStart`
abbrev pub day_start : ℕ → ℕ
day_start date = date * day_millis

-- `dayEnd`: 23:59:59.999
abbrev pub day_end : ℕ → ℕ
day_end date = date * day_millis + 86399999

abbrev pub window_of : WorkingHours → Window
window_of h = record { start_time = h.start_time; end_time = h.end_time }

-- The entry of a map `slotsByTime` for a slot that a candidate offers.
abbrev pub add_slot : ℕ → Option ℕ → List FreeSlot → ℕ → List FreeSlot
add_slot duration staff_id [] slot =
    record {
      start_time = slot;
      end_time = slot + duration * minute_millis;
      available_staff_ids = staff_id ∷ [];
    }
    ∷ []
add_slot duration staff_id (e ∷ es) slot =
    if e.start_time == slot
    then record e { available_staff_ids = e.available_staff_ids ++ staff_id ∷ [] } ∷ es
    else e ∷ add_slot duration staff_id es slot

abbrev pub add_slots : ℕ → Option ℕ → List FreeSlot → List ℕ → List FreeSlot
add_slots duration staff_id acc [] = acc
add_slots duration staff_id acc (slot ∷ slots) =
    add_slots duration staff_id (add_slot duration staff_id acc slot) slots

-- `sort((a, b) => a.startTime.localeCompare(b.startTime))`
abbrev pub insert_slot : FreeSlot → List FreeSlot → List FreeSlot
insert_slot x [] = x ∷ []
insert_slot x (y ∷ ys) = if leb x.start_time y.start_time then x ∷ y ∷ ys else y ∷ insert_slot x ys

abbrev pub sort_slots : List FreeSlot → List FreeSlot
sort_slots [] = []
sort_slots (x ∷ xs) = insert_slot x (sort_slots xs)

module _ (c : Client) (env : Env) where
  abbrev branch_window : ℕ → ℕ → Db → Option Window
  branch_window branch_id day s =
      elim (c.working_hours.find_first
        (λ h. opt_eq h.branch_id (some branch_id) && h.day_of_week == day) s.working_hours) [
          | none ↦ none
          | some h ↦ some (window_of h)
        ]

  abbrev staff_window : ℕ → ℕ → Db → Option Window
  staff_window staff_id day s =
      elim (c.working_hours.find_first
        (λ h. opt_eq h.staff_member_id (some staff_id) && h.day_of_week == day) s.working_hours) [
          | none ↦ none
          | some h ↦ some (window_of h)
        ]

  -- `resolveWorkingWindow`: a member of staff with no hours at all inherits the branch's.
  unfoldable pub resolve_working_window : ℕ → Option ℕ → ℕ → Db → Option Window
  resolve_working_window branch_id none day s = branch_window branch_id day s
  resolve_working_window branch_id (some staff_id) day s =
      if is_some
        (c.working_hours.find_first (λ h. opt_eq h.staff_member_id (some staff_id)) s.working_hours)
      then staff_window staff_id day s
      else branch_window branch_id day s

  abbrev in_day : ℕ → ℕ → Bool
  in_day date t = leb (day_start date) t && ltb t (day_end date)

  -- `isHoliday`
  unfoldable pub is_holiday : ℕ → Option ℕ → ℕ → Db → Bool
  is_holiday branch_id none date s = is_some (
      c.holiday.find_first (λ h. opt_eq h.branch_id (some branch_id) && in_day date h.date)
        s.holidays)
  is_holiday branch_id (some staff_id) date s =
      is_some (
        c.holiday.find_first (λ h. opt_eq h.staff_member_id (some staff_id) && in_day date h.date)
          s.holidays)
      || is_some (
          c.holiday.find_first (λ h. opt_eq h.branch_id (some branch_id) && in_day date h.date)
            s.holidays)

  -- The active bookings of a candidate that begin on the day.
  unfoldable pub day_bookings : ℕ → Option ℕ → ℕ → Db → List Booking
  day_bookings branch_id staff_id date s =
      c.booking.find_many
        (λ b.
          opt_eq b.staff_member_id staff_id
          && b.branch_id == branch_id
          && is_active b.status
          && in_day date b.start_time)
        s.bookings

  -- The slots that one candidate offers.
  unfoldable pub candidate_slots : ℕ → ℕ → ℕ → Option ℕ → Db → List ℕ
  unfolding resolve_working_window is_holiday day_bookings
  candidate_slots branch_id date duration staff_id s =
      elim (resolve_working_window branch_id staff_id (utc_day date) s) [
        | none ↦ []
        | some window ↦
            if is_holiday branch_id staff_id date s
            then []
            else generate_slots env.now date window duration
                (day_bookings branch_id staff_id date s)
      ]

  -- The loop over the candidates.
  unfoldable pub collect : ℕ → ℕ → ℕ → List (Option ℕ) → List FreeSlot → Db → List FreeSlot
  unfolding candidate_slots
  collect branch_id date duration [] acc s = acc
  collect branch_id date duration (staff_id ∷ rest) acc s =
      collect branch_id date duration rest
        (add_slots duration staff_id acc (candidate_slots branch_id date duration staff_id s)) s

  abbrev assigned : List ServiceStaff → List (Option ℕ)
  assigned [] = none ∷ []
  assigned (a ∷ as') =
      some a.staff_member_id ∷ map (λ (x : ServiceStaff). some x.staff_member_id) as'

  -- The candidates: the member of staff that was asked for, or those assigned to the service, or
  -- nobody in particular.
  unfoldable pub candidates : ℕ → CheckAvailabilityDto → Option ℕ → Action (List (Option ℕ))
  candidates business_id dto none = gets (λ s.
      assigned (c.service_staff.find_many (λ a. a.service_id == dto.service_id) s.service_staff))
  candidates business_id dto (some staff_id) = do
    staff ← gets (λ s.
        c.staff_member.find_first
          (λ m. m.id == staff_id && m.business_id == business_id && m.is_active) s.staff_members)
    or_throw staff not_found
    pure (some staff_id ∷ [])

  -- `getFreeSlots`
  unfoldable pub get_free_slots : ℕ → CheckAvailabilityDto → Action (List FreeSlot)
  unfolding candidates collect
  get_free_slots business_id dto = do
    found ← gets (λ s.
        c.service.find_first
          (λ v. v.id == dto.service_id && v.business_id == business_id && v.is_active) s.services)
    service ← or_throw found not_found
    branch_id ← or_throw dto.branch_id not_found
    branch ← gets (λ s.
        c.branch.find_first (λ b. b.id == branch_id && b.business_id == business_id) s.branches)
    or_throw branch not_found
    staff_ids ← candidates business_id dto dto.staff_member_id
    gets (λ s. sort_slots (collect branch_id dto.date service.duration_minutes staff_ids [] s))
