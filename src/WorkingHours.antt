-- ===== src/WorkingHours.antt =====
-- apps/backend/src/modules/working-hours/working-hours.service.ts: the weekly hours and the holidays
-- of a branch or of a member of staff. "HH:MM" texts are compared as texts in the source; as every
-- number has two digits, that is the order of the hours and then of the minutes.
pub mod Rows
pub mod Entries
pub mod Window
use booking_platform_claude.Prelude.{
  ℕ, ◌+◌, suc, Bool, true, false, ◌&&◌, ◌||◌, not, Option, none, some, List, [], ◌∷◌, ltb, leb,
  ◌==◌, opt_eq, any, is_some,
}
use booking_platform_claude.Schema.{WorkingHours, Holiday, TimeOfDay}
use booking_platform_claude.Store.{Db, Client, Env, SortOrder}
use booking_platform_claude.Store.Action.{
  Action, not_found, bad_request, pure, throw, gets, put, throw_if, ◌>>=◌, ◌>>◌, stored,
  transaction,
}
use booking_platform_claude.Branch.{branch_of, is_foreign_branch}
use booking_platform_claude.Staff.{staff_member_of, is_foreign_member}

-- `WorkingHourEntryDto`
pub record WorkingHourEntryDto : Type 0 where
  pub day_of_week : ℕ
  pub start_time : TimeOfDay
  pub end_time : TimeOfDay

-- `SetWorkingHoursDto`
pub record SetWorkingHoursDto : Type 0 where
  pub branch_id : Option ℕ
  pub staff_member_id : Option ℕ
  pub hours : List WorkingHourEntryDto

-- `AddHolidayDto`
pub record AddHolidayDto : Type 0 where
  pub branch_id : Option ℕ
  pub staff_member_id : Option ℕ
  pub date : ℕ
  pub reason : Option ℕ

-- Whose hours: what `resolveTarget` returns has exactly one of its two fields.
pub data Target : Type 0 where
  of_branch of_staff_member : ℕ → Target

abbrev pub target_branch : Target → Option ℕ
target_branch (of_branch id) = some id
target_branch (of_staff_member id) = none

abbrev pub target_staff_member : Target → Option ℕ
target_staff_member (of_branch id) = none
target_staff_member (of_staff_member id) = some id

-- `branchId ? { branchId } : { staffMemberId }`, as a test of a row's two columns
abbrev pub is_for : Target → Option ℕ → Option ℕ → Bool
is_for (of_branch id) branch_id staff_member_id = opt_eq branch_id (some id)
is_for (of_staff_member id) branch_id staff_member_id = opt_eq staff_member_id (some id)

-- `a >= b` on two texts "HH:MM"
abbrev pub is_not_before : TimeOfDay → TimeOfDay → Bool
is_not_before a b = ltb b.hours a.hours || b.hours == a.hours && leb b.minutes a.minutes

abbrev pub is_backwards : WorkingHourEntryDto → Bool
is_backwards h = is_not_before h.start_time h.end_time

abbrev set_working_hours_table : List WorkingHours → Db → Db
set_working_hours_table t s = record s { working_hours = t }

abbrev set_holidays : List Holiday → Db → Db
set_holidays t s = record s { holidays = t }

module _ (c : Client) (env : Env) where
  abbrev resolve_branch : ℕ → ℕ → Action Target
  resolve_branch business_id branch_id = do
    branch ← gets (branch_of c env branch_id)
    throw_if (is_foreign_branch business_id branch) not_found
    pure (of_branch branch_id)

  abbrev resolve_staff_member : ℕ → ℕ → Action Target
  resolve_staff_member business_id staff_member_id = do
    staff ← gets (staff_member_of c env staff_member_id)
    throw_if (is_foreign_member business_id staff) not_found
    pure (of_staff_member staff_member_id)

  -- `resolveTarget`
  unfoldable pub resolve_target : ℕ → Option ℕ → Option ℕ → Action Target
  resolve_target business_id (some branch_id) (some staff_member_id) = throw bad_request
  resolve_target business_id none none = throw bad_request
  resolve_target business_id (some branch_id) none = resolve_branch business_id branch_id
  resolve_target business_id none (some staff_member_id) =
      resolve_staff_member business_id staff_member_id

  -- The row of an entry.
  abbrev pub hours_row : ℕ → Target → WorkingHourEntryDto → WorkingHours
  hours_row k target h = record {
    id = env.uuid k;
    branch_id = target_branch target;
    staff_member_id = target_staff_member target;
    day_of_week = h.day_of_week;
    start_time = h.start_time;
    end_time = h.end_time;
  }

  -- The rows of `createMany`, with the new identifiers from the `k`-th on.
  abbrev pub rows_of : ℕ → Target → List WorkingHourEntryDto → List WorkingHours
  rows_of k target [] = []
  rows_of k target (h ∷ hs) = hours_row k target h ∷ rows_of (suc k) target hs

  unfoldable pub delete_hours : Target → Action (Unit {0})
  delete_hours target = put (λ s.
      set_working_hours_table
        (c.working_hours.delete_many (λ h. is_for target h.branch_id h.staff_member_id)
          s.working_hours)
        s)

  unfoldable pub create_hours : List WorkingHours → Action (Unit {0})
  create_hours rows s =
      stored (c.working_hours.create_many rows s.working_hours) set_working_hours_table s

  -- The callback of the transaction in `setWorkingHours`.
  unfoldable pub replace_hours : Target → List WorkingHourEntryDto → Action (List WorkingHours)
  replace_hours target hours = do
    delete_hours target
    create_hours (rows_of 0 target hours)
    gets (λ s.
        c.working_hours.find_many (λ h. is_for target h.branch_id h.staff_member_id)
          s.working_hours)

  -- `setWorkingHours`
  unfoldable pub set_working_hours : ℕ → SetWorkingHoursDto → Action (List WorkingHours)
  set_working_hours business_id dto = do
    target ← resolve_target business_id dto.branch_id dto.staff_member_id
    throw_if (any is_backwards dto.hours) bad_request
    transaction c (replace_hours target dto.hours)

  unfoldable pub insert_holiday : Holiday → Action (Unit {0})
  insert_holiday h s = stored (c.holiday.create h s.holidays) set_holidays s

  abbrev pub new_holiday : Target → AddHolidayDto → Holiday
  new_holiday target dto = record {
    id = env.uuid 0;
    branch_id = target_branch target;
    staff_member_id = target_staff_member target;
    date = dto.date;
    reason = dto.reason;
  }

  -- `addHoliday`
  unfoldable pub add_holiday : ℕ → AddHolidayDto → Action Holiday
  add_holiday business_id dto = do
    target ← resolve_target business_id dto.branch_id dto.staff_member_id
    insert_holiday (new_holiday target dto)
    pure (new_holiday target dto)

  -- `listHolidays`
  unfoldable pub list_holidays : ℕ → Option ℕ → Option ℕ → Action (List Holiday)
  list_holidays business_id branch_id staff_member_id = do
    target ← resolve_target business_id branch_id staff_member_id
    gets (λ s.
        c.holiday.find_ordered SortOrder.asc (λ h. h.date)
          (λ h. is_for target h.branch_id h.staff_member_id) s.holidays)
