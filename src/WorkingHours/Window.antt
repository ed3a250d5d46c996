-- ===== src/WorkingHours/Window.antt =====
-- The hours that apps/backend/src/modules/working-hours/working-hours.service.ts writes, as
-- resolveWorkingWindow of modules/booking/availability.service.ts reads them.
use booking_platform_claude.Prelude.{
  ℕ, ◌≡◌, refl, subst, true, false, inl, inr, Option, none, some, List, ◌∷◌, ◌++◌, any,
  Option-cases, ==_refl, opt_eq, is_some, arith,
}
use booking_platform_claude.Schema.{WorkingHours}
use booking_platform_claude.Store.{Db, Client, Env}
use booking_platform_claude.Store.Action.{ok, bad_request, throw_if}
use booking_platform_claude.Store.Holds.{bind_ok, transaction_ok}
use booking_platform_claude.Availability.{resolve_working_window}
use booking_platform_claude.Availability.Slots.{Window}
use booking_platform_claude.WorkingHours.{
  WorkingHourEntryDto, Target, of_branch, of_staff_member, target_branch, target_staff_member,
  rows_of, set_working_hours, resolve_target, replace_hours, is_backwards,
}
use booking_platform_claude.WorkingHours.Rows.{of_others, replaced_rows}
use booking_platform_claude.WorkingHours.Entries.{
  DifferentDays, day_window, is_at, day_window-found,
}

module _ (c : Client) (env : Env) where
  -- The window of a target: a branch's, or that of a member of staff who works at a branch.
  abbrev pub window_for : ℕ → Target → ℕ → Db → Option Window
  window_for branch_id (of_branch id) day s = resolve_working_window c env id none day s
  window_for branch_id (of_staff_member id) day s =
      resolve_working_window c env branch_id (some id) day s

  resolved :
      (business_id : ℕ) (target got : Target) (s s' : Db)
      → resolve_target c env business_id (target_branch target) (target_staff_member target) s
        ≡ (ok got, s')
      → (got ≡ target) × (s' ≡ s)
  unfolding resolve_target
  resolved business_id (of_branch id) got s s' e = ground arith
  resolved business_id (of_staff_member id) got s s' e = ground arith

  -- A member of staff has hours once a row of theirs stands in the table.
  has_hours :
      (id : ℕ) (h : WorkingHourEntryDto) (hs : List WorkingHourEntryDto) (old t : List WorkingHours)
      → t
        ≡ rows_of c env 0 (of_staff_member id) (h ∷ hs) ++ of_others c env (of_staff_member id) old
      → is_some (c.working_hours.find_first (λ r. opt_eq r.staff_member_id (some id)) t) ≡ true
  has_hours id h hs old t rows =
      elim (Option-cases (c.working_hours.find_first (λ r. opt_eq r.staff_member_id (some id)) t)) [
        | inl nothing ↦
            let no_row =
              subst (λ z. any (λ r. opt_eq r.staff_member_id (some id)) z ≡ false) rows
                (c.working_hours.find_first_none (λ r. opt_eq r.staff_member_id (some id)) t
                  nothing) in
            absurd (ground (arith, no_row, ==_refl id))
        | inr (r, found) ↦ ground (arith, found)
      ]

  window_for-rows :
      (branch_id : ℕ) (target : Target) (day : ℕ) (h : WorkingHourEntryDto)
      (hs : List WorkingHourEntryDto) (old : List WorkingHours) (t : Db)
      → DifferentDays (h ∷ hs)
      → t.working_hours ≡ rows_of c env 0 target (h ∷ hs) ++ of_others c env target old
      → window_for branch_id target day t ≡ day_window day (h ∷ hs)
  unfolding resolve_working_window
  window_for-rows branch_id (of_branch id) day h hs old t different rows =
      let target = of_branch id in
      let hours =
        day_window-found c env target day (h ∷ hs) old t.working_hours
          (c.working_hours.find_first (is_at target day) t.working_hours) different rows refl in
      ground (arith, hours)
  window_for-rows branch_id (of_staff_member id) day h hs old t different rows =
      let target = of_staff_member id in
      let hours =
        day_window-found c env target day (h ∷ hs) old t.working_hours
          (c.working_hours.find_first (is_at target day) t.working_hours) different rows refl in
      ground (arith, hours, has_hours id h hs old t.working_hours rows)

  -- After a call of `setWorkingHours` that returns, with one or more entries for different days of the week, for a branch or for a member of staff, the working window that the availability finds for that branch, or for that member at any branch, is on every day the one of the day's entry, and none on a day without an entry.
  pub set_working_hours-window :
      (business_id branch_id : ℕ) (target : Target) (h : WorkingHourEntryDto)
      (hs : List WorkingHourEntryDto) (day : ℕ) (s t : Db) (rows : List WorkingHours)
      → set_working_hours c env business_id
          (record {
            branch_id = target_branch target;
            staff_member_id = target_staff_member target;
            hours = h ∷ hs;
          })
          s
        ≡ (ok rows, t)
      → DifferentDays (h ∷ hs)
      → window_for branch_id target day t ≡ day_window day (h ∷ hs)
  unfolding set_working_hours
  set_working_hours-window business_id branch_id target h hs day s t rows e different =
      let (got, s1, r1, rest1) =
        bind_ok
          (resolve_target c env business_id (target_branch target) (target_staff_member target)) _ s
          e in
      let (u, s2, r2, rest2) =
        bind_ok (throw_if (any is_backwards (h ∷ hs)) bad_request) _ s1 rest1 in
      let done = transaction_ok c (replace_hours c env got (h ∷ hs)) s2 rest2 in
      let same = resolved business_id target got s s1 r1 in
      window_for-rows branch_id target day h hs s2.working_hours t different (
        replaced_rows c env target (h ∷ hs) s2 t rows
          (subst (λ z. replace_hours c env z (h ∷ hs) s2 ≡ (ok rows, t)) same.0 done))
