-- ===== src/WorkingHours/Entries.antt =====
-- What the entries of a request to `setWorkingHours` say of a day, and what the query of
-- resolveWorkingWindow in apps/backend/src/modules/booking/availability.service.ts finds of them.
use booking_platform_claude.Prelude.{
  ℕ, ◌≡◌, refl, sym, ap, ◌∙◌, subst, Bool, true, false, ◌&&◌, not, inl, inr, Option, none, some,
  List, [], ◌∷◌, ◌++◌, All, AllPairs, In, All-In, All-of_any, In-++, ++-In, same_row, Option-cases,
  Bool-cases, ◌==◌, ==_refl, arith, if◌then◌else◌,
}
use booking_platform_claude.Schema.{WorkingHours}
use booking_platform_claude.Store.{Client, Env}
use booking_platform_claude.Store.Sorted.{In-keep}
use booking_platform_claude.Availability.{window_of}
use booking_platform_claude.Availability.Slots.{Window}
use booking_platform_claude.WorkingHours.{
  WorkingHourEntryDto, Target, of_branch, of_staff_member, target_branch, target_staff_member,
  is_for, rows_of,
}
use booking_platform_claude.WorkingHours.Rows.{IsRow, In-rows_of, rows_of-In, of_others}

-- The entries of a request are for different days of the week.
abbrev pub DifferentDays : List WorkingHourEntryDto → Type 0
DifferentDays hs = AllPairs (λ x y. (x.day_of_week == y.day_of_week) ≡ false) hs

abbrev pub entry_window : WorkingHourEntryDto → Window
entry_window h = record { start_time = h.start_time; end_time = h.end_time }

-- What the entries say of a day.
unfoldable pub day_window : ℕ → List WorkingHourEntryDto → Option Window
day_window day [] = none
day_window day (h ∷ hs) = if h.day_of_week == day then some (entry_window h) else day_window day hs

day_window-none :
    (day : ℕ) (hs : List WorkingHourEntryDto)
    → day_window day hs ≡ none
    → All (λ h. (h.day_of_week == day) ≡ false) hs
unfolding day_window
day_window-none day [] e = tt
day_window-none day (h ∷ hs) e = elim (Bool-cases (h.day_of_week == day)) [
  | inl hit ↦ absurd (ground arith)
  | inr miss ↦ (miss, day_window-none day hs (ground arith))
]

day_window-some :
    (day : ℕ) (hs : List WorkingHourEntryDto) (w : Window)
    → day_window day hs ≡ some w
    → (h : WorkingHourEntryDto) × In h hs × ((h.day_of_week == day) ≡ true) × (entry_window h ≡ w)
unfolding day_window
day_window-some day [] w e = cc
day_window-some day (h ∷ hs) w e = elim (Bool-cases (h.day_of_week == day)) [
  | inl hit ↦ (h, inl refl, hit, ground arith)
  | inr miss ↦
      let (x, place, same, end) = day_window-some day hs w (ground arith) in
      (x, inr place, same, end)
]

is_for_itself :
    (target : Target) → is_for target (target_branch target) (target_staff_member target) ≡ true
is_for_itself (of_branch id) = ==_refl id
is_for_itself (of_staff_member id) = ==_refl id

row_is_for :
    (target : Target) (h : WorkingHourEntryDto) (r : WorkingHours)
    → IsRow target h r
    → is_for target r.branch_id r.staff_member_id ≡ true
row_is_for target h r row =
    subst (λ z. is_for target z r.staff_member_id ≡ true) (sym row.branch_id)
      (subst (λ z. is_for target (target_branch target) z ≡ true) (sym row.staff_member_id)
        (is_for_itself target))

row_window :
    (target : Target) (h : WorkingHourEntryDto) (r : WorkingHours)
    → IsRow target h r
    → window_of r ≡ entry_window h
row_window target h r row = ground (arith, row.start_time, row.end_time)

-- The test of the query for a target's hours on a day.
abbrev pub is_at : Target → ℕ → WorkingHours → Bool
is_at target day r = is_for target r.branch_id r.staff_member_id && r.day_of_week == day

is_at-parts :
    (target : Target) (day : ℕ) (r : WorkingHours)
    → is_at target day r ≡ true
    → (is_for target r.branch_id r.staff_member_id ≡ true) × ((r.day_of_week == day) ≡ true)
is_at-parts target day r h = ground arith

module _ (c : Client) (env : Env) where
  -- A row of the target in the new table was made of an entry.
  IsRow-of_entry :
      (target : Target) (hs : List WorkingHourEntryDto) (old : List WorkingHours) (r : WorkingHours)
      → In r (rows_of c env 0 target hs ++ of_others c env target old)
      → is_for target r.branch_id r.staff_member_id ≡ true
      → (h : WorkingHourEntryDto) × In h hs × IsRow target h r
  IsRow-of_entry target hs old r i hit =
      elim (In-++ r (rows_of c env 0 target hs) (of_others c env target old) i) [
        | inl mine ↦ In-rows_of c env 0 target r hs mine
        | inr other ↦
            let (place, miss) =
              In-keep (λ h. not (is_for target h.branch_id h.staff_member_id)) r old other in
            absurd (ground (arith, miss, hit))
      ]

  -- The row that is found for a target and a day is of the day's entry.
  found_window :
      (target : Target) (day : ℕ) (hs : List WorkingHourEntryDto) (old : List WorkingHours)
      (r : WorkingHours)
      → DifferentDays hs
      → c.working_hours.find_first
          (is_at target day)
          (rows_of c env 0 target hs ++ of_others c env target old)
        ≡ some r
      → day_window day hs ≡ some (window_of r)
  found_window target day hs old r different found =
      let (place, hit) =
        c.working_hours.find_first_some (is_at target day)
          (rows_of c env 0 target hs ++ of_others c env target old) r found in
      let parts = is_at-parts target day r hit in
      let (h, i, row) = IsRow-of_entry target hs old r place parts.0 in
      let same : (h.day_of_week == day) ≡ true =
        subst (λ z. (z == day) ≡ true) row.day_of_week parts.1 in
      elim (Option-cases (day_window day hs)) [
        | inl nothing ↦ absurd (
            ground (
              arith,
              same,
              All-In (λ x. (x.day_of_week == day) ≡ false) h hs (day_window-none day hs nothing) i,
            ))
        | inr (w, e) ↦
            let (x, j, hit', end) = day_window-some day hs w e in
            let one : x ≡ h =
              same_row (λ z. z.day_of_week) x h hs different j i (ground (arith, same, hit')) in
            e ∙ ap some (sym end ∙ ap entry_window one ∙ sym (row_window target h r row))
      ]

  missing_window :
      (target : Target) (day : ℕ) (hs : List WorkingHourEntryDto) (old : List WorkingHours)
      → c.working_hours.find_first
          (is_at target day)
          (rows_of c env 0 target hs ++ of_others c env target old)
        ≡ none
      → day_window day hs ≡ none
  missing_window target day hs old nothing =
      let none_at =
        All-of_any (is_at target day) (rows_of c env 0 target hs ++ of_others c env target old) (
          c.working_hours.find_first_none (is_at target day)
            (rows_of c env 0 target hs ++ of_others c env target old) nothing) in
      elim (Option-cases (day_window day hs)) [
        | inl e ↦ e
        | inr (w, e) ↦
            let (h, i, hit, end) = day_window-some day hs w e in
            let (r, j, row) = rows_of-In c env 0 target h hs i in
            let miss =
              All-In (λ x. is_at target day x ≡ false) r
                (rows_of c env 0 target hs ++ of_others c env target old) none_at
                (++-In r (rows_of c env 0 target hs) (of_others c env target old) j) in
            let same : (r.day_of_week == day) ≡ true =
              subst (λ z. (z == day) ≡ true) (sym row.day_of_week) hit in
            absurd (ground (arith, miss, same, row_is_for target h r row))
      ]

  abbrev pub shown : Option WorkingHours → Option Window
  shown none = none
  shown (some h) = some (window_of h)

  -- What the query for the target's hours gives, in either case.
  pub day_window-found :
      (target : Target) (day : ℕ) (hs : List WorkingHourEntryDto) (old t : List WorkingHours)
      (o : Option WorkingHours)
      → DifferentDays hs
      → t ≡ rows_of c env 0 target hs ++ of_others c env target old
      → c.working_hours.find_first (is_at target day) t ≡ o
      → day_window day hs ≡ shown o
  day_window-found target day hs old t none different rows found =
      missing_window target day hs old
        (subst (λ z. c.working_hours.find_first (is_at target day) z ≡ none) rows found)
  day_window-found target day hs old t (some r) different rows found =
      found_window target day hs old r different
        (subst (λ z. c.working_hours.find_first (is_at target day) z ≡ some r) rows found)
