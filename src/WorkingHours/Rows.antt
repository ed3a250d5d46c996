-- ===== src/WorkingHours/Rows.antt =====
-- The rows that `setWorkingHours` of apps/backend/src/modules/working-hours/working-hours.service.ts
-- writes for the entries of a request.
use booking_platform_claude.Prelude.{
  ℕ, ◌≡◌, refl, sym, ap, ◌∙◌, subst, suc, Bool, not, inl, inr, some, List, [], ◌∷◌, ◌++◌, keep, In,
  Option-cases, arith,
}
use booking_platform_claude.Schema.{WorkingHours, working_hours_clash}
use booking_platform_claude.Store.{Db, Client, Env, created}
use booking_platform_claude.Store.Action.{ok}
use booking_platform_claude.WorkingHours.{
  WorkingHourEntryDto, Target, target_branch, target_staff_member, is_for, hours_row, rows_of,
  replace_hours, delete_hours, create_hours,
}

-- The row that was made of an entry.
pub record IsRow (target : Target) (h : WorkingHourEntryDto) (r : WorkingHours) : Type 0 where
  pub branch_id : r.branch_id ≡ target_branch target
  pub staff_member_id : r.staff_member_id ≡ target_staff_member target
  pub day_of_week : r.day_of_week ≡ h.day_of_week
  pub start_time : r.start_time ≡ h.start_time
  pub end_time : r.end_time ≡ h.end_time

created-++ :
    (clash : WorkingHours → WorkingHours → Bool) (rs t u : List WorkingHours)
    → created clash rs t ≡ some u
    → u ≡ rs ++ t
created-++ clash [] t u e = ground arith
created-++ clash (r ∷ rs) t u e = elim (Option-cases (created clash rs t)) [
  | inl nothing ↦ absurd (ground arith)
  | inr (v, made) ↦
      let tail = created-++ clash rs t v made in
      let whole : u ≡ r ∷ v = ground arith in whole ∙ ap (λ z. r ∷ z) tail
]

module _ (c : Client) (env : Env) where
  IsRow-of :
      (k : ℕ) (target : Target) (h : WorkingHourEntryDto)
      → IsRow target h (hours_row c env k target h)
  IsRow-of k target h = record {
    branch_id = refl;
    staff_member_id = refl;
    day_of_week = refl;
    start_time = refl;
    end_time = refl;
  }

  pub In-rows_of :
      (k : ℕ) (target : Target) (r : WorkingHours) (hs : List WorkingHourEntryDto)
      → In r (rows_of c env k target hs)
      → (h : WorkingHourEntryDto) × In h hs × IsRow target h r
  In-rows_of k target r [] i = elim i [ ]
  In-rows_of k target r (h ∷ hs) (inl e) =
      (h, inl refl, subst (IsRow target h) e (IsRow-of k target h))
  In-rows_of k target r (h ∷ hs) (inr i) =
      let (x, place, row) = In-rows_of (suc k) target r hs i in (x, inr place, row)

  pub rows_of-In :
      (k : ℕ) (target : Target) (h : WorkingHourEntryDto) (hs : List WorkingHourEntryDto)
      → In h hs
      → (r : WorkingHours) × In r (rows_of c env k target hs) × IsRow target h r
  rows_of-In k target h [] i = elim i [ ]
  rows_of-In k target h (x ∷ hs) (inl e) = (
    hours_row c env k target x,
    inl refl,
    subst (λ z. IsRow target z (hours_row c env k target x)) e (IsRow-of k target x),
  )
  rows_of-In k target h (x ∷ hs) (inr i) =
      let (r, place, row) = rows_of-In (suc k) target h hs i in (r, inr place, row)

  abbrev pub of_others : Target → List WorkingHours → List WorkingHours
  of_others target t = keep (λ h. not (is_for target h.branch_id h.staff_member_id)) t

  -- What `setWorkingHours` leaves in the table: the rows of the request, in front of those of others.
  pub replaced_rows :
      (target : Target) (hs : List WorkingHourEntryDto) (s t : Db) (rows : List WorkingHours)
      → replace_hours c env target hs s ≡ (ok rows, t)
      → t.working_hours ≡ rows_of c env 0 target hs ++ of_others target s.working_hours
  unfolding replace_hours delete_hours create_hours
  replaced_rows target hs s t rows e =
      let others = of_others target s.working_hours in
      let deleted =
        c.working_hours.delete_many_lem (λ h. is_for target h.branch_id h.staff_member_id)
          s.working_hours in
      elim (Option-cases (c.working_hours.create_many (rows_of c env 0 target hs) others)) [
        | inl nothing ↦ absurd (ground (arith, deleted))
        | inr (u, made) ↦
            let all =
              created-++ working_hours_clash (rows_of c env 0 target hs) others u
                (sym (c.working_hours.create_many_lem (rows_of c env 0 target hs) others) ∙ made) in
            let left : t.working_hours ≡ u = ground (arith, deleted) in left ∙ all
      ]
