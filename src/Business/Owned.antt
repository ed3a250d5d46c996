-- ===== src/Business/Owned.antt =====
-- The owners of businesses under the methods that touch businesses or staff: business.service.ts and
-- staff.service.ts of apps/backend/src/modules.
use booking_platform_claude.Prelude.{
  ℕ, ◌≡◌, refl, sym, ap, ◌∙◌, subst, Bool, false, is_some, inl, inr, Option, none, some, List, ◌∷◌,
  any, update_where, Option-cases, Bool-cases, ◌==◌, ==_iff, arith, if◌then◌else◌,
}
use booking_platform_claude.Schema.{
  Business, StaffMember, is_owner, AuditLog, staff_member_clash, business_clash,
}
use booking_platform_claude.Store.{Db, Client, Env}
use booking_platform_claude.Store.Action.{conflict, ok, not_found, bad_request, ◌>>=◌, pure}
use booking_platform_claude.Store.Holds.{
  bind_holds, or_throw_holds, throw_if_holds, transaction_commits, bind_ok, stored_holds,
  stored_row_holds,
}
use booking_platform_claude.Store.Found.{update-rows}
use booking_platform_claude.Audit.{log_audit}
use booking_platform_claude.Business.{
  CreateBusinessDto, assert_exists, set_business, create_business, insert_with_owner,
  insert_business, insert_staff_member, new_business, new_owner, set_businesses, set_staff_members,
  business_of,
}
use booking_platform_claude.Business.Owners.{
  AllOwned, AllOwned-member, AllOwned-business, AllOwned-update, AllOwned-off, off,
}
use booking_platform_claude.Staff.{
  InviteStaffDto, invite, deactivate, set_inactive, staff_member_of, is_foreign_member,
  check_branch, membership_of, new_staff_member,
}

abbrev pub Owned : Db → Type 0
Owned s = AllOwned s.businesses s.staff_members

-- The two tables are as they were.
pub record SameStaff (s t : Db) : Type 0 where
  pub businesses : t.businesses ≡ s.businesses
  pub staff_members : t.staff_members ≡ s.staff_members

pub Owned-same : (s t : Db) → SameStaff s t → Owned s → Owned t
Owned-same s t e h =
    subst (λ z. AllOwned z t.staff_members) (sym e.businesses)
      (subst (λ z. AllOwned s.businesses z) (sym e.staff_members) h)

module _ (c : Client) (env : Env) where
  created_rows :
      {R : Type 0} (clash : R → R → Bool) (r : R) (t u : List R)
      → (if any (clash r) t then none else some (r ∷ t)) ≡ some u
      → (any (clash r) t ≡ false) × (u ≡ r ∷ t)
  created_rows clash r t u e = elim (Bool-cases (any (clash r) t)) [
    | inl hit ↦ absurd (ground arith)
    | inr free ↦ (free, ground arith)
  ]

  -- A member that was inserted had free keys.
  insert_staff_member-rows :
      (m : StaffMember) (s t : Db)
      → insert_staff_member c env m s ≡ (ok tt, t)
      → (any (staff_member_clash m) s.staff_members ≡ false)
        × (t.staff_members ≡ m ∷ s.staff_members)
        × (t.businesses ≡ s.businesses)
  unfolding insert_staff_member
  insert_staff_member-rows m s t e = elim (Option-cases (c.staff_member.create m s.staff_members)) [
    | inl nothing ↦ absurd (ground arith)
    | inr (u, made) ↦
        let rows =
          created_rows staff_member_clash m s.staff_members u
            (sym (c.staff_member.create_lem m s.staff_members) ∙ made) in
        (rows.0, ground (arith, rows.1), ground arith)
  ]

  insert_business-rows :
      (b : Business) (s t : Db)
      → insert_business c env b s ≡ (ok tt, t)
      → (t.businesses ≡ b ∷ s.businesses) × (t.staff_members ≡ s.staff_members)
  unfolding insert_business
  insert_business-rows b s t e = elim (Option-cases (c.business.create b s.businesses)) [
    | inl nothing ↦ absurd (ground arith)
    | inr (u, made) ↦
        let rows =
          created_rows business_clash b s.businesses u
            (sym (c.business.create_lem b s.businesses) ∙ made) in
        (ground (arith, rows.1), ground arith)
  ]

  log_audit-SameStaff : (entry : AuditLog) (s : Db) → SameStaff s (log_audit c entry s).1
  unfolding log_audit
  log_audit-SameStaff entry s = ground arith

  set_business-Owned :
      (id : ℕ) (f : Business → Business) (s : Db)
      → ((b : Business) → ((f b).id ≡ b.id) × ((f b).owner_id ≡ b.owner_id))
      → Owned s
      → Owned (set_business c env id f s).1
  unfolding set_business
  set_business-Owned id f s same h =
      stored_row_holds Owned (c.business.update (λ b. b.id == id) f s.businesses) set_businesses s h
        (λ r t e.
          subst (λ z. AllOwned z s.staff_members)
            (sym (update-rows c.business (λ b. b.id == id) f s.businesses t r e))
            (AllOwned-update (λ b. b.id == id) f s.businesses s.staff_members same h))

  -- The data of a business is set once it was found.
  pub changed-Owned :
      (id : ℕ) (f : Business → Business) (s : Db)
      → ((b : Business) → ((f b).id ≡ b.id) × ((f b).owner_id ≡ b.owner_id))
      → Owned s
      → Owned ((assert_exists c env id >>= λ _. set_business c env id f) s).1
  unfolding assert_exists
  changed-Owned id f s same h =
      or_throw_holds Owned not_found (business_of c env id s) _ s h
        (λ b _. set_business-Owned id f s same h)

  -- The same with a line in the audit log behind it.
  pub reviewed-Owned :
      (id : ℕ) (f : Business → Business) (entry : AuditLog) (s : Db)
      → ((b : Business) → ((f b).id ≡ b.id) × ((f b).owner_id ≡ b.owner_id))
      → Owned s
      → Owned
          ((assert_exists c env id >>= λ _.
              set_business c env id f >>= λ b. log_audit c entry >>= λ _. pure b)
            s).1
  unfolding assert_exists log_audit
  reviewed-Owned id f entry s same h =
      or_throw_holds Owned not_found (business_of c env id s) _ s h (λ _ _.
        bind_holds Owned (set_business c env id f) _ s (set_business-Owned id f s same h)
          (λ b t _ ht.
            bind_holds Owned (log_audit c entry) _ t
              (Owned-same t (log_audit c entry t).1 (log_audit-SameStaff entry t) ht)
              (λ _ u _ hu. hu)))

  -- What the transaction of `create` has done when both rows are written.
  opened-Owned :
      (owner_id : ℕ) (dto : CreateBusinessDto) (s s1 t : Db)
      → insert_business c env (new_business c env owner_id dto) s ≡ (ok tt, s1)
      → insert_staff_member c env (new_owner c env owner_id (env.uuid 0)) s1 ≡ (ok tt, t)
      → Owned s
      → Owned t
  opened-Owned owner_id dto s s1 t e f h =
      let m = new_owner c env owner_id (env.uuid 0) in
      let b = new_business c env owner_id dto in
      let first = insert_business-rows b s s1 e in
      let (free, rows, same) = insert_staff_member-rows m s1 t f in
      subst (λ z. AllOwned z t.staff_members) (sym (same ∙ first.0))
        (subst (λ z. AllOwned (b ∷ s.businesses) z) (sym (rows ∙ ap (λ z. m ∷ z) first.1))
          (AllOwned-business b m s.businesses s.staff_members
            (subst (λ z. any (staff_member_clash m) z ≡ false) first.1 free) refl refl refl refl h))

  pub create_business-Owned :
      (owner_id : ℕ) (dto : CreateBusinessDto) (s : Db)
      → Owned s
      → Owned (create_business c env owner_id dto s).1
  unfolding create_business insert_with_owner
  create_business-Owned owner_id dto s h =
      transaction_commits Owned c (insert_with_owner c env owner_id dto) s h (λ b t e.
        let (u1, s1, r1, rest) =
          bind_ok (insert_business c env (new_business c env owner_id dto)) _ s e in
        let (u2, s2, r2, end) =
          bind_ok (insert_staff_member c env (new_owner c env owner_id (env.uuid 0))) _ s1 rest in
        subst Owned (ap (λ z. z.1) end) (opened-Owned owner_id dto s s1 s2 r1 r2 h))

  pub deactivate-Owned :
      (business_id staff_member_id : ℕ) (s : Db)
      → Owned s
      → Owned (deactivate c env business_id staff_member_id s).1
  unfolding deactivate set_inactive
  deactivate-Owned business_id id s h =
      let found = staff_member_of c env id s in
      throw_if_holds Owned (is_foreign_member business_id found) not_found _ s h (λ _.
        or_throw_holds Owned not_found found _ s h (λ m e.
          throw_if_holds Owned (is_owner m.role) bad_request _ s h (λ other.
            stored_row_holds Owned (c.staff_member.update (λ x. x.id == id) off s.staff_members)
              set_staff_members s h
              (λ r t made.
                let (place, hit) =
                  c.staff_member.find_first_some (λ x. x.id == id) s.staff_members m e in
                subst (λ z. AllOwned s.businesses z)
                  (sym (update-rows c.staff_member (λ x. x.id == id) off s.staff_members t r made))
                  (subst
                    (λ k. AllOwned s.businesses (update_where (λ x. x.id == k) off s.staff_members))
                    ((==_iff m.id id).0 hit)
                    (AllOwned-off m s.businesses s.staff_members place other h))))))

  insert_staff_member-Owned :
      (m : StaffMember) (s : Db) → Owned s → Owned (insert_staff_member c env m s).1
  unfolding insert_staff_member
  insert_staff_member-Owned m s h =
      stored_holds Owned (c.staff_member.create m s.staff_members) set_staff_members s h (λ t made.
        let rows =
          created_rows staff_member_clash m s.staff_members t
            (sym (c.staff_member.create_lem m s.staff_members) ∙ made) in
        subst (λ z. AllOwned s.businesses z) (sym rows.1)
          (AllOwned-member m s.businesses s.staff_members rows.0 h))

  check_branch-SameStaff :
      (business_id : ℕ) (branch_id : Option ℕ) (s : Db)
      → SameStaff s (check_branch c env business_id branch_id s).1
  check_branch-SameStaff business_id none s = ground arith
  check_branch-SameStaff business_id (some id) s = ground arith

  pub invite-Owned :
      (business_id : ℕ) (dto : InviteStaffDto) (s : Db)
      → Owned s
      → Owned (invite c env business_id dto s).1
  unfolding invite
  invite-Owned business_id dto s h =
      or_throw_holds Owned bad_request (c.user.find_first (λ u. u.phone == dto.phone) s.users) _ s h
        (λ user _.
          throw_if_holds Owned (is_some (membership_of c env user.id business_id s)) conflict _ s h
            (λ _.
              bind_holds Owned (check_branch c env business_id dto.branch_id) _ s
                (Owned-same s _ (check_branch-SameStaff business_id dto.branch_id s) h)
                (λ _ t _ ht.
                  bind_holds Owned
                    (insert_staff_member c env (new_staff_member c env user.id business_id dto)) _ t
                    (insert_staff_member-Owned (new_staff_member c env user.id business_id dto) t
                      ht)
                    (λ _ u _ hu. hu))))
