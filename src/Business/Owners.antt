-- ===== src/Business/Owners.antt =====
-- The owners of businesses: apps/backend/src/modules/business/business.service.ts creates them, and
-- staff/staff.service.ts must not switch them off.
use booking_platform_claude.Prelude.{
  ℕ, ◌≡◌, refl, sym, ◌∙◌, if◌then◌else◌, subst, Bool, true, false, inl, inr, List, ◌∷◌, any,
  update_where, rewrite, same_row, In-update_where, All, AllPairs, In, All-mono, All-of_any,
  All-update_where, AllPairs-update_where, Bool-cases, ◌==◌, arith,
}
use booking_platform_claude.Schema.{Business, StaffMember, is_owner, staff_member_clash}

-- Among the staff is an active member with the role OWNER, who is the business's owner.
pub record HasOwner (staff : List StaffMember) (b : Business) : Type 0 where
  pub row : StaffMember
  pub place : In row staff
  pub of_business : row.business_id ≡ b.id
  pub of_user : row.user_id ≡ b.owner_id
  pub role : is_owner row.role ≡ true
  pub active : row.is_active ≡ true

abbrev pub OtherId : StaffMember → StaffMember → Type 0
OtherId a b = (a.id == b.id) ≡ false

-- Every business has its owner, and no two members of staff have one identifier.
pub record AllOwned (businesses : List Business) (staff : List StaffMember) : Type 0 where
  pub owners : All (HasOwner staff) businesses
  pub distinct : AllPairs OtherId staff

HasOwner-∷ :
    (m : StaffMember) (staff : List StaffMember) (b : Business)
    → HasOwner staff b
    → HasOwner (m ∷ staff) b
HasOwner-∷ m staff b h = record {
  row = h.row;
  place = inr h.place;
  of_business = h.of_business;
  of_user = h.of_user;
  role = h.role;
  active = h.active;
}

OtherId-clash : (a b : StaffMember) → staff_member_clash a b ≡ false → OtherId a b
OtherId-clash a b h = ground arith

-- A new member whose keys are not taken.
pub AllOwned-member :
    (m : StaffMember) (businesses : List Business) (staff : List StaffMember)
    → any (staff_member_clash m) staff ≡ false
    → AllOwned businesses staff
    → AllOwned businesses (m ∷ staff)
AllOwned-member m businesses staff free h = record {
  owners = All-mono businesses (λ b. HasOwner-∷ m staff b) h.owners;
  distinct = (
    All-mono staff (λ b. OtherId-clash m b) (All-of_any (staff_member_clash m) staff free),
    h.distinct,
  );
}

-- A new business together with its owner.
pub AllOwned-business :
    (b : Business) (m : StaffMember) (businesses : List Business) (staff : List StaffMember)
    → any (staff_member_clash m) staff ≡ false
    → m.business_id ≡ b.id
    → m.user_id ≡ b.owner_id
    → is_owner m.role ≡ true
    → m.is_active ≡ true
    → AllOwned businesses staff
    → AllOwned (b ∷ businesses) (m ∷ staff)
AllOwned-business b m businesses staff free e1 e2 e3 e4 h =
    let grown = AllOwned-member m businesses staff free h in
    record {
      owners = (
        record {
          row = m;
          place = inl refl;
          of_business = e1;
          of_user = e2;
          role = e3;
          active = e4;
        },
        grown.owners,
      );
      distinct = grown.distinct;
    }

HasOwner-choice :
    (hit : Bool) (new old : Business) (staff : List StaffMember)
    → new.id ≡ old.id
    → new.owner_id ≡ old.owner_id
    → HasOwner staff old
    → HasOwner staff (if hit then new else old)
HasOwner-choice true new old staff e1 e2 h = record {
  row = h.row;
  place = h.place;
  of_business = h.of_business ∙ sym e1;
  of_user = h.of_user ∙ sym e2;
  role = h.role;
  active = h.active;
}
HasOwner-choice false new old staff e1 e2 h = h

-- New data of a business, but not a new identifier or owner.
pub AllOwned-update :
    (p : Business → Bool) (f : Business → Business) (businesses : List Business)
    (staff : List StaffMember)
    → ((b : Business) → ((f b).id ≡ b.id) × ((f b).owner_id ≡ b.owner_id))
    → AllOwned businesses staff
    → AllOwned (update_where p f businesses) staff
AllOwned-update p f businesses staff same h = record {
  owners =
      All-update_where p f (HasOwner staff) businesses
        (λ b. HasOwner-choice (p b) (f b) b staff (same b).0 (same b).1) h.owners;
  distinct = h.distinct;
}

abbrev pub off : StaffMember → StaffMember
off m = record m { is_active = false }

OtherId-off :
    (id : ℕ) (a b : StaffMember)
    → OtherId a b
    → OtherId (rewrite (λ m. m.id == id) off a) (rewrite (λ m. m.id == id) off b)
OtherId-off id a b h = ground arith

kept : (id : ℕ) (m : StaffMember) → (m.id == id) ≡ false → m ≡ rewrite (λ x. x.id == id) off m
kept id m h = ground arith

HasOwner-off :
    (r : StaffMember) (staff : List StaffMember) (b : Business)
    → In r staff
    → is_owner r.role ≡ false
    → AllPairs OtherId staff
    → HasOwner staff b
    → HasOwner (update_where (λ m. m.id == r.id) off staff) b
HasOwner-off r staff b i other distinct h = elim (Bool-cases (h.row.id == r.id)) [
  | inl hit ↦
      let same = same_row (λ m. m.id) h.row r staff distinct h.place i hit in
      absurd (ground (arith, other, subst (λ z. is_owner z.role ≡ true) same h.role))
  | inr miss ↦ record {
    row = h.row;
    place =
        subst (λ z. In z (update_where (λ m. m.id == r.id) off staff)) (sym (kept r.id h.row miss))
          (In-update_where (λ m. m.id == r.id) off h.row staff h.place);
    of_business = h.of_business;
    of_user = h.of_user;
    role = h.role;
    active = h.active;
  }
]

-- A member that is not an owner is switched off.
pub AllOwned-off :
    (r : StaffMember) (businesses : List Business) (staff : List StaffMember)
    → In r staff
    → is_owner r.role ≡ false
    → AllOwned businesses staff
    → AllOwned businesses (update_where (λ m. m.id == r.id) off staff)
AllOwned-off r businesses staff i other h = record {
  owners = All-mono businesses (λ b. HasOwner-off r staff b i other h.distinct) h.owners;
  distinct =
      AllPairs-update_where (λ m. m.id == r.id) off OtherId staff (OtherId-off r.id) h.distinct;
}
