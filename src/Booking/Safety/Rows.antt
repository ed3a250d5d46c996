-- ===== src/Booking/Safety/Rows.antt =====
-- How a table of bookings stays free of double bookings: a new row, a row that stays in place, a row
-- that moves.
use booking_platform_claude.Prelude.{
  refl, sym, ap, subst, All-mono, All-In, AllPairs-with, ℕ, ◌≡◌, Bool, true, false, List, [], ◌∷◌,
  none, some, ◌==◌, any, All, AllPairs, In, rewrite, update_where, All-of_any, All-zip,
  AllPairs-update_where, arith, Bool-cases, inl, inr,
}
use booking_platform_claude.Booking.Safety.History.{is_legal, AllFollowed, AllFollowed-update}
use booking_platform_claude.Schema.{BookingStatus, Booking, booking_clash}
use booking_platform_claude.Availability.{is_active}
use booking_platform_claude.Booking.Slot.{occupies}
use booking_platform_claude.Booking.Reschedule.{move_to}
use booking_platform_claude.Booking.Safety.{Apart, NoDoubleBooking}

Apart-new :
    (b x : Booking)
    → booking_clash b x ≡ false
    → occupies b.branch_id b.staff_member_id b.start_time b.end_time none x ≡ false
    → Apart b x
Apart-new b x fresh free = record { ids_differ = fresh; disjoint = ground arith }

-- A row for a slot that no row occupies.
pub NoDoubleBooking-create :
    (b : Booking) (t : List Booking)
    → any (booking_clash b) t ≡ false
    → any (occupies b.branch_id b.staff_member_id b.start_time b.end_time none) t ≡ false
    → NoDoubleBooking t
    → NoDoubleBooking (b ∷ t)
unfolding NoDoubleBooking
NoDoubleBooking-create b t fresh free h =
    (All-zip t (Apart-new b) (All-of_any _ t fresh) (All-of_any _ t free), h)

-- The place and time of a booking, and whether it is active, or it has been freed.
pub record StaysPut (a b : Booking) : Type 0 where
  pub same_id : b.id ≡ a.id
  pub same_branch : b.branch_id ≡ a.branch_id
  pub same_staff : b.staff_member_id ≡ a.staff_member_id
  pub same_start : b.start_time ≡ a.start_time
  pub same_end : b.end_time ≡ a.end_time
  pub no_revival : is_active a.status ≡ false → is_active b.status ≡ false
  pub legal : is_legal a.status b.status ≡ true

Apart-StaysPut : (a b a' b' : Booking) → StaysPut a a' → StaysPut b b' → Apart a b → Apart a' b'
Apart-StaysPut a b a' b' p q h = record {
  ids_differ = rw (p.same_id, q.same_id) h.ids_differ;
  disjoint = ground arith;
}

is_legal_refl : (x : BookingStatus) → is_legal x x ≡ true
is_legal_refl x = ground arith

StaysPut-refl : (a : Booking) → StaysPut a a
StaysPut-refl a = record {
  same_id = refl;
  same_branch = refl;
  same_staff = refl;
  same_start = refl;
  same_end = refl;
  no_revival = λ h. h;
  legal = is_legal_refl a.status;
}

rewrite-StaysPut :
    (p : Booking → Bool) (f : Booking → Booking)
    → ((a : Booking) → p a ≡ true → StaysPut a (f a))
    → (a : Booking) → StaysPut a (rewrite p f a)
rewrite-StaysPut p f keeps a = elim (Bool-cases (p a)) [
  | inl e ↦ rw e (keeps a e)
  | inr e ↦ rw e (StaysPut-refl a)
]

-- An update that leaves each booking at its place and time, and revives none.
pub NoDoubleBooking-update :
    (p : Booking → Bool) (f : Booking → Booking) (t : List Booking)
    → ((a : Booking) → p a ≡ true → StaysPut a (f a))
    → NoDoubleBooking t
    → NoDoubleBooking (update_where p f t)
unfolding NoDoubleBooking
NoDoubleBooking-update p f t keeps = AllPairs-update_where p f Apart t λ x y.
    Apart-StaysPut x y (rewrite p f x) (rewrite p f y) (rewrite-StaysPut p f keeps x)
      (rewrite-StaysPut p f keeps y)

abbrev IsTheRow : Booking → Booking → Type 0
IsTheRow b x = (x.id == b.id) ≡ true → x ≡ b

differs : (b x y : Booking) → y ≡ b → Apart y x → IsTheRow b x
differs b x y e apart same = absurd (ground (arith, ap (λ (r : Booking). r.id) e, apart.ids_differ))

-- Identifiers are unique.
In-IsTheRow : (b : Booking) (t : List Booking) → In b t → AllPairs Apart t → All (IsTheRow b) t
In-IsTheRow b [] i h = tt
In-IsTheRow b (y ∷ ys) (inl e) h = (λ _. e, All-mono ys (λ x. differs b x y e) h.0)
In-IsTheRow b (y ∷ ys) (inr i) h =
    let apart = All-In (Apart y) b ys h.0 i in
    ((λ same. absurd (ground (arith, apart.ids_differ))), In-IsTheRow b ys i h.1)

rewrite_row :
    (b : Booking) (f : Booking → Booking)
    → StaysPut b (f b)
    → (x : Booking) → IsTheRow b x
    → StaysPut x (rewrite (λ r. r.id == b.id) f x)
rewrite_row b f stays x row = elim (Bool-cases (x.id == b.id)) [
  | inl e ↦ rw e (subst (λ z. StaysPut z (f z)) (sym (row e)) stays)
  | inr e ↦ rw e (StaysPut-refl x)
]

-- An update of the row of one booking, which leaves it at its place and time, or frees it.
pub NoDoubleBooking-update_row :
    (b : Booking) (f : Booking → Booking) (t : List Booking)
    → In b t
    → StaysPut b (f b)
    → NoDoubleBooking t
    → NoDoubleBooking (update_where (λ r. r.id == b.id) f t)
unfolding NoDoubleBooking
NoDoubleBooking-update_row b f t i stays h =
    AllPairs-update_where (λ r. r.id == b.id) f Apart t
      (λ x y (apart, px, py).
        Apart-StaysPut x y (rewrite (λ r. r.id == b.id) f x) (rewrite (λ r. r.id == b.id) f y)
          (rewrite_row b f stays x px) (rewrite_row b f stays y py) apart)
      (AllPairs-with Apart (IsTheRow b) t (In-IsTheRow b t i h) h)

-- The row of the booking may move; the others leave its new time free.
abbrev MayMove : Booking → ℕ → ℕ → Booking → Type 0
MayMove b start end' x =
    IsTheRow b x × (occupies b.branch_id b.staff_member_id start end' (some b.id) x ≡ false)

Apart-moved_first :
    (b : Booking) (start end' : ℕ) (y : Booking)
    → (y.id == b.id) ≡ false
    → occupies b.branch_id b.staff_member_id start end' (some b.id) y ≡ false
    → Apart (move_to start end' b) y
Apart-moved_first b start end' y other free = record {
  ids_differ = ground arith;
  disjoint = ground arith;
}

Apart-moved_second :
    (b : Booking) (start end' : ℕ) (x : Booking)
    → (x.id == b.id) ≡ false
    → occupies b.branch_id b.staff_member_id start end' (some b.id) x ≡ false
    → Apart x (move_to start end' b)
Apart-moved_second b start end' x other free = record {
  ids_differ = ground arith;
  disjoint = ground arith;
}

Apart-move :
    (b : Booking) (start end' : ℕ) (x y : Booking)
    → Apart x y × MayMove b start end' x × MayMove b start end' y
    → Apart
        (rewrite (λ r. r.id == b.id) (move_to start end') x)
        (rewrite (λ r. r.id == b.id) (move_to start end') y)
Apart-move b start end' x y (apart, px, py) = elim (Bool-cases (x.id == b.id)) [
  | inl ex ↦ elim (Bool-cases (y.id == b.id)) [
    | inl ey ↦ absurd (ground (arith, apart.ids_differ))
    | inr ny ↦
        rw (ex, ny)
          (subst (λ z. Apart (move_to start end' z) y) (sym (px.0 ex))
            (Apart-moved_first b start end' y ny py.1))
  ]
  | inr nx ↦ elim (Bool-cases (y.id == b.id)) [
    | inl ey ↦
        rw (nx, ey)
          (subst (λ z. Apart x (move_to start end' z)) (sym (py.0 ey))
            (Apart-moved_second b start end' x nx px.1))
    | inr ny ↦ rw (nx, ny) apart
  ]
]

-- A booking that moves to a time that no other booking occupies.
pub NoDoubleBooking-move :
    (b : Booking) (start end' : ℕ) (t : List Booking)
    → In b t
    → any (occupies b.branch_id b.staff_member_id start end' (some b.id)) t ≡ false
    → NoDoubleBooking t
    → NoDoubleBooking (update_where (λ r. r.id == b.id) (move_to start end') t)
unfolding NoDoubleBooking
NoDoubleBooking-move b start end' t i free h =
    AllPairs-update_where (λ r. r.id == b.id) (move_to start end') Apart t (Apart-move b start end')
      (AllPairs-with Apart (MayMove b start end') t
        (All-zip t (λ x r o. (r, o)) (In-IsTheRow b t i h) (All-of_any _ t free)) h)

All-of : {P : Booking → Type 0} (t : List Booking) → ((a : Booking) → P a) → All P t
All-of [] f = tt
All-of (x ∷ xs) f = (f x, All-of xs f)

moved_row :
    (b : Booking) (start end' : ℕ) (x : Booking)
    → ((rewrite (λ r. r.id == b.id) (move_to start end') x).id ≡ x.id)
      × (is_legal x.status (rewrite (λ r. r.id == b.id) (move_to start end') x).status ≡ true)
moved_row b start end' x = elim (Bool-cases (x.id == b.id)) [
  | inl e ↦ rw e (refl, is_legal_refl x.status)
  | inr e ↦ rw e (refl, is_legal_refl x.status)
]

-- The same updates against the history of the bookings.
pub AllFollowed-stays :
    (p : Booking → Bool) (f : Booking → Booking) (t0 t : List Booking)
    → ((a : Booking) → p a ≡ true → StaysPut a (f a))
    → AllFollowed t0 t
    → AllFollowed t0 (update_where p f t)
AllFollowed-stays p f t0 t keeps h =
    AllFollowed-update p f t0 t
      (All-of t (λ x. let s = rewrite-StaysPut p f keeps x in (s.same_id, s.legal))) h

pub AllFollowed-row :
    (b : Booking) (f : Booking → Booking) (t0 t : List Booking)
    → In b t
    → StaysPut b (f b)
    → NoDoubleBooking t
    → AllFollowed t0 t
    → AllFollowed t0 (update_where (λ r. r.id == b.id) f t)
unfolding NoDoubleBooking
AllFollowed-row b f t0 t i stays apart h =
    AllFollowed-update (λ r. r.id == b.id) f t0 t
      (All-mono t (λ x row. let s = rewrite_row b f stays x row in (s.same_id, s.legal))
        (In-IsTheRow b t i apart))
      h

pub AllFollowed-move :
    (b : Booking) (start end' : ℕ) (t0 t : List Booking)
    → AllFollowed t0 t
    → AllFollowed t0 (update_where (λ r. r.id == b.id) (move_to start end') t)
AllFollowed-move b start end' t0 t h =
    AllFollowed-update (λ r. r.id == b.id) (move_to start end') t0 t
      (All-of t (λ x. moved_row b start end' x)) h
