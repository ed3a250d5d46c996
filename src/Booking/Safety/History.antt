-- ===== src/Booking/Safety/History.antt =====
-- What becomes of the bookings of a table: none disappears, and its status follows
-- `ALLOWED_STATUS_TRANSITIONS` of booking.service.ts.
use booking_platform_claude.Prelude.{
  ◌≡◌, refl, ◌∙◌, subst, Bool, true, false, ◌||◌, inl, inr, List, ◌∷◌, All, All-mono, All-of_In,
  All-In, In, In-update_where, rewrite, update_where, Bool-cases, arith,
}
use booking_platform_claude.Schema.{
  Booking, BookingStatus, hold, pending, confirmed, completed, cancelled, no_show,
}
use booking_platform_claude.Booking.Status.{status_eq, is_allowed}

-- The status stays, or takes one of the transitions.
abbrev pub is_legal : BookingStatus → BookingStatus → Bool
is_legal x y = status_eq x y || is_allowed x y

-- What the diagram of statuses leads to.
pub data Reaches : BookingStatus → BookingStatus → Type 0 where
  stays : (x : BookingStatus) → Reaches x x
  moves : (x y z : BookingStatus) → Reaches x y → is_allowed y z ≡ true → Reaches x z

-- The booking still stands in the table, with a status that the diagram leads to.
pub record HasFollowed (t : List Booking) (a : Booking) : Type 0 where
  pub row : Booking
  pub place : In row t
  pub same_id : row.id ≡ a.id
  pub path : Reaches a.status row.status

pub AllFollowed : List Booking → List Booking → Type 0
AllFollowed t0 t = All (HasFollowed t) t0

status_eq-same : (x y : BookingStatus) → status_eq x y ≡ true → x ≡ y
status_eq-same x y h = ground arith

Reaches-legal : (x y z : BookingStatus) → Reaches x y → is_legal y z ≡ true → Reaches x z
Reaches-legal x y z r h = elim (Bool-cases (status_eq y z)) [
  | inl same ↦ subst (Reaches x) (status_eq-same y z same) r
  | inr other ↦ moves x y z r (ground (arith, other, h))
]

HasFollowed-∷ :
    (b : Booking) (t : List Booking) (a : Booking) → HasFollowed t a → HasFollowed (b ∷ t) a
HasFollowed-∷ b t a h = record {
  row = h.row;
  place = inr h.place;
  same_id = h.same_id;
  path = h.path;
}

pub AllFollowed-∷ : (b : Booking) (t0 t : List Booking) → AllFollowed t0 t → AllFollowed t0 (b ∷ t)
unfolding AllFollowed
AllFollowed-∷ b t0 t h = All-mono t0 (HasFollowed-∷ b t) h

-- An update whose every row keeps its identifier and takes a legal step.
pub AllFollowed-update :
    (p : Booking → Bool) (f : Booking → Booking) (t0 t : List Booking)
    → All
        (λ (x : Booking).
          ((rewrite p f x).id ≡ x.id) × (is_legal x.status (rewrite p f x).status ≡ true))
        t
    → AllFollowed t0 t
    → AllFollowed t0 (update_where p f t)
unfolding AllFollowed
AllFollowed-update p f t0 t legal h =
    All-mono t0
      (λ a old.
        let step =
          All-In
            (λ (x : Booking).
              ((rewrite p f x).id ≡ x.id) × (is_legal x.status (rewrite p f x).status ≡ true))
            old.row t legal old.place in
        record {
          row = rewrite p f old.row;
          place = In-update_where p f old.row t old.place;
          same_id = step.0 ∙ old.same_id;
          path = Reaches-legal a.status old.row.status (rewrite p f old.row).status old.path step.1;
        })
      h

itself : (t : List Booking) (a : Booking) → In a t → HasFollowed t a
itself t a i = record { row = a; place = i; same_id = refl; path = stays a.status }

pub AllFollowed-refl : (t : List Booking) → AllFollowed t t
unfolding AllFollowed
AllFollowed-refl t = All-of_In (HasFollowed t) t (itself t)

-- What can become of a status, written out: a hold anything; a pending booking is no hold again; a confirmed one is
-- neither pending nor a hold again; a completed, cancelled or missed one stays so.
abbrev pub can_become : BookingStatus → BookingStatus → Bool
can_become hold y = true
can_become pending hold = false
can_become pending y = true
can_become confirmed hold = false
can_become confirmed pending = false
can_become confirmed y = true
can_become completed completed = true
can_become cancelled cancelled = true
can_become no_show no_show = true
can_become _ _ = false

can_become_refl : (x : BookingStatus) → can_become x x ≡ true
can_become_refl x = ground arith

can_become_step :
    (x y z : BookingStatus) → can_become x y ≡ true → is_allowed y z ≡ true → can_become x z ≡ true
can_become_step x y z h e = ground (arith, h, e)

Reaches-can_become : (x y : BookingStatus) → Reaches x y → can_become x y ≡ true
Reaches-can_become _ _ (stays x) = can_become_refl x
Reaches-can_become _ _ (moves x y z r e) = can_become_step x y z (Reaches-can_become x y r) e

pub HasFollowed-can_become :
    (t0 t : List Booking) (a : Booking)
    → AllFollowed t0 t
    → In a t0
    → (b : Booking) × In b t × (b.id ≡ a.id) × (can_become a.status b.status ≡ true)
unfolding AllFollowed
HasFollowed-can_become t0 t a h i =
    let f = All-In (HasFollowed t) a t0 h i in
    (f.row, f.place, f.same_id, Reaches-can_become a.status f.row.status f.path)
