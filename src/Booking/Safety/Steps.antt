-- ===== src/Booking/Safety/Steps.antt =====
-- The steps that the methods share: a booking is looked up, a guard is passed, a lock is asked for.
use booking_platform_claude.Prelude.{
  List, ◌≡◌, refl, sym, subst, ap, ◌∙◌, Bool, true, false, Option, none, some, In, if◌then◌else◌,
}
use booking_platform_claude.Schema.{Booking}
use booking_platform_claude.Store.{Db, LockOutcome, Client}
use booking_platform_claude.Store.Holds.{bind_holds}
use booking_platform_claude.Store.Action.{Action, Result, Error, ◌>>=◌, throw_if, or_throw}
use booking_platform_claude.Booking.Slot.{find_booking}
use booking_platform_claude.Booking.Hold.{with_lock}
use booking_platform_claude.Booking.Safety.Queries.{
  IsSafe, IsSafe-same, find_booking-reads, find_booking_lem,
}

-- What follows a found booking, on the database in which it was found.
pub found_holds :
    (t0 : List Booking) {A : Type 0} (c : Client) (p : Booking → Bool) (f : Booking → Action A)
    (s : Db)
    → IsSafe t0 s
    → ((b : Booking) → In b s.bookings → p b ≡ true → IsSafe t0 (f b s).1)
    → IsSafe t0 (◌>>=◌ (find_booking c p) f s).1
found_holds t0 c p f s h k =
    bind_holds (IsSafe t0) (find_booking c p) f s
      (subst (IsSafe t0) (sym (find_booking-reads c p s)) h)
      λ b t found _.
        let (same, i, e) = find_booking_lem c p s t b found in
        subst (λ (z : Db). IsSafe t0 (f b z).1) (sym same) (k b i e)

-- A guard that a status must pass.
pub guarded_holds :
    (t0 : List Booking) {A : Type 0} (e : Error) (test : Bool) (f : Unit {0} → Action A) (s : Db)
    → IsSafe t0 s
    → (test ≡ false → IsSafe t0 (f tt s).1)
    → IsSafe t0 (◌>>=◌ (throw_if test e) f s).1
guarded_holds t0 e true f s h k = h
guarded_holds t0 e false f s h k = k refl

pub either_holds :
    (t0 : List Booking) {A : Type 0} (test : Bool) (m n : Action A) (s : Db)
    → IsSafe t0 (m s).1
    → IsSafe t0 (n s).1
    → IsSafe t0 ((if test then m else n) s).1
either_holds t0 true m n s h k = h
either_holds t0 false m n s h k = k

pub locked-IsSafe :
    (t0 : List Booking) {A : Type 0} (lock : LockOutcome) (run : Action A) (s : Db)
    → IsSafe t0 s
    → IsSafe t0 (run s).1
    → IsSafe t0 (with_lock lock run s).1
locked-IsSafe t0 LockOutcome.unreachable run s h k = h
locked-IsSafe t0 LockOutcome.taken run s h k = h
locked-IsSafe t0 LockOutcome.released run s h k = k
locked-IsSafe t0 LockOutcome.unreleased run s h k = k

-- A step that only reads, and a value that has to be there.
pub reading_holds :
    (t0 : List Booking) {A B : Type 0} (m : Action A) (f : A → Action B) (s : Db)
    → IsSafe t0 s
    → (m s).1 ≡ s
    → ((a : A) → IsSafe t0 (f a s).1)
    → IsSafe t0 (◌>>=◌ m f s).1
reading_holds t0 {A} m f s h same k =
    bind_holds (IsSafe t0) m f s (subst (IsSafe t0) (sym same) h) λ a t e _.
      let back : t ≡ s = sym (ap (λ (z : Result A × Db). z.1) e) ∙ same in
      subst (λ (z : Db). IsSafe t0 (f a z).1) (sym back) (k a)

pub required_holds :
    (t0 : List Booking) {A B : Type 0} (e : Error) (o : Option A) (f : A → Action B) (s : Db)
    → IsSafe t0 s
    → ((a : A) → IsSafe t0 (f a s).1)
    → IsSafe t0 (◌>>=◌ (or_throw o e) f s).1
required_holds t0 e none f s h k = h
required_holds t0 e (some a) f s h k = k a

-- A step that leaves the bookings alone, before one that keeps them safe.
pub framed_holds :
    (t0 : List Booking) {A B : Type 0} (m : Action A) (f : A → Action B) (s : Db)
    → IsSafe t0 s
    → (m s).1.bookings ≡ s.bookings
    → ((a : A) (t : Db) → t.bookings ≡ s.bookings → IsSafe t0 t → IsSafe t0 (f a t).1)
    → IsSafe t0 (◌>>=◌ m f s).1
framed_holds t0 {A} m f s h same k =
    bind_holds (IsSafe t0) m f s (IsSafe-same t0 s _ same h)
      λ a t e ht. k a t (sym (ap (λ (z : Result A × Db). z.1.bookings) e) ∙ same) ht
