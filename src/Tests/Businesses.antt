-- ===== src/Tests/Businesses.antt =====
-- The theorems on businesses, their staff and hours, and on the guards, applied.
use booking_platform_claude.Prelude.{
  ℕ, ◌≡◌, ◌⊎◌, refl, true, Option, none, some, List, [], ◌∷◌, Bool, ◌==◌, ◌*◌, inl,
}
use booking_platform_claude.Schema.{BookingStatus, User, GlobalRole, StaffMember, StaffRole}
use booking_platform_claude.Store.{Db, Env}
use booking_platform_claude.Store.Memory.{memory}
use booking_platform_claude.Store.Action.{ok, err, not_found, Error}
use booking_platform_claude.Booking.Types.{HoldBookingDto}
use booking_platform_claude.Booking.Hold.{hold}
use booking_platform_claude.Business.{
  SearchBusinessDto, SearchPage, search, find_one_public, assert_exists, set_business,
}
use booking_platform_claude.Business.Owned.{Owned}
use booking_platform_claude.Business.Review.{suspend}
use booking_platform_claude.Business.Visible.{IsPage, search-IsPage, suspend-hides}
use booking_platform_claude.Audit.{log_audit}
use booking_platform_claude.WorkingHours.{
  WorkingHourEntryDto, SetWorkingHoursDto, of_staff_member, set_working_hours, resolve_target,
  replace_hours, delete_hours, create_hours,
}
use booking_platform_claude.WorkingHours.Window.{window_for, set_working_hours-window}
use booking_platform_claude.WorkingHours.Entries.{day_window}
use booking_platform_claude.Guards.{AuthenticatedUser}
use booking_platform_claude.Guards.Admitted.{IsAllowed}
use booking_platform_claude.Api.Business.{deactivates, invites}
use booking_platform_claude.Staff.{InvitedRole}
use booking_platform_claude.Api.{
  Request, of_business, creates_business, suspends, access_of, path_business, handle, serve,
  serve_each,
}
use booking_platform_claude.Api.Authorized.{serve-IsAllowed}
use booking_platform_claude.Api.Managed.{runs, opens, halts, serve_each-Owned}
use booking_platform_claude.Tests.{clock, customer, shop_db}

abbrev shopkeeper : User
shopkeeper = record customer { id = 8; phone = 913 }

abbrev administrator : User
administrator = record customer { id = 9; phone = 914; global_role = GlobalRole.admin }

abbrev keeper : StaffMember
keeper = record {
  id = 50;
  user_id = 8;
  business_id = 1;
  branch_id = none;
  role = StaffRole.owner;
  specialty = none;
  is_active = true;
}

-- The small database, with its owner and an administrator.
abbrev db : Db
db = record (shop_db BookingStatus.confirmed) {
  users = shopkeeper ∷ administrator ∷ customer ∷ [];
  staff_members = keeper ∷ [];
}

db-Owned : Owned db
db-Owned = record {
  owners = (
    record {
      row = keeper;
      place = inl refl;
      of_business = refl;
      of_user = refl;
      role = refl;
      active = refl;
    },
    tt,
  );
  distinct = (tt, tt);
}

-- Two texts that are equal contain each other, and no others do.
abbrev contains : ℕ → ℕ → Bool
contains a b = a == b

-- The owner invites a customer, tries to switch themself off, opens a second business, and the first
-- is suspended.
abbrev requests : List (Env × Option ℕ × Request)
requests =
    (
      clock 1000,
      some 8,
      of_business 1 (
          invites
            (record { phone = 912; role = InvitedRole.staff; specialty = none; branch_id = none })),
    )
    ∷ (clock 2000, some 8, of_business 1 (deactivates 50))
    ∷ (
      clock 3000,
      some 8,
      creates_business (record { name = 6; category = 2; description = none; logo_url = none }),
    )
    ∷ (clock 4000, some 9, suspends 1 7)
    ∷ []

serve_each-Owned_example : Owned (serve_each contains memory requests db)
serve_each-Owned_example =
    serve_each-Owned contains memory requests db (runs 1 _, (runs 1 _, (opens _, (halts 1 7, tt))))
      db-Owned

serve-IsAllowed_example :
    ((user : Option AuthenticatedUser) × IsAllowed
        (access_of (suspends 1 7))
        (path_business (suspends 1 7))
        (some 9)
        db
        user
      × (serve contains memory (clock 1000) (some 9) (suspends 1 7) db
          ≡ handle contains memory (clock 1000) (suspends 1 7) user db))
    ⊎ ((e : Error) × (serve contains memory (clock 1000) (some 9) (suspends 1 7) db ≡ (err e, db)))
serve-IsAllowed_example = serve-IsAllowed contains memory (clock 1000) (some 9) (suspends 1 7) db

abbrev all_of_category : SearchBusinessDto
all_of_category = record {
  query = none;
  category = some 2;
  city = none;
  page = none;
  page_size = some 5;
}

search-IsPage_example :
    (page : SearchPage) × (search memory (clock 1000) contains all_of_category db ≡ (ok page, db))
    × IsPage contains all_of_category db page
search-IsPage_example = search-IsPage memory (clock 1000) contains all_of_category db

abbrev wish : HoldBookingDto
wish = record {
  business_id = 1;
  branch_id = 2;
  service_id = 3;
  staff_member_id = none;
  start_time = 8 * 3600000;
  coupon_code = none;
}

abbrev suspended_db : Db
suspended_db = (suspend memory (clock 1000) 1 9 7 db).1

suspend-hides_example :
    (find_one_public memory (clock 1000) 1 suspended_db ≡ (err not_found, suspended_db))
    × (hold memory (clock 1000) 7 wish suspended_db ≡ (err not_found, suspended_db))
unfolding suspend assert_exists set_business log_audit
suspend-hides_example = suspend-hides memory (clock 1000) 1 9 7 7 wish db suspended_db _ refl refl

abbrev at : ℕ → ℕ → ℕ → WorkingHourEntryDto
at day from until = record {
  day_of_week = day;
  start_time = record { hours = from; minutes = 0 };
  end_time = record { hours = until; minutes = 30 };
}

abbrev week : SetWorkingHoursDto
week = record { branch_id = none; staff_member_id = some 50; hours = at 1 9 17 ∷ at 3 10 18 ∷ [] }

set_working_hours-window_example :
    window_for memory
      (clock 1000)
      2
      (of_staff_member 50)
      3
      (set_working_hours memory (clock 1000) 1 week db).1
    ≡ day_window 3 (at 1 9 17 ∷ at 3 10 18 ∷ [])
unfolding set_working_hours resolve_target replace_hours delete_hours create_hours
set_working_hours-window_example =
    set_working_hours-window memory (clock 1000) 1 2 (of_staff_member 50) (at 1 9 17)
      (at 3 10 18 ∷ []) 3 db (set_working_hours memory (clock 1000) 1 week db).1 _ refl
      ((refl, tt), (tt, tt))
