-- ===== src/Tests.antt =====
-- A small database on which the theorems are applied: one shop with a branch and a service of an hour, one
-- customer, and a coupon.
mod Bookings
mod Money
mod Accounts
mod Businesses
mod Locks
use booking_platform_claude.Prelude.{ℕ, pos, ◌+◌, ◌*◌, true, false, none, some, [], ◌∷◌}
use booking_platform_claude.Schema.{
  User, GlobalRole, AccountStatus, Business, BusinessStatus, CancellationPolicy, Branch, Service,
  Booking, BookingStatus, Coupon, CouponType, Payment, PaymentType, PaymentStatus, Gateway, OtpCode,
  OtpPurpose, RefreshToken,
}
use booking_platform_claude.Store.{Db, Env, LockOutcome}

-- A request at an instant, with fresh identifiers from 100 on and the lock granted.
abbrev clock : ℕ → Env
clock now = record { now = now; uuid = λ k. 100 + k; lock = LockOutcome.released }

abbrev customer : User
customer = record {
  id = 7;
  phone = 912;
  email = none;
  password_hash = 42;
  full_name = 1;
  avatar_url = none;
  global_role = GlobalRole.user;
  status = AccountStatus.active;
  phone_verified = true;
  email_verified = false;
  deleted_at = none;
}

abbrev policy : CancellationPolicy
policy = record { free_cancel_hours = 24; fee_percent = 50 }

abbrev shop : Business
shop = record {
  id = 1;
  owner_id = 8;
  name = 1;
  category = 2;
  description = none;
  logo_url = none;
  status = BusinessStatus.approved;
  reject_reason = none;
  legal_id = none;
  iban_number = none;
  commission_percent = 1000;
  cancellation_policy = policy;
  created_at = 0;
}

abbrev salon : Branch
salon = record {
  id = 2;
  business_id = 1;
  name = 4;
  address = 5;
  latitude = pos 35700000;
  longitude = pos 51400000;
  phone = none;
}

abbrev haircut : Service
haircut = record {
  id = 3;
  business_id = 1;
  name = 3;
  description = none;
  duration_minutes = 60;
  price = 20000000;
  requires_deposit = true;
  deposit_percent = some 2000;
  is_active = true;
}

-- A fifth off, for everybody once.
abbrev fifth_off : Coupon
fifth_off = record {
  id = 4;
  business_id = some 1;
  code = 55;
  type = CouponType.percentage;
  value = 2000;
  min_purchase = some 1000000;
  usage_limit = some 10;
  usage_count = 0;
  valid_from = 0;
  valid_to = 1000000000;
  is_active = true;
}

-- A payment of the customer over the gateway that succeeded.
abbrev deposit : Payment
deposit = record {
  id = 6;
  booking_id = some 20;
  user_id = 7;
  type = PaymentType.deposit;
  status = PaymentStatus.success;
  amount = 4000000;
  gateway = Gateway.mock;
  gateway_ref_id = some 66;
  callback_verified_at = some 500;
  failure_reason = none;
  created_at = 400;
}

-- A booking of the customer from the third hour to the fourth.
abbrev booked : BookingStatus → ℕ → Booking
booked status expires = record {
  id = 20;
  user_id = 7;
  business_id = 1;
  branch_id = 2;
  staff_member_id = none;
  service_id = 3;
  start_time = 3 * 3600000;
  end_time = 4 * 3600000;
  status = status;
  price_snapshot = 20000000;
  discount_amount = 0;
  coupon_code = none;
  deposit_required = 4000000;
  cancellation_policy_snapshot = policy;
  hold_expires_at = some expires;
  cancelled_at = none;
  cancel_reason = none;
  recurring_group_id = none;
}

-- A code sent to the customer's phone; the digest is the code plus one.
abbrev sent : OtpPurpose → OtpCode
sent purpose = record {
  id = 30;
  user_id = some 7;
  phone = 912;
  code_hash = 1235;
  purpose = purpose;
  attempts = 2;
  expires_at = 300000;
  consumed_at = none;
  created_at = 0;
}

abbrev session : RefreshToken
session = record {
  id = 40;
  user_id = 7;
  token_hash = 778;
  device_info = none;
  ip_address = none;
  expires_at = 1000000000;
  revoked_at = none;
  created_at = 0;
}

abbrev shop_db : BookingStatus → Db
shop_db status = record {
  users = customer ∷ [];
  otp_codes = sent OtpPurpose.reset_password ∷ [];
  refresh_tokens = session ∷ [];
  businesses = shop ∷ [];
  business_documents = [];
  branches = salon ∷ [];
  staff_members = [];
  services = haircut ∷ [];
  service_staff = [];
  working_hours = [];
  holidays = [];
  bookings = booked status 300000 ∷ [];
  payments = deposit ∷ [];
  wallets = [];
  wallet_transactions = [];
  settlements = [];
  coupons = fifth_off ∷ [];
  coupon_usages = [];
  loyalty_accounts = [];
  loyalty_transactions = [];
  referrals = [];
  audit_logs = [];
}
