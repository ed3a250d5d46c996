-- ===== src/Store/Database.antt =====
-- The database (one table for each model), the client with a delegate for each, and what a request
-- reads of its surroundings.
use booking_platform_claude.Prelude.{ℕ, ◌≡◌, List}
use booking_platform_claude.Schema.{
  User, OtpCode, RefreshToken, Business, BusinessDocument, Branch, StaffMember, Service, Booking,
  Payment, Wallet, WalletTransaction, Settlement, Coupon, CouponUsage, LoyaltyAccount,
  LoyaltyTransaction, Referral, AuditLog, ServiceStaff, WorkingHours, Holiday, service_staff_clash,
  working_hours_clash, holiday_clash, user_clash, otp_code_clash, refresh_token_clash,
  business_clash, business_document_clash, branch_clash, staff_member_clash, service_clash,
  booking_clash, payment_clash, wallet_clash, wallet_transaction_clash, settlement_clash,
  coupon_clash, coupon_usage_clash, loyalty_account_clash, loyalty_transaction_clash,
  referral_clash, audit_log_clash,
}
use booking_platform_claude.Store.Tables.{Table}

pub record Db : Type 0 where
  pub users : List User
  pub otp_codes : List OtpCode
  pub refresh_tokens : List RefreshToken
  pub businesses : List Business
  pub business_documents : List BusinessDocument
  pub branches : List Branch
  pub staff_members : List StaffMember
  pub services : List Service
  pub service_staff : List ServiceStaff
  pub working_hours : List WorkingHours
  pub holidays : List Holiday
  pub bookings : List Booking
  pub payments : List Payment
  pub wallets : List Wallet
  pub wallet_transactions : List WalletTransaction
  pub settlements : List Settlement
  pub coupons : List Coupon
  pub coupon_usages : List CouponUsage
  pub loyalty_accounts : List LoyaltyAccount
  pub loyalty_transactions : List LoyaltyTransaction
  pub referrals : List Referral
  pub audit_logs : List AuditLog

pub record Client : Type 0 where
  pub user : Table User user_clash
  pub otp_code : Table OtpCode otp_code_clash
  pub refresh_token : Table RefreshToken refresh_token_clash
  pub business : Table Business business_clash
  pub business_document : Table BusinessDocument business_document_clash
  pub branch : Table Branch branch_clash
  pub staff_member : Table StaffMember staff_member_clash
  pub service : Table Service service_clash
  pub service_staff : Table ServiceStaff service_staff_clash
  pub working_hours : Table WorkingHours working_hours_clash
  pub holiday : Table Holiday holiday_clash
  pub booking : Table Booking booking_clash
  pub payment : Table Payment payment_clash
  pub wallet : Table Wallet wallet_clash
  pub wallet_transaction : Table WalletTransaction wallet_transaction_clash
  pub settlement : Table Settlement settlement_clash
  pub coupon : Table Coupon coupon_clash
  pub coupon_usage : Table CouponUsage coupon_usage_clash
  pub loyalty_account : Table LoyaltyAccount loyalty_account_clash
  pub loyalty_transaction : Table LoyaltyTransaction loyalty_transaction_clash
  pub referral : Table Referral referral_clash
  pub audit_log : Table AuditLog audit_log_clash
  -- What `$transaction` leaves of the database it began with and the one its callback reached, when
  -- the callback returned and when it threw.
  pub commit : Db → Db → Db
  pub rollback : Db → Db → Db
  pub commit_lem : (before after : Db) → commit before after ≡ after
  pub rollback_lem : (before after : Db) → rollback before after ≡ before

-- What becomes of a request's lock: Redis does not answer when it is asked for; another request holds it; it
-- is granted and released afterwards; or it is granted, and Redis does not answer when it is released.
pub data LockOutcome : Type 0 where
  unreachable taken released unreleased : LockOutcome

-- The clock at the request, the identifiers that are generated while it runs, and what becomes of its lock.
pub record Env : Type 0 where
  pub now : ℕ
  pub uuid : ℕ → ℕ
  pub lock : LockOutcome
