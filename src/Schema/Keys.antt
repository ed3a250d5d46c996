-- ===== src/Schema/Keys.antt =====
-- The unique keys of prisma/schema.prisma and its migrations: two rows that clash cannot stand in
-- one table. A column that is null clashes with nothing.
use booking_platform_claude.Prelude.{Bool, ◌&&◌, ◌||◌, ◌==◌, opt_eq, is_some}
use booking_platform_claude.Schema.Rows.{
  User, OtpCode, RefreshToken, Business, BusinessDocument, Branch, StaffMember, Service, Booking,
  Payment, Wallet, WalletTransaction, Settlement, ServiceStaff, WorkingHours, Holiday, Coupon,
  CouponUsage, LoyaltyAccount, LoyaltyTransaction, Referral, AuditLog,
}

abbrev pub user_clash : User → User → Bool
user_clash a b = a.id == b.id || a.phone == b.phone || is_some a.email && opt_eq a.email b.email

abbrev pub otp_code_clash : OtpCode → OtpCode → Bool
otp_code_clash a b = a.id == b.id

abbrev pub refresh_token_clash : RefreshToken → RefreshToken → Bool
refresh_token_clash a b = a.id == b.id || a.token_hash == b.token_hash

abbrev pub business_clash : Business → Business → Bool
business_clash a b = a.id == b.id

abbrev pub business_document_clash : BusinessDocument → BusinessDocument → Bool
business_document_clash a b = a.id == b.id

abbrev pub branch_clash : Branch → Branch → Bool
branch_clash a b = a.id == b.id

abbrev pub staff_member_clash : StaffMember → StaffMember → Bool
staff_member_clash a b = a.id == b.id || a.user_id == b.user_id && a.business_id == b.business_id

abbrev pub service_clash : Service → Service → Bool
service_clash a b = a.id == b.id

abbrev pub booking_clash : Booking → Booking → Bool
booking_clash a b = a.id == b.id

abbrev pub payment_clash : Payment → Payment → Bool
payment_clash a b = a.id == b.id

abbrev pub wallet_clash : Wallet → Wallet → Bool
wallet_clash a b = a.id == b.id || a.user_id == b.user_id

abbrev pub wallet_transaction_clash : WalletTransaction → WalletTransaction → Bool
wallet_transaction_clash a b = a.id == b.id

abbrev pub settlement_clash : Settlement → Settlement → Bool
settlement_clash a b = a.id == b.id

abbrev pub coupon_clash : Coupon → Coupon → Bool
coupon_clash a b = a.id == b.id || a.code == b.code

abbrev pub coupon_usage_clash : CouponUsage → CouponUsage → Bool
coupon_usage_clash a b = a.id == b.id || a.coupon_id == b.coupon_id && a.user_id == b.user_id

abbrev pub loyalty_account_clash : LoyaltyAccount → LoyaltyAccount → Bool
loyalty_account_clash a b = a.id == b.id || a.user_id == b.user_id

abbrev pub loyalty_transaction_clash : LoyaltyTransaction → LoyaltyTransaction → Bool
loyalty_transaction_clash a b = a.id == b.id

abbrev pub referral_clash : Referral → Referral → Bool
referral_clash a b = a.id == b.id || a.referee_id == b.referee_id

abbrev pub audit_log_clash : AuditLog → AuditLog → Bool
audit_log_clash a b = a.id == b.id

abbrev pub service_staff_clash : ServiceStaff → ServiceStaff → Bool
service_staff_clash a b = a.service_id == b.service_id && a.staff_member_id == b.staff_member_id

abbrev pub working_hours_clash : WorkingHours → WorkingHours → Bool
working_hours_clash a b = a.id == b.id

abbrev pub holiday_clash : Holiday → Holiday → Bool
holiday_clash a b = a.id == b.id
