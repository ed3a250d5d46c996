-- ===== src/Schema/Rows.antt =====
-- The models of prisma/schema.prisma, one record each.
use booking_platform_claude.Prelude.{ℕ, ℤ, Bool, Option}
use booking_platform_claude.Schema.Enums.{
  GlobalRole, AccountStatus, BusinessStatus, StaffRole, DocumentType, DocumentStatus, BookingStatus,
  PaymentType, PaymentStatus, WalletTxType, CouponType, Tier, ReferralStatus, OtpPurpose,
  FailureReason,
}

pub record User : Type 0 where
  pub id : ℕ
  pub phone : ℕ
  pub email : Option ℕ
  pub password_hash : ℕ
  pub full_name : ℕ
  pub avatar_url : Option ℕ
  pub global_role : GlobalRole
  pub status : AccountStatus
  pub phone_verified : Bool
  pub email_verified : Bool
  pub deleted_at : Option ℕ

pub record OtpCode : Type 0 where
  pub id : ℕ
  pub user_id : Option ℕ
  pub phone : ℕ
  pub code_hash : ℕ
  pub purpose : OtpPurpose
  pub attempts : ℕ
  pub expires_at : ℕ
  pub consumed_at : Option ℕ
  pub created_at : ℕ

pub record RefreshToken : Type 0 where
  pub id : ℕ
  pub user_id : ℕ
  pub token_hash : ℕ
  pub device_info : Option ℕ
  pub ip_address : Option ℕ
  pub expires_at : ℕ
  pub revoked_at : Option ℕ
  pub created_at : ℕ

-- The JSON column `cancellationPolicy`.
pub record CancellationPolicy : Type 0 where
  pub free_cancel_hours : ℕ
  pub fee_percent : ℕ

-- `commission_percent` is in hundredths of a percent.
pub record Business : Type 0 where
  pub id : ℕ
  pub owner_id : ℕ
  pub name : ℕ
  pub category : ℕ
  pub description : Option ℕ
  pub logo_url : Option ℕ
  pub status : BusinessStatus
  pub reject_reason : Option ℕ
  pub legal_id : Option ℕ
  pub iban_number : Option ℕ
  pub commission_percent : ℕ
  pub cancellation_policy : CancellationPolicy
  pub created_at : ℕ

pub record BusinessDocument : Type 0 where
  pub id : ℕ
  pub business_id : ℕ
  pub type : DocumentType
  pub file_url : ℕ
  pub status : DocumentStatus

-- `latitude` and `longitude` are in millionths of a degree.
pub record Branch : Type 0 where
  pub id : ℕ
  pub business_id : ℕ
  pub name : ℕ
  pub address : ℕ
  pub latitude : ℤ
  pub longitude : ℤ
  pub phone : Option ℕ

pub record StaffMember : Type 0 where
  pub id : ℕ
  pub user_id : ℕ
  pub business_id : ℕ
  pub branch_id : Option ℕ
  pub role : StaffRole
  pub specialty : Option ℕ
  pub is_active : Bool

-- `deposit_percent` is in hundredths of a percent.
pub record Service : Type 0 where
  pub id : ℕ
  pub business_id : ℕ
  pub name : ℕ
  pub description : Option ℕ
  pub duration_minutes : ℕ
  pub price : ℕ
  pub requires_deposit : Bool
  pub deposit_percent : Option ℕ
  pub is_active : Bool

pub record ServiceStaff : Type 0 where
  pub service_id : ℕ
  pub staff_member_id : ℕ

-- The columns hold "HH:MM"; the model keeps the two numbers.
pub record TimeOfDay : Type 0 where
  pub hours : ℕ
  pub minutes : ℕ

pub record WorkingHours : Type 0 where
  pub id : ℕ
  pub branch_id : Option ℕ
  pub staff_member_id : Option ℕ
  pub day_of_week : ℕ
  pub start_time : TimeOfDay
  pub end_time : TimeOfDay

pub record Holiday : Type 0 where
  pub id : ℕ
  pub branch_id : Option ℕ
  pub staff_member_id : Option ℕ
  pub date : ℕ
  pub reason : Option ℕ

-- Why a booking was cancelled: the two texts of the code, or what the caller gave.
pub data CancelReason : Type 0 where
  confirm_expired auto_expired : CancelReason
  given : ℕ → CancelReason

pub record Booking : Type 0 where
  pub id : ℕ
  pub user_id : ℕ
  pub business_id : ℕ
  pub branch_id : ℕ
  pub staff_member_id : Option ℕ
  pub service_id : ℕ
  pub start_time : ℕ
  pub end_time : ℕ
  pub status : BookingStatus
  pub price_snapshot : ℕ
  pub discount_amount : ℕ
  pub coupon_code : Option ℕ
  pub deposit_required : ℕ
  pub cancellation_policy_snapshot : CancellationPolicy
  pub hold_expires_at : Option ℕ
  pub cancelled_at : Option ℕ
  pub cancel_reason : Option CancelReason
  pub recurring_group_id : Option ℕ

-- The gateways' names: `wallet`, and `GATEWAY_NAME` of the services.
pub data Gateway : Type 0 where
  wallet mock : Gateway

pub record Payment : Type 0 where
  pub id : ℕ
  pub booking_id : Option ℕ
  pub user_id : ℕ
  pub type : PaymentType
  pub status : PaymentStatus
  pub amount : ℕ
  pub gateway : Gateway
  pub gateway_ref_id : Option ℕ
  pub callback_verified_at : Option ℕ
  pub failure_reason : Option FailureReason
  pub created_at : ℕ

pub record Wallet : Type 0 where
  pub id : ℕ
  pub user_id : ℕ
  pub balance : ℕ

pub record WalletTransaction : Type 0 where
  pub id : ℕ
  pub wallet_id : ℕ
  pub type : WalletTxType
  pub amount : ℤ
  pub balance_after : ℕ
  pub reference_id : Option ℕ

pub record Settlement : Type 0 where
  pub id : ℕ
  pub business_id : ℕ
  pub period_start : ℕ
  pub period_end : ℕ
  pub gross_amount : ℕ
  pub commission_amount : ℕ
  pub net_amount : ℤ

-- `value` is a percentage or an amount, in hundredths.
pub record Coupon : Type 0 where
  pub id : ℕ
  pub business_id : Option ℕ
  pub code : ℕ
  pub type : CouponType
  pub value : ℕ
  pub min_purchase : Option ℕ
  pub usage_limit : Option ℕ
  pub usage_count : ℕ
  pub valid_from : ℕ
  pub valid_to : ℕ
  pub is_active : Bool

pub record CouponUsage : Type 0 where
  pub id : ℕ
  pub coupon_id : ℕ
  pub user_id : ℕ
  pub booking_id : Option ℕ
  pub discount_amount : ℕ

pub record LoyaltyAccount : Type 0 where
  pub id : ℕ
  pub user_id : ℕ
  pub points : ℕ
  pub tier : Tier

-- Why points were given: the three texts of the code.
pub data LoyaltyReason : Type 0 where
  booking_purchase referral_success referral_welcome : LoyaltyReason

pub record LoyaltyTransaction : Type 0 where
  pub id : ℕ
  pub account_id : ℕ
  pub points : ℕ
  pub reason : LoyaltyReason
  pub reference_id : Option ℕ

pub record Referral : Type 0 where
  pub id : ℕ
  pub referrer_id : ℕ
  pub referee_id : ℕ
  pub status : ReferralStatus
  pub rewarded_at : Option ℕ

pub data AuditAction : Type 0 where
  business_approved business_rejected business_suspended payment_refunded : AuditAction

pub record AuditLog : Type 0 where
  pub id : ℕ
  pub actor_id : ℕ
  pub action : AuditAction
  pub entity_id : ℕ
  pub amount : Option ℕ
  pub reason : Option ℕ
