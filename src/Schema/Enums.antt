-- ===== src/Schema/Enums.antt =====
-- The enumerations of prisma/schema.prisma (those of packages/shared/src/enums.ts too).
use booking_platform_claude.Prelude.{Bool, true, false}

pub data GlobalRole : Type 0 where
  user admin : GlobalRole

pub data AccountStatus : Type 0 where
  active suspended deleted : AccountStatus

pub data BusinessStatus : Type 0 where
  pending_review approved rejected suspended : BusinessStatus

pub data StaffRole : Type 0 where
  owner manager staff : StaffRole

pub data DocumentType : Type 0 where
  national_id business_license other : DocumentType

pub data DocumentStatus : Type 0 where
  pending approved rejected : DocumentStatus

pub data BookingStatus : Type 0 where
  hold pending confirmed completed cancelled no_show : BookingStatus

pub data PaymentType : Type 0 where
  deposit full_payment refund wallet_topup : PaymentType

pub data PaymentStatus : Type 0 where
  initiated success failed refunded : PaymentStatus

pub data WalletTxType : Type 0 where
  topup payment refund admin_adjustment : WalletTxType

pub data CouponType : Type 0 where
  percentage fixed_amount : CouponType

pub data Tier : Type 0 where
  bronze silver gold : Tier

pub data ReferralStatus : Type 0 where
  pending rewarded : ReferralStatus

pub data OtpPurpose : Type 0 where
  register login reset_password : OtpPurpose

-- Why a gateway does not verify a payment: the three texts of mock-payment.gateway.ts.
pub data FailureReason : Type 0 where
  unknown_session already_used wrong_amount : FailureReason

-- Tests against one status, as the source writes them (`status === 'ACTIVE'`).
abbrev pub is_account_active : AccountStatus → Bool
is_account_active AccountStatus.active = true
is_account_active _ = false

abbrev pub is_approved : BusinessStatus → Bool
is_approved BusinessStatus.approved = true
is_approved _ = false

abbrev pub is_owner : StaffRole → Bool
is_owner StaffRole.owner = true
is_owner _ = false

abbrev pub is_hold : BookingStatus → Bool
is_hold BookingStatus.hold = true
is_hold _ = false

abbrev pub is_pending : BookingStatus → Bool
is_pending BookingStatus.pending = true
is_pending _ = false

abbrev pub is_initiated : PaymentStatus → Bool
is_initiated PaymentStatus.initiated = true
is_initiated _ = false

abbrev pub is_success : PaymentStatus → Bool
is_success PaymentStatus.success = true
is_success _ = false

abbrev pub is_referral_pending : ReferralStatus → Bool
is_referral_pending ReferralStatus.pending = true
is_referral_pending _ = false

abbrev pub purpose_eq : OtpPurpose → OtpPurpose → Bool
purpose_eq OtpPurpose.register OtpPurpose.register = true
purpose_eq OtpPurpose.login OtpPurpose.login = true
purpose_eq OtpPurpose.reset_password OtpPurpose.reset_password = true
purpose_eq _ _ = false
