-- ===== src/Coupon.antt =====
-- apps/backend/src/modules/coupon/coupon.service.ts: discount codes. Amounts and percentages are in
-- hundredths; a JavaScript number is read as the exact rational that it stands for.
pub mod Frame
pub mod Terms
pub mod Discount
use booking_platform_claude.Prelude.{
  ℕ, ◌+◌, ◌*◌, ◌/◌, min, Bool, true, false, ◌&&◌, ◌||◌, not, Option, none, some, List, ltb, leb,
  ◌==◌, opt_eq, is_some, if◌then◌else◌,
}
use booking_platform_claude.Schema.{Coupon, CouponUsage, CouponType, percentage, fixed_amount}
use booking_platform_claude.Store.{Db, Client, Env}
use booking_platform_claude.Store.Action.{
  Action, bad_request, conflict, not_found, pure, gets, or_throw, throw_if, ◌>>=◌, ◌>>◌, stored,
  stored_row,
}

pub record CouponCheckResult : Type 0 where
  pub coupon_id : ℕ
  pub discount_amount : ℕ

-- `CreateCouponDto`
pub record CreateCouponDto : Type 0 where
  pub code : ℕ
  pub type : CouponType
  pub value : ℕ
  pub min_purchase : Option ℕ
  pub usage_limit : Option ℕ
  pub valid_from : ℕ
  pub valid_to : ℕ

-- `UpdateCouponDto`: what is missing stays as it is.
pub record UpdateCouponDto : Type 0 where
  pub type : Option CouponType
  pub value : Option ℕ
  pub min_purchase : Option ℕ
  pub usage_limit : Option ℕ
  pub valid_from : Option ℕ
  pub valid_to : Option ℕ
  pub is_active : Option Bool

-- `Math.round(n / d)` for an even `d`
abbrev pub round_div : ℕ → ℕ → ℕ
round_div n d = (n + d / 2) / d

-- `Math.round(rawDiscount)`, in hundredths
unfoldable pub rounded_discount : CouponType → ℕ → ℕ → ℕ
rounded_discount percentage value purchase_amount =
    round_div (purchase_amount * value) 1000000 * 100
rounded_discount fixed_amount value purchase_amount = round_div value 100 * 100

-- `Math.min(Math.round(rawDiscount), purchaseAmount)`
unfoldable pub discount_of : Coupon → ℕ → ℕ
discount_of coupon purchase_amount =
    min (rounded_discount coupon.type coupon.value purchase_amount) purchase_amount

-- `coupon.businessId && coupon.businessId !== businessId`
abbrev pub other_business : Option ℕ → Option ℕ → Bool
other_business none business_id = false
other_business (some b) business_id = not (opt_eq (some b) business_id)

-- `coupon.minPurchase && purchaseAmount < Number(coupon.minPurchase)`
abbrev pub below_minimum : Option ℕ → ℕ → Bool
below_minimum none purchase_amount = false
below_minimum (some m) purchase_amount = ltb purchase_amount m

-- `coupon.usageLimit && coupon.usageCount >= coupon.usageLimit`; a limit of 0 is falsy
abbrev pub exhausted : Option ℕ → ℕ → Bool
exhausted none usage_count = false
exhausted (some limit) usage_count = ltb 0 limit && leb limit usage_count

abbrev pub or_old {ℓ} : {A : Type ℓ} → Option A → A → A
or_old none old = old
or_old (some new) old = new

abbrev pub or_old_option {ℓ} : {A : Type ℓ} → Option A → Option A → Option A
or_old_option none old = old
or_old_option (some new) old = some new

abbrev set_coupons : List Coupon → Db → Db
set_coupons t s = record s { coupons = t }

abbrev set_usages : List CouponUsage → Db → Db
set_usages t s = record s { coupon_usages = t }

abbrev pub patch : UpdateCouponDto → Coupon → Coupon
patch dto r = record r {
  type = or_old dto.type r.type;
  value = or_old dto.value r.value;
  min_purchase = or_old_option dto.min_purchase r.min_purchase;
  usage_limit = or_old_option dto.usage_limit r.usage_limit;
  valid_from = or_old dto.valid_from r.valid_from;
  valid_to = or_old dto.valid_to r.valid_to;
  is_active = or_old dto.is_active r.is_active;
}

module _ (c : Client) (env : Env) where
  -- `create`; `createForBusiness` and `createGlobal` give the business or none.
  unfoldable pub create : Option ℕ → CreateCouponDto → Action (Unit {0})
  create business_id dto = do
    existing ← gets (λ s. c.coupon.find_first (λ r. r.code == dto.code) s.coupons)
    throw_if (is_some existing) conflict
    throw_if (leb dto.valid_to dto.valid_from) bad_request
    λ s.
        stored
          (c.coupon.create
            (record {
              id = env.uuid 0;
              business_id = business_id;
              code = dto.code;
              type = dto.type;
              value = dto.value;
              min_purchase = dto.min_purchase;
              usage_limit = dto.usage_limit;
              usage_count = 0;
              valid_from = dto.valid_from;
              valid_to = dto.valid_to;
              is_active = true;
            })
            s.coupons)
          set_coupons s

  -- `update`
  unfoldable pub update : ℕ → UpdateCouponDto → Action Coupon
  update coupon_id dto = do
    found ← gets (λ s. c.coupon.find_first (λ r. r.id == coupon_id) s.coupons)
    or_throw found not_found
    λ s. stored_row (c.coupon.update (λ r. r.id == coupon_id) (patch dto) s.coupons) set_coupons s

  -- `checkAndCompute` from the coupon on
  unfoldable pub check_coupon : Coupon → ℕ → Option ℕ → ℕ → Action CouponCheckResult
  unfolding discount_of rounded_discount
  check_coupon coupon user_id business_id purchase_amount = do
    throw_if (not coupon.is_active) bad_request
    throw_if (ltb env.now coupon.valid_from || ltb coupon.valid_to env.now) bad_request
    throw_if (other_business coupon.business_id business_id) bad_request
    throw_if (below_minimum coupon.min_purchase purchase_amount) bad_request
    throw_if (exhausted coupon.usage_limit coupon.usage_count) bad_request
    already_used ← gets (λ s.
        c.coupon_usage.find_first (λ u. u.coupon_id == coupon.id && u.user_id == user_id)
          s.coupon_usages)
    throw_if (is_some already_used) bad_request
    pure (record { coupon_id = coupon.id; discount_amount = discount_of coupon purchase_amount })

  -- `checkAndCompute`
  unfoldable pub check_and_compute : ℕ → ℕ → Option ℕ → ℕ → Action CouponCheckResult
  unfolding check_coupon
  check_and_compute code user_id business_id purchase_amount = do
    found ← gets (λ s. c.coupon.find_first (λ r. r.code == code) s.coupons)
    coupon ← or_throw found bad_request
    check_coupon coupon user_id business_id purchase_amount

  -- `validate`
  unfoldable pub validate : ℕ → ℕ → Option ℕ → ℕ → Action CouponCheckResult
  unfolding check_and_compute
  validate code user_id business_id purchase_amount =
      check_and_compute code user_id business_id purchase_amount

  unfoldable pub create_usage : CouponUsage → Action (Unit {0})
  create_usage usage s = stored (c.coupon_usage.create usage s.coupon_usages) set_usages s

  unfoldable pub count_usage : ℕ → Action Coupon
  count_usage coupon_id s =
      stored_row
        (c.coupon.update (λ r. r.id == coupon_id)
          (λ r. record r { usage_count = r.usage_count + 1 }) s.coupons)
        set_coupons s

  -- `checkAndRedeem`, with the `k`-th new identifier; every caller leaves `bookingId` out.
  unfoldable pub check_and_redeem : ℕ → ℕ → ℕ → Option ℕ → ℕ → Action CouponCheckResult
  unfolding check_and_compute create_usage count_usage
  check_and_redeem k code user_id business_id purchase_amount = do
    result ← check_and_compute code user_id business_id purchase_amount
    create_usage (record {
      id = env.uuid k;
      coupon_id = result.coupon_id;
      user_id = user_id;
      booking_id = none;
      discount_amount = result.discount_amount;
    })
    count_usage result.coupon_id
    pure result

  -- `tx.couponUsage.update` of `hold`: the booking that the usage paid for.
  unfoldable pub link_usage : ℕ → ℕ → ℕ → Action CouponUsage
  link_usage coupon_id user_id booking_id s =
      stored_row
        (c.coupon_usage.update (λ u. u.coupon_id == coupon_id && u.user_id == user_id)
          (λ u. record u { booking_id = some booking_id }) s.coupon_usages)
        set_usages s
