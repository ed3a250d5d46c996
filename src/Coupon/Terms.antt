-- ===== src/Coupon/Terms.antt =====
-- The conditions and the discount of a coupon of coupon.service.ts, written out.
use booking_platform_claude.Prelude.{
  ℕ, ◌+◌, ◌*◌, ◌/◌, ◌≤◌, ◌<◌, ◌≡◌, ◌⊎◌, min, refl, ap, true, false, ◌&&◌, Option, none, some, inl,
  inr, ltb, Bool-cases, ==_iff, ◌==◌, arith, any,
}
use booking_platform_claude.Schema.{Coupon, CouponType, percentage, fixed_amount}
use booking_platform_claude.Store.{Db}
use booking_platform_claude.Coupon.{
  rounded_discount, discount_of, other_business, below_minimum, exhausted,
}

-- The conditions of a coupon for a user, a business and an amount, at a time.
pub record IsApplicable (coupon : Coupon) (now user_id : ℕ) (business_id : Option ℕ) (amount : ℕ)
    (s : Db) : Type 0 where
  pub is_on : coupon.is_active ≡ true
  pub has_begun : coupon.valid_from ≤ now
  pub not_over : now ≤ coupon.valid_to
  pub for_business : (b : ℕ) → coupon.business_id ≡ some b → business_id ≡ some b
  pub enough : (m : ℕ) → coupon.min_purchase ≡ some m → m ≤ amount
  pub uses_left :
      (limit : ℕ) → coupon.usage_limit ≡ some limit → (limit ≡ 0) ⊎ (coupon.usage_count < limit)
  pub unused : any (λ u. u.coupon_id == coupon.id && u.user_id == user_id) s.coupon_usages ≡ false

-- A whole number of toman, the nearest to a percentage of the amount or to the coupon's value, and the greater of two that are as near.
abbrev pub IsNearest : CouponType → ℕ → ℕ → ℕ → Type 0
IsNearest percentage value amount toman =
    (toman * 1000000 ≤ amount * value + 500000)
    × (amount * value + 500000 < toman * 1000000 + 1000000)
IsNearest fixed_amount value amount toman =
    (toman * 100 ≤ value + 50) × (value + 50 < toman * 100 + 100)

-- The discount: that many toman, or the whole amount if it is less.
pub record IsDiscount (coupon : Coupon) (amount discount : ℕ) : Type 0 where
  pub toman : ℕ
  pub is_nearest : IsNearest coupon.type coupon.value amount toman
  pub is_least : discount ≡ min (toman * 100) amount

rounded-IsNearest :
    (type : CouponType) (value amount : ℕ)
    → (toman : ℕ) × IsNearest type value amount toman
      × (rounded_discount type value amount ≡ toman * 100)
unfolding rounded_discount
rounded-IsNearest percentage value amount =
    ((amount * value + 500000) / 1000000, (ground arith, ground arith), refl)
rounded-IsNearest fixed_amount value amount =
    ((value + 50) / 100, (ground arith, ground arith), refl)

pub discount_of-IsDiscount :
    (coupon : Coupon) (amount : ℕ) → IsDiscount coupon amount (discount_of coupon amount)
unfolding discount_of
discount_of-IsDiscount coupon amount =
    let (toman, nearest, same) = rounded-IsNearest coupon.type coupon.value amount in
    record { toman = toman; is_nearest = nearest; is_least = ap (λ z. min z amount) same }

pub business_matches :
    (owner business_id : Option ℕ) (b : ℕ)
    → other_business owner business_id ≡ false
    → owner ≡ some b
    → business_id ≡ some b
business_matches none business_id b h e = absurd (ground (arith, e))
business_matches (some x) none b h e = absurd (ground (arith, h))
business_matches (some x) (some y) b h e = ground (arith, ==_iff x y, h, e)

pub above_minimum :
    (o : Option ℕ) (amount m : ℕ) → below_minimum o amount ≡ false → o ≡ some m → m ≤ amount
above_minimum none amount m h e = absurd (ground (arith, e))
above_minimum (some x) amount m h e = ground (arith, h, e)

pub limit_left :
    (o : Option ℕ) (count limit : ℕ)
    → exhausted o count ≡ false
    → o ≡ some limit
    → (limit ≡ 0) ⊎ (count < limit)
limit_left none count limit h e = absurd (ground (arith, e))
limit_left (some x) count limit h e = elim (Bool-cases (ltb 0 limit)) [
  | inl positive ↦ inr (ground (arith, h, e, positive))
  | inr nothing ↦ inl (ground (arith, nothing))
]

pub IsDiscount-le : (coupon : Coupon) (amount d : ℕ) → IsDiscount coupon amount d → d ≤ amount
IsDiscount-le coupon amount d h = ground (arith, h.is_least)
