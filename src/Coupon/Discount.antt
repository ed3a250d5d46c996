-- ===== src/Coupon/Discount.antt =====
-- What a coupon that is accepted gives: `checkAndCompute` and `checkAndRedeem` of coupon.service.ts.
use booking_platform_claude.Prelude.{
  ℕ, ◌+◌, ◌≤◌, ◌≡◌, refl, sym, ap, ◌∙◌, subst, true, false, ◌&&◌, Option, none, ◌∷◌, inl, inr,
  update_where, ◌==◌, In, arith, Option-cases,
}
use booking_platform_claude.Schema.{Coupon, CouponUsage}
use booking_platform_claude.Store.Holds.{bind_ok}
use booking_platform_claude.Coupon.Frame.{check_and_compute-reads}
use booking_platform_claude.Store.{Db, Client, Env}
use booking_platform_claude.Store.Action.{Result, ok, pure, ◌>>◌}
use booking_platform_claude.Store.Found.{update-rows}
use booking_platform_claude.Coupon.{
  create_usage, count_usage, CouponCheckResult, discount_of, other_business, below_minimum,
  exhausted, check_coupon, check_and_compute, check_and_redeem,
}
use booking_platform_claude.Coupon.Terms.{
  IsApplicable, IsDiscount, discount_of-IsDiscount, business_matches, above_minimum, limit_left,
}

-- The result is the discount of a coupon of the table with the code, which is applicable.
pub record IsAccepted (code now user_id : ℕ) (business_id : Option ℕ) (amount : ℕ) (s : Db)
    (r : CouponCheckResult) : Type 0 where
  pub coupon : Coupon
  pub in_table : In coupon s.coupons
  pub has_code : (coupon.code == code) ≡ true
  pub is_applicable : IsApplicable coupon now user_id business_id amount s
  pub same_id : r.coupon_id ≡ coupon.id
  pub is_discount : IsDiscount coupon amount r.discount_amount

abbrev pub used_once_more : Coupon → Coupon
used_once_more z = record z { usage_count = z.usage_count + 1 }

-- What a redemption writes: one more usage, with the discount, and one more use of the coupon.
pub record IsRedeemed (id user_id : ℕ) (s t : Db) (r : CouponCheckResult) : Type 0 where
  pub usage_added :
      t.coupon_usages
      ≡ record {
        id = id;
        coupon_id = r.coupon_id;
        user_id = user_id;
        booking_id = none;
        discount_amount = r.discount_amount;
      }
        ∷ s.coupon_usages
  pub use_counted : t.coupons ≡ update_where (λ z. z.id == r.coupon_id) used_once_more s.coupons

module _ (c : Client) (env : Env) where
  check_coupon-IsApplicable :
      (coupon : Coupon) (user_id : ℕ) (business_id : Option ℕ) (amount : ℕ) (s t : Db)
      (r : CouponCheckResult)
      → check_coupon c env coupon user_id business_id amount s ≡ (ok r, t)
      → IsApplicable coupon env.now user_id business_id amount s
        × (r.coupon_id ≡ coupon.id)
        × (r.discount_amount ≡ discount_of coupon amount)
  unfolding check_coupon
  check_coupon-IsApplicable coupon user_id business_id amount s t r e =
      elim (Option-cases (
        c.coupon_usage.find_first (λ u. u.coupon_id == coupon.id && u.user_id == user_id)
          s.coupon_usages)) [
            | inl nothing ↦
                let fresh =
                  c.coupon_usage.find_first_none
                    (λ u. u.coupon_id == coupon.id && u.user_id == user_id) s.coupon_usages
                    nothing in
                let on : coupon.is_active ≡ true = ground (arith, nothing) in
                let begun : coupon.valid_from ≤ env.now = ground (arith, nothing) in
                let lasts : env.now ≤ coupon.valid_to = ground (arith, nothing) in
                let fits : other_business coupon.business_id business_id ≡ false =
                  ground (arith, nothing) in
                let above : below_minimum coupon.min_purchase amount ≡ false =
                  ground (arith, nothing) in
                let left : exhausted coupon.usage_limit coupon.usage_count ≡ false =
                  ground (arith, nothing) in
                (
                  record {
                    is_on = on;
                    has_begun = begun;
                    not_over = lasts;
                    for_business =
                        λ b own. business_matches coupon.business_id business_id b fits own;
                    enough = λ m own. above_minimum coupon.min_purchase amount m above own;
                    uses_left =
                        λ l own. limit_left coupon.usage_limit coupon.usage_count l left own;
                    unused = fresh;
                  },
                  ground (arith, nothing),
                  ground (arith, nothing),
                )
            | inr (u, found) ↦ absurd (ground arith)
          ]

  check_and_compute-IsAccepted :
      (code user_id : ℕ) (business_id : Option ℕ) (amount : ℕ) (s t : Db) (r : CouponCheckResult)
      → check_and_compute c env code user_id business_id amount s ≡ (ok r, t)
      → IsAccepted code env.now user_id business_id amount s r
  unfolding check_and_compute
  check_and_compute-IsAccepted code user_id business_id amount s t r e =
      elim (Option-cases (c.coupon.find_first (λ r. r.code == code) s.coupons)) [
        | inl nothing ↦ absurd (ground arith)
        | inr (coupon, found) ↦
            let (place, hit) =
              c.coupon.find_first_some (λ r. r.code == code) s.coupons coupon found in
            let (applicable, id, discount) =
              check_coupon-IsApplicable coupon user_id business_id amount s t r (ground arith) in
            record {
              coupon = coupon;
              in_table = place;
              has_code = hit;
              is_applicable = applicable;
              same_id = id;
              is_discount =
                  subst (IsDiscount coupon amount) (sym discount)
                    (discount_of-IsDiscount coupon amount);
            }
      ]

  create_usage-adds :
      (usage : CouponUsage) (s t : Db) (a : Unit {0})
      → create_usage c env usage s ≡ (ok a, t)
      → (t.coupon_usages ≡ usage ∷ s.coupon_usages) × (t.coupons ≡ s.coupons)
  unfolding create_usage
  create_usage-adds usage s t a e =
      let law = c.coupon_usage.create_lem usage s.coupon_usages in (ground arith, ground arith)

  count_usage-rows :
      (coupon_id : ℕ) (s t : Db) (r : Coupon)
      → count_usage c env coupon_id s ≡ (ok r, t)
      → (t.coupon_usages ≡ s.coupon_usages)
        × (t.coupons ≡ update_where (λ z. z.id == coupon_id) used_once_more s.coupons)
  unfolding count_usage
  count_usage-rows coupon_id s t r e =
      elim (Option-cases (c.coupon.update (λ z. z.id == coupon_id) used_once_more s.coupons)) [
        | inl nothing ↦ absurd (ground (arith, nothing))
        | inr ((x, rows), done) ↦
            let same =
              update-rows c.coupon (λ z. z.id == coupon_id) used_once_more s.coupons rows x done in
            (ground (arith, done), ground (arith, done, same))
      ]

  -- What `checkAndRedeem` accepts, `checkAndCompute`, which is all of `validate`, accepts with the same result in the same state, and there is a
  -- coupon with the code that is on, in its period, for the business if it has one, with its minimum reached, with uses left and not used before by the
  -- user; the discount is the coupon's percentage or value, to the nearest toman, and at most the amount; the table of usages has one more, of the user with that discount, and the rows of the coupon count one use more.
  pub check_and_redeem-IsAccepted :
      (k code user_id : ℕ) (business_id : Option ℕ) (amount : ℕ) (s t : Db) (r : CouponCheckResult)
      → check_and_redeem c env k code user_id business_id amount s ≡ (ok r, t)
      → (check_and_compute c env code user_id business_id amount s ≡ (ok r, s))
        × IsAccepted code env.now user_id business_id amount s r
        × IsRedeemed (env.uuid k) user_id s t r
  unfolding check_and_redeem
  check_and_redeem-IsAccepted k code user_id business_id amount s t r e =
      let (found, s1, checked, e1) =
        bind_ok (check_and_compute c env code user_id business_id amount) _ s e in
      let usage : CouponUsage = record {
        id = env.uuid k;
        coupon_id = found.coupon_id;
        user_id = user_id;
        booking_id = none;
        discount_amount = found.discount_amount;
      } in
      let (a, s2, added, e2) =
        bind_ok (create_usage c env usage) (λ _. count_usage c env found.coupon_id >> pure found) s1
          e1 in
      let (x, s3, counted, e3) =
        bind_ok (count_usage c env found.coupon_id) (λ _. pure found) s2 e2 in
      let same : found ≡ r = ground arith in
      let ended : s3 ≡ t = ap (λ (z : Result CouponCheckResult × Db). z.1) e3 in
      let unread : s1 ≡ s =
        subst (λ (z : Result CouponCheckResult × Db). z.1 ≡ s) checked
          (check_and_compute-reads c env code user_id business_id amount s) in
      let accepted : check_and_compute c env code user_id business_id amount s ≡ (ok r, s) =
        rw (checked, same, unread) refl in
      let (usages, coupons) = create_usage-adds usage s1 s2 a added in
      let (kept, rows) = count_usage-rows found.coupon_id s2 s3 x counted in
      let redeemed : IsRedeemed (env.uuid k) user_id s1 s3 found = record {
        usage_added = kept ∙ usages;
        use_counted =
            rows ∙ ap (update_where (λ z. z.id == found.coupon_id) used_once_more) coupons;
      } in
      (
        accepted,
        check_and_compute-IsAccepted code user_id business_id amount s s r accepted,
        subst (λ z. IsRedeemed (env.uuid k) user_id z t r) unread
            (subst (λ z. IsRedeemed (env.uuid k) user_id s1 z r) ended
              (subst (IsRedeemed (env.uuid k) user_id s1 s3) same redeemed)),
      )
