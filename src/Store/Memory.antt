-- ===== src/Store/Memory.antt =====
-- A client that keeps its tables in memory: the laws of the client can be met, and the tests run.
use booking_platform_claude.Prelude.{
  ℕ, ◌≤◌, ◌≡◌, refl, sym, ap, subst, Bool, true, false, ◌⊎◌, inl, inr, Option, none, some, List, [],
  ◌∷◌, any, keep, length, not, update_where, In, leb, All-In, All-of_any, arith, Bool-cases,
  Option-cases, if◌then◌else◌,
}
use booking_platform_claude.Schema.{
  user_clash, otp_code_clash, refresh_token_clash, business_clash, business_document_clash,
  branch_clash, staff_member_clash, service_clash, service_staff_clash, working_hours_clash,
  holiday_clash, booking_clash, payment_clash, wallet_clash, wallet_transaction_clash,
  settlement_clash, coupon_clash, coupon_usage_clash, loyalty_account_clash,
  loyalty_transaction_clash, referral_clash, audit_log_clash,
}
use booking_platform_claude.Store.Tables.{Table, updated, upserted, deleted, created}
use booking_platform_claude.Store.Sorted.{
  ordered, paged, ordered-some, ordered-all, paged-some, length-paged,
}
use booking_platform_claude.Store.Database.{Client}

module _ {R : Type 0} where
  abbrev pub first : (R → Bool) → List R → Option R
  first p [] = none
  first p (x ∷ xs) = if p x then some x else first p xs

  -- The later of a row and the best of those behind it.
  abbrev later : (R → ℕ) → R → Option R → Option R
  later key x none = some x
  later key x (some y) = if leb (key y) (key x) then some x else some y

  abbrev pub latest : (R → ℕ) → (R → Bool) → List R → Option R
  latest key p [] = none
  latest key p (x ∷ xs) = if p x then later key x (latest key p xs) else latest key p xs

  pub first-some : (p : R → Bool) (t : List R) (r : R) → first p t ≡ some r → In r t × (p r ≡ true)
  first-some p [] r e = cc
  first-some p (x ∷ xs) r e = elim (Bool-cases (p x)) [
    | inl hit ↦ let same : x ≡ r = ground arith in (inl same, subst (λ z. p z ≡ true) same hit)
    | inr miss ↦ let rest = first-some p xs r (ground arith) in (inr rest.0, rest.1)
  ]

  pub first-none : (p : R → Bool) (t : List R) → first p t ≡ none → any p t ≡ false
  first-none p [] e = refl
  first-none p (x ∷ xs) e = ground (arith, first-none p xs)

  pub latest_none :
      (key : R → ℕ) (p : R → Bool) (t : List R) → latest key p t ≡ none → any p t ≡ false
  latest_none key p [] e = refl
  latest_none key p (x ∷ xs) e = ground (arith, latest_none key p xs)

  later-some :
      (key : R → ℕ) (x r : R) (o : Option R)
      → later key x o ≡ some r
      → ((x ≡ r) ⊎ (o ≡ some r)) × (key x ≤ key r)
  later-some key x r none e =
      let same : x ≡ r = ground arith in (inl same, ground (arith, ap key same))
  later-some key x r (some y) e = elim (Bool-cases (leb (key y) (key x))) [
    | inl hit ↦ let same : x ≡ r = ground arith in (inl same, ground (arith, ap key same))
    | inr miss ↦
        let same : y ≡ r = ground arith in (inr (ap some same), ground (arith, ap key same))
  ]

  pub latest_some :
      (key : R → ℕ) (p : R → Bool) (t : List R) (r : R)
      → latest key p t ≡ some r
      → In r t × (p r ≡ true)
  latest_some key p [] r e = cc
  latest_some key p (x ∷ xs) r e = elim (Bool-cases (p x)) [
    | inl hit ↦ elim (later-some key x r (latest key p xs) (ground arith)).0 [
      | inl same ↦ (inl same, subst (λ z. p z ≡ true) same hit)
      | inr found ↦ let rest = latest_some key p xs r found in (inr rest.0, rest.1)
    ]
    | inr miss ↦ let rest = latest_some key p xs r (ground arith) in (inr rest.0, rest.1)
  ]

  -- The best row is not behind a row that is found further on.
  later_above :
      (key : R → ℕ) (x r y : R) (o : Option R) → later key x o ≡ some r → o ≡ some y → key y ≤ key r
  later_above key x r y none e f = cc
  later_above key x r y (some z) e f = elim (Bool-cases (leb (key z) (key x))) [
    | inl hit ↦
        let zy : z ≡ y = ground arith in
        let xr : x ≡ r = ground arith in ground (arith, ap key zy, ap key xr)
    | inr miss ↦
        let zy : z ≡ y = ground arith in
        let zr : z ≡ r = ground arith in ground (arith, ap key zy, ap key zr)
  ]

  pub latest_max :
      (key : R → ℕ) (p : R → Bool) (t : List R) (r x : R)
      → latest key p t ≡ some r
      → In x t
      → p x ≡ true
      → key x ≤ key r
  latest_max key p [] r x e i h = elim i [ ]
  latest_max key p (y ∷ ys) r x e (inl same) h =
      let hit : p y ≡ true = subst (λ z. p z ≡ true) (sym same) h in
      let bound = (later-some key y r (latest key p ys) (ground arith)).1 in
      subst (λ z. key z ≤ key r) same bound
  latest_max key p (y ∷ ys) r x e (inr i) h = elim (Bool-cases (p y)) [
    | inl hit ↦ elim (Option-cases (latest key p ys)) [
      | inl nothing ↦ absurd (
          ground (
            arith,
            All-In (λ z. p z ≡ false) x ys (All-of_any p ys (latest_none key p ys nothing)) i,
          ))
      | inr (z, found) ↦
          let below = latest_max key p ys z x found i h in
          let above = later_above key y r z (latest key p ys) (ground arith) found in
          omega (arith, below, above)
    ]
    | inr miss ↦ latest_max key p ys r x (ground arith) i h
  ]

abbrev pub memory_table : {R : Type 0} (clash : R → R → Bool) → Table R clash
memory_table clash = record {
  find_first = first;
  find_latest = latest;
  find_many = keep;
  create = λ r t. if any (clash r) t then none else some (r ∷ t);
  update = λ p f t. updated p f t (first p t);
  update_many = update_where;
  upsert = λ p r t. upserted clash r t (first p t);
  find_ordered = ordered;
  find_page = paged;
  count = λ p t. length (keep p t);
  delete = λ p t. deleted p t (first p t);
  delete_many = λ p t. keep (λ r. not (p r)) t;
  create_many = created clash;
  find_first_some = first-some;
  find_first_none = first-none;
  find_latest_some = latest_some;
  find_latest_max = latest_max;
  find_latest_none = latest_none;
  find_many_lem = λ p t. refl;
  create_lem = λ r t. refl;
  update_lem = λ p f t. refl;
  update_many_lem = λ p f t. refl;
  upsert_lem = λ p r t. refl;
  find_ordered_some = ordered-some;
  find_ordered_all = ordered-all;
  find_page_some = paged-some;
  length-find_page = length-paged;
  count_lem = λ p t. refl;
  delete_lem = λ p t. refl;
  delete_many_lem = λ p t. refl;
  create_many_lem = λ rs t. refl;
}

abbrev pub memory : Client
memory = record {
  user = memory_table user_clash;
  otp_code = memory_table otp_code_clash;
  refresh_token = memory_table refresh_token_clash;
  business = memory_table business_clash;
  business_document = memory_table business_document_clash;
  branch = memory_table branch_clash;
  staff_member = memory_table staff_member_clash;
  service = memory_table service_clash;
  service_staff = memory_table service_staff_clash;
  working_hours = memory_table working_hours_clash;
  holiday = memory_table holiday_clash;
  booking = memory_table booking_clash;
  payment = memory_table payment_clash;
  wallet = memory_table wallet_clash;
  wallet_transaction = memory_table wallet_transaction_clash;
  settlement = memory_table settlement_clash;
  coupon = memory_table coupon_clash;
  coupon_usage = memory_table coupon_usage_clash;
  loyalty_account = memory_table loyalty_account_clash;
  loyalty_transaction = memory_table loyalty_transaction_clash;
  referral = memory_table referral_clash;
  audit_log = memory_table audit_log_clash;
  commit = λ before after. after;
  rollback = λ before after. before;
  commit_lem = λ before after. refl;
  rollback_lem = λ before after. refl;
}
