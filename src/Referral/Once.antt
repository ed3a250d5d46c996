-- ===== src/Referral/Once.antt =====
-- `rewardIfEligible` of referral.service.ts, called again for the same newcomer.
use booking_platform_claude.Prelude.{
  ℕ, ◌+◌, ◌≡◌, sym, ap, subst, ◌∙◌, true, false, inl, inr, Option, some, List, ◌==◌, rewrite,
  update_where, arith, Option-cases, Bool-cases, All, All-In, AllPairs, All-of_In, All-update_where,
  In, same_row, ==_refl,
}
use booking_platform_claude.Schema.{
  Referral, ReferralStatus, is_referral_pending, LoyaltyReason, referral_success, referral_welcome,
}
use booking_platform_claude.Store.{Db, Client, Env}
use booking_platform_claude.Store.Action.{ok, pure, ◌>>◌}
use booking_platform_claude.Store.Holds.{bind_ok}
use booking_platform_claude.Store.Found.{update-rows}
use booking_platform_claude.Loyalty.{add_points}
use booking_platform_claude.Referral.{
  referral_reward_points, mark_rewarded, reward, reward_if_eligible,
}

-- Nobody was brought by two users: the unique key of the column.
abbrev pub UniqueReferees : List Referral → Type 0
UniqueReferees t = AllPairs (λ a b. (a.referee_id == b.referee_id) ≡ false) t

abbrev AllPaid : ℕ → List Referral → Type 0
AllPaid user_id t =
    All (λ (r : Referral). (r.referee_id == user_id) ≡ true → is_referral_pending r.status ≡ false)
      t

add_points-referrals :
    (c : Client) (env : Env) (k user_id points : ℕ) (reason : LoyaltyReason) (ref : Option ℕ)
    (s : Db)
    → (add_points c env k user_id points reason ref s).1.referrals ≡ s.referrals
unfolding add_points
add_points-referrals c env k user_id points reason ref s = ground arith

abbrev paid_at : Env → Referral → Referral
paid_at env z = record z { status = ReferralStatus.rewarded; rewarded_at = some env.now }

marked_paid :
    (env : Env) (user_id : ℕ) (r x : Referral)
    → ((x.referee_id == user_id) ≡ true → x ≡ r)
    → (((rewrite (λ z. z.id == r.id) (paid_at env) x).referee_id) == user_id) ≡ true
    → is_referral_pending (rewrite (λ z. z.id == r.id) (paid_at env) x).status ≡ false
marked_paid env user_id r x only own = elim (Bool-cases (x.id == r.id)) [
  | inl same ↦ ground (arith, same)
  | inr other ↦
      let one = only (ground (arith, other, own)) in
      absurd (ground (arith, other, subst (λ z. (z.id == r.id) ≡ true) (sym one) (==_refl r.id)))
]

module _ (c : Client) where
  paid_pays_nothing :
      (later : Env) (k user_id : ℕ) (t : Db)
      → AllPaid user_id t.referrals
      → reward_if_eligible c later k user_id t ≡ (ok tt, t)
  unfolding reward_if_eligible
  paid_pays_nothing later k user_id t paid =
      let p = λ (r : Referral). r.referee_id == user_id in
      elim (Option-cases (c.referral.find_first p t.referrals)) [
        | inl nothing ↦ ground (arith, nothing)
        | inr (r, found) ↦
            let (place, hit) = c.referral.find_first_some p t.referrals r found in
            let gone =
              All-In
                (λ (z : Referral).
                  (z.referee_id == user_id) ≡ true → is_referral_pending z.status ≡ false)
                r t.referrals paid place hit in
            ground (arith, found, gone)
      ]

  marked_rows :
      (env : Env) (id : ℕ) (s t : Db) (r : Referral)
      → mark_rewarded c env id s ≡ (ok r, t)
      → t.referrals ≡ update_where (λ z. z.id == id) (paid_at env) s.referrals
  unfolding mark_rewarded
  marked_rows env id s t r e =
      let p = λ (z : Referral). z.id == id in
      let f = paid_at env in
      elim (Option-cases (c.referral.update p f s.referrals)) [
        | inl missing ↦ absurd (ground (arith, missing))
        | inr ((x, rows), made) ↦
            let after : t.referrals ≡ rows = ground (arith, made) in
            subst (λ z. t.referrals ≡ z) (update-rows c.referral p f s.referrals rows x made) after
      ]

  kept_referrals :
      (env : Env) (k user_id points : ℕ) (reason : LoyaltyReason) (ref : Option ℕ) (s t : Db)
      (a : Unit {0})
      → add_points c env k user_id points reason ref s ≡ (ok a, t)
      → t.referrals ≡ s.referrals
  kept_referrals env k user_id points reason ref s t a e =
      subst (λ z. z.1.referrals ≡ s.referrals) e
        (add_points-referrals c env k user_id points reason ref s)

  reward_rows :
      (env : Env) (k : ℕ) (r : Referral) (s t : Db)
      → reward c env k r s ≡ (ok tt, t)
      → t.referrals ≡ update_where (λ z. z.id == r.id) (paid_at env) s.referrals
  unfolding reward
  reward_rows env k r s t e =
      let n = referral_reward_points in
      let one = add_points c env k r.referrer_id n referral_success (some r.id) in
      let two = add_points c env (k + 2) r.referee_id n referral_welcome (some r.id) in
      let mark = mark_rewarded c env r.id >> pure tt in
      let (a1, s1, e1, k1) = bind_ok one (λ _. two >> mark) s e in
      let (a2, s2, e2, k2) = bind_ok two (λ _. mark) s1 k1 in
      let (a3, s3, e3, k3) = bind_ok (mark_rewarded c env r.id) (λ _. pure tt) s2 k2 in
      let first = kept_referrals env k r.referrer_id n referral_success (some r.id) s s1 a1 e1 in
      let second =
        kept_referrals env (k + 2) r.referee_id n referral_welcome (some r.id) s1 s2 a2 e2 in
      let last : t.referrals ≡ s3.referrals = ap (λ z. z.1.referrals) (sym k3) in
      last
      ∙ marked_rows env r.id s2 s3 a3 e3
      ∙ ap (update_where (λ z. z.id == r.id) (paid_at env)) (second ∙ first)

  AllPaid-marked :
      (env : Env) (user_id : ℕ) (r : Referral) (t : List Referral)
      → UniqueReferees t
      → In r t
      → (r.referee_id == user_id) ≡ true
      → AllPaid user_id (update_where (λ z. z.id == r.id) (paid_at env) t)
  AllPaid-marked env user_id r t unique place hit =
      let p = λ (z : Referral). z.id == r.id in
      All-update_where p (paid_at env)
        (λ z. (z.referee_id == user_id) ≡ true → is_referral_pending z.status ≡ false) t
        (λ x same own. marked_paid env user_id r x same own)
        (All-of_In (λ x. (x.referee_id == user_id) ≡ true → x ≡ r) t
          (λ x i own. same_row (λ z. z.referee_id) x r t unique i place (ground (arith, own, hit))))

  -- if no two referrals of the table are of one newcomer, then in the state that a call of `rewardIfEligible` which returned left, another call for the same newcomer, at any time, returns and writes nothing.
  pub reward_if_eligible_once :
      (env later : Env) (k k' user_id : ℕ) (s t : Db)
      → UniqueReferees s.referrals
      → reward_if_eligible c env k user_id s ≡ (ok tt, t)
      → reward_if_eligible c later k' user_id t ≡ (ok tt, t)
  unfolding reward_if_eligible
  reward_if_eligible_once env later k k' user_id s t unique e =
      let p = λ (r : Referral). r.referee_id == user_id in
      elim (Option-cases (c.referral.find_first p s.referrals)) [
        | inl nothing ↦
            let same : t ≡ s = ground (arith, nothing) in
            subst (λ z. reward_if_eligible c later k' user_id z ≡ (ok tt, z)) (sym same)
              (ground (arith, nothing))
        | inr (r, found) ↦ elim (Bool-cases (is_referral_pending r.status)) [
          | inr settled ↦
              let same : t ≡ s = ground (arith, found, settled) in
              subst (λ z. reward_if_eligible c later k' user_id z ≡ (ok tt, z)) (sym same)
                (ground (arith, found, settled))
          | inl pending ↦
              let (place, hit) = c.referral.find_first_some p s.referrals r found in
              let run : reward c env k r s ≡ (ok tt, t) = ground (arith, found, pending) in
              paid_pays_nothing later k' user_id t (
                subst (AllPaid user_id) (sym (reward_rows env k r s t run))
                  (AllPaid-marked env user_id r s.referrals unique place hit))
        ]
      ]
