-- ===== src/Referral.antt =====
-- apps/backend/src/modules/referral/referral.service.ts: who brought whom, and the points that both
-- get at the newcomer's first purchase.
pub mod Frame
pub mod Once
use booking_platform_claude.Prelude.{ℕ, ◌+◌, Option, none, some, List, ◌==◌, if◌then◌else◌, is_some}
use booking_platform_claude.Schema.{
  Referral, ReferralStatus, is_referral_pending, LoyaltyReason, referral_success, referral_welcome,
}
use booking_platform_claude.Store.{Db, Client, Env}
use booking_platform_claude.Store.Action.{
  Action, ok, err, pure, gets, ◌>>=◌, ◌>>◌, stored, stored_row,
}
use booking_platform_claude.Loyalty.{add_points}

-- `REFERRAL_REWARD_POINTS`
abbrev pub referral_reward_points : ℕ
referral_reward_points = 100

abbrev set_referrals : List Referral → Db → Db
set_referrals t s = record s { referrals = t }

-- `catch (err) { this.logger.warn(…) }`
abbrev swallow : Action (Unit {0}) → Action (Unit {0})
swallow m s = let (r, s') = m s in (ok tt, s')

-- A fresh referral waits for the first purchase.
abbrev pub new_referral : ℕ → ℕ → ℕ → Referral
new_referral id referrer_id referee_id = record {
  id = id;
  referrer_id = referrer_id;
  referee_id = referee_id;
  status = ReferralStatus.pending;
  rewarded_at = none;
}

module _ (c : Client) (env : Env) where
  -- `getMyCode`
  pub get_my_code : ℕ → ℕ
  get_my_code user_id = user_id

  unfoldable pub create_referral : Referral → Action (Unit {0})
  create_referral r s = stored (c.referral.create r s.referrals) set_referrals s

  -- `registerReferral`, with the `k`-th new identifier
  unfoldable pub register_referral : ℕ → ℕ → ℕ → Action (Unit {0})
  unfolding create_referral
  register_referral k referrer_code referee_id =
      let create = create_referral (new_referral (env.uuid k) referrer_code referee_id) in
      let known = λ (s : Db). c.user.find_first (λ u. u.id == referrer_code) s.users in
      let existing =
        λ (s : Db). c.referral.find_first (λ r. r.referee_id == referee_id) s.referrals in
      let unless_existing = (do found ← gets existing; if is_some found then pure tt else create) in
      let unless_unknown = (do
        referrer ← gets known
        if is_some referrer then unless_existing else pure tt) in
      swallow (if referrer_code == referee_id then pure tt else unless_unknown)

  unfoldable pub mark_rewarded : ℕ → Action Referral
  mark_rewarded id s =
      stored_row
        (c.referral.update (λ r. r.id == id)
          (λ r. record r { status = ReferralStatus.rewarded; rewarded_at = some env.now })
          s.referrals)
        set_referrals s

  -- The two rewards and the mark, for a referral that is still pending.
  unfoldable pub reward : ℕ → Referral → Action (Unit {0})
  unfolding mark_rewarded
  reward k referral = do
    add_points c env k referral.referrer_id referral_reward_points referral_success
        (some referral.id)
    add_points c env (k + 2) referral.referee_id referral_reward_points referral_welcome
        (some referral.id)
    mark_rewarded referral.id
    pure tt

  abbrev pub reward_pending : ℕ → Option Referral → Action (Unit {0})
  reward_pending k none = pure tt
  reward_pending k (some referral) =
      if is_referral_pending referral.status then reward k referral else pure tt

  -- `rewardIfEligible`, with four new identifiers from the `k`-th on
  unfoldable pub reward_if_eligible : ℕ → ℕ → Action (Unit {0})
  reward_if_eligible k referee_id = do
    referral ← gets (λ s. c.referral.find_first (λ r. r.referee_id == referee_id) s.referrals)
    reward_pending k referral
