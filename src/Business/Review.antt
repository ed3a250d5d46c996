-- ===== src/Business/Review.antt =====
-- The review of a business in apps/backend/src/modules/business/business.service.ts: the queue, and
-- the three decisions, each followed by its line in the audit log.
use booking_platform_claude.Prelude.{ℕ, Bool, true, false, Option, none, some, List}
use booking_platform_claude.Schema.{Business, BusinessStatus, AuditLog, AuditAction}
use booking_platform_claude.Store.{Client, Env, SortOrder}
use booking_platform_claude.Store.Action.{Action, pure, gets, ◌>>=◌, ◌>>◌}
use booking_platform_claude.Audit.{log_audit}
use booking_platform_claude.Business.{assert_exists, set_business}

abbrev pub is_in_review : BusinessStatus → Bool
is_in_review BusinessStatus.pending_review = true
is_in_review _ = false

module _ (c : Client) (env : Env) where
  -- `listPendingForAdmin`, the included documents left out
  unfoldable pub list_pending_for_admin : Action (List Business)
  list_pending_for_admin = gets (λ s.
      c.business.find_ordered SortOrder.asc (λ b. b.created_at) (λ b. is_in_review b.status)
        s.businesses)

  abbrev pub review_entry : ℕ → AuditAction → ℕ → Option ℕ → AuditLog
  review_entry admin_id action business_id reason = record {
    id = env.uuid 0;
    actor_id = admin_id;
    action = action;
    entity_id = business_id;
    amount = none;
    reason = reason;
  }

  -- `approve`
  unfoldable pub approve : ℕ → ℕ → Action Business
  approve business_id admin_id = do
    _ ← assert_exists c env business_id
    business ←
        set_business c env business_id
          (λ b. record b { status = BusinessStatus.approved; reject_reason = none })
    log_audit c (review_entry admin_id AuditAction.business_approved business_id none)
    pure business

  -- `reject`
  unfoldable pub reject : ℕ → ℕ → ℕ → Action Business
  reject business_id admin_id reason = do
    _ ← assert_exists c env business_id
    business ←
        set_business c env business_id
          (λ b. record b { status = BusinessStatus.rejected; reject_reason = some reason })
    log_audit c (review_entry admin_id AuditAction.business_rejected business_id (some reason))
    pure business

  -- `suspend`
  unfoldable pub suspend : ℕ → ℕ → ℕ → Action Business
  suspend business_id admin_id reason = do
    _ ← assert_exists c env business_id
    business ←
        set_business c env business_id
          (λ b. record b { status = BusinessStatus.suspended; reject_reason = some reason })
    log_audit c (review_entry admin_id AuditAction.business_suspended business_id (some reason))
    pure business
