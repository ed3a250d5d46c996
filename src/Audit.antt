-- ===== src/Audit.antt =====
-- apps/backend/src/common/audit/audit.service.ts: the log of what administrators did.
use booking_platform_claude.Prelude.{List}
use booking_platform_claude.Schema.{AuditLog}
use booking_platform_claude.Store.{Db, Client}
use booking_platform_claude.Store.Action.{Action, stored}

abbrev set_audit_logs : List AuditLog → Db → Db
set_audit_logs t s = record s { audit_logs = t }

-- `log`, with the row that its parameters make
unfoldable pub log_audit : Client → AuditLog → Action (Unit {0})
log_audit c entry s = stored (c.audit_log.create entry s.audit_logs) set_audit_logs s
