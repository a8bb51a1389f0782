-- ===== src/Kernel/Audit.antt =====
-- packages/gkos-kernel/src/audit.ts: the append-only log. `valid` is the schema check of a record,
-- which is the typebox library's.
use gatekeeper_os.Prelude.{Bool, List, [], ◌∷◌, ◌++◌, Option, none, some, if◌then◌else◌}
use gatekeeper_os.Shared.{AuditRecord}

-- A record that the schema refuses is thrown on, before anything is appended.
unfoldable pub write :
    (AuditRecord → Bool) → List AuditRecord → AuditRecord → Option (List AuditRecord)
write valid log r = if valid r then some (log ++ r ∷ []) else none
