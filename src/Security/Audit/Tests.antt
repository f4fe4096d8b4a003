-- ===== src/Security/Audit/Tests.antt =====
-- Runs of the audit log, and its theorems at concrete inputs.
use storage_bot.Base.{ℕ, ◌≡◌, refl, List, [], ◌∷◌, lit, min}
use storage_bot.Base.Int.{pos}
use storage_bot.Security.Audit.{AuditEntry, new_audit_log, record_entry, recent, format_recent}
use storage_bot.Security.Audit.History.{record_all, recent-record_all, keep_last}

abbrev call : ℕ → AuditEntry
call t = record {
  timestamp = t;
  user = lit "u";
  cluster_name = lit "cdn";
  action = lit "health";
  command = lit "x";
  status = lit "ok";
}

abbrev calls : List AuditEntry
calls = call 1 ∷ call 2 ∷ call 3 ∷ []

recent-record_all_example :
    recent (record_all (new_audit_log (pos 2)) calls) (pos 5)
    ≡ keep_last (min 5 (new_audit_log (pos 2)).max_size) calls
recent-record_all_example = recent-record_all (pos 2) calls 5

recent_run : recent (record_all (new_audit_log (pos 2)) calls) (pos 5) ≡ call 2 ∷ call 3 ∷ []
unfolding recent record_all new_audit_log record_entry
recent_run = refl

format_recent_none : format_recent (λ t. []) (new_audit_log (pos 1)) (pos 3) ≡ lit "暂无操作记录"
unfolding format_recent recent new_audit_log
format_recent_none = refl
