-- ===== src/Security/Audit/Valid.antt =====
-- The invariant of the ring buffer, and that every operation keeps it.
use storage_bot.Base.{
  ℕ, zero, suc, ◌≤◌, ◌<◌, ◌≡◌, Text, arith, length, length-set, length-replicate,
}
use storage_bot.Base.Int.{ℤ, pos, negsuc}
use storage_bot.Security.Audit.{
  AuditEntry, AuditLog, no_entry, log_of_size, new_audit_log, record_entry,
}

pub record IsValid (a : AuditLog) : Type 0 where
  pub size_pos : 0 < a.max_size
  pub storage : length a.buf ≡ a.max_size
  pub count_in : a.count ≤ a.max_size
  pub head_in : a.head < a.max_size
  -- the buffer turns over only when it is full
  pub head_zero : a.count < a.max_size → a.head ≡ 0

log_of_size-IsValid : (n : ℕ) → 0 < n → IsValid (log_of_size n)
unfolding log_of_size
log_of_size-IsValid n h = ground (arith, length-replicate n no_entry)

-- A new log is valid, also for a size that is not positive.
pub new_audit_log-IsValid : (size : ℤ) → IsValid (new_audit_log size)
unfolding new_audit_log
new_audit_log-IsValid (pos zero) = log_of_size-IsValid 10000 (omega arith)
new_audit_log-IsValid (pos (suc n)) = log_of_size-IsValid (suc n) (omega arith)
new_audit_log-IsValid (negsuc n) = log_of_size-IsValid 10000 (omega arith)

-- Recording an entry keeps the log valid, so no index of the buffer is out of range.
pub record_entry-IsValid :
    (a : AuditLog) (now : ℕ) (u c x y s : Text) → IsValid a → IsValid (record_entry a now u c x y s)
unfolding record_entry
record_entry-IsValid a now u c x y s v =
    ground (arith, length-set a.buf a.count e, length-set a.buf a.head e)
  where
    e : AuditEntry
    e = record { timestamp = now; user = u; cluster_name = c; action = x; command = y; status = s }
