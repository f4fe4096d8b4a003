-- ===== src/Security/Audit.antt =====
-- security/audit.go: the audit log, a ring buffer of a fixed number of entries. The mutex makes each
-- operation one step. A time is the nanoseconds of time.Now; the log line of slog is left out.
pub mod Valid
mod Ring
pub mod History
mod Tests
use storage_bot.Base.{
  ℕ, zero, suc, ◌+◌, ◌-◌, ◌%◌, ◌≡◌, List, [], ◌∷◌, ◌++◌, Text, lit, length, get_or, set, replicate,
  ltb, if◌then◌else◌,
}
use storage_bot.Base.Int.{ℤ, pos, negsuc}

pub record AuditEntry : Type 0 where
  pub timestamp : ℕ
  pub user : Text
  pub cluster_name : Text
  pub action : Text
  pub command : Text
  pub status : Text

pub record AuditLog : Type 0 where
  pub buf : List AuditEntry
  pub head : ℕ
  pub count : ℕ
  pub max_size : ℕ

-- The zero value, with which `make` fills the buffer.
abbrev pub no_entry : AuditEntry
no_entry = record {
  timestamp = 0;
  user = [];
  cluster_name = [];
  action = [];
  command = [];
  status = [];
}

log_of_size : ℕ → AuditLog
log_of_size n = record { buf = replicate n no_entry; head = 0; count = 0; max_size = n }

-- A size of zero or less stands for 10000.
unfoldable pub new_audit_log : ℤ → AuditLog
unfolding log_of_size
new_audit_log (pos zero) = log_of_size 10000
new_audit_log (pos (suc n)) = log_of_size (suc n)
new_audit_log (negsuc n) = log_of_size 10000

-- `now` is what time.Now returns.
unfoldable pub record_entry : AuditLog → ℕ → Text → Text → Text → Text → Text → AuditLog
record_entry a now user cluster_name action command status =
    let entry : AuditEntry = record {
      timestamp = now;
      user = user;
      cluster_name = cluster_name;
      action = action;
      command = command;
      status = status;
    } in
    if ltb a.count a.max_size
    then record a { buf = set a.buf a.count entry; count = a.count + 1 }
    else record a { buf = set a.buf a.head entry; head = (a.head + 1) % a.max_size }

-- The loop of Recent from round `i` on, with the rounds that are left.
pub read_from : List AuditEntry → ℕ → ℕ → ℕ → ℕ → List AuditEntry
read_from buf max_size start i zero = []
read_from buf max_size start i (suc k) =
    get_or buf ((start + i) % max_size) no_entry ∷ read_from buf max_size start (i + 1) k

recent_count : AuditLog → ℕ → List AuditEntry
recent_count a n =
    read_from a.buf a.max_size
      (if ltb a.count a.max_size then a.count - n else (a.head + a.count - n) % a.max_size) 0 n

-- A number of entries that is not positive gives none, and one past the count gives all.
unfoldable pub recent : AuditLog → ℤ → List AuditEntry
unfolding recent_count read_from
recent a (negsuc n) = []
recent a (pos n) = recent_count a (if ltb a.count n then a.count else n)

-- `clock` is the format "15:04:05" of a time, which package time renders.
module _ (clock : ℕ → Text) where
  format_entry : AuditEntry → Text
  format_entry e =
      lit "["
      ++ clock e.timestamp
      ++ lit "] user="
      ++ e.user
      ++ lit " cluster="
      ++ e.cluster_name
      ++ lit " action="
      ++ e.action
      ++ lit " status="
      ++ e.status
      ++ lit "\n"

  format_entries : List AuditEntry → Text
  format_entries [] = []
  format_entries (e ∷ es) = format_entry e ++ format_entries es

  unfoldable pub format_recent : AuditLog → ℤ → Text
  unfolding format_entries format_entry
  format_recent a n = elim (recent a n) [ [] ↦ lit "暂无操作记录" | e ∷ es ↦ format_entries (e ∷ es) ]
