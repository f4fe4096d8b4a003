-- ===== src/Security/Validator.antt =====
-- security/validator.go: which commands may run, and what of a message reaches the LLM.
pub mod Laws
pub mod Words
mod Tests
use storage_bot.Base.{
  ℕ, Bool, true, false, ◌&&◌, ◌||◌, Option, none, some, List, [], ◌∷◌, String, map, Text, lit,
  text_eq, ltb, ◌==◌, if◌then◌else◌, has_prefix, to_lower, join, trim_space, fields, take, any,
  keep,
}
use storage_bot.Regex.{match_string}
use storage_bot.Security.Patterns.{Pattern, dangerous_patterns, shell_meta_chars}

-- The errors of the validator, with what their messages show.
pub data Denial : Type 0 where
  empty_command empty_ceph_command : Denial
  dangerous not_allowed meta_chars : Text → Denial

first_match : List Pattern → Text → Option Denial
first_match [] cmd = none
first_match (p ∷ ps) cmd =
    if match_string p.re cmd then some (dangerous p.source) else first_match ps cmd

-- `none` is the nil error.
unfoldable pub validate_command : Text → Option Denial
unfolding first_match
validate_command cmd = elim (trim_space cmd) [
  | [] ↦ some empty_command
  | c ∷ s ↦ first_match dangerous_patterns (c ∷ s)
]

unfoldable pub read_only_prefixes : List Text
read_only_prefixes = map lit (
    "status" ∷ "health" ∷ "osd tree" ∷ "osd df" ∷ "osd stat" ∷ "osd status" ∷ "osd pool ls"
    ∷ "osd pool get" ∷ "osd pool stats" ∷ "df" ∷ "pg stat" ∷ "pg dump" ∷ "pg dump_stuck" ∷ "pg ls"
    ∷ "mon stat" ∷ "mon dump" ∷ "quorum_status" ∷ "fs ls" ∷ "fs get" ∷ "mds stat" ∷ "orch ls"
    ∷ "orch ps" ∷ "orch status" ∷ "crash ls" ∷ "crash ls-new" ∷ "crash info" ∷ "config show"
    ∷ "config get" ∷ "config dump" ∷ "version" ∷ "versions" ∷ "auth ls" ∷ "auth get" ∷ "tell"
    ∷ "daemon" ∷ "balancer status" ∷ "osd perf" ∷ "osd pool autoscale-status" ∷ "time-sync-status"
    ∷ "fsid" ∷ "mon dump" ∷ [])

unfoldable pub allowed_write_exact : List Text
allowed_write_exact = map lit (
    "osd set nobackfill" ∷ "osd set norebalance" ∷ "osd set norecover" ∷ "osd set noout"
    ∷ "osd unset nobackfill" ∷ "osd unset norebalance" ∷ "osd unset norecover" ∷ "osd unset noout"
    ∷ [])

check_ceph : Text → Option Denial
check_ceph full =
    let lower = to_lower full in
    if any (has_prefix lower) read_only_prefixes
    then none
    else if any (text_eq lower) allowed_write_exact
    then none
    else some (not_allowed full)

unfoldable pub validate_ceph_command : List Text → Option Denial
unfolding check_ceph
validate_ceph_command [] = some empty_ceph_command
validate_ceph_command (a ∷ args) = check_ceph (join (a ∷ args) (lit " "))

abbrev pub llm_visible : ℕ → Bool
llm_visible r = if ltb r 32 then r == b'\n' || r == b'\r' || r == b'\t' else true

-- A character below 32 is one byte, and no byte of a longer character is below 32.
unfoldable pub sanitize_for_llm : Text → Text
sanitize_for_llm input = take 2000 (keep llm_visible input)

unfoldable pub safe_commands : List Text
safe_commands = map lit (
    "tail" ∷ "head" ∷ "cat" ∷ "grep" ∷ "df" ∷ "free" ∷ "uptime" ∷ "ps" ∷ "dmesg" ∷ "journalctl"
    ∷ "iostat" ∷ "ip" ∷ "ss" ∷ "netstat" ∷ "find" ∷ "ls" ∷ "stat" ∷ "smartctl" ∷ "lsblk" ∷ "blkid"
    ∷ "lspci" ∷ "readlink" ∷ "dmidecode" ∷ "ethtool" ∷ "top" ∷ "vmstat" ∷ "mpstat" ∷ "nproc"
    ∷ "lscpu" ∷ "echo" ∷ "awk" ∷ "sed" ∷ "sort" ∷ "uniq" ∷ "wc" ∷ "tr" ∷ "cut" ∷ "ceph" ∷ "rbd"
    ∷ "rados" ∷ [])

check_first : List Text → Option Denial
check_first [] = none
check_first (p ∷ ps) = if any (text_eq p) safe_commands then none else some (meta_chars p)

unfoldable pub validate_ssh_command : Text → Option Denial
unfolding check_first
validate_ssh_command cmd = elim (validate_command cmd) [
  | some e ↦ some e
  | none ↦ if match_string shell_meta_chars cmd then check_first (fields cmd) else none
]
