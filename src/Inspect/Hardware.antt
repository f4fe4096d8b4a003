-- ===== src/Inspect/Hardware.antt =====
-- inspect/hardware_parse.go: the findings on memory, disks and load, and, passed on, on ports and bonds.
pub mod Items
pub mod Ports
unfoldable pub use Ports.*
use storage_bot.Base.{
  ℕ, suc, ◌+◌, Bool, true, false, not, ◌&&◌, ◌||◌, List, [], ◌∷◌, ◌++◌, Text, lit, cat, join,
  text_eq, if◌then◌else◌, Option, none, some, contains, trim_space, split_at, has_prefix,
  trim_suffix, fields, map, length, ◌==◌, is_digit, cut,
}
use storage_bot.Base.Int.{ℤ, pos, negsuc, ltb_ℤ, leb_ℤ, ◌+ℤ◌}
use storage_bot.Base.Decimal.{atoi, itoa}
use storage_bot.Regex.{Re, Found, empty, one, many, seq, group, find, group_of}
use storage_bot.Inspect.Level.{
  Level, level_ok, level_warn, level_critical, level_unknown, Finding, Metrics, finding,
}
use storage_bot.Inspect.Ceph.{Floats, literal, level_against, is_blank, is_decimal}

module _ {F : Type 0} (fl : Floats F) where
  memory_unknown : Text → Finding
  memory_unknown raw = record (finding (lit "hw_memory") level_unknown (lit "无法解析 free 输出")) {
    detail = raw;
  }

  memory_level : Text → ℤ → ℤ → F → Finding
  memory_level raw warn crit pct =
      record (finding (lit "hw_memory") (level_against fl pct warn crit)
        (cat (lit "内存使用率 " ∷ fl.fixed 1 pct ∷ lit "%" ∷ []))) {
          metrics = (lit "used_pct", fl.fixed 1 pct) ∷ [];
          detail = raw;
        }

  -- The numbers of the line; a number that cannot be read ends the search.
  memory_numbers : Text → ℤ → ℤ → F × Bool → F × Bool → Finding
  unfolding memory_unknown memory_level
  memory_numbers raw warn crit (total, ok1) (used, ok2) =
      if not ok1 || not ok2 || fl.eq_F total fl.zero_F
      then memory_unknown raw
      else memory_level raw warn crit (fl.times (fl.divided used total) fl.hundred)

  memory_line : Text → ℤ → ℤ → List Text → Finding → Finding
  unfolding memory_numbers
  memory_line raw warn crit (name ∷ total ∷ used ∷ more) later =
      if has_prefix name (lit "Mem")
      then memory_numbers raw warn crit (fl.parse_float total) (fl.parse_float used)
      else later
  memory_line raw warn crit [] later = later
  memory_line raw warn crit (a ∷ []) later = later
  memory_line raw warn crit (a ∷ b ∷ []) later = later

  memory_lines : Text → ℤ → ℤ → List Text → Finding
  unfolding memory_line memory_unknown
  memory_lines raw warn crit [] = memory_unknown raw
  memory_lines raw warn crit (l ∷ ls) =
      memory_line raw warn crit (fields l) (memory_lines raw warn crit ls)

  unfoldable pub parse_memory : Text → ℤ → ℤ → Finding
  unfolding memory_lines
  parse_memory raw warn crit = memory_lines raw warn crit (split_at b'\n' [] raw)

usage_finding : Text → Text → ℤ → Level → Finding
usage_finding mount use_str pct level =
    record (finding (lit "hw_disk_usage") level
      (cat (mount ∷ lit " 使用率 " ∷ itoa pct ∷ lit "%" ∷ []))) {
        metrics = (lit "mount", mount) ∷ (lit "used_pct", use_str) ∷ [];
      }

-- A file system's use in percent, if it could be read.
usage_of : ℤ → ℤ → Text → Text → ℤ × Bool → List Finding
unfolding usage_finding
usage_of warn crit mount use_str (pct, false) = []
usage_of warn crit mount use_str (pct, true) =
    if leb_ℤ crit pct
    then usage_finding mount use_str pct level_critical ∷ []
    else (if leb_ℤ warn pct then usage_finding mount use_str pct level_warn ∷ [] else [])

usage_line : ℤ → ℤ → List Text → List Finding
unfolding usage_of
usage_line warn crit (fs ∷ size ∷ used ∷ free ∷ usage ∷ mount ∷ more) =
    if text_eq fs (lit "Filesystem")
    then []
    else usage_of warn crit mount (trim_suffix usage (lit "%")) (atoi (trim_suffix usage (lit "%")))
usage_line warn crit [] = []
usage_line warn crit (a ∷ []) = []
usage_line warn crit (a ∷ b ∷ []) = []
usage_line warn crit (a ∷ b ∷ c ∷ []) = []
usage_line warn crit (a ∷ b ∷ c ∷ d ∷ []) = []
usage_line warn crit (a ∷ b ∷ c ∷ d ∷ e ∷ []) = []

usage_lines : ℤ → ℤ → List Text → List Finding
unfolding usage_line
usage_lines warn crit [] = []
usage_lines warn crit (l ∷ ls) = usage_line warn crit (fields l) ++ usage_lines warn crit ls

unfoldable pub parse_disk_usage : Text → ℤ → ℤ → List Finding
unfolding usage_lines
parse_disk_usage raw warn crit = usage_lines warn crit (split_at b'\n' [] raw)

unfoldable pub smart_pct_re : Re
unfolding literal
smart_pct_re =
    seq (literal (lit "Percentage Used:"))
      (seq (many is_blank) (seq (group 1 (seq (one is_digit) (many is_digit))) (literal (lit "%"))))

unfoldable pub smart_health_re : Re
unfolding literal
smart_health_re = seq (literal (lit "SMART Health Status:")) (
    seq (many is_blank)
      (group 1 (seq (one (λ c. not (is_blank c))) (many (λ c. not (is_blank c))))))

smart : Text → Text → Level → Text → Metrics → Text → Finding
smart dev raw level summary more advice =
    record (finding (lit "hw_disk_smart") level (cat (dev ∷ lit "：" ∷ summary ∷ []))) {
      metrics = (lit "device", dev) ∷ more;
      detail = raw;
      advice = advice;
    }

smart_health : Text → Text → Option Found → Finding
unfolding smart
smart_health dev raw none = smart dev raw level_unknown (lit "无法解析 smartctl 输出") [] []
smart_health dev raw (some f) =
    let status = group_of 1 f.groups in
    if text_eq status (lit "OK")
    then smart dev raw level_ok (lit "SMART OK") ((lit "health_status", status) ∷ []) []
    else smart dev raw level_critical (lit "SMART Health Status " ++ status)
        ((lit "health_status", status) ∷ []) (lit "磁盘健康状态异常，尽快排查更换")

smart_life : Text → Text → ℤ → ℤ → Option Found → Finding
unfolding smart smart_health
smart_life dev raw warn crit none =
    if contains raw (lit "self-assessment test result: PASSED")
    then smart dev raw level_ok (lit "SMART PASSED") [] []
    else smart_health dev raw (find smart_health_re raw)
smart_life dev raw warn crit (some f) =
    let used = (atoi (group_of 1 f.groups)).0 in
    let level : Level =
      if leb_ℤ crit used
      then level_critical
      else (if leb_ℤ warn used then level_warn else level_ok) in
    smart dev raw level (cat (lit "寿命已用 " ∷ itoa used ∷ lit "%" ∷ []))
      ((lit "percentage_used", group_of 1 f.groups) ∷ []) []

unfoldable pub parse_smart : Text → Text → ℤ → ℤ → Finding
unfolding smart smart_life
parse_smart dev raw warn crit =
    if contains raw (lit "command not found") || contains raw (lit "not installed")
    then smart dev raw level_unknown (lit "smartctl 不可用") []
        (lit "节点未安装 smartmontools，建议 `yum install smartmontools`")
    else (if contains raw (lit "self-assessment test result: FAILED")
        then smart dev raw level_critical (lit "SMART 自检 FAILED") [] (lit "磁盘自检失败，尽快更换")
        else smart_life dev raw warn crit (find smart_pct_re raw))

decimal : ℕ → Re
decimal n = group n (seq (one is_decimal) (many is_decimal))

unfoldable pub load_re : Re
unfolding literal decimal
load_re = seq (literal (lit "load average:")) (
    seq (many is_blank) (
      seq (decimal 1) (
        seq (literal (lit ",")) (
          seq (many is_blank)
            (seq (decimal 2) (seq (literal (lit ",")) (seq (many is_blank) (decimal 3))))))))

module _ {F : Type 0} (fl : Floats F) where
  load_unknown : Text → ℤ → Finding
  load_unknown raw cores = record (finding (lit "hw_cpu") level_unknown (lit "无法解析 load average")) {
    metrics = (lit "cores", itoa cores) ∷ [];
    detail = raw;
  }

  load_ratio : Text → ℤ → F → Found → F → F → Finding
  load_ratio raw cores warn f load1 ratio =
      let metrics : Metrics =
        (lit "cores", itoa cores)
        ∷ (lit "load1", group_of 1 f.groups)
        ∷ (lit "load5", group_of 2 f.groups)
        ∷ (lit "load15", group_of 3 f.groups)
        ∷ [] in
      if fl.leb_F warn ratio
      then record (finding (lit "hw_cpu") level_warn (
          cat (
            lit "load1="
            ∷ fl.fixed 1 load1
            ∷ lit " / "
            ∷ itoa cores
            ∷ lit " 核 = "
            ∷ fl.fixed 2 ratio
            ∷ lit " ≥ "
            ∷ fl.fixed 1 warn
            ∷ []))) { metrics = metrics; detail = raw }
      else record (finding (lit "hw_cpu") level_ok
          (cat (lit "load1=" ∷ fl.fixed 1 load1 ∷ lit " / " ∷ itoa cores ∷ lit " 核 正常" ∷ []))) {
            metrics = metrics;
            detail = raw;
          }

  load_of : Text → ℤ → F → Option Found → Finding
  unfolding load_unknown load_ratio
  load_of raw cores warn none = load_unknown raw cores
  load_of raw cores warn (some f) =
      let load1 = (fl.parse_float (group_of 1 f.groups)).0 in
      if leb_ℤ cores (pos 0)
      then load_unknown raw cores
      else load_ratio raw cores warn f load1 (fl.divided load1 (fl.of_int cores))

  unfoldable pub parse_load : Text → ℤ → F → Finding
  unfolding load_of
  parse_load raw cores warn = load_of raw cores warn (find load_re raw)
