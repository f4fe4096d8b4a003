-- ===== src/Inspect/Ceph.antt =====
-- inspect/ceph_parse.go: the findings on the output of ceph.
pub mod Items
pub mod Quorum
use storage_bot.Base.{
  ℕ, ◌+◌, ◌/◌, Bool, true, false, not, ◌&&◌, ◌||◌, List, [], ◌∷◌, ◌++◌, Text, lit, cat, text_eq,
  if◌then◌else◌, Option, none, some, contains, to_lower, trim_space, split_at, has_prefix, keep,
  map, length, ◌==◌, ltb, is_digit,
}
use storage_bot.Base.Int.{ℤ, pos, ltb_ℤ, ◌-ℤ◌}
use storage_bot.Base.Decimal.{atoi, itoa}
use storage_bot.Regex.{
  Re, Found, empty, one, many, seq, group, line_begin, line_end, word_edge, find, group_of,
}
use storage_bot.Inspect.Level.{
  Level, level_ok, level_warn, level_critical, level_unknown, Finding, Metrics, finding,
}

unfoldable pub literal : Text → Re
literal [] = empty
literal (c ∷ s) = seq (one (λ x. x == c)) (literal s)

abbrev pub is_blank : ℕ → Bool
is_blank c = c == 9 || c == 10 || c == 12 || c == 13 || c == 32

abbrev blanks : Re
blanks = many is_blank

abbrev number : ℕ → Re
number n = group n (seq (one is_digit) (many is_digit))

abbrev pub is_decimal : ℕ → Bool
is_decimal c = is_digit c || c == b'.'

-- Arithmetic on float64 and its printing: package strconv and the hardware.
pub record Floats (F : Type 0) : Type 0 where
  pub parse_float : Text → F × Bool
  pub of_int : ℤ → F
  pub leb_F : F → F → Bool
  pub ltb_F : F → F → Bool
  pub eq_F : F → F → Bool
  pub zero_F : F
  pub hundred : F
  pub divided : F → F → F
  pub times : F → F → F
  pub fixed : ℕ → F → Text
  pub shortest : F → Text

unfoldable pub parse_ceph_health : Text → Finding
parse_ceph_health raw =
    let of_level =
      λ (l : Level) (s : Text). record (finding (lit "ceph_health") l s) { detail = raw } in
    if contains raw (lit "HEALTH_OK")
    then of_level level_ok (lit "集群健康 HEALTH_OK")
    else (if contains raw (lit "HEALTH_WARN")
        then of_level level_warn (lit "集群 HEALTH_WARN")
        else (if contains raw (lit "HEALTH_ERR")
            then of_level level_critical (lit "集群 HEALTH_ERR")
            else of_level level_unknown (lit "无法解析 health 输出")))

unfoldable pub osd_stat_re : Re
unfolding literal
osd_stat_re = seq (number 1) (
    seq (literal (lit " osds:")) (
      seq blanks (
        seq (number 2) (
          seq (literal (lit " up")) (
            seq (many (λ c. not (c == b',')))
              (seq (literal (lit ",")) (seq blanks (seq (number 3) (literal (lit " in"))))))))))

osd_metrics : ℤ → ℤ → ℤ → Metrics
osd_metrics total up inside =
    (lit "osd_total", itoa total)
    ∷ (lit "osd_up", itoa up)
    ∷ (lit "osd_in", itoa inside)
    ∷ (lit "osd_down", itoa (total -ℤ up))
    ∷ (lit "osd_out", itoa (total -ℤ inside))
    ∷ []

-- The finding, by the three counts.
unfoldable pub osd_finding : Text → ℤ → ℤ → ℤ → Finding
unfolding osd_metrics
osd_finding raw total up inside =
    if ltb_ℤ (pos 0) (total -ℤ up) || ltb_ℤ (pos 0) (total -ℤ inside)
    then record (finding (lit "ceph_osd") level_critical (
        cat (
          itoa (total -ℤ up) ∷ lit " 个 OSD down, " ∷ itoa (total -ℤ inside) ∷ lit " 个 out" ∷ []))) {
            metrics = osd_metrics total up inside;
            detail = raw;
            advice = lit "检查 down 的 OSD 进程与磁盘；必要时 `ceph osd in <id>`";
          }
    else record (finding (lit "ceph_osd") level_ok
        (cat (lit "全部 " ∷ itoa total ∷ lit " 个 OSD up/in" ∷ []))) {
          metrics = osd_metrics total up inside;
          detail = raw;
        }

osd_stat_of : Text → Option Found → Finding
unfolding osd_finding
osd_stat_of raw none = record (finding (lit "ceph_osd") level_unknown (lit "无法解析 osd stat")) {
  detail = raw;
}
osd_stat_of raw (some f) =
    osd_finding raw (atoi (group_of 1 f.groups)).0 (atoi (group_of 2 f.groups)).0
      (atoi (group_of 3 f.groups)).0

unfoldable pub parse_osd_stat : Text → Finding
unfolding osd_stat_of
parse_osd_stat raw = osd_stat_of raw (find osd_stat_re raw)

unfoldable pub df_total_re : Re
unfolding literal
df_total_re = seq line_begin (
    seq (literal (lit "TOTAL")) (
      seq word_edge (
        seq (many (λ c. not (c == b'\n'))) (
          seq (one is_blank)
            (seq (group 1 (seq (one is_decimal) (many is_decimal))) (seq blanks line_end))))))

-- A percentage against its two thresholds.
unfoldable pub level_against : {F : Type 0} → Floats F → F → ℤ → ℤ → Level
level_against fl pct warn crit =
    if fl.leb_F (fl.of_int crit) pct
    then level_critical
    else (if fl.leb_F (fl.of_int warn) pct then level_warn else level_ok)

module _ {F : Type 0} (fl : Floats F) where
  df_number : Text → ℤ → ℤ → Text → F × Bool → Finding
  df_number raw warn crit word (pct, false) =
      record (finding (lit "ceph_capacity") level_unknown (lit "无法解析使用率数值")) { detail = raw }
  df_number raw warn crit word (pct, true) =
      record (finding (lit "ceph_capacity") (level_against fl pct warn crit) (
        cat (
          lit "全局使用率 "
          ∷ fl.fixed 2 pct
          ∷ lit "%（warn="
          ∷ itoa warn
          ∷ lit " crit="
          ∷ itoa crit
          ∷ lit "）"
          ∷ []))) { metrics = (lit "used_pct", word) ∷ []; detail = raw }

  df_of : Text → ℤ → ℤ → Option Found → Finding
  unfolding df_number
  df_of raw warn crit none =
      record (finding (lit "ceph_capacity") level_unknown (lit "无法解析 ceph df")) { detail = raw }
  df_of raw warn crit (some f) =
      df_number raw warn crit (group_of 1 f.groups) (fl.parse_float (group_of 1 f.groups))

  unfoldable pub parse_ceph_df : Text → ℤ → ℤ → Finding
  unfolding df_of
  parse_ceph_df raw warn crit = df_of raw warn crit (find df_total_re raw)

-- The lists that encoding/json reads from the answer: the ranks in the quorum, and the names of the
-- monitors.
pub record QuorumStatus : Type 0 where
  pub quorum : List ℤ
  pub mons : List Text

quorum_of : Text → ℕ → ℕ → Finding
quorum_of raw in_quorum total =
    let counts = cat (lit "quorum " ∷ itoa (pos in_quorum) ∷ lit "/" ∷ itoa (pos total) ∷ []) in
    if total == 0
    then record (finding (lit "ceph_mon") level_unknown (lit "monmap 为空")) { detail = raw }
    else (if ltb in_quorum (total / 2 + 1)
        then record (finding (lit "ceph_mon") level_critical (counts ++ lit "，不足多数")) {
          detail = raw;
          advice = lit "检查失联的 mon 进程与网络";
        }
        else record (finding (lit "ceph_mon") level_ok (counts ++ lit " 正常")) { detail = raw })

quorum_decoded : Text → Option QuorumStatus → Finding
unfolding quorum_of
quorum_decoded raw none =
    record (finding (lit "ceph_mon") level_unknown (lit "无法解析 quorum_status")) { detail = raw }
quorum_decoded raw (some q) = quorum_of raw (length q.quorum) (length q.mons)

unfoldable pub parse_mon_quorum : (Text → Option QuorumStatus) → Text → Finding
unfolding quorum_decoded
parse_mon_quorum decode raw = quorum_decoded raw (decode raw)

unfoldable pub parse_pg_stat : Text → Finding
parse_pg_stat raw =
    let lower = to_lower raw in
    let of_level =
      λ (l : Level) (s : Text). record (finding (lit "ceph_pg") l s) { detail = raw } in
    if contains lower (lit "inactive")
      || contains lower (lit "incomplete")
      || contains lower (lit "stale")
    then record (of_level level_critical (lit "存在 inactive/incomplete/stale PG")) {
      advice = lit "`ceph pg dump_stuck` 排查";
    }
    else (if contains lower (lit "degraded") || contains lower (lit "undersized")
        then of_level level_warn (lit "存在 degraded/undersized PG")
        else (if contains lower (lit "active+clean")
            then of_level level_ok (lit "PG 全部 active+clean")
            else of_level level_unknown (lit "无法判定 PG 状态")))

unfoldable pub parse_slow_ops : Text → Finding
parse_slow_ops raw =
    if contains raw (lit "SLOW_OPS") || contains (to_lower raw) (lit "slow ops")
    then record (finding (lit "ceph_slow_ops") level_warn (lit "存在慢请求 slow ops")) {
      detail = raw;
      advice = lit "`ceph daemon osd.N dump_ops_in_flight` 定位";
    }
    else record (finding (lit "ceph_slow_ops") level_ok (lit "无慢请求")) { detail = raw }

last_of : Text → List Text → Text
last_of l [] = l
last_of l (m ∷ ms) = last_of m ms

crash_finding : Text → List Text → Finding
unfolding last_of
crash_finding raw [] = record (finding (lit "ceph_crash") level_ok (lit "无未确认 crash")) {
  detail = raw;
}
crash_finding raw (l ∷ ls) =
    record (finding (lit "ceph_crash") level_warn
      (cat (itoa (pos (length (l ∷ ls))) ∷ lit " 条未确认 crash，最近：" ∷ last_of l ls ∷ []))) {
        detail = raw;
        advice = lit "`ceph crash info <id>` 查看；确认后 `ceph crash archive-all`";
      }

unfoldable pub parse_crash_ls : Text → Finding
unfolding crash_finding
parse_crash_ls raw = crash_finding raw (
    keep (λ s. not (text_eq s []) && not (has_prefix s (lit "ID")))
      (map trim_space (split_at b'\n' [] (trim_space raw))))
