-- ===== src/Inspect/Bond.antt =====
-- inspect/bond_delta.go: the link failures of a node's bonds, against the two inspections before.
pub mod Verdict
pub mod Totals
use storage_bot.Base.{
  ℕ, Bool, true, false, not, ◌&&◌, ◌||◌, List, [], ◌∷◌, ◌++◌, Text, lit, text_eq, if◌then◌else◌,
  Option, none, some, map,
}
use storage_bot.Base.Int.{ℤ, pos, ◌-ℤ◌, ltb_ℤ}
use storage_bot.Base.Decimal.{atoi, itoa}
use storage_bot.Inspect.Level.{
  Level, level_ok, level_warn, level_critical, level_unknown, Finding, Report, metric, set_metric,
}

unfoldable pub number_of : ℤ × Bool → Option ℤ
number_of (n, true) = some n
number_of (n, false) = none

unfoldable pub number_at : Option Text → Option ℤ
unfolding number_of
number_at none = none
number_at (some v) = number_of (atoi v)

unfoldable pub bond_total : Finding → Option ℤ
unfolding number_at
bond_total f = number_at (metric f.metrics (lit "link_failure_total"))

-- A map from nodes to totals; the entry written last comes first.
abbrev pub Baseline : Type 0
Baseline = List (Text × ℤ)

unfoldable pub baseline_at : Baseline → Text → Option ℤ
baseline_at [] node = none
baseline_at ((k, n) ∷ m) node = if text_eq k node then some n else baseline_at m node

-- One round of the loop.
note_total : Baseline → Finding → Option ℤ → Baseline
note_total m f none = m
note_total m f (some n) = (f.node, n) ∷ m

baseline_from : Baseline → List Finding → Baseline
unfolding note_total
baseline_from m [] = m
baseline_from m (f ∷ fs) =
    baseline_from
      (if not (text_eq f.item (lit "hw_bond")) then m else note_total m f (bond_total f)) fs

unfoldable pub bond_baseline : Option Report → Baseline
unfolding baseline_from
bond_baseline none = []
bond_baseline (some prev) = baseline_from [] prev.findings

-- `has && d > 0`, for a difference to a baseline that may be missing.
abbrev pub grew : ℤ → Option ℤ → Bool
grew cur none = false
grew cur (some b) = ltb_ℤ (pos 0) (cur -ℤ b)

-- The difference to a baseline; a missing one is 0.
abbrev delta : ℤ → Option ℤ → ℤ
delta cur none = cur -ℤ pos 0
delta cur (some b) = cur -ℤ b

-- `has2 && d2 > d1`.
abbrev more_than : ℤ → Option ℤ → Option ℤ → Bool
more_than cur b1 none = false
more_than cur b1 (some b2) = ltb_ℤ (delta cur b1) (cur -ℤ b2)

-- The branches with growth since the last inspection, and those with growth since the one before only.
recent_growth : Finding → ℤ → Option ℤ → Option ℤ → Finding
recent_growth f cur b1 b2 =
    let d1 = itoa (delta cur b1) in
    let d2 = itoa (delta cur b2) in
    let noted = set_metric f.metrics (lit "link_failure_delta") d1 in
    if more_than cur b1 b2
    then record f {
      metrics = set_metric noted (lit "link_failure_delta2") d2;
      summary =
          lit "bond Link Failure 较上次新增 "
          ++ (d1 ++ (lit " 次、较上上次累计新增 " ++ (d2 ++ (lit " 次（累计 " ++ (itoa cur ++ lit " 次）")))));
    }
    else record f {
      metrics = noted;
      summary = lit "bond Link Failure 较上次新增 " ++ (d1 ++ (lit " 次（累计 " ++ (itoa cur ++ lit " 次）")));
    }

window_growth : Finding → ℤ → Option ℤ → Finding
window_growth f cur b2 =
    let d2 = itoa (delta cur b2) in
    record f {
      metrics = set_metric f.metrics (lit "link_failure_delta2") d2;
      summary =
          lit "bond Link Failure 较上次无新增，但较上上次新增 "
          ++ (d2 ++ (lit " 次（可能漏看上次报告，累计 " ++ (itoa cur ++ lit " 次）")));
    }

unfoldable pub apply_node_delta : Finding → ℤ → Option ℤ → Option ℤ → Finding
unfolding recent_growth window_growth
apply_node_delta f cur b1 b2 =
    if not (grew cur b1) && not (grew cur b2)
    then record f {
      level = level_ok;
      summary = lit "bond Link Failure 累计 " ++ (itoa cur ++ lit " 次，最近无新增");
    }
    else if grew cur b1
    then recent_growth f cur b1 b2
    else window_growth f cur b2

abbrev is_warn : Level → Bool
is_warn level_ok = false
is_warn level_warn = true
is_warn level_critical = false
is_warn level_unknown = false

-- With the finding's total and the node's two baselines.
with_baselines : Finding → ℤ → Option ℤ → Option ℤ → Finding
with_baselines f cur none none = record f {
  summary = lit "bond 累计 Link Failure " ++ (itoa cur ++ lit " 次（首次记录，作为基线）");
}
with_baselines f cur (some b1) b2 = apply_node_delta f cur (some b1) b2
with_baselines f cur none (some b2) = apply_node_delta f cur none (some b2)

with_total : Baseline → Baseline → Finding → Option ℤ → Finding
unfolding with_baselines
with_total base1 base2 f none = f
with_total base1 base2 f (some cur) =
    with_baselines f cur (baseline_at base1 f.node) (baseline_at base2 f.node)

-- One round of the loop over the report's findings.
unfoldable pub bond_delta : Baseline → Baseline → Finding → Finding
unfolding with_total
bond_delta base1 base2 f =
    if not (text_eq f.item (lit "hw_bond")) || not (is_warn f.level)
    then f
    else with_total base1 base2 f (bond_total f)

unfoldable pub apply_bond_delta : Report → Option Report → Option Report → Report
apply_bond_delta rep prev1 prev2 = record rep {
  findings = map (bond_delta (bond_baseline prev1) (bond_baseline prev2)) rep.findings;
}
