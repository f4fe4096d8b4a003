-- ===== src/Inspect/Tests.antt =====
-- Runs of the inspection's reports, and its theorems at concrete inputs.
use storage_bot.Base.{
  ℕ, ◌+◌, ◌≡◌, ◌↔◌, refl, true, Option, none, some, List, [], ◌∷◌, ◌++◌, arith, Text, lit, length,
}
use storage_bot.Base
use storage_bot.Base.Decimal
use storage_bot.Base.Int
use storage_bot.Base.Int.{ℤ, pos}
use storage_bot.Inspect.Level.{
  Level, level_ok, level_warn, level_critical, level_unknown, Finding, Report, finalize, max_level,
  counts, abnormal, metric, set_metric,
}
use storage_bot.Inspect.Bond.{
  bond_total, bond_baseline, baseline_at, apply_node_delta, bond_delta, apply_bond_delta,
}
use storage_bot.Inspect.Bond.Verdict.{StaysWarned, bond_delta_verdict}
use storage_bot.Inspect.Bond.Totals.{bond_baseline-apply_bond_delta}
use storage_bot.Regex
use storage_bot.Inspect.Migrate.Once.{bond_total-backfill}
use storage_bot.Inspect.Migrate.{
  recover_bond_total, old_bond_warn_re, backfill_bond_finding, migrate_report,
}

inspection : Unit {0}
unfolding finalize max_level counts abnormal metric set_metric bond_total bond_baseline baseline_at
    apply_node_delta bond_delta apply_bond_delta Base.lit Base.text_eq Decimal.itoa Decimal.itoa_ℕ
    Decimal.atoi Decimal.parse_uint Decimal.scan Int.◌-ℤ◌
inspection = tt

abbrev bond : Text → Level → Finding
bond total l = record {
  item = lit "hw_bond";
  node = lit "n1";
  node_ip = [];
  level = l;
  summary = [];
  metrics = (lit "link_failure_total", total) ∷ [];
  detail = [];
  advice = [];
}

abbrev with_findings : List Finding → Report
with_findings fs = record {
  cluster = lit "cdn";
  started_at = 0;
  duration = 0;
  overall = level_ok;
  findings = fs;
  llm_summary = [];
}

abbrev mixed : Report
mixed = with_findings (
    bond (lit "0") level_ok
    ∷ bond (lit "3") level_warn
    ∷ bond (lit "x") level_unknown
    ∷ bond (lit "4") level_critical
    ∷ [])

topped : (finalize mixed).overall ≡ level_critical
unfolding inspection
topped = refl

-- The report of one node with a total.
abbrev one : Text → Report
one total = with_findings (bond total level_warn ∷ [])

missed :
    apply_bond_delta (one (lit "5")) (some (one (lit "5"))) (some (one (lit "3")))
    ≡ with_findings (
        record (bond (lit "5") level_warn) {
          metrics = (lit "link_failure_total", lit "5") ∷ (lit "link_failure_delta2", lit "2") ∷ [];
          summary = lit "bond Link Failure 较上次无新增，但较上上次新增 2 次（可能漏看上次报告，累计 5 次）";
        }
        ∷ [])
unfolding inspection
missed = refl

bond_delta_verdict_example :
    ((bond_delta
        (bond_baseline (some (one (lit "5"))))
        (bond_baseline (some (one (lit "3"))))
        (bond (lit "5") level_warn)).level
      ≡ level_warn)
    ↔ StaysWarned 5 (some 5) (some 3)
unfolding inspection
bond_delta_verdict_example =
    bond_delta_verdict (bond_baseline (some (one (lit "5")))) (bond_baseline (some (one (lit "3"))))
      (bond (lit "5") level_warn) 5 (some 5) (some 3) refl refl refl refl refl (omega arith)
      (omega arith) (omega arith)

bond_baseline-apply_bond_delta_example :
    bond_baseline (some (apply_bond_delta (one (lit "5")) (some (one (lit "4"))) none))
    ≡ bond_baseline (some (one (lit "5")))
bond_baseline-apply_bond_delta_example =
    bond_baseline-apply_bond_delta (one (lit "5")) (some (one (lit "4"))) none

migration : Unit {0}
unfolding inspection recover_bond_total old_bond_warn_re backfill_bond_finding migrate_report
    Regex.find Regex.run Regex.group_of Base.contains Base.has_prefix
migration = tt

-- A finding as it was stored before the metric.
abbrev old : Finding
old = record (bond [] level_warn) { metrics = []; summary = lit "bond 累计 Link Failure 3 次" }

recovered : recover_bond_total (lit "bond 累计 Link Failure 3 次") ≡ some (pos 3)
unfolding migration
recovered = refl

recovered_zero : recover_bond_total (lit "bond 链路正常") ≡ some (pos 0)
unfolding migration
recovered_zero = refl

not_recovered : recover_bond_total (lit "无 bond 配置") ≡ none
unfolding migration
not_recovered = refl

migrated : (migrate_report (with_findings (old ∷ old ∷ []))).1 ≡ 2
unfolding migration
migrated = refl

bond_total-backfill_example :
    (bond_total (backfill_bond_finding old).0 ≡ some (pos 3))
    × ((backfill_bond_finding old).1 ≡ true)
unfolding migration
bond_total-backfill_example = bond_total-backfill old 3 refl refl refl (omega arith)
