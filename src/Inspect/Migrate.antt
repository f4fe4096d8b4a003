-- ===== src/Inspect/Migrate.antt =====
-- inspect/migrate.go: the totals of reports that were stored before the metric was there.
pub mod Once
use storage_bot.Base.{
  ℕ, suc, ◌+◌, Bool, true, false, not, List, [], ◌∷◌, Text, lit, text_eq, if◌then◌else◌, Option,
  none, some, contains, is_digit, ◌==◌,
}
use storage_bot.Base.Int.{ℤ, pos}
use storage_bot.Base.Decimal.{atoi, itoa}
use storage_bot.Regex.{Re, Found, empty, one, many, seq, group, find, group_of}
use storage_bot.Inspect.Level.{Finding, Report, metric, set_metric}

literal : Text → Re
literal [] = empty
literal (c ∷ s) = seq (one (λ x. x == c)) (literal s)

unfoldable pub old_bond_warn_re : Re
unfolding literal
old_bond_warn_re =
    seq (literal (lit "Link Failure "))
      (seq (group 1 (seq (one is_digit) (many is_digit))) (literal (lit " 次")))

total_found : Text → Option Found → Option ℤ
total_found summary none = if contains summary (lit "bond 链路正常") then some (pos 0) else none
total_found summary (some m) = some (atoi (group_of 1 m.groups)).0

unfoldable pub recover_bond_total : Text → Option ℤ
unfolding total_found
recover_bond_total summary = total_found summary (find old_bond_warn_re summary)

-- With the metric of the finding, and the total that its summary gives.
fill : Finding → Option Text → Option ℤ → Finding × Bool
fill f (some v) total = (f, false)
fill f none none = (f, false)
fill f none (some total) =
    (record f { metrics = set_metric f.metrics (lit "link_failure_total") (itoa total) }, true)

-- The finding, and whether it was modified.
unfoldable pub backfill_bond_finding : Finding → Finding × Bool
unfolding fill
backfill_bond_finding f =
    if not (text_eq f.item (lit "hw_bond"))
    then (f, false)
    else fill f (metric f.metrics (lit "link_failure_total")) (recover_bond_total f.summary)

pub add_finding : Finding × Bool → List Finding × ℕ → List Finding × ℕ
add_finding (f, changed) (fs, n) = (f ∷ fs, if changed then n + 1 else n)

migrate_findings : List Finding → List Finding × ℕ
unfolding add_finding
migrate_findings [] = ([], 0)
migrate_findings (f ∷ fs) = add_finding (backfill_bond_finding f) (migrate_findings fs)

-- The report, and the number of findings changed.
unfoldable pub migrate_report : Report → Report × ℕ
unfolding migrate_findings
migrate_report r =
    let (fs, changed) = migrate_findings r.findings in (record r { findings = fs }, changed)
