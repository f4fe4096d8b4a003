-- ===== src/Inspect/Migrate/Once.antt =====
-- A migration gives the totals that the summaries tell, and a second one changes nothing.
use storage_bot.Base.{
  ℕ, ◌<◌, ◌^◌, ◌≡◌, refl, sym, ap, ap₂, ◌∙◌, inl, inr, Bool, true, false, List, [], ◌∷◌, Text, lit,
  text_eq, text_eq_iff, text_eq_refl, Option, none, some, Bool-cases,
}
use storage_bot.Base.Int.{ℤ, pos}
use storage_bot.Base.Decimal.{itoa, atoi-itoa}
use storage_bot.Inspect.Level.{Finding, Report, Metrics, metric, set_metric}
use storage_bot.Inspect.Bond.{bond_total, number_at, number_of}
use storage_bot.Inspect.Migrate.{
  recover_bond_total, fill, backfill_bond_finding, add_finding, migrate_findings, migrate_report,
}

metric-set_metric :
    (m : Metrics) (key value : Text) → metric (set_metric m key value) key ≡ some value
unfolding metric set_metric
metric-set_metric [] key value = rw (text_eq_refl key) refl
metric-set_metric ((k, v) ∷ m) key value = elim (Bool-cases (text_eq k key)) [
  | inl e ↦ rw (e, e) refl
  | inr e ↦ rw (e, e, metric-set_metric m key value) refl
]

fill_present : (f : Finding) (v : Text) (total : Option ℤ) → fill f (some v) total ≡ (f, false)
unfolding fill
fill_present f v total = refl

backfill_present :
    (f : Finding) (v : Text)
    → metric f.metrics (lit "link_failure_total") ≡ some v
    → backfill_bond_finding f ≡ (f, false)
unfolding backfill_bond_finding fill
backfill_present f v h = elim (Bool-cases (text_eq f.item (lit "hw_bond"))) [
  | inl e ↦ rw (e, h) refl
  | inr e ↦ rw e refl
]

-- Filling in twice is filling in once.
fill_again :
    (f : Finding) (o : Option Text) (t : Option ℤ)
    → metric f.metrics (lit "link_failure_total") ≡ o
    → backfill_bond_finding f ≡ fill f o t
    → backfill_bond_finding (fill f o t).0 ≡ ((fill f o t).0, false)
unfolding fill
fill_again f (some v) t h e = e
fill_again f none none h e = e
fill_again f none (some n) h e =
    backfill_present
      (record f { metrics = set_metric f.metrics (lit "link_failure_total") (itoa n) }) (itoa n)
      (metric-set_metric f.metrics (lit "link_failure_total") (itoa n))

backfill_other :
    (f : Finding) → text_eq f.item (lit "hw_bond") ≡ false → backfill_bond_finding f ≡ (f, false)
unfolding backfill_bond_finding
backfill_other f e = rw e refl

backfill_bond :
    (f : Finding)
    → text_eq f.item (lit "hw_bond") ≡ true
    → backfill_bond_finding f
      ≡ fill f (metric f.metrics (lit "link_failure_total")) (recover_bond_total f.summary)
unfolding backfill_bond_finding
backfill_bond f e = rw e refl

backfill_again :
    (f : Finding)
    → backfill_bond_finding (backfill_bond_finding f).0 ≡ ((backfill_bond_finding f).0, false)
backfill_again f = elim (Bool-cases (text_eq f.item (lit "hw_bond"))) [
  | inl e ↦
      let b = backfill_bond f e in
      let o = metric f.metrics (lit "link_failure_total") in
      let t = recover_bond_total f.summary in
      ap (λ x. backfill_bond_finding x.0) b
      ∙ fill_again f o t refl b
      ∙ ap (λ x. (x.0, false)) (sym b)
  | inr e ↦
      let b = backfill_other f e in
      ap (λ x. backfill_bond_finding x.0) b ∙ b ∙ ap (λ x. (x.0, false)) (sym b)
]

add_finding-parts : (x : Finding × Bool) (y : List Finding × ℕ) → (add_finding x y).0 ≡ x.0 ∷ y.0
unfolding add_finding
add_finding-parts (f, b) (fs, n) = refl

migrate_findings_again :
    (fs : List Finding) → migrate_findings (migrate_findings fs).0 ≡ ((migrate_findings fs).0, 0)
unfolding migrate_findings
migrate_findings_again [] = refl
migrate_findings_again (f ∷ fs) =
    let p = add_finding-parts (backfill_bond_finding f) (migrate_findings fs) in
    ap (λ x. migrate_findings x) p
    ∙ ap₂ add_finding (backfill_again f) (migrate_findings_again fs)
    ∙ unfolded (backfill_bond_finding f).0 (migrate_findings fs).0
    ∙ ap (λ x. (x, 0)) (sym p)
  where
    unfolded : (g : Finding) (gs : List Finding) → add_finding (g, false) (gs, 0) ≡ (g ∷ gs, 0)
    unfolded g gs = unfold add_finding in refl

-- A migrated report is migrated for good: migrating it again changes no finding and counts none.
pub migrate_report_again :
    (r : Report) → migrate_report (migrate_report r).0 ≡ ((migrate_report r).0, 0)
unfolding migrate_report
migrate_report_again r =
    ap (λ x. (record r { findings = x.0 }, x.1)) (migrate_findings_again r.findings)

-- Where an old finding of hw_bond lacks the metric and its summary tells a total that an int holds,
-- the finding is changed, and the comparison of later inspections reads that total from it.
pub bond_total-backfill :
    (f : Finding) (n : ℕ)
    → f.item ≡ lit "hw_bond"
    → metric f.metrics (lit "link_failure_total") ≡ none
    → recover_bond_total f.summary ≡ some (pos n)
    → n < 2 ^ 63
    → (bond_total (backfill_bond_finding f).0 ≡ some (pos n)) × ((backfill_bond_finding f).1 ≡ true)
unfolding bond_total fill number_at number_of
bond_total-backfill f n i h t k =
    let b = backfill_bond f ((text_eq_iff f.item (lit "hw_bond")).1 i) in
    rw (b, h, t)
      (
        ap number_at (metric-set_metric f.metrics (lit "link_failure_total") (itoa (pos n)))
            ∙ ap number_of (atoi-itoa n k),
        refl,
      )
