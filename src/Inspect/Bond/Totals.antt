-- ===== src/Inspect/Bond/Totals.antt =====
-- The correction of the levels leaves the totals, which later inspections compare with.
use storage_bot.Base.{
  ◌≡◌, refl, ap, ◌∙◌, inl, inr, false, not, ◌||◌, List, [], ◌∷◌, Text, lit, text_eq, text_eq_iff,
  if◌then◌else◌, Option, none, some, map, Bool-cases,
}
use storage_bot.Base.Int.{ℤ}
use storage_bot.Inspect.Level.{Finding, Report, Metrics, metric, set_metric}
use storage_bot.Inspect.Bond.{
  number_at, bond_total, Baseline, baseline_at, note_total, baseline_from, bond_baseline, grew,
  more_than, recent_growth, window_growth, apply_node_delta, is_warn, with_baselines, with_total,
  bond_delta, apply_bond_delta,
}

-- A write to another key leaves the metric.
metric-set_metric_ne :
    (m : Metrics) (key other value : Text)
    → text_eq key other ≡ false
    → metric (set_metric m key value) other ≡ metric m other
unfolding metric set_metric
metric-set_metric_ne [] key other value h = rw h refl
metric-set_metric_ne ((k, v) ∷ m) key other value h = elim (Bool-cases (text_eq k key)) [
  | inl e ↦
      let other_key : text_eq k other ≡ false =
        ap (λ x. text_eq x other) ((text_eq_iff k key).0 e) ∙ h in
      rw (e, other_key) refl
  | inr e ↦ rw (e, metric-set_metric_ne m key other value h) refl
]

delta_key : text_eq (lit "link_failure_delta") (lit "link_failure_total") ≡ false
unfolding text_eq lit
delta_key = refl

delta2_key : text_eq (lit "link_failure_delta2") (lit "link_failure_total") ≡ false
unfolding text_eq lit
delta2_key = refl

-- The same item, node and total.
abbrev SameTotal : Finding → Finding → Type 0
SameTotal g f =
    (g.item ≡ f.item)
    × (g.node ≡ f.node)
    × (metric g.metrics (lit "link_failure_total") ≡ metric f.metrics (lit "link_failure_total"))

recent_growth-SameTotal :
    (f : Finding) (cur : ℤ) (b1 b2 : Option ℤ) → SameTotal (recent_growth f cur b1 b2) f
unfolding recent_growth
recent_growth-SameTotal f cur b1 b2 = elim (Bool-cases (more_than cur b1 b2)) [
  | inl e ↦ rw e (
    refl,
    refl,
    metric-set_metric_ne _ (lit "link_failure_delta2") (lit "link_failure_total") _ delta2_key
        ∙ metric-set_metric_ne f.metrics (lit "link_failure_delta") (lit "link_failure_total") _
            delta_key,
  )
  | inr e ↦ rw e (
    refl,
    refl,
    metric-set_metric_ne f.metrics (lit "link_failure_delta") (lit "link_failure_total") _
        delta_key,
  )
]

apply_node_delta-SameTotal :
    (f : Finding) (cur : ℤ) (b1 b2 : Option ℤ) → SameTotal (apply_node_delta f cur b1 b2) f
unfolding apply_node_delta
apply_node_delta-SameTotal f cur b1 b2 = elim (Bool-cases (grew cur b1)) [
  | inl e ↦ rw e (recent_growth-SameTotal f cur b1 b2)
  | inr e ↦ elim (Bool-cases (grew cur b2)) [
    | inl k ↦
        rw (e, k)
          (unfold window_growth in
            (
              refl,
              refl,
              metric-set_metric_ne f.metrics (lit "link_failure_delta2") (lit "link_failure_total")
                  _ delta2_key,
            ))
    | inr k ↦ rw (e, k) (refl, refl, refl)
  ]
]

with_baselines-SameTotal :
    (f : Finding) (cur : ℤ) (b1 b2 : Option ℤ) → SameTotal (with_baselines f cur b1 b2) f
unfolding with_baselines
with_baselines-SameTotal f cur none none = (refl, refl, refl)
with_baselines-SameTotal f cur (some b1) b2 = apply_node_delta-SameTotal f cur (some b1) b2
with_baselines-SameTotal f cur none (some b2) = apply_node_delta-SameTotal f cur none (some b2)

with_total-SameTotal :
    (base1 base2 : Baseline) (f : Finding) (o : Option ℤ) → SameTotal (with_total base1 base2 f o) f
unfolding with_total
with_total-SameTotal base1 base2 f none = (refl, refl, refl)
with_total-SameTotal base1 base2 f (some cur) =
    with_baselines-SameTotal f cur (baseline_at base1 f.node) (baseline_at base2 f.node)

bond_delta-SameTotal :
    (base1 base2 : Baseline) (f : Finding) → SameTotal (bond_delta base1 base2 f) f
unfolding bond_delta
bond_delta-SameTotal base1 base2 f =
    elim (Bool-cases (not (text_eq f.item (lit "hw_bond")) || not (is_warn f.level))) [
      | inl e ↦ rw e (refl, refl, refl)
      | inr e ↦ rw e (with_total-SameTotal base1 base2 f (bond_total f))
    ]

note_total_same :
    (m : Baseline) (g f : Finding) (o : Option ℤ)
    → g.node ≡ f.node
    → note_total m g o ≡ note_total m f o
unfolding note_total
note_total_same m g f none e = refl
note_total_same m g f (some n) e = ap (λ k. (k, n) ∷ m) e

abbrev noted : Baseline → Finding → Baseline
noted m f = if not (text_eq f.item (lit "hw_bond")) then m else note_total m f (bond_total f)

noted_same : (m : Baseline) (g f : Finding) → SameTotal g f → noted m g ≡ noted m f
unfolding bond_total
noted_same m g f (i, n, t) =
    ap (λ x. if not (text_eq x (lit "hw_bond")) then m else note_total m g (bond_total g)) i
    ∙ ap (λ x. if not (text_eq f.item (lit "hw_bond")) then m else x)
        (note_total_same m g f (bond_total g) n ∙ ap (λ x. note_total m f (number_at x)) t)

baseline_from_same :
    (base1 base2 : Baseline) (fs : List Finding) (m : Baseline)
    → baseline_from m (map (bond_delta base1 base2) fs) ≡ baseline_from m fs
unfolding baseline_from
baseline_from_same base1 base2 [] m = refl
baseline_from_same base1 base2 (f ∷ fs) m =
    baseline_from_same base1 base2 fs (noted m (bond_delta base1 base2 f))
    ∙ ap (λ x. baseline_from x fs)
        (noted_same m (bond_delta base1 base2 f) f (bond_delta-SameTotal base1 base2 f))

-- The correction keeps what later inspections compare with: the baselines of the corrected report
-- are those of the report as it was measured.
pub bond_baseline-apply_bond_delta :
    (rep : Report) (prev1 prev2 : Option Report)
    → bond_baseline (some (apply_bond_delta rep prev1 prev2)) ≡ bond_baseline (some rep)
unfolding bond_baseline apply_bond_delta
bond_baseline-apply_bond_delta rep prev1 prev2 =
    baseline_from_same (bond_baseline prev1) (bond_baseline prev2) rep.findings []
