-- ===== src/Inspect/Bond/Verdict.antt =====
-- When a bond's warning stays.
use storage_bot.Base.{
  ℕ, ◌<◌, ◌^◌, ◌≡◌, ◌↔◌, ◌⊎◌, refl, ap, inl, inr, Bool, true, false, ◌||◌, arith, lit, text_eq_iff,
  if◌then◌else◌, Option, none, some, Bool-cases,
}
use storage_bot.Base.Int.{ℤ, pos, -ℤ_of_counts, sub_ℕ_pos_iff}
use storage_bot.Inspect.Level.{level_ok, level_warn, Finding}
use storage_bot.Inspect.Bond.{
  bond_total, Baseline, baseline_at, grew, more_than, recent_growth, window_growth,
  apply_node_delta, is_warn, with_baselines, with_total, bond_delta,
}

-- The total is above the baseline, which is there.
abbrev pub Grew : ℕ → Option ℕ → Type 0
Grew cur none = ⊥
Grew cur (some b) = b < cur

-- The totals are counts that an int holds.
abbrev pub Fits : Option ℕ → Type 0
Fits none = Unit
Fits (some b) = b < 2 ^ 63

abbrev pub as_int : Option ℕ → Option ℤ
as_int none = none
as_int (some b) = some (pos b)

grew_iff :
    (cur : ℕ) (b : Option ℕ)
    → cur < 2 ^ 63
    → Fits b
    → (grew (pos cur) (as_int b) ≡ true) ↔ Grew cur b
grew_iff cur none h k = (λ e. cc, λ e. absurd e)
grew_iff cur (some b) h k = rw (-ℤ_of_counts cur b h k) (sub_ℕ_pos_iff cur b)

recent_growth-level :
    (f : Finding) (cur : ℤ) (b1 b2 : Option ℤ) → (recent_growth f cur b1 b2).level ≡ f.level
unfolding recent_growth
recent_growth-level f cur b1 b2 = elim (Bool-cases (more_than cur b1 b2)) [
  | inl e ↦ rw e refl
  | inr e ↦ rw e refl
]

window_growth-level :
    (f : Finding) (cur : ℤ) (b2 : Option ℤ) → (window_growth f cur b2).level ≡ f.level
unfolding window_growth
window_growth-level f cur b2 = refl

apply_node_delta-level :
    (f : Finding) (cur : ℤ) (b1 b2 : Option ℤ)
    → (apply_node_delta f cur b1 b2).level
      ≡ (if grew cur b1 || grew cur b2 then f.level else level_ok)
unfolding apply_node_delta
apply_node_delta-level f cur b1 b2 = elim (Bool-cases (grew cur b1)) [
  | inl e ↦ rw e (recent_growth-level f cur b1 b2)
  | inr e ↦ elim (Bool-cases (grew cur b2)) [
    | inl k ↦ rw (e, k) (window_growth-level f cur b2)
    | inr k ↦ rw (e, k) refl
  ]
]

warn_iff : (b : Bool) → ((if b then level_warn else level_ok) ≡ level_warn) ↔ (b ≡ true)
warn_iff true = (λ e. refl, λ e. refl)
warn_iff false = (λ e. cc, λ e. cc)

abbrev pub StaysWarned : ℕ → Option ℕ → Option ℕ → Type 0
StaysWarned cur b1 b2 = ((b1 ≡ none) × (b2 ≡ none)) ⊎ (Grew cur b1 ⊎ Grew cur b2)

node_verdict :
    (f : Finding) (cur : ℕ) (b1 b2 : Option ℕ)
    → f.level ≡ level_warn
    → cur < 2 ^ 63
    → Fits b1
    → Fits b2
    → ((apply_node_delta f (pos cur) (as_int b1) (as_int b2)).level ≡ level_warn)
      ↔ (Grew cur b1 ⊎ Grew cur b2)
node_verdict f cur b1 b2 w h k1 k2 =
    rw (apply_node_delta-level f (pos cur) (as_int b1) (as_int b2), w)
      (
        λ e. elim (Bool-cases (grew (pos cur) (as_int b1))) [
          | inl g ↦ inl ((grew_iff cur b1 h k1).0 g)
          | inr g ↦ inr (
              (grew_iff cur b2 h k2).0 (
                let k = (warn_iff (grew (pos cur) (as_int b1) || grew (pos cur) (as_int b2))).0 e in
                ground arith))
        ],
        λ g. (warn_iff (grew (pos cur) (as_int b1) || grew (pos cur) (as_int b2))).1 (elim g [
          | inl x ↦ let k = (grew_iff cur b1 h k1).1 x in ground arith
          | inr x ↦ let k = (grew_iff cur b2 h k2).1 x in ground arith
        ]),
      )

-- For a warning of the item hw_bond whose total and baselines are counts that an int holds, the
-- warning stays exactly if the node has no baseline at all, or its total is above one of the two
-- baselines that it has.
pub bond_delta_verdict :
    (base1 base2 : Baseline) (f : Finding) (cur : ℕ) (b1 b2 : Option ℕ)
    → f.item ≡ lit "hw_bond"
    → f.level ≡ level_warn
    → bond_total f ≡ some (pos cur)
    → baseline_at base1 f.node ≡ as_int b1
    → baseline_at base2 f.node ≡ as_int b2
    → cur < 2 ^ 63
    → Fits b1
    → Fits b2
    → ((bond_delta base1 base2 f).level ≡ level_warn) ↔ StaysWarned cur b1 b2
unfolding bond_delta with_total
bond_delta_verdict base1 base2 f cur b1 b2 item w t e1 e2 h k1 k2 =
    let same = (text_eq_iff f.item (lit "hw_bond")).1 item in
    rw (same, ap is_warn w, t, e1, e2) (by_baselines b1 b2 k1 k2)
  where
    by_baselines :
        (c1 c2 : Option ℕ)
        → Fits c1
        → Fits c2
        → ((with_baselines f (pos cur) (as_int c1) (as_int c2)).level ≡ level_warn)
          ↔ StaysWarned cur c1 c2
    by_baselines none none j1 j2 = unfold with_baselines in (λ e. inl (refl, refl), λ s. w)
    by_baselines (some n) c2 j1 j2 =
        let v = node_verdict f cur (some n) c2 w h j1 j2 in
        unfold with_baselines in
        (λ e. inr (v.0 e), λ s. elim s [ inl (p, q) ↦ absurd (cc) | inr g ↦ v.1 g ])
    by_baselines none (some n) j1 j2 =
        let v = node_verdict f cur none (some n) w h j1 j2 in
        unfold with_baselines in
        (λ e. inr (v.0 e), λ s. elim s [ inl (p, q) ↦ absurd (cc) | inr g ↦ v.1 g ])
