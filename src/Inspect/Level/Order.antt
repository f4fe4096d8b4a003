-- ===== src/Inspect/Level/Order.antt =====
-- The overall level is the severest one.
use storage_bot.Base.{
  ℕ, ◌+◌, ◌≤◌, ◌≡◌, ◌⊎◌, refl, inl, inr, List, [], ◌∷◌, arith, ltb, length, In, Bool-cases, ap, sym,
}
use storage_bot.Inspect.Level.{
  Level, level_ok, level_warn, level_critical, level_unknown, Finding, Report, rank, max_from,
  max_level, finalize, Counts, count_one, count_from,
}

-- A level that none of the findings exceeds, and that is the starting one or a finding's.
pub record IsTop (start top : Level) (fs : List Finding) : Type 0 where
  pub above_start : rank start ≤ rank top
  pub above : (f : Finding) → In f fs → rank f.level ≤ rank top
  pub reached : (top ≡ start) ⊎ ((f : Finding) × In f fs × (f.level ≡ top))

max_from-IsTop : (fs : List Finding) (start : Level) → IsTop start (max_from start fs) fs
unfolding max_from
max_from-IsTop [] start = record {
  above_start = omega arith;
  above = λ f m. absurd m;
  reached = inl refl;
}
max_from-IsTop (g ∷ fs) start = elim (Bool-cases (ltb (rank start) (rank g.level))) [
  | inl up ↦
      let t = max_from-IsTop fs g.level in
      rw up (record {
        above_start = let a = t.above_start in ground arith;
        above = λ f m. elim m [ inl e ↦ rw e t.above_start | inr n ↦ t.above f n ];
        reached = elim t.reached [
          | inl e ↦ inr (g, inl refl, sym e)
          | inr (f, m, e) ↦ inr (f, inr m, e)
        ];
      })
  | inr stay ↦
      let t = max_from-IsTop fs start in
      rw stay (record {
        above_start = t.above_start;
        above = λ f m. elim m [
          | inl e ↦ let a = t.above_start in let k = ap (λ x. rank x.level) e in ground arith
          | inr n ↦ t.above f n
        ];
        reached = elim t.reached [ inl e ↦ inl e | inr (f, m, e) ↦ inr (f, inr m, e) ];
      })
]

-- Finalize sets the overall level to one that no finding exceeds in the order OK, unknown, warning,
-- critical, and that is OK or the level of one of the findings.
pub finalize-IsTop : (r : Report) → IsTop level_ok (finalize r).overall r.findings
unfolding finalize max_level
finalize-IsTop r = max_from-IsTop r.findings level_ok

abbrev pub total : Counts → ℕ
total c = c.ok_count + c.warn_count + c.crit_count + c.unknown_count

count_one-total : (l : Level) (c : Counts) → total (count_one l c) ≡ total c + 1
unfolding count_one
count_one-total level_ok c = omega arith
count_one-total level_warn c = omega arith
count_one-total level_critical c = omega arith
count_one-total level_unknown c = omega arith

pub count_from-total :
    (fs : List Finding) (c : Counts) → total (count_from c fs) ≡ total c + length fs
unfolding count_from
count_from-total [] c = omega arith
count_from-total (f ∷ fs) c =
    omega (arith, count_from-total fs (count_one f.level c), count_one-total f.level c)
