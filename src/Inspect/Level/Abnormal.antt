-- ===== src/Inspect/Level/Abnormal.antt =====
-- What the list of abnormal findings holds.
use storage_bot.Base.{
  ℕ, ◌+◌, append-nil, append_assoc, keep, if◌then◌else◌, ◌≡◌, refl, Bool, true, false, List, [],
  ◌∷◌, ◌++◌, arith, length, length-append, ap, ◌∙◌,
}
use storage_bot.Inspect.Level.{
  Level, level_ok, level_warn, level_critical, level_unknown, Finding, Report, Counts, counts,
  count_one, count_from, abnormal, Slices, slice_one, slice_from,
}
use storage_bot.Inspect.Level.Order.{count_from-total}

-- The findings of one level, in the report's order.
abbrev pub is_level : Level → Level → Bool
is_level level_ok level_ok = true
is_level level_warn level_warn = true
is_level level_critical level_critical = true
is_level level_unknown level_unknown = true
is_level l m = false

abbrev pub of_level : Level → List Finding → List Finding
of_level l fs = keep (λ f. is_level f.level l) fs

abbrev from_slices : Slices → List Finding → Slices
from_slices s fs = record {
  crit = s.crit ++ of_level level_critical fs;
  warn = s.warn ++ of_level level_warn fs;
  unknown = s.unknown ++ of_level level_unknown fs;
}

from_slices_step :
    (f : Finding) (fs : List Finding) (s : Slices)
    → from_slices (slice_one f f.level s) fs ≡ from_slices s (f ∷ fs)
from_slices_step f fs s = go f.level
  where
    go :
        (l : Level)
        → from_slices (slice_one f l s) fs ≡ record {
          crit =
              s.crit
              ++ (if is_level l level_critical
                  then f ∷ of_level level_critical fs
                  else of_level level_critical fs);
          warn =
              s.warn
              ++ (if is_level l level_warn
                  then f ∷ of_level level_warn fs
                  else of_level level_warn fs);
          unknown =
              s.unknown
              ++ (if is_level l level_unknown
                  then f ∷ of_level level_unknown fs
                  else of_level level_unknown fs);
        }
    go level_ok = unfold slice_one in refl
    go level_warn =
        unfold slice_one in rw (append_assoc s.warn (f ∷ []) (of_level level_warn fs)) refl
    go level_critical =
        unfold slice_one in rw (append_assoc s.crit (f ∷ []) (of_level level_critical fs)) refl
    go level_unknown =
        unfold slice_one in rw (append_assoc s.unknown (f ∷ []) (of_level level_unknown fs)) refl

slice_from_all : (fs : List Finding) (s : Slices) → slice_from s fs ≡ from_slices s fs
unfolding slice_from
slice_from_all [] s = rw (append-nil s.crit, append-nil s.warn, append-nil s.unknown) refl
slice_from_all (f ∷ fs) s = slice_from_all fs (slice_one f f.level s) ∙ from_slices_step f fs s

-- Abnormal returns the report's critical findings, then its warnings, then its unknown ones, each
-- in the report's order, and none that is OK.
pub abnormal_lem :
    (r : Report)
    → abnormal r
      ≡ of_level level_critical r.findings
        ++ (of_level level_warn r.findings ++ of_level level_unknown r.findings)
unfolding abnormal
abnormal_lem r =
    ap (λ s. s.crit ++ (s.warn ++ s.unknown))
      (slice_from_all r.findings (record { crit = []; warn = []; unknown = [] }))

abbrev num : Level → List Finding → ℕ
num l fs = length (of_level l fs)

abbrev from_counts : Counts → List Finding → Counts
from_counts c fs = record {
  ok_count = c.ok_count + num level_ok fs;
  warn_count = c.warn_count + num level_warn fs;
  crit_count = c.crit_count + num level_critical fs;
  unknown_count = c.unknown_count + num level_unknown fs;
}

counts_eq :
    {c d : Counts}
    → c.ok_count ≡ d.ok_count
    → c.warn_count ≡ d.warn_count
    → c.crit_count ≡ d.crit_count
    → c.unknown_count ≡ d.unknown_count
    → c ≡ d
counts_eq {c} {d} a b e f =
    λ i. record { ok_count = a i; warn_count = b i; crit_count = e i; unknown_count = f i }

from_counts_step :
    (f : Finding) (fs : List Finding) (c : Counts)
    → from_counts (count_one f.level c) fs ≡ from_counts c (f ∷ fs)
from_counts_step f fs c = go f.level
  where
    go :
        (l : Level)
        → from_counts (count_one l c) fs ≡ record {
          ok_count =
              c.ok_count
              + length
                  (if is_level l level_ok then f ∷ of_level level_ok fs else of_level level_ok fs);
          warn_count =
              c.warn_count
              + length (
                  if is_level l level_warn
                  then f ∷ of_level level_warn fs
                  else of_level level_warn fs);
          crit_count =
              c.crit_count
              + length (
                  if is_level l level_critical
                  then f ∷ of_level level_critical fs
                  else of_level level_critical fs);
          unknown_count =
              c.unknown_count
              + length (
                  if is_level l level_unknown
                  then f ∷ of_level level_unknown fs
                  else of_level level_unknown fs);
        }
    go level_ok = unfold count_one in counts_eq (omega arith) refl refl refl
    go level_warn = unfold count_one in counts_eq refl (omega arith) refl refl
    go level_critical = unfold count_one in counts_eq refl refl (omega arith) refl
    go level_unknown = unfold count_one in counts_eq refl refl refl (omega arith)

count_from_all : (fs : List Finding) (c : Counts) → count_from c fs ≡ from_counts c fs
unfolding count_from
count_from_all [] c = counts_eq (omega arith) (omega arith) (omega arith) (omega arith)
count_from_all (f ∷ fs) c = count_from_all fs (count_one f.level c) ∙ from_counts_step f fs c

-- The counts of Counts add up to the number of findings, and those of critical, warning and unknown
-- ones to the number that Abnormal returns.
pub counts-abnormal :
    (r : Report)
    → ((counts r).crit_count + (counts r).warn_count + (counts r).unknown_count
        ≡ length (abnormal r))
      × ((counts r).ok_count + length (abnormal r) ≡ length r.findings)
unfolding counts
counts-abnormal r =
    let e =
      count_from_all r.findings
        (record { ok_count = 0; warn_count = 0; crit_count = 0; unknown_count = 0 }) in
    let t =
      count_from-total r.findings
        (record { ok_count = 0; warn_count = 0; crit_count = 0; unknown_count = 0 }) in
    let len = ap length (abnormal_lem r) in
    let l1 =
      length-append (of_level level_critical r.findings)
        (of_level level_warn r.findings ++ of_level level_unknown r.findings) in
    let l2 = length-append (of_level level_warn r.findings) (of_level level_unknown r.findings) in
    let a1 = ap (λ c. c.ok_count) e in
    let a2 = ap (λ c. c.warn_count) e in
    let a3 = ap (λ c. c.crit_count) e in
    let a4 = ap (λ c. c.unknown_count) e in (omega arith, omega arith)
