-- ===== src/Inspect/Level.antt =====
-- inspect/inspector.go and inspect/report.go: levels, findings and reports. A metrics map is an
-- association list, and the nil map is the empty one.
pub mod Order
pub mod Abnormal
use storage_bot.Base.{
  ◌≡◌, ℕ, zero, suc, ◌+◌, Bool, true, false, List, [], ◌∷◌, ◌++◌, Text, lit, text_eq, if◌then◌else◌,
  ltb, Option, none, some,
}

pub data Level : Type 0 where
  level_ok : Level
  level_warn : Level
  level_critical : Level
  level_unknown : Level

unfoldable pub string : Level → Text
string level_ok = lit "OK"
string level_warn = lit "WARN"
string level_critical = lit "CRITICAL"
string level_unknown = lit "UNKNOWN"

unfoldable pub emoji : Level → Text
emoji level_ok = lit "🟢"
emoji level_warn = lit "🟡"
emoji level_critical = lit "🔴"
emoji level_unknown = lit "⚪"

abbrev pub Metrics : Type 0
Metrics = List (Text × Text)

-- m[key], with whether it is there.
unfoldable pub metric : Metrics → Text → Option Text
metric [] key = none
metric ((k, v) ∷ m) key = if text_eq k key then some v else metric m key

-- m[key] = value.
unfoldable pub set_metric : Metrics → Text → Text → Metrics
set_metric [] key value = (key, value) ∷ []
set_metric ((k, v) ∷ m) key value =
    let further = set_metric m key value in
    if text_eq k key then (k, value) ∷ m else (k, v) ∷ further

pub record Finding : Type 0 where
  pub item : Text
  pub node : Text
  pub node_ip : Text
  pub level : Level
  pub summary : Text
  pub metrics : Metrics
  pub detail : Text
  pub advice : Text

-- A finding with the fields that each literal of the source gives; the others are empty.
abbrev pub finding : Text → Level → Text → Finding
finding item level summary = record {
  item = item;
  node = [];
  node_ip = [];
  level = level;
  summary = summary;
  metrics = [];
  detail = [];
  advice = [];
}

-- A finding of the inspector with this name, without a node.
abbrev pub Of : Text → Finding → Type 0
Of item f = (f.item ≡ item) × (f.node ≡ [])

-- The times are nanoseconds.
pub record Report : Type 0 where
  pub cluster : Text
  pub started_at : ℕ
  pub duration : ℕ
  pub overall : Level
  pub findings : List Finding
  pub llm_summary : Text

unfoldable pub rank : Level → ℕ
rank level_ok = 0
rank level_unknown = 1
rank level_warn = 2
rank level_critical = 3

max_from : Level → List Finding → Level
unfolding rank
max_from top [] = top
max_from top (f ∷ fs) = max_from (if ltb (rank top) (rank f.level) then f.level else top) fs

unfoldable pub max_level : List Finding → Level
unfolding max_from
max_level fs = max_from level_ok fs

unfoldable pub finalize : Report → Report
finalize r = record r { overall = max_level r.findings }

pub record Counts : Type 0 where
  pub ok_count : ℕ
  pub warn_count : ℕ
  pub crit_count : ℕ
  pub unknown_count : ℕ

-- One round of the loop.
count_one : Level → Counts → Counts
count_one level_ok c = record c { ok_count = c.ok_count + 1 }
count_one level_warn c = record c { warn_count = c.warn_count + 1 }
count_one level_critical c = record c { crit_count = c.crit_count + 1 }
count_one level_unknown c = record c { unknown_count = c.unknown_count + 1 }

pub count_from : Counts → List Finding → Counts
unfolding count_one
count_from c [] = c
count_from c (f ∷ fs) = count_from (count_one f.level c) fs

unfoldable pub counts : Report → Counts
unfolding count_from
counts r =
    count_from (record { ok_count = 0; warn_count = 0; crit_count = 0; unknown_count = 0 })
      r.findings

-- The three slices that Abnormal fills.
pub record Slices : Type 0 where
  pub crit : List Finding
  pub warn : List Finding
  pub unknown : List Finding

slice_one : Finding → Level → Slices → Slices
slice_one f level_ok s = s
slice_one f level_warn s = record s { warn = s.warn ++ f ∷ [] }
slice_one f level_critical s = record s { crit = s.crit ++ f ∷ [] }
slice_one f level_unknown s = record s { unknown = s.unknown ++ f ∷ [] }

slice_from : Slices → List Finding → Slices
unfolding slice_one
slice_from s [] = s
slice_from s (f ∷ fs) = slice_from (slice_one f f.level s) fs

unfoldable pub abnormal : Report → List Finding
unfolding slice_from
abnormal r =
    let s = slice_from (record { crit = []; warn = []; unknown = [] }) r.findings in
    s.crit ++ (s.warn ++ s.unknown)
