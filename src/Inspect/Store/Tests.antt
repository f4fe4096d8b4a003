-- ===== src/Inspect/Store/Tests.antt =====
-- Runs of the report store, and its theorem at a concrete input.
use storage_bot.Base.{
  ℕ, arith, ◌+◌, ◌≡◌, ◌↔◌, ◌*◌, ◌/◌, ◌<◌, ◌≤◌, refl, Bool, true, false, not, ◌&&◌, Option, none,
  some, List, [], ◌∷◌, ◌++◌, map, Text, lit, length, ltb, leb, ◌==◌, All, keep, text_eq,
  if◌then◌else◌,
}
use storage_bot.Base
use storage_bot.Base.Result.{err, ok}
use storage_bot.Base.{text_lt}
use storage_bot.Base.Sort.Order.{IsDescending}
use storage_bot.Inspect.Store.{Files, entries, missing, list, prune, remove_all}
use storage_bot.Inspect.Store.Newest.{prune_lem}

-- Two old reports and a file of another kind, in a world of the names that were removed.
abbrev disk : Files (List Text)
disk = record {
  make_dir = λ c w. (none, w);
  write_file = λ c n t w. (none, w);
  read_dir = λ c w. entries (
      (lit "20260101-000000.json", false)
      ∷ (lit "notes.txt", false)
      ∷ (lit "20260102-000000.json", false)
      ∷ []);
  read_root = λ w. missing;
  read_file = λ c n w. err (lit "no file");
  remove = λ c n w. n ∷ w;
  encode = λ r. ok [];
  decode = λ t. err (lit "no report");
  stamp = λ n. lit "20260102-000000";
}

abbrev kept_names : List Text
kept_names = lit "20260102-000000.json" ∷ lit "20260101-000000.json" ∷ []

storing : Unit {0}
unfolding list prune remove_all Base.text_lt Base.sort_texts Base.insert Base.lit Base.has_suffix
    Base.has_prefix
storing = tt

oldest_removed : (prune disk 1 (lit "cdn") []).1 ≡ lit "20260101-000000.json" ∷ []
unfolding storing
oldest_removed = refl

listed : list disk (lit "cdn") [] ≡ ok kept_names
unfolding storing
listed = refl

prune_lem_example :
    (prune disk 1 (lit "cdn") []
      ≡ (none, remove_all disk (lit "cdn") (lit "20260101-000000.json" ∷ []) []))
    × IsDescending kept_names
    × All
        (λ old. All (λ new. text_lt new old ≡ false) (lit "20260102-000000.json" ∷ []))
        (lit "20260101-000000.json" ∷ [])
prune_lem_example = prune_lem disk 1 (lit "cdn") [] kept_names listed
