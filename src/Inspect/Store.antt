-- ===== src/Inspect/Store.antt =====
-- inspect/store.go, and the walk over it of inspect/migrate.go: the stored reports of each cluster.
-- The file system, the JSON of a report and the names of the files are the fields of the record
-- `Files`, over a type of worlds.
pub mod Newest
mod Tests
use storage_bot.Base.{
  ℕ, ◌+◌, zero, suc, Bool, true, false, not, ◌&&◌, List, [], ◌∷◌, ◌++◌, Text, lit, if◌then◌else◌,
  Option, none, some, min, leb, has_suffix, keep, map, drop, take, length, reverse, sort_texts,
}
use storage_bot.Base.Int.{ℤ, pos, ltb_ℤ, pos_part}
use storage_bot.Base.Result.{Result, err, ok}
use storage_bot.Inspect.Level.{Report}
use storage_bot.Inspect.Migrate.{migrate_report}

-- What os.ReadDir answers: names, each with whether it is a directory.
pub data Listing : Type 0 where
  missing : Listing
  unreadable : Text → Listing
  entries : List (Text × Bool) → Listing

-- Files are named by the cluster and the name in its directory.
pub record Files (W : Type 0) : Type 0 where
  pub make_dir : Text → W → Option Text × W
  pub write_file : Text → Text → Text → W → Option Text × W
  pub read_dir : Text → W → Listing
  pub read_root : W → Listing
  pub read_file : Text → Text → W → Result Text
  pub remove : Text → Text → W → W
  pub encode : Report → Result Text
  pub decode : Text → Result Report
  pub stamp : ℕ → Text

-- The number of reports to keep.
unfoldable pub new_store : ℤ → ℕ
new_store n = if ltb_ℤ (pos 0) n then pos_part n else 30

is_report : Text × Bool → Bool
is_report (name, dir) = not dir && has_suffix name (lit ".json")

is_directory : Text × Bool → Bool
is_directory (name, dir) = dir

newest_first : Listing → Result (List Text)
unfolding is_report
newest_first missing = ok []
newest_first (unreadable e) = err e
newest_first (entries es) = ok (reverse (sort_texts (map (λ e. e.0) (keep is_report es))))

directories : Listing → Result (List Text)
unfolding is_directory
directories missing = ok []
directories (unreadable e) = err e
directories (entries es) = ok (sort_texts (map (λ e. e.0) (keep is_directory es)))

pub record MigrateResult : Type 0 where
  pub cluster : Text
  pub file : Text
  pub changed : ℕ
  pub error : Option Text

module _ {W : Type 0} (fs : Files W) where
  unfoldable pub list : Text → W → Result (List Text)
  unfolding newest_first
  list cluster w = newest_first (fs.read_dir cluster w)

  unfoldable pub clusters : W → Result (List Text)
  unfolding directories
  clusters w = directories (fs.read_root w)

  decoded : Result Text → Result Report
  decoded (err e) = err e
  decoded (ok text) = elim (fs.decode text) [
    | err e ↦ err (lit "unmarshal report: " ++ e)
    | ok r ↦ ok r
  ]

  unfoldable pub load : Text → Text → W → Result Report
  unfolding decoded
  load cluster name w = decoded (fs.read_file cluster name w)

  unfoldable pub remove_all : Text → List Text → W → W
  remove_all cluster [] w = w
  remove_all cluster (n ∷ ns) w = remove_all cluster ns (fs.remove cluster n w)

  pruned : ℕ → Text → Result (List Text) → W → Option Text × W
  unfolding remove_all
  pruned most cluster (err e) w = (some e, w)
  pruned most cluster (ok names) w =
      (none, remove_all cluster (drop (min (length names) most) names) w)

  unfoldable pub prune : ℕ → Text → W → Option Text × W
  unfolding pruned
  prune most cluster w = pruned most cluster (list cluster w) w

  written : ℕ → Report → Option Text × W → Option Text × W
  written most r (some e, w) = (some (lit "write report: " ++ e), w)
  written most r (none, w) = prune most r.cluster w

  encoded : ℕ → Report → Result Text → W → Option Text × W
  unfolding written
  encoded most r (err e) w = (some (lit "marshal report: " ++ e), w)
  encoded most r (ok text) w =
      written most r (fs.write_file r.cluster (fs.stamp r.started_at ++ lit ".json") text w)

  in_directory : ℕ → Report → Option Text × W → Option Text × W
  unfolding encoded
  in_directory most r (some e, w) = (some (lit "mkdir history: " ++ e), w)
  in_directory most r (none, w) = encoded most r (fs.encode r) w

  unfoldable pub save : ℕ → Report → W → Option Text × W
  unfolding in_directory
  save most r w = in_directory most r (fs.make_dir r.cluster w)

  rewritten : Option Text × W → Option Text × W
  rewritten (some e, w) = (some (lit "write report: " ++ e), w)
  rewritten (none, w) = (none, w)

  rewrite_encoded : Text → Text → Result Text → W → Option Text × W
  unfolding rewritten
  rewrite_encoded cluster name (err e) w = (some (lit "marshal report: " ++ e), w)
  rewrite_encoded cluster name (ok text) w = rewritten (fs.write_file cluster name text w)

  unfoldable pub rewrite_report : Text → Text → Report → W → Option Text × W
  unfolding rewrite_encoded
  rewrite_report cluster name r w = rewrite_encoded cluster name (fs.encode r) w

  migrate_changed : Text → Text → Report → ℕ → W → List MigrateResult × W
  migrate_changed cluster name r zero w = ([], w)
  migrate_changed cluster name r (suc n) w =
      let (e, w1) = rewrite_report cluster name r w in
      (record { cluster = cluster; file = name; changed = suc n; error = e } ∷ [], w1)

  migrate_loaded : Text → Text → Result Report → W → List MigrateResult × W
  unfolding migrate_changed
  migrate_loaded cluster name (err e) w =
      (record { cluster = cluster; file = name; changed = 0; error = some e } ∷ [], w)
  migrate_loaded cluster name (ok r) w =
      let (r1, n) = migrate_report r in migrate_changed cluster name r1 n w

  migrate_files : Text → List Text → W → List MigrateResult × W
  unfolding migrate_loaded
  migrate_files cluster [] w = ([], w)
  migrate_files cluster (name ∷ names) w =
      let (out, w1) = migrate_loaded cluster name (load cluster name w) w in
      let (more, w2) = migrate_files cluster names w1 in (out ++ more, w2)

  migrate_listed : Text → Result (List Text) → W → List MigrateResult × W
  unfolding migrate_files
  migrate_listed cluster (err e) w =
      (record { cluster = cluster; file = []; changed = 0; error = some e } ∷ [], w)
  migrate_listed cluster (ok names) w = migrate_files cluster names w

  migrate_clusters : List Text → W → List MigrateResult × W
  unfolding migrate_listed
  migrate_clusters [] w = ([], w)
  migrate_clusters (c ∷ cs) w =
      let (out, w1) = migrate_listed c (list c w) w in
      let (more, w2) = migrate_clusters cs w1 in (out ++ more, w2)

  migrate_found : Result (List Text) → W → Result (List MigrateResult) × W
  unfolding migrate_clusters
  migrate_found (err e) w = (err e, w)
  migrate_found (ok cs) w = let (out, w1) = migrate_clusters cs w in (ok out, w1)

  unfoldable pub migrate_store : W → Result (List MigrateResult) × W
  unfolding migrate_found
  migrate_store w = migrate_found (clusters w) w
