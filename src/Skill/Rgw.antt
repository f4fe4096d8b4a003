-- ===== src/Skill/Rgw.antt =====
-- skill/builtin.go: OptimizeRGWBucketsPG, which applies the upmaps of a pool by a script in the pod.
pub mod Once
use storage_bot.Base.{
  Bool, not, List, [], ◌∷◌, ◌++◌, Text, lit, cat, if◌then◌else◌, trim_space, split_at, has_suffix,
}
use storage_bot.Base.Result.{Result, err, ok}
use storage_bot.Executor.{Wire, run_ceph_command, run_shell_script}
use storage_bot.Skill.Context.{Context, arg}

abbrev pub rgw_buckets_data_suffix : Text
rgw_buckets_data_suffix = lit ".rgw.buckets.data"

-- An argument `max` that is missing or empty stands for 100.
abbrev pub upmap_max : Text → Text
upmap_max [] = lit "100"
upmap_max (c ∷ v) = c ∷ v

-- The first line of the list, without white space, with the suffix.
unfoldable pub pool_of : List Text → Text
pool_of [] = []
pool_of (l ∷ ls) =
    let later = pool_of ls in
    if has_suffix (trim_space l) rgw_buckets_data_suffix then trim_space l else later

-- `quote` is the verb %q of package fmt.
unfoldable pub upmap_script : (Text → Text) → Text → Text → Text
upmap_script quote max pool = cat (
    lit
      "set -e\nceph osd getmap -o /tmp/om\nosdmaptool /tmp/om --upmap /tmp/out.txt --upmap-deviation 1 --upmap-max "
    ∷ max
    ∷ lit " --upmap-pool "
    ∷ quote pool
    ∷ lit
        "\necho \"=== upmap commands ===\"\ncat /tmp/out.txt\necho \"=== applying ===\"\nbash /tmp/out.txt\necho \"done\""
    ∷ [])

module _ {W : Type 0} (wire : Wire W) (quote : Text → Text) where
  optimized : Text → Result Text × W → Result Text × W
  optimized pool (err e, w) = (err (lit "optimize rgw pg: " ++ e), w)
  optimized pool (ok output, w) = (
    ok (cat (lit "🪄 **优化 PG 分布** · pool `" ∷ pool ∷ lit "`\n```\n" ∷ output ∷ lit "\n```" ∷ [])),
    w,
  )

  on_pool : Context → Text → W → Result Text × W
  unfolding optimized
  on_pool sc [] w = (ok (cat (lit "🚫 未找到以 `" ∷ rgw_buckets_data_suffix ∷ lit "` 结尾的存储池" ∷ [])), w)
  on_pool sc (c ∷ pool) w = optimized (c ∷ pool) (
      run_shell_script wire (upmap_script quote (upmap_max (arg sc.args (lit "max"))) (c ∷ pool)) w)

  pools_listed : Context → Result Text × W → Result Text × W
  unfolding on_pool
  pools_listed sc (err e, w) = (err (lit "list pools: " ++ e), w)
  pools_listed sc (ok listing, w) = on_pool sc (pool_of (split_at b'\n' [] listing)) w

  unfoldable pub optimize_rgw_pg : Context → W → Result Text × W
  unfolding pools_listed
  optimize_rgw_pg sc w =
      let listed =
        pools_listed sc (run_ceph_command wire (lit "osd" ∷ lit "pool" ∷ lit "ls" ∷ []) w) in
      if not sc.has_kube then (err (lit "no kubernetes connection available"), w) else listed
