-- ===== src/Inspect/Inspectors/Daemons.antt =====
-- inspect/ceph.go: the inspectors of a cluster.
use storage_bot.Base.{[], ◌∷◌, lit}
use storage_bot.Inspect.Ceph.{
  parse_ceph_health, parse_osd_stat, parse_mon_quorum, parse_pg_stat, parse_ceph_df, parse_slow_ops,
  parse_crash_ls,
}
use storage_bot.Inspect.Inspectors.Calls.{cluster_scope, Inspector, of_ceph, run_ceph}

module _ {W F : Type 0} where
  unfoldable pub ceph_health : Inspector W F
  unfolding of_ceph run_ceph
  ceph_health = record {
    name = lit "ceph_health";
    description = lit "Ceph 集群健康状态";
    scope = cluster_scope;
    inspect = λ ic w.
        of_ceph (lit "ceph_health") parse_ceph_health
          (run_ceph ic (lit "health" ∷ lit "detail" ∷ []) w);
  }

  unfoldable pub ceph_osd : Inspector W F
  unfolding of_ceph run_ceph
  ceph_osd = record {
    name = lit "ceph_osd";
    description = lit "OSD up/in 状态";
    scope = cluster_scope;
    inspect = λ ic w.
        of_ceph (lit "ceph_osd") parse_osd_stat (run_ceph ic (lit "osd" ∷ lit "stat" ∷ []) w);
  }

  unfoldable pub ceph_mon : Inspector W F
  unfolding of_ceph run_ceph
  ceph_mon = record {
    name = lit "ceph_mon";
    description = lit "Monitor quorum 状态";
    scope = cluster_scope;
    inspect = λ ic w.
        of_ceph (lit "ceph_mon") (parse_mon_quorum ic.decode)
          (run_ceph ic (lit "quorum_status" ∷ []) w);
  }

  unfoldable pub ceph_pg : Inspector W F
  unfolding of_ceph run_ceph
  ceph_pg = record {
    name = lit "ceph_pg";
    description = lit "PG 状态";
    scope = cluster_scope;
    inspect =
        λ ic w. of_ceph (lit "ceph_pg") parse_pg_stat (run_ceph ic (lit "pg" ∷ lit "stat" ∷ []) w);
  }

  unfoldable pub ceph_capacity : Inspector W F
  unfolding of_ceph run_ceph
  ceph_capacity = record {
    name = lit "ceph_capacity";
    description = lit "集群容量使用率";
    scope = cluster_scope;
    inspect = λ ic w.
        of_ceph (lit "ceph_capacity")
          (λ raw.
            parse_ceph_df ic.floats raw ic.thresholds.capacity_warn_pct
              ic.thresholds.capacity_crit_pct)
          (run_ceph ic (lit "df" ∷ []) w);
  }

  unfoldable pub ceph_slow_ops : Inspector W F
  unfolding of_ceph run_ceph
  ceph_slow_ops = record {
    name = lit "ceph_slow_ops";
    description = lit "慢请求";
    scope = cluster_scope;
    inspect = λ ic w.
        of_ceph (lit "ceph_slow_ops") parse_slow_ops
          (run_ceph ic (lit "health" ∷ lit "detail" ∷ []) w);
  }

  unfoldable pub ceph_crash : Inspector W F
  unfolding of_ceph run_ceph
  ceph_crash = record {
    name = lit "ceph_crash";
    description = lit "未确认 crash";
    scope = cluster_scope;
    inspect = λ ic w.
        of_ceph (lit "ceph_crash") parse_crash_ls (run_ceph ic (lit "crash" ∷ lit "ls-new" ∷ []) w);
  }
