-- ===== src/Inspect/Inspectors/Registered.antt =====
-- The registered inspectors, one by one.
use storage_bot.Base.{[], ◌∷◌, Text, lit, All, fields}
use storage_bot.Inspect.Ceph.{
  parse_ceph_health, parse_osd_stat, parse_mon_quorum, parse_pg_stat, parse_ceph_df, parse_slow_ops,
  parse_crash_ls,
}
use storage_bot.Inspect.Ceph.Items.{
  parse_ceph_health-Of, parse_osd_stat-Of, parse_mon_quorum-Of, parse_pg_stat-Of, parse_ceph_df-Of,
  parse_slow_ops-Of, parse_crash_ls-Of,
}
use storage_bot.Inspect.Hardware.{parse_memory, parse_disk_usage, parse_nic, parse_bond}
use storage_bot.Inspect.Hardware.Items.{
  parse_memory-Of, parse_disk_usage-All, parse_nic-Of, parse_bond-Of,
}
use storage_bot.Inspect.Pcie.{parse_bond_slave_names}
use storage_bot.Inspect.Inspectors.{
  Scope, cluster_scope, node_scope, InspectContext, Inspector, run_ceph, run_on_node,
  output_on_node, or_usage_ok, add_devices, ceph_health, ceph_osd, ceph_mon, ceph_pg, ceph_capacity,
  ceph_slow_ops, ceph_crash, hw_memory, hw_cpu, hw_disk_usage, hw_disk_smart, hw_nic, hw_bond,
  hw_pcie_link, registry,
}
use storage_bot.Inspect.Inspectors.Named.{
  Reports, of_ceph-Reports, of_node-Reports, one_of, or_usage_ok-All, load_known-Reports,
  disks_known-Reports, links_wanted-Reports,
}

-- Where an inspector of this scope looks.
unfoldable pub place : Text → Scope → Text
place node cluster_scope = []
place node node_scope = node

-- The inspector keeps to its name and its place, whatever the executors answer.
abbrev pub Keeps : {W F : Type 0} → InspectContext W F → W → Inspector W F → Type 0
Keeps ic w i = Reports i.name (place ic.node.name i.scope) (i.inspect ic w)

ceph-Keeps :
    {W F : Type 0} (ic : InspectContext W F) (w : W)
    → Keeps ic w ceph_health
      × (Keeps ic w ceph_osd
          × (Keeps ic w ceph_mon
              × (Keeps ic w ceph_pg
                  × (Keeps ic w ceph_capacity
                      × (Keeps ic w ceph_slow_ops × Keeps ic w ceph_crash)))))
unfolding ceph_health ceph_osd ceph_mon ceph_pg ceph_capacity ceph_slow_ops ceph_crash place
ceph-Keeps ic w =
    let asked = run_ceph ic in
    let t = ic.thresholds in
    (
      of_ceph-Reports (lit "ceph_health") parse_ceph_health
          (asked (lit "health" ∷ lit "detail" ∷ []) w) parse_ceph_health-Of,
      (
        of_ceph-Reports (lit "ceph_osd") parse_osd_stat (asked (lit "osd" ∷ lit "stat" ∷ []) w)
            parse_osd_stat-Of,
        (
          of_ceph-Reports (lit "ceph_mon") (parse_mon_quorum ic.decode)
              (asked (lit "quorum_status" ∷ []) w) (parse_mon_quorum-Of ic.decode),
          (
            of_ceph-Reports (lit "ceph_pg") parse_pg_stat (asked (lit "pg" ∷ lit "stat" ∷ []) w)
                parse_pg_stat-Of,
            (
              of_ceph-Reports (lit "ceph_capacity")
                  (λ raw. parse_ceph_df ic.floats raw t.capacity_warn_pct t.capacity_crit_pct)
                  (asked (lit "df" ∷ []) w)
                  (λ raw. parse_ceph_df-Of ic.floats raw t.capacity_warn_pct t.capacity_crit_pct),
              (
                of_ceph-Reports (lit "ceph_slow_ops") parse_slow_ops
                    (asked (lit "health" ∷ lit "detail" ∷ []) w) parse_slow_ops-Of,
                of_ceph-Reports (lit "ceph_crash") parse_crash_ls
                    (asked (lit "crash" ∷ lit "ls-new" ∷ []) w) parse_crash_ls-Of,
              ),
            ),
          ),
        ),
      ),
    )

hw_memory-Keeps : {W F : Type 0} (ic : InspectContext W F) (w : W) → Keeps ic w hw_memory
unfolding hw_memory place
hw_memory-Keeps ic w =
    let t = ic.thresholds in
    of_node-Reports (lit "hw_memory") ic.node.name
      (λ raw. parse_memory ic.floats raw t.mem_warn_pct t.mem_crit_pct ∷ [])
      (run_on_node ic (lit "free -b") w)
      (λ raw.
        one_of (lit "hw_memory") (parse_memory ic.floats raw t.mem_warn_pct t.mem_crit_pct)
          (parse_memory-Of ic.floats raw t.mem_warn_pct t.mem_crit_pct))

hw_cpu-Keeps : {W F : Type 0} (ic : InspectContext W F) (w : W) → Keeps ic w hw_cpu
unfolding hw_cpu place
hw_cpu-Keeps ic w = load_known-Reports ic (run_on_node ic (lit "nproc") w)

hw_disk_usage-Keeps : {W F : Type 0} (ic : InspectContext W F) (w : W) → Keeps ic w hw_disk_usage
unfolding hw_disk_usage place
hw_disk_usage-Keeps ic w =
    let t = ic.thresholds in
    of_node-Reports (lit "hw_disk_usage") ic.node.name
      (λ raw. or_usage_ok (parse_disk_usage raw t.fs_warn_pct t.fs_crit_pct))
      (run_on_node ic (lit "df -B1 -x tmpfs -x devtmpfs") w)
      (λ raw.
        or_usage_ok-All (parse_disk_usage raw t.fs_warn_pct t.fs_crit_pct)
          (parse_disk_usage-All raw t.fs_warn_pct t.fs_crit_pct))

hw_disk_smart-Keeps : {W F : Type 0} (ic : InspectContext W F) (w : W) → Keeps ic w hw_disk_smart
unfolding hw_disk_smart place
hw_disk_smart-Keeps ic w =
    disks_known-Reports ic
      (run_on_node ic (lit "lsblk -dno NAME,TYPE | awk '$2==\"disk\"{print $1}'") w)

hw_nic-Keeps : {W F : Type 0} (ic : InspectContext W F) (w : W) → Keeps ic w hw_nic
unfolding hw_nic place
hw_nic-Keeps ic w =
    of_node-Reports (lit "hw_nic") ic.node.name (λ raw. parse_nic raw ∷ [])
      (run_on_node ic
        (lit
          "grep -H -E '^(Slave Interface|MII Status)' /proc/net/bonding/bond* 2>/dev/null || echo '(no bonds)'")
        w)
      (λ raw. one_of (lit "hw_nic") (parse_nic raw) (parse_nic-Of raw))

hw_bond-Keeps : {W F : Type 0} (ic : InspectContext W F) (w : W) → Keeps ic w hw_bond
unfolding hw_bond place
hw_bond-Keeps ic w =
    of_node-Reports (lit "hw_bond") ic.node.name (λ raw. parse_bond raw ∷ [])
      (run_on_node ic
        (lit
          "grep -H -E '^(Slave Interface|Link Failure Count|MII Status)' /proc/net/bonding/bond* 2>/dev/null || echo '(no bonds)'")
        w)
      (λ raw. one_of (lit "hw_bond") (parse_bond raw) (parse_bond-Of raw))

hw_pcie_link-Keeps : {W F : Type 0} (ic : InspectContext W F) (w : W) → Keeps ic w hw_pcie_link
unfolding hw_pcie_link place
hw_pcie_link-Keeps ic w =
    let (drives, w1) = output_on_node ic (lit "ls /sys/class/nvme/ 2>/dev/null || true") w in
    let (want, w2) = add_devices ic (lit "/sys/class/nvme/") (lit "NVMe") (fields drives.0) [] w1 in
    let (bonds, w3) =
      output_on_node ic
        (lit "grep -H '^Slave Interface' /proc/net/bonding/bond* 2>/dev/null || true") w2 in
    links_wanted-Reports ic
      (add_devices ic (lit "/sys/class/net/") (lit "NIC") (parse_bond_slave_names bonds.0) want w3)

-- No registered inspector returns an error, whatever the executors answer: each gives at least one
-- finding, and every finding of it carries the inspector's name and, for a node's inspector, the
-- name of the node.
pub registry-Keeps : {W F : Type 0} (ic : InspectContext W F) (w : W) → All (Keeps ic w) registry
unfolding registry
registry-Keeps ic w =
    let (a, (b, (c, (d, (e, (f, g)))))) = ceph-Keeps ic w in
    (
      a,
      (
        b,
        (
          c,
          (
            d,
            (
              e,
              (
                f,
                (
                  g,
                  (
                    hw_cpu-Keeps ic w,
                    (
                      hw_memory-Keeps ic w,
                      (
                        hw_disk_smart-Keeps ic w,
                        (
                          hw_disk_usage-Keeps ic w,
                          (hw_nic-Keeps ic w, (hw_bond-Keeps ic w, (hw_pcie_link-Keeps ic w, tt))),
                        ),
                      ),
                    ),
                  ),
                ),
              ),
            ),
          ),
        ),
      ),
    )
