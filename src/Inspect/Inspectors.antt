-- ===== src/Inspect/Inspectors.antt =====
-- inspect/hardware.go and inspect/registry.go: the inspectors of a node, and the registry with those
-- of a cluster. None of them returns an error: what cannot be collected is a finding of its own.
pub mod Calls
pub mod Daemons
pub mod Named
pub mod Registered
mod Tests
unfoldable pub use Calls.*
unfoldable pub use Daemons.*
use storage_bot.Base.{
  ℕ, Bool, true, false, not, ◌&&◌, ◌||◌, List, [], ◌∷◌, ◌++◌, Text, lit, cat, text_eq,
  if◌then◌else◌, Option, none, some, contains, trim_space, fields, map, keep,
}
use storage_bot.Base.Int.{ℤ}
use storage_bot.Base.Decimal.{atoi}
use storage_bot.Base.Result.{Result, err, ok}
use storage_bot.Executor.{SshNode, Wire, host_ip, run_through, run_output, run_ceph_command}
use storage_bot.Cluster.Nodes.{put}
use storage_bot.Inspect.Level.{Level, level_ok, level_unknown, Finding, finding}
use storage_bot.Inspect.Ceph.{
  Floats, QuorumStatus, parse_ceph_health, parse_osd_stat, parse_mon_quorum, parse_pg_stat,
  parse_ceph_df, parse_slow_ops, parse_crash_ls,
}
use storage_bot.Inspect.Hardware.{
  parse_memory, parse_disk_usage, parse_smart, parse_load, parse_nic, parse_bond,
}
use storage_bot.Inspect.Pcie.{
  PcieMeta, parse_bond_slave_names, bdf_from_readlink, parse_lspci_links, sort_pcie_devs,
}
use storage_bot.Inspect.Pcie.Degraded.{eval_pcie_links}

module _ {W F : Type 0} where
  unfoldable pub hw_memory : Inspector W F
  unfolding of_node run_on_node
  hw_memory = record {
    name = lit "hw_memory";
    description = lit "内存使用率";
    scope = node_scope;
    inspect = λ ic w.
        of_node (lit "hw_memory") ic.node.name
          (λ raw.
            parse_memory ic.floats raw ic.thresholds.mem_warn_pct ic.thresholds.mem_crit_pct ∷ [])
          (run_on_node ic (lit "free -b") w);
  }

  pub load_known : InspectContext W F → Result Text × W → Result (List Finding) × W
  unfolding of_node run_on_node failed at_node
  load_known ic (err e, w) = (ok (at_node ic.node.name (failed (lit "hw_cpu") e) ∷ []), w)
  load_known ic (ok cores, w) =
      of_node (lit "hw_cpu") ic.node.name
        (λ raw.
          parse_load ic.floats raw (atoi (trim_space cores)).0 ic.thresholds.load_warn_ratio ∷ [])
        (run_on_node ic (lit "uptime") w)

  unfoldable pub hw_cpu : Inspector W F
  unfolding load_known run_on_node
  hw_cpu = record {
    name = lit "hw_cpu";
    description = lit "CPU load";
    scope = node_scope;
    inspect = λ ic w. load_known ic (run_on_node ic (lit "nproc") w);
  }

  unfoldable pub hw_disk_usage : Inspector W F
  unfolding of_node run_on_node or_usage_ok
  hw_disk_usage = record {
    name = lit "hw_disk_usage";
    description = lit "文件系统使用率";
    scope = node_scope;
    inspect = λ ic w.
        of_node (lit "hw_disk_usage") ic.node.name
          (λ raw.
            or_usage_ok (parse_disk_usage raw ic.thresholds.fs_warn_pct ic.thresholds.fs_crit_pct))
          (run_on_node ic (lit "df -B1 -x tmpfs -x devtmpfs") w);
  }

  smart_each : InspectContext W F → List Text → W → List Finding × W
  unfolding shown at_node output_on_node
  smart_each ic [] w = ([], w)
  smart_each ic (name ∷ names) w =
      let dev = lit "/dev/" ++ name in
      let (printed, w') =
        output_on_node ic (cat (lit "smartctl -A -H " ∷ dev ∷ lit " 2>&1" ∷ [])) w in
      let (rest, w'') = smart_each ic names w' in
      (
        at_node ic.node.name (
              parse_smart dev (shown printed) ic.thresholds.disk_life_warn_pct
                ic.thresholds.disk_life_crit_pct)
            ∷ rest,
        w'',
      )

  or_no_disk : InspectContext W F → List Finding → List Finding
  unfolding at_node
  or_no_disk ic [] =
      at_node ic.node.name (finding (lit "hw_disk_smart") level_unknown (lit "未发现物理磁盘")) ∷ []
  or_no_disk ic (f ∷ fs) = f ∷ fs

  pub disks_known : InspectContext W F → Result Text × W → Result (List Finding) × W
  unfolding smart_each or_no_disk failed at_node
  disks_known ic (err e, w) = (ok (at_node ic.node.name (failed (lit "hw_disk_smart") e) ∷ []), w)
  disks_known ic (ok listed, w) =
      let (fs, w') = smart_each ic (fields listed) w in (ok (or_no_disk ic fs), w')

  unfoldable pub hw_disk_smart : Inspector W F
  unfolding disks_known run_on_node
  hw_disk_smart = record {
    name = lit "hw_disk_smart";
    description = lit "磁盘 SMART 寿命/自检";
    scope = node_scope;
    inspect = λ ic w.
        disks_known ic
          (run_on_node ic (lit "lsblk -dno NAME,TYPE | awk '$2==\"disk\"{print $1}'") w);
  }

  unfoldable pub hw_nic : Inspector W F
  unfolding of_node run_on_node
  hw_nic = record {
    name = lit "hw_nic";
    description = lit "bond 成员口 UP 状态";
    scope = node_scope;
    inspect = λ ic w.
        of_node (lit "hw_nic") ic.node.name (λ raw. parse_nic raw ∷ [])
          (run_on_node ic
            (lit
              "grep -H -E '^(Slave Interface|MII Status)' /proc/net/bonding/bond* 2>/dev/null || echo '(no bonds)'")
            w);
  }

  unfoldable pub hw_bond : Inspector W F
  unfolding of_node run_on_node
  hw_bond = record {
    name = lit "hw_bond";
    description = lit "bond 链路状态";
    scope = node_scope;
    inspect = λ ic w.
        of_node (lit "hw_bond") ic.node.name (λ raw. parse_bond raw ∷ [])
          (run_on_node ic
            (lit
              "grep -H -E '^(Slave Interface|Link Failure Count|MII Status)' /proc/net/bonding/bond* 2>/dev/null || echo '(no bonds)'")
            w);
  }

  -- The devices of a class, under the addresses that their links lead to.
  add_devices :
      InspectContext W F
      → Text
      → Text
      → List Text
      → List (Text × PcieMeta)
      → W
      → List (Text × PcieMeta) × W
  unfolding resolved_bdf put_device output_on_node
  add_devices ic class kind [] want w = (want, w)
  add_devices ic class kind (dev ∷ devs) want w =
      let (printed, w') =
        output_on_node ic (cat (lit "readlink -f " ∷ class ∷ dev ∷ lit "/device" ∷ [])) w in
      add_devices ic class kind devs
        (put_device (resolved_bdf printed) (record { kind = kind; name = dev }) want) w'

  links_of : InspectContext W F → List (Text × PcieMeta) → Text → List Finding
  unfolding at_node
  links_of ic want raw =
      if contains raw (lit "command not found") || contains raw (lit "not installed")
      then record (finding (lit "hw_pcie_link") level_unknown (lit "lspci 不可用")) {
        node = ic.node.name;
        advice = lit "节点未安装 pciutils，建议 `yum install pciutils`";
      }
        ∷ []
      else map (at_node ic.node.name) (
          eval_pcie_links ic.floats
            (sort_pcie_devs ic.floats (parse_lspci_links ic.floats raw want))
            ic.thresholds.pcie_min_speed_gts)

  pub links_wanted : InspectContext W F → List (Text × PcieMeta) × W → Result (List Finding) × W
  unfolding links_of at_node shown output_on_node
  links_wanted ic ([], w) = (
    ok (
        at_node ic.node.name
          (finding (lit "hw_pcie_link") level_ok (lit "未发现可检测的 NVMe/bond 网卡 PCIe 链路"))
        ∷ []),
    w,
  )
  links_wanted ic (d ∷ want, w) =
      let (printed, w') = output_on_node ic (lit "lspci -Dvvv 2>&1") w in
      (ok (links_of ic (d ∷ want) (shown printed)), w')

  unfoldable pub hw_pcie_link : Inspector W F
  unfolding links_wanted add_devices output_on_node
  hw_pcie_link = record {
    name = lit "hw_pcie_link";
    description = lit "NVMe/网卡 PCIe 链路速率与宽度";
    scope = node_scope;
    inspect = λ ic w.
        let (drives, w1) = output_on_node ic (lit "ls /sys/class/nvme/ 2>/dev/null || true") w in
        let (want, w2) =
          add_devices ic (lit "/sys/class/nvme/") (lit "NVMe") (fields drives.0) [] w1 in
        let (bonds, w3) =
          output_on_node ic
            (lit "grep -H '^Slave Interface' /proc/net/bonding/bond* 2>/dev/null || true") w2 in
        links_wanted ic (
          add_devices ic (lit "/sys/class/net/") (lit "NIC") (parse_bond_slave_names bonds.0) want
            w3);
  }

  unfoldable pub registry : List (Inspector W F)
  registry =
      ceph_health ∷ ceph_osd ∷ ceph_mon ∷ ceph_pg ∷ ceph_capacity ∷ ceph_slow_ops ∷ ceph_crash
      ∷ hw_cpu ∷ hw_memory ∷ hw_disk_smart ∷ hw_disk_usage ∷ hw_nic ∷ hw_bond ∷ hw_pcie_link ∷ []

  unfoldable pub is_of : Scope → Inspector W F → Bool
  is_of cluster_scope i = elim i.scope [ cluster_scope ↦ true | node_scope ↦ false ]
  is_of node_scope i = elim i.scope [ cluster_scope ↦ false | node_scope ↦ true ]

  unfoldable pub by_scope : Scope → List (Inspector W F) → List (Inspector W F)
  unfolding is_of
  by_scope s is = keep (is_of s) is
