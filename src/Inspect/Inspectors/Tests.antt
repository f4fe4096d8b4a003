-- ===== src/Inspect/Inspectors/Tests.antt =====
-- Runs of the parsers and of the inspectors, and their theorems at concrete inputs.
use mathlib.Core.List.{Perm}
use storage_bot.Base.{
  ℕ, arith, ◌+◌, ◌≡◌, ◌↔◌, ◌*◌, ◌/◌, ◌<◌, ◌≤◌, refl, Bool, true, false, not, ◌&&◌, Option, none,
  some, List, [], ◌∷◌, ◌++◌, map, Text, lit, length, ltb, leb, ◌==◌, All, keep, text_eq,
  if◌then◌else◌,
}
use storage_bot.Base
use storage_bot.Base.Decimal
use storage_bot.Base.Decimal.{atoi, itoa}
use storage_bot.Base.Int
use storage_bot.Base.Int.{ℤ, pos, negsuc}
use storage_bot.Regex
use storage_bot.Inspect.Level.{level_ok, level_warn, level_critical, Finding}
use storage_bot.Inspect.Ceph.{
  parse_ceph_health, parse_osd_stat, parse_mon_quorum, parse_pg_stat, parse_ceph_df, parse_slow_ops,
  parse_crash_ls, osd_stat_re, df_total_re, literal, level_against,
}
use storage_bot.Inspect.Ceph.Quorum.{parse_mon_quorum_lem}
use storage_bot.Inspect.Hardware.{
  parse_memory, parse_disk_usage, parse_smart, parse_load, parse_nic, parse_bond, nic_scan,
  bond_scan, smart_pct_re, smart_health_re, load_re,
}
use storage_bot.Inspect.Pcie.{
  PcieMeta, PcieDev, parse_bond_slave_names, bdf_from_readlink, parse_lspci_links, sort_pcie_devs,
  base, pcie_link_summary, parse_pcie_speed, parse_pcie_width, bdf_re, pcie_speed_re, pcie_width_re,
}
use storage_bot.Inspect.Pcie.Degraded.{
  eval_pcie_links, groups_of, report_level, is_checked, width_down, is_silenced, speed_down,
  add_to_groups, build_pcie_finding,
}
use storage_bot.Inspect.Pcie.Degraded.Lost.{members, is_reported, members-groups_of}
use storage_bot.Inspect.Inspectors.{InspectContext, registry}
use storage_bot.Base.{text_lt}
use storage_bot.Inspect.Inspectors.Registered.{Keeps, registry-Keeps}
use storage_bot.Inspect.Samples.{whole, limits, silent, probed}

parsing : Unit {0}
unfolding parse_ceph_health parse_osd_stat parse_mon_quorum parse_pg_stat parse_ceph_df
    parse_slow_ops parse_crash_ls osd_stat_re df_total_re literal level_against nic_scan bond_scan
    is_silenced speed_down add_to_groups build_pcie_finding base pcie_link_summary parse_pcie_speed
    parse_pcie_width smart_pct_re smart_health_re load_re bdf_re pcie_speed_re pcie_width_re
    parse_memory parse_disk_usage parse_smart parse_load parse_nic parse_bond parse_bond_slave_names
    bdf_from_readlink parse_lspci_links sort_pcie_devs eval_pcie_links groups_of report_level
    is_checked width_down Base.lit Base.text_eq Base.contains Base.has_prefix Decimal.itoa
    Decimal.itoa_ℕ Decimal.atoi Decimal.parse_uint Decimal.scan Int.◌-ℤ◌ Int.◌+ℤ◌ Base.trim_space
    Base.fields Base.split_at Base.cut Base.to_lower Base.lower_byte Base.join Base.trim_suffix
    Base.has_suffix Base.trim_prefix Regex.find Regex.run Regex.group_of Regex.match_string
parsing = tt

one_down : (parse_osd_stat (lit "3 osds: 2 up (since 5m), 3 in (since 2d)")).level ≡ level_critical
unfolding parsing
one_down = refl

osds_well :
    (parse_osd_stat (lit "3 osds: 3 up (since 5m), 3 in (since 2d)")).summary
    ≡ lit "全部 3 个 OSD up/in"
unfolding parsing
osds_well = refl

abbrev memory_output : Text
memory_output = lit "  total  used  free\nMem:    100         95          1\n"

-- The fraction is a whole number here, and 95/100 is 0.
memory_read : (parse_memory whole memory_output (pos 0) (pos 1)).level ≡ level_warn
unfolding parsing
memory_read = refl

full_root :
    map
      (λ (f : Finding). f.summary)
      (parse_disk_usage
        (lit
          "Filesystem 1B-blocks Used Available Use% Mounted on\n/dev/sda1 100 92 8 92% /\n/dev/sdb1 100 50 50 50% /data\n")
        (pos 85)
        (pos 90))
    ≡ lit "/ 使用率 92%" ∷ []
unfolding parsing
full_root = refl

worn :
    (parse_smart
      (lit "/dev/nvme0n1")
      (lit "SMART overall-health self-assessment test result: PASSED\nPercentage Used:  85%\n")
      (pos 80)
      (pos 90)).level
    ≡ level_warn
unfolding parsing
worn = refl

loaded :
    (parse_load whole (lit " 14:02:01 up 10 days,  load average: 18, 5, 4\n") (pos 8) 2).level
    ≡ level_warn
unfolding parsing
loaded = refl

port_down :
    (parse_nic (
      lit
        "/proc/net/bonding/bond0:Slave Interface: eth0\n/proc/net/bonding/bond0:MII Status: up\n/proc/net/bonding/bond0:Slave Interface: eth1\n/proc/net/bonding/bond0:MII Status: down\n")).level
    ≡ level_warn
unfolding parsing
port_down = refl

summed :
    (parse_bond (
      lit
        "/proc/net/bonding/bond0:Link Failure Count: 3\n/proc/net/bonding/bond0:MII Status: up\n/proc/net/bonding/bond1:Link Failure Count: 5\n/proc/net/bonding/bond1:MII Status: up\n")).metrics
    ≡ (lit "link_failure_total", lit "8") ∷ []
unfolding parsing
summed = refl

resolved :
    bdf_from_readlink (lit "/sys/devices/pci0000:16/0000:16:02.0/0000:17:00.0") ≡ lit "0000:17:00.0"
unfolding parsing
resolved = refl

abbrev drives : List (Text × PcieMeta)
drives = (lit "0000:17:00.0", record { kind = lit "NVMe"; name = lit "nvme0" }) ∷ []

abbrev lspci : Text
lspci =
    lit
      "0000:17:00.0 Non-Volatile memory controller: Acme PM\n\t\tLnkCap:\tPort #0, Speed 16GT/s, Width x4\n\t\tLnkSta:\tSpeed 16GT/s, Width x2 (downgraded)\n"

abbrev links : List (PcieDev ℕ)
links = parse_lspci_links whole lspci drives

fewer_lanes : map (λ (f : Finding). f.level) (eval_pcie_links whole links 8) ≡ level_critical ∷ []
unfolding parsing
fewer_lanes = refl

parse_mon_quorum_lem_example :
    (((parse_mon_quorum
          (λ raw. some (record {
            quorum = pos 0 ∷ pos 1 ∷ [];
            mons = lit "a" ∷ lit "b" ∷ lit "c" ∷ lit "d" ∷ [];
          }))
          []).level
        ≡ level_critical)
      ↔ ((0 < 4) × (4 ≤ 4)))
    × (((parse_mon_quorum
            (λ raw. some (record {
              quorum = pos 0 ∷ pos 1 ∷ [];
              mons = lit "a" ∷ lit "b" ∷ lit "c" ∷ lit "d" ∷ [];
            }))
            []).level
          ≡ level_ok)
        ↔ ((0 < 4) × (4 < 4)))
parse_mon_quorum_lem_example =
    parse_mon_quorum_lem
      (λ raw.
        some (record {
          quorum = pos 0 ∷ pos 1 ∷ [];
          mons = lit "a" ∷ lit "b" ∷ lit "c" ∷ lit "d" ∷ [];
        }))
      [] (record { quorum = pos 0 ∷ pos 1 ∷ []; mons = lit "a" ∷ lit "b" ∷ lit "c" ∷ lit "d" ∷ [] })
      refl

members-groups_of_example :
    Perm (members (groups_of whole 8 links)) (keep (is_reported whole 8) links)
    × ((d : PcieDev ℕ)
        → (report_level whole 8 d ≡ some level_critical)
          ↔ ((is_checked whole d ≡ true) × (width_down whole d ≡ true)))
members-groups_of_example = members-groups_of whole 8 links

abbrev unanswered : InspectContext (Unit {0}) ℕ
unanswered = record {
  cluster_name = lit "cdn";
  node = probed;
  gateway = none;
  wire = silent;
  thresholds = limits;
  floats = whole;
  decode = λ raw. none;
}

registry-Keeps_example : All (Keeps unanswered tt) registry
registry-Keeps_example = registry-Keeps unanswered tt
