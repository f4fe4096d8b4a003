-- ===== src/Inspect/Inspectors/Calls.antt =====
-- inspect/inspector.go: what an inspector is given, and its calls of the executors.
use storage_bot.Base.{
  not, List, [], ◌∷◌, Text, lit, text_eq, if◌then◌else◌, Option, none, some, map,
}
use storage_bot.Base.Int.{ℤ}
use storage_bot.Base.Result.{Result, err, ok}
use storage_bot.Executor.{SshNode, Wire, host_ip, run_through, run_output, run_ceph_command}
use storage_bot.Cluster.Nodes.{put}
use storage_bot.Inspect.Level.{level_ok, level_unknown, Finding, finding}
use storage_bot.Inspect.Ceph.{Floats, QuorumStatus}
use storage_bot.Inspect.Pcie.{PcieMeta, bdf_from_readlink}

pub data Scope : Type 0 where
  cluster_scope node_scope : Scope

pub record Thresholds (F : Type 0) : Type 0 where
  pub capacity_warn_pct : ℤ
  pub capacity_crit_pct : ℤ
  pub mem_warn_pct : ℤ
  pub mem_crit_pct : ℤ
  pub fs_warn_pct : ℤ
  pub fs_crit_pct : ℤ
  pub disk_life_warn_pct : ℤ
  pub disk_life_crit_pct : ℤ
  pub load_warn_ratio : F
  pub pcie_min_speed_gts : F

-- The executors are the field `wire`; `decode` is the reading of quorum_status by encoding/json.
pub record InspectContext (W F : Type 0) : Type 0 where
  pub cluster_name : Text
  pub node : SshNode
  pub gateway : Option SshNode
  pub wire : Wire W
  pub thresholds : Thresholds F
  pub floats : Floats F
  pub decode : Text → Option QuorumStatus

pub record Inspector (W F : Type 0) : Type 0 where
  pub name : Text
  pub description : Text
  pub scope : Scope
  pub inspect : InspectContext W F → W → Result (List Finding) × W

-- Collecting has failed.
unfoldable pub failed : Text → Text → Finding
failed item e = record (finding item level_unknown (lit "采集失败")) { detail = e }

unfoldable pub at_node : Text → Finding → Finding
at_node node f = record f { node = node }

unfoldable pub of_ceph :
    {W : Type 0} → Text → (Text → Finding) → Result Text × W → Result (List Finding) × W
unfolding failed
of_ceph item parse (err e, w) = (ok (failed item e ∷ []), w)
of_ceph item parse (ok raw, w) = (ok (parse raw ∷ []), w)

unfoldable pub of_node :
    {W : Type 0} → Text → Text → (Text → List Finding) → Result Text × W → Result (List Finding) × W
unfolding failed at_node
of_node item node parse (err e, w) = (ok (at_node node (failed item e) ∷ []), w)
of_node item node parse (ok raw, w) = (ok (map (at_node node) (parse raw)), w)

unfoldable pub or_usage_ok : List Finding → List Finding
or_usage_ok [] = finding (lit "hw_disk_usage") level_ok (lit "文件系统使用率正常") ∷ []
or_usage_ok (f ∷ fs) = f ∷ fs

-- The output, or the error's text if there is an error and no output.
unfoldable pub shown : Text × Option Text → Text
shown (out, none) = out
shown ([], some e) = e
shown (c ∷ out, some e) = c ∷ out

unfoldable pub resolved_bdf : Text × Option Text → Text
resolved_bdf (out, none) = bdf_from_readlink out
resolved_bdf ([], some e) = []
resolved_bdf (c ∷ out, some e) = bdf_from_readlink (c ∷ out)

unfoldable pub put_device : Text → PcieMeta → List (Text × PcieMeta) → List (Text × PcieMeta)
put_device [] meta want = want
put_device (c ∷ bdf) meta want = put want (c ∷ bdf) meta

module _ {W F : Type 0} where
  unfoldable pub run_ceph : InspectContext W F → List Text → W → Result Text × W
  run_ceph ic args w = run_ceph_command ic.wire args w

  -- The gateway, unless the node is the gateway itself.
  hop : InspectContext W F → Option SshNode → Option SshNode
  hop ic none = none
  hop ic (some g) =
      if not (text_eq (host_ip ic.wire ic.node.host) (host_ip ic.wire g.host)) then some g else none

  unfoldable pub run_on_node : InspectContext W F → Text → W → Result Text × W
  unfolding hop
  run_on_node ic cmd w = run_through ic.wire (hop ic ic.gateway) ic.node cmd w

  -- The same, where the caller looks at the output beside the error.
  unfoldable pub output_on_node : InspectContext W F → Text → W → (Text × Option Text) × W
  unfolding hop
  output_on_node ic cmd w = run_output ic.wire (hop ic ic.gateway) ic.node cmd w
