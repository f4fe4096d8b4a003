-- ===== src/Cluster/Nodes.antt =====
-- cluster/manager.go: the caches of nodes and executors. `K` stands for the Kubernetes client of
-- package executor; what makes one, and what it finds, are the fields of `Kube`.
pub mod Cache
use storage_bot.Base.{
  ◌≡◌, Bool, true, false, List, [], ◌∷◌, ◌++◌, Text, lit, map, text_eq, if◌then◌else◌, Option, none,
  some,
}
use storage_bot.Base.Result.{Result, err, ok}
use storage_bot.Executor.{SshNode}
use storage_bot.Cluster.{get}

pub record ClusterConfig : Type 0 where
  pub kubeconfig : Text
  pub namespace : Text
  pub toolbox_pod : Text
  pub server_override : Text
  pub insecure_skip_tls_verify : Bool
  pub gateway_node : Option SshNode
  pub ssh_nodes : List SshNode

pub record NodeInfo : Type 0 where
  pub name : Text
  pub internal_ip : Text

-- NewKubeExecutor and DiscoverNodes.
pub record Kube (W K : Type 0) : Type 0 where
  pub connect : ClusterConfig → W → Result K × W
  pub discover : K → W → Result (List NodeInfo) × W

pub record Manager (K : Type 0) : Type 0 where
  pub clusters : List (Text × ClusterConfig)
  pub node_cache : List (Text × List SshNode)
  pub kube_cache : List (Text × K)

-- m[key] = value, and delete(m, key).
unfoldable pub put : {V : Type 0} → List (Text × V) → Text → V → List (Text × V)
put [] key value = (key, value) ∷ []
put ((k, v) ∷ m) key value =
    let further = put m key value in if text_eq k key then (k, value) ∷ m else (k, v) ∷ further

unfoldable pub drop_key : {V : Type 0} → List (Text × V) → Text → List (Text × V)
drop_key [] key = []
drop_key ((k, v) ∷ m) key =
    let further = drop_key m key in if text_eq k key then further else (k, v) ∷ further

unfoldable pub new_manager : {K : Type 0} → List (Text × ClusterConfig) → Manager K
new_manager clusters = record { clusters = clusters; node_cache = []; kube_cache = [] }

unfoldable pub reload : {K : Type 0} → List (Text × ClusterConfig) → Manager K → Manager K
reload clusters m = record { clusters = clusters; node_cache = []; kube_cache = [] }

unfoldable pub list : {K : Type 0} → Manager K → List Text
list m = map (λ e. e.0) m.clusters

unfoldable pub invalidate_node_cache : {K : Type 0} → Text → Manager K → Manager K
invalidate_node_cache name m = record m { node_cache = drop_key m.node_cache name }

module _ {W K : Type 0} (kube : Kube W K) where
  -- A node that was found, with the credentials of the gateway.
  found_node : SshNode → NodeInfo → SshNode
  found_node gateway n = record {
    name = n.name;
    host = n.internal_ip ++ lit ":22";
    user = gateway.user;
    key_file = gateway.key_file;
    gateway_key_file = [];
  }

  found_nodes : SshNode → Result (List NodeInfo) × W → Result (List SshNode) × W
  unfolding found_node
  found_nodes gateway (err e, w) = (err (lit "discover nodes: " ++ e), w)
  found_nodes gateway (ok ns, w) = (ok (map (found_node gateway) ns), w)

  discover_with : SshNode → Result K × W → Result (List SshNode) × W
  unfolding found_nodes
  discover_with gateway (err e, w) = (err (lit "connect to cluster for node discovery: " ++ e), w)
  discover_with gateway (ok k, w) = found_nodes gateway (kube.discover k w)

  -- What runs between the two locks: no part of the manager is read or written.
  unfoldable pub discover_nodes : SshNode → ClusterConfig → W → Result (List SshNode) × W
  unfolding discover_with
  discover_nodes gateway cfg w = discover_with gateway (kube.connect cfg w)

  -- The write under the second lock.
  unfoldable pub cache_nodes : Text → Result (List SshNode) → Manager K → Manager K
  cache_nodes name (err e) m = m
  cache_nodes name (ok ns) m = record m { node_cache = put m.node_cache name ns }

  resolve_missing :
      Text
      → SshNode
      → ClusterConfig
      → Option (List SshNode)
      → Manager K
      → W
      → Result (List SshNode) × Manager K × W
  resolve_missing name gateway cfg (some ns) m w = (ok ns, m, w)
  resolve_missing name gateway cfg none m w =
      let (r, w') = discover_nodes gateway cfg w in (r, cache_nodes name r m, w')

  resolve_found :
      Text → ClusterConfig → Option SshNode → Manager K → W → Result (List SshNode) × Manager K × W
  unfolding resolve_missing
  resolve_found name cfg none m w = (ok [], m, w)
  resolve_found name cfg (some gateway) m w =
      resolve_missing name gateway cfg (get m.node_cache name) m w

  resolve_listed :
      Text → ClusterConfig → List SshNode → Manager K → W → Result (List SshNode) × Manager K × W
  unfolding resolve_found
  resolve_listed name cfg (n ∷ ns) m w = (ok (n ∷ ns), m, w)
  resolve_listed name cfg [] m w = resolve_found name cfg cfg.gateway_node m w

  unfoldable pub resolve_ssh_nodes :
      Text → ClusterConfig → Manager K → W → Result (List SshNode) × Manager K × W
  unfolding resolve_listed
  resolve_ssh_nodes name cfg m w = resolve_listed name cfg cfg.ssh_nodes m w

  unfoldable pub cache_kube : Text → Result K → Manager K → Manager K
  cache_kube name (err e) m = m
  cache_kube name (ok k) m = record m { kube_cache = put m.kube_cache name k }

  connect_missing : Text → ClusterConfig → Option K → Manager K → W → Result K × Manager K × W
  connect_missing name cfg (some k) m w = (ok k, m, w)
  connect_missing name cfg none m w =
      let (r, w') = kube.connect cfg w in (r, cache_kube name r m, w')

  unfoldable pub kube_executor : Text → ClusterConfig → Manager K → W → Result K × Manager K × W
  unfolding connect_missing
  kube_executor name cfg m w = connect_missing name cfg (get m.kube_cache name) m w
