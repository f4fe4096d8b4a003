-- ===== src/Skill/Context.antt =====
-- skill/skill.go: the context of a skill; skill/builtin.go: the choice of its nodes.
use storage_bot.Base.{
  Bool, not, List, [], ◌∷◌, Text, lit, cat, text_eq, if◌then◌else◌, Option, none, some, join,
  contains, to_lower, keep, map,
}
use storage_bot.Base.Result.{Result, err, ok}
use storage_bot.Executor.{SshNode, Wire, host_ip, run_through}

pub record SshTarget : Type 0 where
  pub name : Text
  pub host : Text
  pub user : Text
  pub key_file : Text

-- `has_kube` tells that KubeExec is not nil. `args` is the map of the parameters.
pub record Context : Type 0 where
  pub cluster_name : Text
  pub node_name : Text
  pub gateway : Option SshNode
  pub has_kube : Bool
  pub nodes : List SshTarget
  pub args : List (Text × Text)

-- sc.Args[key], the empty text if it is missing.
unfoldable pub arg : List (Text × Text) → Text → Text
arg [] key = []
arg ((k, v) ∷ m) key = if text_eq k key then v else arg m key

-- The SSH node of a target; the key of a gateway is not set.
abbrev pub node_of : SshTarget → SshNode
node_of t = record {
  name = t.name;
  host = t.host;
  user = t.user;
  key_file = t.key_file;
  gateway_key_file = [];
}

-- The gateway, unless it is the node itself.
gateway_for : {W : Type 0} → Wire W → Option SshNode → SshNode → Option SshNode
gateway_for wire none node = none
gateway_for wire (some gateway) node =
    if not (text_eq (host_ip wire node.host) (host_ip wire gateway.host))
    then some gateway
    else none

unfoldable pub run_on_node : {W : Type 0} → Wire W → Context → SshNode → Text → W → Result Text × W
unfolding gateway_for
run_on_node wire sc node cmd w = run_through wire (gateway_for wire sc.gateway node) node cmd w

unfoldable pub filter_nodes : List SshTarget → Text → List SshTarget
filter_nodes nodes name_hint = keep (λ n. contains (to_lower n.name) (to_lower name_hint)) nodes

abbrev pub names_of : List SshTarget → List Text
names_of ts = map (λ t. t.name) ts

matched_or : (Text → Text) → List SshTarget → Text → List SshTarget → Result (List SshTarget)
matched_or quote nodes node_name [] = err (
    cat (lit "集群中未找到节点 " ∷ quote node_name ∷ lit "，可用节点: " ∷ join (names_of nodes) (lit ", ") ∷ []))
matched_or quote nodes node_name (t ∷ ts) = ok (t ∷ ts)

-- `quote` is the verb %q of package fmt.
unfoldable pub resolve_nodes : (Text → Text) → List SshTarget → Text → Result (List SshTarget)
unfolding matched_or
resolve_nodes quote [] node_name = err (lit "集群中没有可用的 SSH 节点")
resolve_nodes quote (n ∷ nodes) [] = ok (n ∷ nodes)
resolve_nodes quote (n ∷ nodes) (c ∷ hint) =
    matched_or quote (n ∷ nodes) (c ∷ hint) (filter_nodes (n ∷ nodes) (c ∷ hint))
