-- ===== src/Bot/Tests.antt =====
-- Skills asked for in messages, and their theorems at concrete inputs. The world is the list of what
-- ran, the last run first.
use storage_bot.Base.{
  ℕ, ◌≡◌, refl, Bool, true, false, Option, none, some, List, [], ◌∷◌, ◌++◌, Text, lit, text_eq,
  if◌then◌else◌, inl, inr, All,
}
use storage_bot.Base
use storage_bot.Base.Decimal
use storage_bot.Base.Result.{Result, err, ok}
use storage_bot.Executor.{SshNode, Wire}
use storage_bot.Skill.Context.{Context}
use storage_bot.Cluster.{get, matches_of, list_by_prefix, find_by_prefix}
use storage_bot.Cluster.Nodes.{
  ClusterConfig, NodeInfo, Kube, Manager, put, new_manager, reload, list, discover_nodes,
  cache_nodes, resolve_ssh_nodes,
}
use storage_bot.Cluster.Nodes.Cache.{reload_keeps_old_nodes}
use storage_bot.Bot.State.{
  Skill, Env, State, broadcast_skills, is_broadcast_allowed, no_analysis_skills, needs_analysis,
  render_raw, dry_run_reply, skill_named, get_skill, list_clusters, get_kube_executor,
  analyze_or_echo,
}
use storage_bot.Bot.Skills.{
  SkillAction, remaining, run_skill_on_cluster, run_on_clusters, handle_skill_on_clusters,
  handle_skill,
}
use storage_bot.Bot.Skills.Broadcast.{Deed, handle_skill-Deed}
use storage_bot.Bot.Skills.Runs.{Runs, run_on_clusters-Runs}
use storage_bot.Bot.Skills.Dry.{rewired}
use storage_bot.Bot.Diagnose.{handle_health, handle_log_analysis, handle_node_diag}
use storage_bot.Bot.Diagnose.Dry.{dry_run_quiet}
use storage_bot.Bot.Message.{is_bot_mentioned}

handler : Unit {0}
unfolding get matches_of list_by_prefix find_by_prefix put new_manager reload list discover_nodes
    cache_nodes resolve_ssh_nodes broadcast_skills is_broadcast_allowed no_analysis_skills
    needs_analysis render_raw dry_run_reply skill_named get_skill list_clusters get_kube_executor
    analyze_or_echo remaining run_skill_on_cluster run_on_clusters handle_skill_on_clusters
    handle_skill Base.lit Base.trim_space Base.has_prefix Base.has_suffix Base.trim_suffix
    Base.text_eq Base.join Base.to_lower Base.contains Base.sort_texts Base.insert Base.text_lt
    Decimal.itoa Decimal.itoa_ℕ
handler = tt

abbrev gateway : SshNode
gateway = record {
  name = lit "gw";
  host = lit "10.0.0.1:22";
  user = lit "root";
  key_file = [];
  gateway_key_file = [];
}

abbrev config : ClusterConfig
config = record {
  kubeconfig = [];
  namespace = [];
  toolbox_pod = [];
  server_override = [];
  insecure_skip_tls_verify = false;
  gateway_node = some gateway;
  ssh_nodes = [];
}

abbrev nodes_of : ℕ → Result (List NodeInfo)
nodes_of k = ok (record { name = lit "n1"; internal_ip = lit "10.0.0.2" } ∷ [])

abbrev kube : Kube (List Text) ℕ
kube = record {
  connect = λ cfg w. (ok 7, lit "connect" ∷ w);
  discover = λ k w. (nodes_of k, lit "discover" ∷ w);
}

no_wire : ℕ → Wire (List Text)
no_wire k = record {
  reach = λ w gateway. (ok tt, w);
  on_gateway = λ w gateway cmd. (ok none, w);
  session = λ w hop node cmd. (err [], w);
  partial = λ w. [];
  exec = λ w args. (err [], w);
  list_pods = λ w daemon. (err [], w);
  delete_pod = λ w name. (err [], w);
  denial_text = λ d. [];
  split_host_port = λ h. none;
}

-- Fails on the cluster cdn-02.
run_noout : Wire (List Text) → Context → List Text → Result Text × List Text
run_noout wire sc w = (
  (if text_eq sc.cluster_name (lit "cdn-02") then err (lit "timeout") else ok (lit "done")),
  sc.cluster_name ∷ w,
)

abbrev noout : Skill (List Text)
noout = record { name = lit "set_noout"; description = lit "noout"; execute = run_noout }

abbrev osd : Skill (List Text)
osd = record { name = lit "osd_status"; description = lit "osd"; execute = run_noout }

abbrev env : Bool → Env (List Text) ℕ
env dry = record {
  kube = kube;
  wire = no_wire;
  ssh = no_wire 0;
  analyzer = none;
  skills = osd ∷ noout ∷ [];
  storages = [];
  dry_run = dry;
  quote = λ t. t;
  show_names = λ ns. [];
}

abbrev start : State (List Text) ℕ
start = record {
  manager = record {
    clusters = (lit "cdn-01", config) ∷ (lit "cdn-02", config) ∷ (lit "lab", config) ∷ [];
    node_cache = (lit "cdn-01", []) ∷ (lit "cdn-02", []) ∷ (lit "lab", []) ∷ [];
    kube_cache = [];
  };
  kube_cache = (lit "cdn-01", 1) ∷ (lit "cdn-02", 2) ∷ (lit "lab", 3) ∷ [];
  llm_disabled = true;
  world = [];
}

abbrev asked : Text → Text → SkillAction
asked skill cluster = record {
  skill_name = skill;
  cluster_name = cluster;
  exclude_clusters = lit "lab" ∷ [];
  node_name = [];
  args = [];
}

all_but_one :
    (handle_skill (env false) (asked (lit "set_noout") (lit "all")) start).1.world
    ≡ lit "cdn-02" ∷ lit "cdn-01" ∷ []
unfolding handler run_noout no_wire
all_but_one = refl

starred :
    (handle_skill (env false) (asked (lit "set_noout") (lit "CDN*")) start).1.world
    ≡ lit "cdn-02" ∷ lit "cdn-01" ∷ []
unfolding handler run_noout no_wire
starred = refl

not_broadcast : (handle_skill (env false) (asked (lit "osd_status") (lit "all")) start).1.world ≡ []
unfolding handler run_noout no_wire
not_broadcast = refl

one_fails :
    (handle_skill (env false) (asked (lit "set_noout") (lit "cdn-02")) start).0
    ≡ err (lit "skill set_noout on cdn-02 failed: timeout")
unfolding handler run_noout no_wire
one_fails = refl

handle_skill-Deed_example :
    Deed
      (env false)
      (asked (lit "set_noout") (lit "all"))
      start
      (handle_skill (env false) (asked (lit "set_noout") (lit "all")) start)
handle_skill-Deed_example =
    handle_skill-Deed (env false) (asked (lit "set_noout") (lit "all")) start

run_on_clusters-Runs_example :
    Runs
      (env false)
      noout
      (lit "cdn-02" ∷ lit "cdn-01" ∷ [])
      start
      (run_on_clusters (env false) noout (lit "cdn-02" ∷ lit "cdn-01" ∷ []) start).0
      (run_on_clusters (env false) noout (lit "cdn-02" ∷ lit "cdn-01" ∷ []) start).1
unfolding handler
run_on_clusters-Runs_example =
    run_on_clusters-Runs (env false) noout (lit "cdn-02" ∷ lit "cdn-01" ∷ []) start refl
      (inr (inl refl), (inl refl, tt))

abbrev empty_manager : Manager ℕ
empty_manager = record { clusters = (lit "lab", config) ∷ []; node_cache = []; kube_cache = [] }

abbrev found : List SshNode
found =
    record {
      name = lit "n1";
      host = lit "10.0.0.2:22";
      user = lit "root";
      key_file = [];
      gateway_key_file = [];
    }
    ∷ []

first_call : (resolve_ssh_nodes kube (lit "lab") config empty_manager []).0 ≡ ok found
unfolding handler
first_call = refl

old_discovery :
    discover_nodes kube gateway config [] ≡ (ok found, lit "discover" ∷ lit "connect" ∷ [])
unfolding handler
old_discovery = refl

reload_keeps_old_nodes_example :
    resolve_ssh_nodes kube
      (lit "lab")
      config
      (cache_nodes kube
        (lit "lab")
        (discover_nodes kube gateway config []).0
        (reload [] empty_manager))
      []
    ≡ (ok found, cache_nodes kube (lit "lab") (ok found) (reload [] empty_manager), [])
reload_keeps_old_nodes_example =
    reload_keeps_old_nodes kube (lit "lab") config config gateway gateway empty_manager []
      (lit "discover" ∷ lit "connect" ∷ []) [] found [] old_discovery refl refl

dry_health :
    (handle_health (env true) (lit "lab") start).0
    ≡ ok (
        dry_run_reply
          (lit "lab")
          (lit "health")
          (lit "ceph status / health detail / osd tree / df"))
unfolding handler handle_health
dry_health = refl

not_everyone : is_bot_mentioned (lit "@_all hello") (some (lit "@_user_1") ∷ []) ≡ false
unfolding handler is_bot_mentioned
not_everyone = refl

mentioned : is_bot_mentioned (lit "@_user_1 osd cdn") (some (lit "@_user_1") ∷ []) ≡ true
unfolding handler is_bot_mentioned
mentioned = refl

dry_run_quiet_example :
    (handle_health (rewired (env true) (no_wire 1) no_wire none) (lit "lab") start
      ≡ handle_health (env true) (lit "lab") start)
    × (handle_log_analysis
          (rewired (env true) (no_wire 1) no_wire none)
          (lit "lab")
          (lit "n1")
          start
        ≡ handle_log_analysis (env true) (lit "lab") (lit "n1") start)
    × (handle_node_diag (rewired (env true) (no_wire 1) no_wire none) (lit "lab") (lit "n1") start
        ≡ handle_node_diag (env true) (lit "lab") (lit "n1") start)
    × (handle_skill
          (rewired (env true) (no_wire 1) no_wire none)
          (asked (lit "set_noout") (lit "all"))
          start
        ≡ handle_skill (env true) (asked (lit "set_noout") (lit "all")) start)
dry_run_quiet_example =
    dry_run_quiet (env true) refl (no_wire 1) no_wire none (lit "lab") (lit "n1")
      (asked (lit "set_noout") (lit "all")) start
