-- ===== src/Bot/Diagnose.antt =====
-- bot/handler.go: the health check, the analysis of logs and the diagnosis of a node.
pub mod Dry
use storage_bot.Base.{
  Bool, true, false, not, ◌&&◌, List, [], ◌∷◌, ◌++◌, Text, lit, cat, text_eq, if◌then◌else◌, Option,
  none, some, join, contains, to_lower, trim_space, keep, emoji_style,
}
use storage_bot.Base.Result.{Result, err, ok}
use storage_bot.Executor.{SshNode, Wire, host_ip, ceph_health, collect_logs, node_diag}
use storage_bot.Cluster.{Lookup, found, no_match, ambiguous, find_by_prefix}
use storage_bot.Cluster.Nodes.{ClusterConfig, Manager, resolve_ssh_nodes}
use storage_bot.Bot.State.{
  Env, State, clusters_text, dry_run_reply, lookup_error, get_kube_executor, analyze_or_echo,
}

unfoldable pub filter_nodes : List SshNode → Text → List SshNode
filter_nodes nodes name_hint = keep (λ n. contains (to_lower n.name) (to_lower name_hint)) nodes

module _ {W K : Type 0} (env : Env W K) where
  unfoldable pub is_gateway : Text → Text → Bool
  is_gateway node_host gw_host = text_eq (host_ip env.ssh node_host) (host_ip env.ssh gw_host)

  -- The gateway to go through to the node.
  hop_to : Option SshNode → SshNode → Option SshNode
  unfolding is_gateway
  hop_to none node = none
  hop_to (some gw) node = if not (is_gateway node.host gw.host) then some gw else none

  refused : Text → Lookup ClusterConfig → Text
  refused input l = lookup_error env.quote env.show_names (trim_space (to_lower input)) l

  analyzed_reply : Text → Text → State W K → Result Text × State W K
  analyzed_reply name diagnostics st =
      let (reply, st1) = analyze_or_echo env name diagnostics st in (ok reply, st1)

  health_with : Text → Result K × State W K → Result Text × State W K
  unfolding analyzed_reply
  health_with name (err e, st) =
      (err (cat (lit "connect to cluster " ∷ name ∷ lit ": " ∷ e ∷ [])), st)
  health_with name (ok k, st) =
      let (diagnostics, w) = ceph_health (env.wire k) st.world in
      analyzed_reply name diagnostics (record st { world = w })

  health_on : Text → Lookup ClusterConfig → State W K → Result Text × State W K
  unfolding health_with refused
  health_on input (found name cfg) st =
      let real = health_with name (get_kube_executor env name cfg st) in
      if env.dry_run
      then (
        ok (dry_run_reply name (lit "health") (lit "ceph status / health detail / osd tree / df")),
        st,
      )
      else real
  health_on input no_match st = (err (refused input no_match), st)
  health_on input (ambiguous ns) st = (err (refused input (ambiguous ns)), st)

  unfoldable pub handle_health : Text → State W K → Result Text × State W K
  unfolding health_on
  handle_health [] st =
      (ok (lit "📝 请指定集群名称，例如：`check cluster-01 health`\n\n" ++ clusters_text env st), st)
  handle_health (c ∷ s) st = health_on (c ∷ s) (find_by_prefix st.manager.clusters (c ∷ s)) st

  -- CollectLogs has no error to return.
  logs_of : Option SshNode → List SshNode → W → List Text × W
  unfolding hop_to
  logs_of gateway [] w = ([], w)
  logs_of gateway (n ∷ ns) w =
      let (logs, w1) = collect_logs env.ssh (hop_to gateway n) n w in
      let (more, w2) = logs_of gateway ns w1 in
      (cat (lit "=== Node " ∷ n.name ∷ lit " Logs ===\n" ∷ logs ∷ []) ∷ more, w2)

  no_such_node : Text → Text → Text
  no_such_node name node_name =
      cat (lit "🚫 集群 `" ∷ name ∷ lit "` 中未找到节点 `" ∷ node_name ∷ lit "`" ∷ [])

  logs_from : Text → ClusterConfig → List SshNode → State W K → Result Text × State W K
  unfolding logs_of analyzed_reply
  logs_from name cfg targets st =
      let (logs, w) = logs_of cfg.gateway_node targets st.world in
      let real = analyzed_reply name (join logs (lit "\n\n")) (record st { world = w }) in
      if env.dry_run
      then (
        ok (
            dry_run_reply name (lit "log analysis")
              (lit "ssh to nodes, read /var/log/messages, /var/lib/rook/rook-ceph/log/*")),
        st,
      )
      else real

  logs_named : Text → ClusterConfig → Text → List SshNode → State W K → Result Text × State W K
  unfolding logs_from no_such_node
  logs_named name cfg node_name [] st = (ok (no_such_node name node_name), st)
  logs_named name cfg node_name (n ∷ ns) st = logs_from name cfg (n ∷ ns) st

  logs_targets : Text → ClusterConfig → Text → List SshNode → State W K → Result Text × State W K
  unfolding logs_named logs_from
  logs_targets name cfg [] nodes st = logs_from name cfg nodes st
  logs_targets name cfg (c ∷ s) nodes st =
      logs_named name cfg (c ∷ s) (filter_nodes nodes (c ∷ s)) st

  logs_on_nodes :
      Text
      → ClusterConfig
      → Text
      → Result (List SshNode) × Manager K × W
      → State W K
      → Result Text × State W K
  unfolding logs_targets
  logs_on_nodes name cfg node_name (err e, m, w) st = (
    err (cat (lit "resolve nodes for " ∷ name ∷ lit ": " ∷ e ∷ [])),
    record st { manager = m; world = w },
  )
  logs_on_nodes name cfg node_name (ok [], m, w) st = (
    ok (
        cat (
          lit "⚠"
          ∷ emoji_style
          ∷ lit " 集群 `"
          ∷ name
          ∷ lit "` 没有配置 SSH 节点，请配置 `gateway_node` 或 `ssh_nodes`"
          ∷ [])),
    record st { manager = m; world = w },
  )
  logs_on_nodes name cfg node_name (ok (n ∷ ns), m, w) st =
      logs_targets name cfg node_name (n ∷ ns) (record st { manager = m; world = w })

  logs_on : Text → Text → Lookup ClusterConfig → State W K → Result Text × State W K
  unfolding logs_on_nodes refused
  logs_on input node_name (found name cfg) st =
      logs_on_nodes name cfg node_name (resolve_ssh_nodes env.kube name cfg st.manager st.world) st
  logs_on input node_name no_match st = (err (refused input no_match), st)
  logs_on input node_name (ambiguous ns) st = (err (refused input (ambiguous ns)), st)

  unfoldable pub handle_log_analysis : Text → Text → State W K → Result Text × State W K
  unfolding logs_on
  handle_log_analysis [] node_name st =
      (ok (lit "📝 请指定集群名称，例如：`analyze logs cluster-01`\n\n" ++ clusters_text env st), st)
  handle_log_analysis (c ∷ s) node_name st =
      logs_on (c ∷ s) node_name (find_by_prefix st.manager.clusters (c ∷ s)) st

  diagnosed : Text → ClusterConfig → SshNode → State W K → Result Text × State W K
  unfolding hop_to analyzed_reply
  diagnosed name cfg node st =
      let (diagnostics, w) = node_diag env.ssh (hop_to cfg.gateway_node node) node st.world in
      let real = analyzed_reply name diagnostics (record st { world = w }) in
      if env.dry_run
      then (
        ok (
            dry_run_reply name (lit "node diag on " ++ node.name)
              (lit "ssh: dmesg, df, free, ps, ip, uptime")),
        st,
      )
      else real

  -- The first node whose name fits.
  diagnosed_first : Text → ClusterConfig → Text → List SshNode → State W K → Result Text × State W K
  unfolding diagnosed no_such_node
  diagnosed_first name cfg node_name [] st = (ok (no_such_node name node_name), st)
  diagnosed_first name cfg node_name (n ∷ ns) st = diagnosed name cfg n st

  diag_on_nodes :
      Text
      → ClusterConfig
      → Text
      → Result (List SshNode) × Manager K × W
      → State W K
      → Result Text × State W K
  unfolding diagnosed_first
  diag_on_nodes name cfg node_name (err e, m, w) st = (
    err (cat (lit "resolve nodes for " ∷ name ∷ lit ": " ∷ e ∷ [])),
    record st { manager = m; world = w },
  )
  diag_on_nodes name cfg node_name (ok nodes, m, w) st =
      diagnosed_first name cfg node_name (filter_nodes nodes node_name)
        (record st { manager = m; world = w })

  diag_on : Text → Text → Lookup ClusterConfig → State W K → Result Text × State W K
  unfolding diag_on_nodes refused
  diag_on input [] (found name cfg) st = (ok (lit "📝 请指定节点名称，例如：`check node-1 cluster-01`"), st)
  diag_on input (c ∷ s) (found name cfg) st =
      diag_on_nodes name cfg (c ∷ s) (resolve_ssh_nodes env.kube name cfg st.manager st.world) st
  diag_on input node_name no_match st = (err (refused input no_match), st)
  diag_on input node_name (ambiguous ns) st = (err (refused input (ambiguous ns)), st)

  unfoldable pub handle_node_diag : Text → Text → State W K → Result Text × State W K
  unfolding diag_on
  handle_node_diag [] node_name st =
      (ok (lit "📝 请指定集群名称，例如：`check node-1 cluster-01`\n\n" ++ clusters_text env st), st)
  handle_node_diag (c ∷ s) node_name st =
      diag_on (c ∷ s) node_name (find_by_prefix st.manager.clusters (c ∷ s)) st
