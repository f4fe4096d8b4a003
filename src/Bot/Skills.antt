-- ===== src/Bot/Skills.antt =====
-- bot/handler.go: a skill on one cluster, and on several.
pub mod Broadcast
pub mod Runs
pub mod Dry
use storage_bot.Base.{
  ◌≡◌, Bool, true, false, not, ◌&&◌, ◌||◌, List, [], ◌∷◌, ◌++◌, Text, lit, cat, text_eq,
  if◌then◌else◌, Option, none, some, join, map, has_suffix, trim_suffix, trim_space, to_lower, any,
  keep, length, emoji_style,
}
use storage_bot.Base.Int.{pos}
use storage_bot.Base.Decimal.{itoa}
use storage_bot.Base.Result.{Result, err, ok}
use storage_bot.Executor.{SshNode, Wire}
use storage_bot.Skill.Context.{SshTarget, Context}
use storage_bot.Cluster.{get, list_by_prefix, find_by_prefix, Lookup, found, no_match, ambiguous}
use storage_bot.Cluster.Nodes.{ClusterConfig, Kube, Manager, list, resolve_ssh_nodes}
use storage_bot.Bot.State.{
  Skill, Env, State, get_skill, list_skills, clusters_text, is_broadcast_allowed, needs_analysis,
  dry_run_reply, lookup_error, get_kube_executor, analyze_or_echo,
}

-- The parts of intent.Action that a skill uses.
pub record SkillAction : Type 0 where
  pub skill_name : Text
  pub cluster_name : Text
  pub exclude_clusters : List Text
  pub node_name : Text
  pub args : List (Text × Text)

target_of : SshNode → SshTarget
target_of n = record { name = n.name; host = n.host; user = n.user; key_file = n.key_file }

unfoldable pub remaining : List Text → List Text → List Text
remaining excludes clusters = keep (λ c. not (any (λ e. text_eq e c) excludes)) clusters

pub outcome_text : Text → Result Text → Text
outcome_text name (err e) = cat (lit "**❌ " ∷ name ∷ lit "**：执行失败：" ∷ e ∷ [])
outcome_text name (ok output) = cat (lit "**✅ " ∷ name ∷ lit "**\n" ∷ output ∷ [])

module _ {W K : Type 0} (env : Env W K) where
  context_of : Text → ClusterConfig → Text → List (Text × Text) → List SshNode → Context
  unfolding target_of
  context_of name cfg node_name args nodes = record {
    cluster_name = name;
    node_name = node_name;
    gateway = cfg.gateway_node;
    has_kube = true;
    nodes = map target_of nodes;
    args = args;
  }

  executed : Skill W → Text → Result Text × W → State W K → Result Text × State W K
  executed s name (err e, w) st = (
    err (cat (lit "skill " ∷ s.name ∷ lit " on " ∷ name ∷ lit " failed: " ∷ e ∷ [])),
    record st { world = w },
  )
  executed s name (ok output, w) st =
      let (reply, st') = analyze_or_echo env name output (record st { world = w }) in
      if not (needs_analysis s.name) then (ok output, record st { world = w }) else (ok reply, st')

  on_nodes :
      Skill W
      → Text
      → ClusterConfig
      → Text
      → List (Text × Text)
      → K
      → Result (List SshNode) × Manager K × W
      → State W K
      → Result Text × State W K
  unfolding executed
  on_nodes s name cfg node_name args k (err e, m, w) st = (
    err (cat (lit "resolve nodes for " ∷ name ∷ lit ": " ∷ e ∷ [])),
    record st { manager = m; world = w },
  )
  on_nodes s name cfg node_name args k (ok nodes, m, w) st =
      executed s name (s.execute (env.wire k) (context_of name cfg node_name args nodes) w)
        (record st { manager = m; world = w })

  on_executor :
      Skill W
      → Text
      → ClusterConfig
      → Text
      → List (Text × Text)
      → Result K × State W K
      → Result Text × State W K
  unfolding on_nodes
  on_executor s name cfg node_name args (err e, st) =
      (err (cat (lit "connect to cluster " ∷ name ∷ lit ": " ∷ e ∷ [])), st)
  on_executor s name cfg node_name args (ok k, st) =
      on_nodes s name cfg node_name args k (resolve_ssh_nodes env.kube name cfg st.manager st.world)
        st

  unfoldable pub run_skill_on_cluster :
      Skill W
      → Text
      → ClusterConfig
      → Text
      → List (Text × Text)
      → State W K
      → Result Text × State W K
  unfolding on_executor context_of
  run_skill_on_cluster s name cfg node_name args st =
      on_executor s name cfg node_name args (get_kube_executor env name cfg st)

  dry_text : Skill W → Text → Text
  dry_text s name = dry_run_reply name (lit "skill: " ++ s.name) s.description

  -- One cluster of the loop: its line of the reply, and the state behind it.
  pub on_listed : Skill W → Text → Option ClusterConfig → State W K → Text × State W K
  unfolding dry_text outcome_text
  on_listed s name none st = (
    cat (lit "**❌ " ∷ name ∷ lit "**：获取集群配置失败：cluster " ∷ env.quote name ∷ lit " not found" ∷ []),
    st,
  )
  on_listed s name (some cfg) st =
      let (r, st') = run_skill_on_cluster s name cfg [] [] st in
      if env.dry_run then (dry_text s name, st) else (outcome_text name r, st')

  unfoldable pub run_on_clusters : Skill W → List Text → State W K → List Text × State W K
  unfolding on_listed
  run_on_clusters s [] st = ([], st)
  run_on_clusters s (c ∷ cs) st =
      let (line, st') = on_listed s c (get st.manager.clusters c) st in
      let (rest, st'') = run_on_clusters s cs st' in (line ∷ rest, st'')

  exclude_note : List Text → Text
  exclude_note [] = []
  exclude_note (e ∷ es) = cat (lit "（已排除：`" ∷ join (e ∷ es) (lit "`、`") ∷ lit "`）" ∷ [])

  unfoldable pub handle_skill_on_clusters :
      Skill W → List Text → List Text → State W K → Result Text × State W K
  unfolding exclude_note
  handle_skill_on_clusters s clusters excludes st =
      let (results, st') = run_on_clusters s clusters st in
      (
        ok (
            cat (
              lit "🚀 批量执行 **"
              ∷ s.description
              ∷ lit "** · 共 "
              ∷ itoa (pos (length clusters))
              ∷ lit " 套集群"
              ∷ exclude_note excludes
              ∷ lit "\n\n"
              ∷ join results (lit "\n\n---\n\n")
              ∷ [])),
        st',
      )

  broadcast : Skill W → List Text → List Text → State W K → Result Text × State W K
  broadcast s excludes [] st = (ok (lit "🚫 排除后没有剩余目标集群"), st)
  broadcast s excludes (c ∷ cs) st = handle_skill_on_clusters s (c ∷ cs) excludes st

  single : Skill W → SkillAction → Lookup ClusterConfig → State W K → Result Text × State W K
  unfolding dry_text
  single s action (found name cfg) st =
      let real = run_skill_on_cluster s name cfg action.node_name action.args st in
      if env.dry_run then (ok (dry_text s name), st) else real
  single s action no_match st = (
    err (
        lookup_error env.quote env.show_names (trim_space (to_lower action.cluster_name)) no_match),
    st,
  )
  single s action (ambiguous ns) st = (
    err (
        lookup_error env.quote env.show_names (trim_space (to_lower action.cluster_name))
          (ambiguous ns)),
    st,
  )

  no_broadcast : Text → Text
  no_broadcast skill_name =
      cat (lit "⚠" ∷ emoji_style ∷ lit " Skill `" ∷ skill_name ∷ lit "` 不支持批量执行，请指定集群名称" ∷ [])

  prefixed : Skill W → SkillAction → Text → List Text → State W K → Result Text × State W K
  unfolding broadcast
  prefixed s action prefix [] st =
      (ok (cat (lit "🚫 没有匹配前缀 `" ∷ prefix ∷ lit "` 的集群\n\n" ∷ clusters_text env st ∷ [])), st)
  prefixed s action prefix (c ∷ cs) st =
      broadcast s action.exclude_clusters (remaining action.exclude_clusters (c ∷ cs)) st

  -- The name of a cluster decides whether the skill runs on all, on some or on one.
  by_name : Skill W → SkillAction → State W K → Result Text × State W K
  unfolding broadcast single no_broadcast prefixed
  by_name s action st =
      let refused : Result Text × State W K = (ok (no_broadcast action.skill_name), st) in
      let on_all =
        broadcast s action.exclude_clusters (remaining action.exclude_clusters (list st.manager))
          st in
      let prefix = trim_suffix action.cluster_name (lit "*") in
      let on_some = prefixed s action prefix (list_by_prefix st.manager.clusters prefix) st in
      let unnamed : Result Text × State W K = (
        ok (
            cat (
              lit "📝 请指定集群名称来执行 Skill `"
              ∷ action.skill_name
              ∷ lit "`，或输入 `all` 对所有集群执行\n\n"
              ∷ clusters_text env st
              ∷ [])),
        st,
      ) in
      let on_one = single s action (find_by_prefix st.manager.clusters action.cluster_name) st in
      if text_eq action.cluster_name (lit "all")
      then (if not (is_broadcast_allowed action.skill_name) then refused else on_all)
      else (if has_suffix action.cluster_name (lit "*")
          then (if not (is_broadcast_allowed action.skill_name) then refused else on_some)
          else (if text_eq action.cluster_name [] then unnamed else on_one))

  with_skill : SkillAction → Option (Skill W) → State W K → Result Text × State W K
  unfolding by_name
  with_skill action none st =
      (ok (cat (lit "🚫 未找到 Skill `" ∷ action.skill_name ∷ lit "`\n\n" ∷ list_skills env ∷ [])), st)
  with_skill action (some s) st = by_name s action st

  unfoldable pub handle_skill : SkillAction → State W K → Result Text × State W K
  unfolding with_skill
  handle_skill action st = with_skill action (get_skill env action.skill_name) st
