-- ===== src/Bot/State.antt =====
-- bot/handler.go: the handler's state, the parts of the program that it calls, and its lists.
pub mod Keeps
use storage_bot.Base.{
  ℕ, Bool, true, false, not, ◌&&◌, ◌||◌, List, [], ◌∷◌, ◌++◌, String, Text, lit, cat, text_eq,
  if◌then◌else◌, Option, none, some, join, map, contains, sort_texts, text_lt, any, length,
  emoji_style, wide_space,
}
use storage_bot.Base.Int.{pos}
use storage_bot.Base.Decimal.{itoa}
use storage_bot.Base.Result.{Result, err, ok}
use storage_bot.Executor.{SshNode, Wire}
use storage_bot.Skill.Context.{Context}
use storage_bot.Cluster.{get, Lookup, found, no_match, ambiguous}
use storage_bot.Cluster.Nodes.{ClusterConfig, Kube, Manager, put, list}

-- A skill, on the executors that the handler passes.
pub record Skill (W : Type 0) : Type 0 where
  pub name : Text
  pub description : Text
  pub execute : Wire W → Context → W → Result Text × W

-- `wire` gives the executors of a Kubernetes client, `ssh` is the SSH executor, and `analyzer` the language model if there is one.
-- `skills` lists the registry, in the order of a range over its map, `storages` the names of the
-- REST storages. `quote` and `show_names` are the verbs %q and %v of package fmt.
pub record Env (W K : Type 0) : Type 0 where
  pub kube : Kube W K
  pub wire : K → Wire W
  pub ssh : Wire W
  pub analyzer : Option (Text → Text → W → Result Text × W)
  pub skills : List (Skill W)
  pub storages : List Text
  pub dry_run : Bool
  pub quote : Text → Text
  pub show_names : List Text → Text

pub record State (W K : Type 0) : Type 0 where
  pub manager : Manager K
  pub kube_cache : List (Text × K)
  pub llm_disabled : Bool
  pub world : W

unfoldable pub broadcast_skills : List Text
broadcast_skills =
    map lit ("set_no_backfill" ∷ "unset_no_backfill" ∷ "set_noout" ∷ "unset_noout" ∷ [])

unfoldable pub is_broadcast_allowed : Text → Bool
unfolding broadcast_skills
is_broadcast_allowed skill_name = any (λ s. text_eq s skill_name) broadcast_skills

unfoldable pub no_analysis_skills : List Text
no_analysis_skills = map lit (
    "list_nodes" ∷ "get_fsid" ∷ "get_mon_ips" ∷ "set_no_backfill" ∷ "unset_no_backfill"
    ∷ "set_noout" ∷ "unset_noout" ∷ "optimize_rgw_pg" ∷ "kernel_logs" ∷ "nic_info" ∷ "bond_status"
    ∷ "nic_down" ∷ "nic_up" ∷ "restart_mon" ∷ "restart_mgr" ∷ "object_storage" ∷ "hw_info" ∷ [])

unfoldable pub needs_analysis : Text → Bool
unfolding no_analysis_skills
needs_analysis skill_name = not (any (λ s. text_eq s skill_name) no_analysis_skills)

unfoldable pub render_raw : Text → Text
render_raw s =
    if contains s (lit "```") then s else cat (lit "📄 **原始输出**\n```\n" ∷ s ∷ lit "\n```" ∷ [])

unfoldable pub dry_run_reply : Text → Text → Text → Text
dry_run_reply cluster_name action will_do = cat (
    lit "🧪 **dry-run** · 集群 `"
    ∷ cluster_name
    ∷ lit "`\n\n🎯 **动作** "
    ∷ action
    ∷ lit "\n🛠 **将要执行** "
    ∷ will_do
    ∷ lit "\n\n💡 `dev.dry_run = true`，未实际执行任何命令"
    ∷ [])

-- The texts of the manager's errors.
unfoldable pub lookup_error :
    (Text → Text) → (List Text → Text) → Text → Lookup ClusterConfig → Text
lookup_error quote show_names input (found n c) = []
lookup_error quote show_names input no_match =
    cat (lit "no cluster matching " ∷ quote input ∷ lit " found" ∷ [])
lookup_error quote show_names input (ambiguous ns) =
    cat (lit "ambiguous cluster name " ∷ quote input ∷ lit ", matches: " ∷ show_names ns ∷ [])

bullets : Text → List Text → Text
bullets mark [] = []
bullets mark (n ∷ ns) = cat (mark ∷ n ∷ lit "`\n" ∷ bullets mark ns ∷ [])

-- One of the two groups: its heading, its number and its names.
group : Text → Text → List Text → Text
unfolding bullets
group heading mark [] = []
group heading mark (n ∷ ns) =
    cat (
      heading ∷ itoa (pos (length (n ∷ ns))) ∷ lit " 套\n" ∷ bullets mark (sort_texts (n ∷ ns)) ∷ [])

between : Text → Text → Text
between [] b = b
between (c ∷ a) [] = c ∷ a
between (c ∷ a) (d ∷ b) = cat ((c ∷ a) ∷ lit "\n" ∷ (d ∷ b) ∷ [])

or_no_cluster : Text → Text
or_no_cluster [] = lit "🚫 当前没有配置任何集群或存储"
or_no_cluster (c ∷ s) = c ∷ s

unfoldable pub list_clusters : List Text → List Text → Text
unfolding group between or_no_cluster
list_clusters cephs rests = or_no_cluster (
    between (group (lit "🛰 **Ceph 集群** · ") (wide_space ++ lit "🔹 `") cephs)
      (group (lit "📦 **焱融(yrfs) 存储** · ") (wide_space ++ lit "🔸 `") rests))

skill_examples : List String
skill_examples =
    "@bot osd cluster-01                              # osd_status\n"
    ∷ "@bot pg cluster-01                               # pg_status\n"
    ∷ "@bot pool cluster-01                             # pool_status\n"
    ∷ "@bot capacity cluster-01                         # capacity\n"
    ∷ "@bot slow cluster-01                             # slow_ops\n"
    ∷ "@bot crash cluster-01                            # crash\n"
    ∷ "@bot crash info cluster-01                       # crash_info\n"
    ∷ "@bot mon cluster-01                              # mon_status\n"
    ∷ "@bot iostat cdn bd-cdn-node02                    # io_stat\n"
    ∷ "@bot kernel cdn bd-cdn-node02 keyword=link       # kernel_logs\n"
    ∷ "@bot nic cdn bd-cdn-node02                       # nic_info\n"
    ∷ "@bot bond cdn bd-cdn-node02                      # bond_status\n"
    ∷ "@bot nic down cdn bd-cdn-node02 eth0 --yes       # nic_down\n"
    ∷ "@bot nic up cdn bd-cdn-node02 eth0 --yes         # nic_up\n"
    ∷ "@bot list nodes cdn                              # list_nodes\n"
    ∷ "@bot fsid cluster-01                             # get_fsid\n"
    ∷ "@bot mon ip cluster-01                           # get_mon_ips\n"
    ∷ "@bot set nobackfill all except cdn-test          # set_no_backfill\n"
    ∷ "@bot unset nobackfill cluster-01                 # unset_no_backfill\n"
    ∷ "@bot set noout cluster-01                        # set_noout\n"
    ∷ "@bot unset noout cluster-01                      # unset_noout\n"
    ∷ "@bot optimize rgw cluster-01 max=100             # optimize_rgw_pg\n"
    ∷ "@bot restart mon a cluster-01 --yes              # restart_mon\n"
    ∷ "@bot restart mgr b cluster-01 --yes              # restart_mgr\n"
    ∷ "@bot object storage cluster-01                   # object_storage\n"
    ∷ "@bot hw info cdn bd-cdn-node02                   # hw_info\n"
    ∷ "@bot hw info cdn --csv                           # hw_info (CSV format)\n" ∷ []

unfoldable pub skill_named : {W : Type 0} → List (Skill W) → Text → Option (Skill W)
skill_named [] name = none
skill_named (s ∷ ss) name =
    let rest = skill_named ss name in if text_eq s.name name then some s else rest

module _ {W K : Type 0} (env : Env W K) where
  -- Registry.Get.
  unfoldable pub get_skill : Text → Option (Skill W)
  unfolding skill_named
  get_skill name = skill_named env.skills name

  insert_skill : Skill W → List (Skill W) → List (Skill W)
  insert_skill s [] = s ∷ []
  insert_skill s (t ∷ ts) =
      let further = insert_skill s ts in if text_lt t.name s.name then t ∷ further else s ∷ t ∷ ts

  sort_skills : List (Skill W) → List (Skill W)
  unfolding insert_skill
  sort_skills [] = []
  sort_skills (s ∷ ss) = insert_skill s (sort_skills ss)

  skill_lines : List (Skill W) → Text
  skill_lines [] = []
  skill_lines (s ∷ ss) = cat (
      wide_space ∷ lit "🔧 `" ∷ s.name ∷ lit "` — " ∷ s.description ∷ lit "\n" ∷ skill_lines ss ∷ [])

  skill_list : List (Skill W) → Text
  unfolding skill_lines sort_skills skill_examples
  skill_list [] = lit "🚫 当前没有注册任何 Skill"
  skill_list (s ∷ ss) = cat (
      lit "🧰 共 **"
      ∷ itoa (pos (length (s ∷ ss)))
      ∷ lit "** 个 Skill\n"
      ∷ skill_lines (sort_skills (s ∷ ss))
      ∷ lit "\n**💡 示例**\n```\n"
      ∷ cat (map lit skill_examples)
      ∷ lit "```"
      ∷ [])

  unfoldable pub list_skills : Text
  unfolding skill_list
  list_skills = skill_list env.skills

  unfoldable pub clusters_text : State W K → Text
  clusters_text st = list_clusters (list st.manager) env.storages

  connected : Text → Result K × W → State W K → Result K × State W K
  connected name (err e, w) st = (err e, record st { world = w })
  connected name (ok k, w) st =
      (ok k, record st { kube_cache = put st.kube_cache name k; world = w })

  cached_or : Text → ClusterConfig → Option K → State W K → Result K × State W K
  unfolding connected
  cached_or name cfg (some k) st = (ok k, st)
  cached_or name cfg none st = connected name (env.kube.connect cfg st.world) st

  unfoldable pub get_kube_executor : Text → ClusterConfig → State W K → Result K × State W K
  unfolding cached_or
  get_kube_executor name cfg st = cached_or name cfg (get st.kube_cache name) st

  unfoldable pub toggle_llm : Bool → State W K → Text × State W K
  toggle_llm enable st = (
    if enable
        then lit "✅ LLM 已**开启** — 将使用 AI 进行意图解析和结果分析"
        else lit "🔕 LLM 已**关闭** — 仅使用规则解析，不调用 AI",
    record st { llm_disabled = not enable },
  )

  echoed : Text → Text
  echoed diagnostics = lit "🔕 **LLM 已关闭** · 以下为原始输出\n\n" ++ render_raw diagnostics

  analyzed : Text → Result Text × W → State W K → Text × State W K
  analyzed diagnostics (err e, w) st = (
    cat (lit "⚠" ∷ emoji_style ∷ lit " **AI 分析失败** · 返回原始输出\n\n" ∷ render_raw diagnostics ∷ []),
    record st { world = w },
  )
  analyzed diagnostics (ok analysis, w) st =
      (lit "🤖 **AI 报告**\n\n" ++ analysis, record st { world = w })

  analyze_with :
      Option (Text → Text → W → Result Text × W) → Text → Text → State W K → Text × State W K
  unfolding analyzed echoed
  analyze_with none cluster diagnostics st = (echoed diagnostics, st)
  analyze_with (some f) cluster diagnostics st =
      if st.llm_disabled
      then (echoed diagnostics, st)
      else analyzed diagnostics (f cluster diagnostics st.world) st

  unfoldable pub analyze_or_echo : Text → Text → State W K → Text × State W K
  unfolding analyze_with
  analyze_or_echo cluster diagnostics st = analyze_with env.analyzer cluster diagnostics st
