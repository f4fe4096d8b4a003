-- ===== src/Bot/Diagnose/Dry.antt =====
-- The dry run: no command, no pod and no model.
use storage_bot.Base.{◌≡◌, refl, true, List, [], ◌∷◌, Text, Option}
use storage_bot.Base.Result.{Result, err, ok}
use storage_bot.Executor.{SshNode, Wire}
use storage_bot.Cluster.{Lookup, found, no_match, ambiguous, find_by_prefix}
use storage_bot.Cluster.Nodes.{ClusterConfig, Manager, resolve_ssh_nodes}
use storage_bot.Bot.State.{Env, State, clusters_text}
use storage_bot.Bot.Skills.{SkillAction, handle_skill}
use storage_bot.Bot.Skills.Dry.{same_if, rewired, handle_skill-Alike}
use storage_bot.Bot.Diagnose.{
  filter_nodes, health_on, handle_health, logs_from, logs_named, logs_targets, logs_on_nodes,
  logs_on, handle_log_analysis, diagnosed, diagnosed_first, diag_on_nodes, diag_on,
  handle_node_diag, refused, no_such_node,
}

module _ {W K : Type 0} (env : Env W K) (dry : env.dry_run ≡ true) (ssh : Wire W)
    (wire : K → Wire W) (analyzer : Option (Text → Text → W → Result Text × W)) where
  abbrev other : Env W K
  other = rewired env ssh wire analyzer

  health_on-Alike :
      (input : Text) (l : Lookup ClusterConfig) (st : State W K)
      → health_on other input l st ≡ health_on env input l st
  unfolding health_on refused
  health_on-Alike input (found name cfg) st = same_if env.dry_run _ _ _ dry
  health_on-Alike input no_match st = refl
  health_on-Alike input (ambiguous ns) st = refl

  handle_health-Alike :
      (input : Text) (st : State W K) → handle_health other input st ≡ handle_health env input st
  unfolding handle_health clusters_text
  handle_health-Alike [] st = refl
  handle_health-Alike (c ∷ s) st =
      health_on-Alike (c ∷ s) (find_by_prefix st.manager.clusters (c ∷ s)) st

  logs_from-Alike :
      (name : Text) (cfg : ClusterConfig) (targets : List SshNode) (st : State W K)
      → logs_from other name cfg targets st ≡ logs_from env name cfg targets st
  unfolding logs_from
  logs_from-Alike name cfg targets st = same_if env.dry_run _ _ _ dry

  logs_named-Alike :
      (name : Text) (cfg : ClusterConfig) (node_name : Text) (nodes : List SshNode) (st : State W K)
      → logs_named other name cfg node_name nodes st ≡ logs_named env name cfg node_name nodes st
  unfolding logs_named no_such_node
  logs_named-Alike name cfg node_name [] st = refl
  logs_named-Alike name cfg node_name (n ∷ ns) st = logs_from-Alike name cfg (n ∷ ns) st

  logs_targets-Alike :
      (name : Text) (cfg : ClusterConfig) (node_name : Text) (nodes : List SshNode) (st : State W K)
      → logs_targets other name cfg node_name nodes st
        ≡ logs_targets env name cfg node_name nodes st
  unfolding logs_targets
  logs_targets-Alike name cfg [] nodes st = logs_from-Alike name cfg nodes st
  logs_targets-Alike name cfg (c ∷ s) nodes st =
      logs_named-Alike name cfg (c ∷ s) (filter_nodes nodes (c ∷ s)) st

  logs_on_nodes-Alike :
      (name : Text) (cfg : ClusterConfig) (node_name : Text)
      (r : Result (List SshNode) × Manager K × W) (st : State W K)
      → logs_on_nodes other name cfg node_name r st ≡ logs_on_nodes env name cfg node_name r st
  unfolding logs_on_nodes
  logs_on_nodes-Alike name cfg node_name (err e, m, w) st = refl
  logs_on_nodes-Alike name cfg node_name (ok [], m, w) st = refl
  logs_on_nodes-Alike name cfg node_name (ok (n ∷ ns), m, w) st =
      logs_targets-Alike name cfg node_name (n ∷ ns) (record st { manager = m; world = w })

  logs_on-Alike :
      (input node_name : Text) (l : Lookup ClusterConfig) (st : State W K)
      → logs_on other input node_name l st ≡ logs_on env input node_name l st
  unfolding logs_on refused
  logs_on-Alike input node_name (found name cfg) st =
      logs_on_nodes-Alike name cfg node_name
        (resolve_ssh_nodes env.kube name cfg st.manager st.world) st
  logs_on-Alike input node_name no_match st = refl
  logs_on-Alike input node_name (ambiguous ns) st = refl

  handle_log_analysis-Alike :
      (input node_name : Text) (st : State W K)
      → handle_log_analysis other input node_name st ≡ handle_log_analysis env input node_name st
  unfolding handle_log_analysis clusters_text
  handle_log_analysis-Alike [] node_name st = refl
  handle_log_analysis-Alike (c ∷ s) node_name st =
      logs_on-Alike (c ∷ s) node_name (find_by_prefix st.manager.clusters (c ∷ s)) st

  diagnosed_first-Alike :
      (name : Text) (cfg : ClusterConfig) (node_name : Text) (nodes : List SshNode) (st : State W K)
      → diagnosed_first other name cfg node_name nodes st
        ≡ diagnosed_first env name cfg node_name nodes st
  unfolding diagnosed_first no_such_node diagnosed
  diagnosed_first-Alike name cfg node_name [] st = refl
  diagnosed_first-Alike name cfg node_name (n ∷ ns) st = same_if env.dry_run _ _ _ dry

  diag_on_nodes-Alike :
      (name : Text) (cfg : ClusterConfig) (node_name : Text)
      (r : Result (List SshNode) × Manager K × W) (st : State W K)
      → diag_on_nodes other name cfg node_name r st ≡ diag_on_nodes env name cfg node_name r st
  unfolding diag_on_nodes
  diag_on_nodes-Alike name cfg node_name (err e, m, w) st = refl
  diag_on_nodes-Alike name cfg node_name (ok nodes, m, w) st =
      diagnosed_first-Alike name cfg node_name (filter_nodes nodes node_name)
        (record st { manager = m; world = w })

  diag_on-Alike :
      (input node_name : Text) (l : Lookup ClusterConfig) (st : State W K)
      → diag_on other input node_name l st ≡ diag_on env input node_name l st
  unfolding diag_on refused
  diag_on-Alike input [] (found name cfg) st = refl
  diag_on-Alike input (c ∷ s) (found name cfg) st =
      diag_on_nodes-Alike name cfg (c ∷ s) (resolve_ssh_nodes env.kube name cfg st.manager st.world)
        st
  diag_on-Alike input [] no_match st = refl
  diag_on-Alike input (c ∷ s) no_match st = refl
  diag_on-Alike input [] (ambiguous ns) st = refl
  diag_on-Alike input (c ∷ s) (ambiguous ns) st = refl

  handle_node_diag-Alike :
      (input node_name : Text) (st : State W K)
      → handle_node_diag other input node_name st ≡ handle_node_diag env input node_name st
  unfolding handle_node_diag clusters_text
  handle_node_diag-Alike [] node_name st = refl
  handle_node_diag-Alike (c ∷ s) node_name st =
      diag_on-Alike (c ∷ s) node_name (find_by_prefix st.manager.clusters (c ∷ s)) st

  -- In the dry run, what these handlers answer and how they leave the bot does not depend on the SSH
  -- executor, on those of the pods or on the language model: none of them is used.
  pub dry_run_quiet :
      (input node_name : Text) (action : SkillAction) (st : State W K)
      → (handle_health other input st ≡ handle_health env input st)
        × (handle_log_analysis other input node_name st
            ≡ handle_log_analysis env input node_name st)
        × (handle_node_diag other input node_name st ≡ handle_node_diag env input node_name st)
        × (handle_skill other action st ≡ handle_skill env action st)
  dry_run_quiet input node_name action st = (
    handle_health-Alike input st,
    handle_log_analysis-Alike input node_name st,
    handle_node_diag-Alike input node_name st,
    handle_skill-Alike env dry ssh wire analyzer action st,
  )
