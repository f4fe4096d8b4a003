-- ===== src/Bot/Skills/Runs.antt =====
-- The runs of a skill on several clusters.
use storage_bot.Base.{
  ◌≡◌, refl, sym, ap, ◌∙◌, subst, inl, inr, true, false, not, List, [], ◌∷◌, arith, Text, text_eq,
  text_eq_refl, Option, some, In, All, map, if_intro,
}
use storage_bot.Base.Result.{Result, err, ok}
use storage_bot.Executor.{SshNode}
use storage_bot.Cluster.{get}
use storage_bot.Cluster.Nodes.{ClusterConfig, Manager, list, resolve_ssh_nodes}
use storage_bot.Cluster.Nodes.Cache.{resolve_ssh_nodes-clusters}
use storage_bot.Bot.State.Keeps.{get_kube_executor-manager, analyze_or_echo-manager}
use storage_bot.Bot.State.{Skill, Env, State, get_kube_executor, analyze_or_echo, needs_analysis}
use storage_bot.Bot.Skills.{
  executed, on_nodes, on_executor, run_skill_on_cluster, run_on_clusters, on_listed, dry_text,
  outcome_text, context_of,
}

differs : (k c : Text) → text_eq k c ≡ false → c ≡ k → ⊥
differs k c e d =
    let e' : text_eq k k ≡ false = subst (λ x. text_eq k x ≡ false) d e in
    let t : text_eq k k ≡ true = text_eq_refl k in ground arith

get-list :
    {C : Type 0} (m : List (Text × C)) (c : Text)
    → In c (map (λ e. e.0) m)
    → (x : C) × (get m c ≡ some x)
unfolding get
get-list [] c h = absurd h
get-list {C = C} ((k, v) ∷ m) c h =
    if_intro (λ o. (x : C) × (o ≡ some x)) (text_eq k c) (some v) (get m c) (λ e. (v, refl))
      (λ e. elim h [ inl d ↦ absurd (differs k c e d) | inr i ↦ get-list m c i ])

module _ {W K : Type 0} (env : Env W K) where
  executed-clusters :
      (s : Skill W) (name : Text) (r : Result Text × W) (st : State W K)
      → (executed env s name r st).1.manager.clusters ≡ st.manager.clusters
  unfolding executed
  executed-clusters s name (err e, w) st = refl
  executed-clusters s name (ok out, w) st =
      if_intro {A = Result Text × State W K} (λ r. r.1.manager.clusters ≡ st.manager.clusters)
        (not (needs_analysis s.name)) (ok out, record st { world = w })
        (let (reply, st') = analyze_or_echo env name out (record st { world = w }) in
          (ok reply, st'))
        (λ e. refl)
        (λ e. ap (λ m. m.clusters) (analyze_or_echo-manager env name out (record st { world = w })))

  on_nodes-clusters :
      (s : Skill W) (name : Text) (cfg : ClusterConfig) (node_name : Text)
      (args : List (Text × Text)) (k : K) (r : Result (List SshNode) × Manager K × W)
      (st : State W K)
      → (on_nodes env s name cfg node_name args k r st).1.manager.clusters ≡ r.1.clusters
  unfolding on_nodes
  on_nodes-clusters s name cfg node_name args k (err e, m, w) st = refl
  on_nodes-clusters s name cfg node_name args k (ok ns, m, w) st =
      executed-clusters s name
        (s.execute (env.wire k) (context_of env name cfg node_name args ns) w)
        (record st { manager = m; world = w })

  on_executor-clusters :
      (s : Skill W) (name : Text) (cfg : ClusterConfig) (node_name : Text)
      (args : List (Text × Text)) (r : Result K × State W K)
      → (on_executor env s name cfg node_name args r).1.manager.clusters ≡ r.1.manager.clusters
  unfolding on_executor
  on_executor-clusters s name cfg node_name args (err e, st) = refl
  on_executor-clusters s name cfg node_name args (ok k, st) =
      on_nodes-clusters s name cfg node_name args k
        (resolve_ssh_nodes env.kube name cfg st.manager st.world) st
      ∙ resolve_ssh_nodes-clusters env.kube name cfg st.manager st.world

  -- A run of a skill leaves the configuration alone.
  pub run_skill_on_cluster-clusters :
      (s : Skill W) (name : Text) (cfg : ClusterConfig) (node_name : Text)
      (args : List (Text × Text)) (st : State W K)
      → (run_skill_on_cluster env s name cfg node_name args st).1.manager.clusters
        ≡ st.manager.clusters
  unfolding run_skill_on_cluster
  run_skill_on_cluster-clusters s name cfg node_name args st =
      on_executor-clusters s name cfg node_name args (get_kube_executor env name cfg st)
      ∙ ap (λ m. m.clusters) (get_kube_executor-manager env name cfg st)

  -- One run of the skill on each of the clusters, in their order, each with the configuration of its
  -- own cluster and from the state that the run before it left; each gives the line of its outcome.
  pub data Runs (s : Skill W) : List Text → State W K → List Text → State W K → Type 0 where
    finished : (st : State W K) → Runs s [] st [] st
    ran :
        (c : Text) (cs : List Text) (cfg : ClusterConfig) (st st' : State W K) (lines : List Text)
        → get st.manager.clusters c ≡ some cfg
        → Runs s cs (run_skill_on_cluster env s c cfg [] [] st).1 lines st'
        → Runs s
            (c ∷ cs)
            st
            (outcome_text c (run_skill_on_cluster env s c cfg [] [] st).0 ∷ lines)
            st'

  on_listed-ran :
      (s : Skill W) (c : Text) (cfg : ClusterConfig) (o : Option ClusterConfig) (st : State W K)
      → env.dry_run ≡ false
      → o ≡ some cfg
      → on_listed env s c o st ≡ (
        outcome_text c (run_skill_on_cluster env s c cfg [] [] st).0,
        (run_skill_on_cluster env s c cfg [] [] st).1,
      )
  unfolding on_listed
  on_listed-ran s c cfg o st d h =
      ap (λ o. on_listed env s c o st) h
      ∙ if_intro {A = Text × State W K}
          (λ r. r ≡ (
            outcome_text c (run_skill_on_cluster env s c cfg [] [] st).0,
            (run_skill_on_cluster env s c cfg [] [] st).1,
          ))
          env.dry_run (dry_text env s c, st)
          (let (r, st') = run_skill_on_cluster env s c cfg [] [] st in (outcome_text c r, st'))
          (λ e. absurd (ground arith)) (λ e. refl)

  -- Outside a dry run, a skill on several configured clusters runs on each of them, whatever the runs
  -- on the others give: no error ends the loop, and each cluster has a line, with its output or its
  -- own error.
  pub run_on_clusters-Runs :
      (s : Skill W) (cs : List Text) (st : State W K)
      → env.dry_run ≡ false
      → All (λ c. In c (list st.manager)) cs
      → Runs s cs st (run_on_clusters env s cs st).0 (run_on_clusters env s cs st).1
  unfolding run_on_clusters list
  run_on_clusters-Runs s [] st d h = finished st
  run_on_clusters-Runs s (c ∷ cs) st d (h, hs) =
      let (cfg, g) = get-list st.manager.clusters c h in
      let st1 = (run_skill_on_cluster env s c cfg [] [] st).1 in
      let kept = run_skill_on_cluster-clusters s c cfg [] [] st in
      subst
        (λ r.
          Runs s (c ∷ cs) st (r.0 ∷ (run_on_clusters env s cs r.1).0)
            (run_on_clusters env s cs r.1).1)
        (sym (on_listed-ran s c cfg (get st.manager.clusters c) st d g))
        (ran c cs cfg st (run_on_clusters env s cs st1).1 (run_on_clusters env s cs st1).0 g (
          run_on_clusters-Runs s cs st1 d
            (subst (λ m. All (λ c. In c (map (λ e. e.0) m)) cs) (sym kept) hs)))
