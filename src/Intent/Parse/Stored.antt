-- ===== src/Intent/Parse/Stored.antt =====
-- intent/parser.go: an action on a REST storage names no cluster.
use storage_bot.Base.{
  ◌≡◌, refl, not, ◌&&◌, ◌||◌, [], ◌∷◌, Text, lit, text_eq, if_intro, Option, none, some, to_lower,
  contains,
}
use storage_bot.Intent.{
  ActionType, action_rest_storage, action_health, action_log_analysis, action_node_diag,
  action_help, action_list_clusters, action_list_skills, action_toggle_llm, action_list_inspect,
  first_skill, skill_alias_table,
}
use storage_bot.Intent.Target.{first_word, extract_cluster_name, extract_node_name}
use storage_bot.Intent.Parse.{
  Action, Known, action_of, says, strip_mention, asks_items, asks_inspection, enables,
  restart_action, skill_action, named_skill, diagnosis, stored, listed, named, aliased, inspection,
  parse_stripped, parse_with_all,
}

abbrev NoCluster : Action → Type 0
NoCluster a = a.type ≡ action_rest_storage → a.cluster_name ≡ []

module _ (known : Known) where
  skill_action-NoCluster : (skill lower msg : Text) → NoCluster (skill_action known skill lower msg)
  unfolding skill_action restart_action
  skill_action-NoCluster skill lower msg =
      if_intro NoCluster (text_eq skill (lit "restart_mon") || text_eq skill (lit "restart_mgr"))
        (restart_action known skill lower msg) _ (λ e h. cc) (λ e h. cc)

  diagnosis-NoCluster : (lower msg : Text) → NoCluster (diagnosis known lower msg)
  unfolding diagnosis
  diagnosis-NoCluster lower msg =
      let node_name = extract_node_name lower known.clusters in
      let P : ActionType → Type 0 = λ t.
        t ≡ action_rest_storage
        → extract_cluster_name known.longest_first lower known.clusters ≡ [] in
      if_intro P (says lower ("log" ∷ "日志" ∷ [])) action_log_analysis _ (λ e h. cc)
        (λ e.
          if_intro P (not (text_eq node_name []) || says lower ("磁盘" ∷ "disk" ∷ "节点" ∷ []))
            action_node_diag action_health (λ e h. cc) (λ e h. cc))

  stored-NoCluster : (o : Option Text) (lower msg : Text) → NoCluster (stored known o lower msg)
  unfolding stored
  stored-NoCluster none lower msg = diagnosis-NoCluster lower msg
  stored-NoCluster (some s) lower msg = λ h. refl

  named-NoCluster : (o : Option Text) (lower msg : Text) → NoCluster (named known o lower msg)
  unfolding named listed named_skill
  named-NoCluster (some s) lower msg = λ h. cc
  named-NoCluster none lower msg =
      if_intro NoCluster (says lower ("help" ∷ "帮助" ∷ "使用" ∷ []) || text_eq msg (lit "?"))
        (action_of action_help msg) _ (λ e h. refl)
        (λ e.
          if_intro NoCluster
            (says lower ("list" ∷ "列表" ∷ "所有" ∷ "哪些" ∷ []) && says lower ("cluster" ∷ "集群" ∷ []))
            (action_of action_list_clusters msg) _ (λ e h. refl)
            (λ e.
              if_intro NoCluster
                (says lower ("list" ∷ "列表" ∷ "哪些" ∷ []) && says lower ("skill" ∷ "技能" ∷ "能力" ∷ []))
                (action_of action_list_skills msg) _ (λ e h. refl)
                (λ e.
                  stored-NoCluster (first_word lower (known.longest_first known.storages)) lower
                    msg)))

  aliased-NoCluster : (o : Option Text) (lower msg : Text) → NoCluster (aliased known o lower msg)
  unfolding aliased
  aliased-NoCluster (some s) lower msg = skill_action-NoCluster s lower msg
  aliased-NoCluster none lower msg =
      named-NoCluster (first_word lower (known.longest_first known.skills)) lower msg

  parse_stripped-NoCluster : (lower msg : Text) → NoCluster (parse_stripped known lower msg)
  unfolding parse_stripped inspection
  parse_stripped-NoCluster lower msg =
      if_intro NoCluster (contains lower (lit "llm"))
        (record (action_of action_toggle_llm msg) { toggle_llm_enable = enables lower }) _
        (λ e h. refl)
        (λ e.
          if_intro NoCluster (asks_items lower) (action_of action_list_inspect msg) _ (λ e h. refl)
            (λ e.
              if_intro NoCluster (asks_inspection lower) (inspection known lower msg) _ (λ e h. cc)
                (λ e. aliased-NoCluster (first_skill skill_alias_table lower) lower msg)))

  pub parse_with_all-NoCluster :
      (message : Text)
      → (parse_with_all known message).type ≡ action_rest_storage
      → (parse_with_all known message).cluster_name ≡ []
  unfolding parse_with_all
  parse_with_all-NoCluster message =
      let msg = strip_mention message in parse_stripped-NoCluster (to_lower msg) msg
