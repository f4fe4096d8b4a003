-- ===== src/Intent/Parse/Reads.antt =====
-- What the parser puts into an action, against what the message says.
use storage_bot.Base.{
  ◌≡◌, ◌≢◌, refl, sym, ap, ◌∙◌, subst, inl, inr, Bool, true, false, not, ◌&&◌, ◌||◌, List, [], ◌∷◌,
  ◌++◌, arith, Text, lit, if◌then◌else◌, if_intro, Option, none, some, Bool-cases, text_eq,
  text_eq_iff, text_eq_refl, contains, to_lower, trim_prefix, All,
}
use storage_bot.Base
use storage_bot.Skill.Context.{arg}
use storage_bot.Intent.{
  action_help, action_list_clusters, action_list_skills, action_toggle_llm, action_list_inspect,
  first_skill, skill_alias_table,
}
use storage_bot.Intent.Target.{
  first_word, extract_cluster_name, extract_cluster_target, extract_node_name,
}
use storage_bot.Intent.Args.Keys.{arg-put, arg-extract_skill_args}
use storage_bot.Intent.Args.{
  extract_skill_args, extract_keyword, extract_eth_name, daemon_id, says_yes,
}
use storage_bot.Intent.Parse.{
  Action, Known, action_of, says, strip_mention, asks_items, asks_inspection, enables,
  confirmed_args, put_given, skill_args, restart_action, skill_action, named_skill, diagnosis,
  stored, listed, named, aliased, inspection, parse_stripped, parse_with_all,
}

-- The parameter that confirms is as the message says it.
abbrev pub Confirms : Text → List (Text × Text) → Type 0
Confirms lower args = arg args (lit "yes") ≡ lit "true" → says_yes lower ≡ true

words : Unit {0}
unfolding Base.lit Base.text_eq
words = tt

no_args : (lower : Text) → Confirms lower []
unfolding arg words
no_args lower h = cc

confirmed_args-Confirms : (lower : Text) → Confirms lower (confirmed_args lower)
unfolding confirmed_args
confirmed_args-Confirms lower =
    if_intro (Confirms lower) (says_yes lower) ((lit "yes", lit "true") ∷ []) [] (λ e h. e)
      (λ e. no_args lower)

put_given-Confirms :
    (lower : Text) (args : List (Text × Text)) (key value : Text)
    → text_eq key (lit "yes") ≡ false
    → Confirms lower args
    → Confirms lower (put_given args key value)
unfolding put_given
put_given-Confirms lower args key [] n h = h
put_given-Confirms lower args key (c ∷ v) n h =
    λ k. h (sym (arg-put args key (c ∷ v) (lit "yes") n) ∙ k)

numbers-Confirms :
    (lower : Text) (ps : List Text)
    → All (λ p. text_eq p (lit "yes") ≡ false) ps
    → Confirms lower (extract_skill_args lower ps)
unfolding words
numbers-Confirms lower ps n h =
    let none_there : [] ≡ lit "true" = sym (arg-extract_skill_args lower ps (lit "yes") n) ∙ h in cc

csv-Confirms : (lower : Text) → Confirms lower ((lit "csv", lit "true") ∷ [])
unfolding arg words
csv-Confirms lower h = cc

skill_args-Confirms :
    (skill lower cluster_name node_name : Text)
    → Confirms lower (skill_args skill lower cluster_name node_name)
unfolding skill_args words
skill_args-Confirms skill lower cluster_name node_name =
    let kernel =
      put_given (extract_skill_args lower (lit "count" ∷ lit "n" ∷ [])) (lit "keyword")
        (extract_keyword lower) in
    let nic =
      put_given (confirmed_args lower) (lit "eth")
        (extract_eth_name lower cluster_name node_name) in
    let csv : List (Text × Text) =
      if contains lower (lit "--csv") || contains lower (lit "csv")
      then (lit "csv", lit "true") ∷ []
      else [] in
    if_intro (Confirms lower) (text_eq skill (lit "optimize_rgw_pg"))
      (extract_skill_args lower (lit "max" ∷ [])) _
      (λ e. numbers-Confirms lower (lit "max" ∷ []) (refl, tt))
      (λ e.
        if_intro (Confirms lower) (text_eq skill (lit "kernel_logs")) kernel _
          (λ e.
            put_given-Confirms lower (extract_skill_args lower (lit "count" ∷ lit "n" ∷ []))
              (lit "keyword") (extract_keyword lower) refl
              (numbers-Confirms lower (lit "count" ∷ lit "n" ∷ []) (refl, (refl, tt))))
          (λ e.
            if_intro (Confirms lower)
              (text_eq skill (lit "nic_down") || text_eq skill (lit "nic_up")) nic _
              (λ e.
                put_given-Confirms lower (confirmed_args lower) (lit "eth")
                  (extract_eth_name lower cluster_name node_name) refl
                  (confirmed_args-Confirms lower))
              (λ e.
                if_intro (Confirms lower) (text_eq skill (lit "hw_info")) csv []
                  (λ e.
                    if_intro (Confirms lower)
                      (contains lower (lit "--csv") || contains lower (lit "csv"))
                      ((lit "csv", lit "true") ∷ []) [] (λ e. csv-Confirms lower)
                      (λ e. no_args lower))
                  (λ e. no_args lower))))

module _ (known : Known) where
  Good : Text → Action → Type 0
  Good lower a = Confirms lower a.args

  no_args-Good : (lower : Text) (a : Action) → a.args ≡ [] → Good lower a
  unfolding Good
  no_args-Good lower a h = subst (Confirms lower) (sym h) (no_args lower)

  restart_action-Confirms :
      (skill lower msg : Text) → Good lower (restart_action known skill lower msg)
  unfolding restart_action Good words
  restart_action-Confirms skill lower msg =
      let cluster = extract_cluster_name known.longest_first lower known.clusters in
      put_given-Confirms lower (confirmed_args lower) (lit "id")
        (daemon_id (trim_prefix skill (lit "restart_")) lower cluster known.clusters) refl
        (confirmed_args-Confirms lower)

  skill_action-Confirms : (skill lower msg : Text) → Good lower (skill_action known skill lower msg)
  unfolding skill_action Good
  skill_action-Confirms skill lower msg =
      let target = extract_cluster_target known.longest_first lower known.clusters in
      let node_name =
        if not (text_eq skill (lit "list_nodes"))
        then extract_node_name lower known.clusters
        else [] in
      if_intro (Good lower) (text_eq skill (lit "restart_mon") || text_eq skill (lit "restart_mgr"))
        (restart_action known skill lower msg) _ (λ e. restart_action-Confirms skill lower msg)
        (λ e. skill_args-Confirms skill lower target.0 node_name)

  stored-Confirms : (o : Option Text) (lower msg : Text) → Good lower (stored known o lower msg)
  unfolding stored diagnosis
  stored-Confirms none lower msg = no_args-Good lower _ refl
  stored-Confirms (some s) lower msg = no_args-Good lower _ refl

  named-Confirms : (o : Option Text) (lower msg : Text) → Good lower (named known o lower msg)
  unfolding named listed named_skill
  named-Confirms (some s) lower msg = no_args-Good lower _ refl
  named-Confirms none lower msg =
      let rest = stored known (first_word lower (known.longest_first known.storages)) lower msg in
      let skills =
        says lower ("list" ∷ "列表" ∷ "哪些" ∷ []) && says lower ("skill" ∷ "技能" ∷ "能力" ∷ []) in
      let clusters =
        says lower ("list" ∷ "列表" ∷ "所有" ∷ "哪些" ∷ []) && says lower ("cluster" ∷ "集群" ∷ []) in
      let asks_skills = if skills then action_of action_list_skills msg else rest in
      let asks_clusters = if clusters then action_of action_list_clusters msg else asks_skills in
      if_intro (Good lower) (says lower ("help" ∷ "帮助" ∷ "使用" ∷ []) || text_eq msg (lit "?"))
        (action_of action_help msg) asks_clusters
        (λ e. no_args-Good lower (action_of action_help msg) refl)
        (λ e.
          if_intro (Good lower) clusters (action_of action_list_clusters msg) asks_skills
            (λ e. no_args-Good lower (action_of action_list_clusters msg) refl)
            (λ e.
              if_intro (Good lower) skills (action_of action_list_skills msg) rest
                (λ e. no_args-Good lower (action_of action_list_skills msg) refl)
                (λ e.
                  stored-Confirms (first_word lower (known.longest_first known.storages)) lower
                    msg)))

  aliased-Confirms : (o : Option Text) (lower msg : Text) → Good lower (aliased known o lower msg)
  unfolding aliased
  aliased-Confirms (some s) lower msg = skill_action-Confirms s lower msg
  aliased-Confirms none lower msg =
      named-Confirms (first_word lower (known.longest_first known.skills)) lower msg

  parse_stripped-Good : (lower msg : Text) → Good lower (parse_stripped known lower msg)
  unfolding parse_stripped inspection
  parse_stripped-Good lower msg =
      let rest = aliased known (first_skill skill_alias_table lower) lower msg in
      let toggled = record (action_of action_toggle_llm msg) {
        toggle_llm_enable = enables lower;
      } in
      let inspects = if asks_inspection lower then inspection known lower msg else rest in
      let items = if asks_items lower then action_of action_list_inspect msg else inspects in
      if_intro (Good lower) (contains lower (lit "llm")) toggled items
        (λ e. no_args-Good lower toggled refl)
        (λ e.
          if_intro (Good lower) (asks_items lower) (action_of action_list_inspect msg) inspects
            (λ e. no_args-Good lower (action_of action_list_inspect msg) refl)
            (λ e.
              if_intro (Good lower) (asks_inspection lower) (inspection known lower msg) rest
                (λ e. no_args-Good lower (inspection known lower msg) refl)
                (λ e. aliased-Confirms (first_skill skill_alias_table lower) lower msg)))

  -- An action confirms a change only if its message does: where the parser sets the parameter `yes`
  -- to `true`, the message, without mentions and in lower case, contains `--yes` or `确认`.
  pub parse_with_all-Confirms :
      (message : Text)
      → Confirms (to_lower (strip_mention message)) (parse_with_all known message).args
  unfolding parse_with_all Good
  parse_with_all-Confirms message =
      let msg = strip_mention message in parse_stripped-Good (to_lower msg) msg
