-- ===== src/Intent/Parse.antt =====
-- intent/parser.go: ParseWithAll, and the clean-up of a language model's answer.
pub mod Flags
pub mod Reads
pub mod Stored
mod Tests
use storage_bot.Base.{
  ℕ, zero, suc, ◌-◌, Bool, true, false, not, ◌&&◌, ◌||◌, List, [], ◌∷◌, ◌++◌, String, Text, lit,
  if◌then◌else◌, Option, none, some, has_prefix, contains, to_lower, is_digit, ◌==◌, any, length,
  text_eq, map, trim_space, trim_prefix, trim_suffix, index, take, drop, reverse, ltb,
}
use storage_bot.Regex.{Re, Place, empty, one, many, seq, run}
use storage_bot.Cluster.Nodes.{put}
use storage_bot.Intent.{
  ActionType, action_help, action_list_clusters, action_health, action_log_analysis,
  action_node_diag, action_skill, action_list_skills, action_rest_storage, action_toggle_llm,
  action_inspect, action_list_inspect, first_skill, skill_alias_table,
}
use storage_bot.Intent.Words.{contains_word}
use storage_bot.Intent.Target.{
  first_word, extract_cluster_name, extract_cluster_target, extract_node_name,
}
use storage_bot.Intent.Args.{
  extract_skill_args, extract_keyword, extract_eth_name, daemon_id, says_yes,
}

pub record Action : Type 0 where
  pub type : ActionType
  pub cluster_name : Text
  pub exclude_clusters : List Text
  pub node_name : Text
  pub skill_name : Text
  pub storage_name : Text
  pub args : List (Text × Text)
  pub toggle_llm_enable : Bool
  pub raw_message : Text

abbrev pub action_of : ActionType → Text → Action
action_of t msg = record {
  type = t;
  cluster_name = [];
  exclude_clusters = [];
  node_name = [];
  skill_name = [];
  storage_name = [];
  args = [];
  toggle_llm_enable = false;
  raw_message = msg;
}

abbrev is_blank : ℕ → Bool
is_blank c = c == 9 || c == 10 || c == 12 || c == 13 || c == 32

literal : Text → Re
literal [] = empty
literal (c ∷ s) = seq (one (λ x. x == c)) (literal s)

mention_re : Re
unfolding literal
mention_re =
    seq (literal (lit "@_user_")) (seq (one is_digit) (seq (many is_digit) (many is_blank)))

consumed : Text → List Place → ℕ
consumed s [] = 0
consumed s (p ∷ ps) = length s - length p.after

-- ReplaceAllString by the empty text; `skip` counts the bytes of a match that are to come.
without_mentions : ℕ → Text → Text
unfolding consumed mention_re
without_mentions skip [] = []
without_mentions (suc n) (c ∷ s) = without_mentions n s
without_mentions zero (c ∷ s) =
    let size =
      consumed (c ∷ s) (run mention_re (record { before = []; after = c ∷ s; groups = [] })) in
    let cut_out = without_mentions (size - 1) s in
    let kept = c ∷ without_mentions 0 s in if ltb 0 size then cut_out else kept

unfoldable pub strip_mention : Text → Text
unfolding without_mentions
strip_mention msg = trim_space (without_mentions 0 msg)

says : Text → List String → Bool
says lower ws = any (λ w. contains lower (lit w)) ws

unfoldable pub asks_items : Text → Bool
unfolding says
asks_items lower =
    says lower ("巡检项" ∷ "体检项" ∷ [])
    || says lower ("list" ∷ "列表" ∷ "有哪些" ∷ "哪些" ∷ []) && says lower ("inspect" ∷ [])

unfoldable pub asks_inspection : Text → Bool
unfolding says
asks_inspection lower = says lower ("巡检" ∷ "体检" ∷ "inspect" ∷ [])

unfoldable pub enables : Text → Bool
unfolding says
enables lower = says lower ("enable" ∷ "开启" ∷ "打开" ∷ "启用" ∷ "on" ∷ [])

-- The sort.Slice of names by length, and the configured names.
pub record Known : Type 0 where
  pub longest_first : List Text → List Text
  pub clusters : List Text
  pub skills : List Text
  pub storages : List Text

confirmed_args : Text → List (Text × Text)
confirmed_args lower = if says_yes lower then (lit "yes", lit "true") ∷ [] else []

put_given : List (Text × Text) → Text → Text → List (Text × Text)
put_given args key [] = args
put_given args key (c ∷ v) = put args key (c ∷ v)

-- The parameters of a skill other than a restart.
unfoldable pub skill_args : Text → Text → Text → Text → List (Text × Text)
unfolding confirmed_args put_given says
skill_args skill lower cluster_name node_name =
    let kernel =
      put_given (extract_skill_args lower (lit "count" ∷ lit "n" ∷ [])) (lit "keyword")
        (extract_keyword lower) in
    let nic =
      put_given (confirmed_args lower) (lit "eth")
        (extract_eth_name lower cluster_name node_name) in
    let csv : List (Text × Text) =
      if contains lower (lit "--csv") || contains lower (lit "csv")
      then (lit "csv", lit "true") ∷ []
      else [] in
    if text_eq skill (lit "optimize_rgw_pg")
    then extract_skill_args lower (lit "max" ∷ [])
    else (if text_eq skill (lit "kernel_logs")
        then kernel
        else (if text_eq skill (lit "nic_down") || text_eq skill (lit "nic_up")
            then nic
            else (if text_eq skill (lit "hw_info") then csv else [])))

module _ (known : Known) where
  restart_action : Text → Text → Text → Action
  unfolding confirmed_args put_given
  restart_action skill lower msg =
      let cluster = extract_cluster_name known.longest_first lower known.clusters in
      record (action_of action_skill msg) {
        skill_name = skill;
        cluster_name = cluster;
        args =
            put_given (confirmed_args lower) (lit "id")
              (daemon_id (trim_prefix skill (lit "restart_")) lower cluster known.clusters);
      }

  unfoldable pub skill_action : Text → Text → Text → Action
  unfolding restart_action
  skill_action skill lower msg =
      let target = extract_cluster_target known.longest_first lower known.clusters in
      let node_name =
        if not (text_eq skill (lit "list_nodes"))
        then extract_node_name lower known.clusters
        else [] in
      if text_eq skill (lit "restart_mon") || text_eq skill (lit "restart_mgr")
      then restart_action skill lower msg
      else record (action_of action_skill msg) {
        skill_name = skill;
        cluster_name = target.0;
        exclude_clusters = target.1;
        node_name = node_name;
        args = skill_args skill lower target.0 node_name;
      }

  named_skill : Text → Text → Text → Action
  named_skill skill lower msg =
      let target = extract_cluster_target known.longest_first lower known.clusters in
      record (action_of action_skill msg) {
        skill_name = skill;
        cluster_name = target.0;
        exclude_clusters = target.1;
        node_name = extract_node_name lower known.clusters;
      }

  -- What is left: a cluster's health, its logs or a node.
  diagnosis : Text → Text → Action
  unfolding says
  diagnosis lower msg =
      let node_name = extract_node_name lower known.clusters in
      let type : ActionType =
        if says lower ("log" ∷ "日志" ∷ [])
        then action_log_analysis
        else (if not (text_eq node_name []) || says lower ("磁盘" ∷ "disk" ∷ "节点" ∷ [])
            then action_node_diag
            else action_health) in
      record (action_of type msg) {
        cluster_name = extract_cluster_name known.longest_first lower known.clusters;
        node_name = node_name;
      }

  stored : Option Text → Text → Text → Action
  unfolding diagnosis
  stored (some storage) lower msg = record (action_of action_rest_storage msg) {
    storage_name = storage;
  }
  stored none lower msg = diagnosis lower msg

  listed : Text → Text → Action
  unfolding stored says
  listed lower msg =
      if says lower ("help" ∷ "帮助" ∷ "使用" ∷ []) || text_eq msg (lit "?")
      then action_of action_help msg
      else (if says lower ("list" ∷ "列表" ∷ "所有" ∷ "哪些" ∷ []) && says lower ("cluster" ∷ "集群" ∷ [])
          then action_of action_list_clusters msg
          else (if says lower ("list" ∷ "列表" ∷ "哪些" ∷ []) && says lower ("skill" ∷ "技能" ∷ "能力" ∷ [])
              then action_of action_list_skills msg
              else stored (first_word lower (known.longest_first known.storages)) lower msg))

  named : Option Text → Text → Text → Action
  unfolding named_skill listed
  named (some skill) lower msg = named_skill skill lower msg
  named none lower msg = listed lower msg

  aliased : Option Text → Text → Text → Action
  unfolding skill_action named
  aliased (some skill) lower msg = skill_action skill lower msg
  aliased none lower msg = named (first_word lower (known.longest_first known.skills)) lower msg

  inspection : Text → Text → Action
  unfolding says
  inspection lower msg = record (action_of action_inspect msg) {
    cluster_name =
        if not (says lower ("所有" ∷ "全部" ∷ "all" ∷ []))
        then extract_cluster_name known.longest_first lower known.clusters
        else [];
  }

  -- The order of the tests on the message.
  unfoldable pub parse_stripped : Text → Text → Action
  unfolding aliased inspection
  parse_stripped lower msg =
      if contains lower (lit "llm")
      then record (action_of action_toggle_llm msg) { toggle_llm_enable = enables lower }
      else (if asks_items lower
          then action_of action_list_inspect msg
          else (if asks_inspection lower
              then inspection lower msg
              else aliased (first_skill skill_alias_table lower) lower msg))

  unfoldable pub parse_with_all : Text → Action
  parse_with_all message = let msg = strip_mention message in parse_stripped (to_lower msg) msg

-- strings.LastIndex of a byte, from the end.
last_at : ℕ → Text → Option ℕ
last_at b [] = none
last_at b (c ∷ s) =
    let later : Option ℕ = elim (last_at b s) [
      | some i ↦ some (suc i)
      | none ↦ if c == b then some 0 else none
    ] in
    later

between : Text → Option ℕ → Option ℕ → Text
between s (some i) (some j) = if ltb i j then drop i (take (suc j) s) else s
between s none j = s
between s (some i) none = s

unfenced : Text → Text
unfenced s =
    let body = trim_space s in
    let without : Text → Text =
      λ fence. trim_space (trim_suffix (trim_prefix body fence) (lit "```")) in
    if has_prefix body (lit "```json")
    then without (lit "```json")
    else (if has_prefix body (lit "```") then without (lit "```") else body)

unfoldable pub clean_json_response : Text → Text
unfolding last_at between unfenced
clean_json_response s =
    let body = unfenced s in between body (index body (lit "{")) (last_at b'}' body)
