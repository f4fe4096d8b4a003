-- ===== src/Bot/Message.antt =====
-- bot/handler.go: what of a message is looked at, and the card of an answer.
pub mod Note
use storage_bot.Base.{
  Bool, true, false, not, ◌||◌, List, [], ◌∷◌, ◌++◌, Text, lit, cat, text_eq, if◌then◌else◌, Option,
  none, some, has_prefix, emoji_style,
}
use storage_bot.Intent.{
  ActionType, action_help, action_list_clusters, action_health, action_log_analysis,
  action_node_diag, action_skill, action_list_skills, action_rest_storage, action_toggle_llm,
  action_inspect, action_list_inspect,
}
use storage_bot.Inspect.Level.{Level, emoji}
use storage_bot.Inspect.Render.{
  Theme, theme_blue, theme_green, theme_red, theme_orange, theme_gray, theme_turquoise,
  theme_purple, theme_for_level,
}

-- `text_field` is what encoding/json reads from the message's content, if that is a JSON object.
unfoldable pub extract_text : (Text → Option Text) → Text → Text
extract_text text_field content = elim (text_field content) [ none ↦ content | some text ↦ text ]

is_all_key : Text → Bool
is_all_key k = text_eq k (lit "@_all") || text_eq k (lit "_all") || text_eq k (lit "all")

-- A mention without a key is passed over.
some_mention : List (Option Text) → Bool
unfolding is_all_key
some_mention [] = false
some_mention (none ∷ ms) = some_mention ms
some_mention (some k ∷ ms) = let rest = some_mention ms in if is_all_key k then rest else true

unfoldable pub is_bot_mentioned : Text → List (Option Text) → Bool
unfolding some_mention
is_bot_mentioned text mentions =
    if has_prefix text (lit "@_all ")
      || has_prefix text (lit " @_all")
      || has_prefix text (lit "@_all")
    then false
    else some_mention mentions

unfoldable pub title_with_cluster : Text → Text → Text
title_with_cluster label [] = label
title_with_cluster label (c ∷ s) = cat (label ∷ lit " · " ∷ (c ∷ s) ∷ [])

-- What card.New gets, and the note.
pub record Card : Type 0 where
  pub emoji : Text
  pub title : Text
  pub theme : Theme
  pub body : Text
  pub note : Text

-- The parts of intent.Action that the card shows.
pub record Shown : Type 0 where
  pub kind : ActionType
  pub cluster_name : Text
  pub node_name : Text
  pub skill_name : Text
  pub storage_name : Text
  pub enable : Bool

plain : Text → Text → Theme → Text → Card
plain e title theme body = record {
  emoji = e;
  title = title;
  theme = theme;
  body = body;
  note = [];
}

named_title : Text → Text → Text
named_title label [] = label
named_title label (c ∷ s) = cat (label ∷ lit " · " ∷ (c ∷ s) ∷ [])

card_of : ActionType → Shown → Text → Level → Card
unfolding plain named_title
card_of action_help a body l = plain (lit "📖") (lit "Storage Bot 使用指南") theme_blue body
card_of action_list_clusters a body l = plain (lit "🗂") (lit "集群与存储列表") theme_blue body
card_of action_list_skills a body l = plain (lit "🧰") (lit "可用 Skills") theme_blue body
card_of action_list_inspect a body l = plain (lit "🔍") (lit "巡检项清单") theme_blue body
card_of action_toggle_llm a body l =
    plain (if not a.enable then lit "⚪" else lit "🟢") (lit "LLM 开关")
      (if not a.enable then theme_gray else theme_green) body
card_of action_health a body l =
    plain (lit "🩺") (title_with_cluster (lit "健康检查") a.cluster_name) theme_turquoise body
card_of action_log_analysis a body l =
    plain (lit "📜") (title_with_cluster (lit "日志分析") a.cluster_name) theme_purple body
card_of action_node_diag a body l =
    plain (lit "🖥") (title_with_cluster (named_title (lit "节点诊断") a.node_name) a.cluster_name)
      theme_orange body
card_of action_skill a body l =
    plain (lit "⚙" ++ emoji_style)
      (title_with_cluster (named_title (lit "Skill") a.skill_name) a.cluster_name) theme_blue body
card_of action_rest_storage a body l =
    plain (lit "📦") (title_with_cluster (lit "焱融存储") a.storage_name) theme_turquoise body
card_of action_inspect a body l =
    plain (emoji l) (title_with_cluster (lit "集群巡检") a.cluster_name) (theme_for_level l) body

unfoldable pub card_for_action : Shown → Text → Option Text → Level → Card
unfolding card_of
card_for_action a body (some e) l = record {
  emoji = lit "⚠" ++ emoji_style;
  title = lit "执行出错";
  theme = theme_red;
  body = body;
  note = lit "可输入 `help` 查看支持的指令";
}
card_for_action a body none l = card_of a.kind a body l
