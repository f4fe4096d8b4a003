-- ===== src/Bot/Dispatch.antt =====
-- bot/handler.go: HandleMessage, from the event to the reply.
pub mod Journal
pub mod Overridden
mod Tests
use storage_bot.Base.{
  ◌+◌, ◌==◌, ℕ, Bool, true, false, not, ◌&&◌, List, [], ◌∷◌, ◌++◌, Text, lit, cat, text_eq,
  if◌then◌else◌, Option, none, some, length, map, any, wide_space,
}
use storage_bot.Base.Int.{pos}
use storage_bot.Base.Decimal.{itoa}
use storage_bot.Base.Result.{Result, err, ok}
use storage_bot.Security.Audit.{AuditLog, record_entry}
use storage_bot.Security.Validator.{sanitize_for_llm}
use storage_bot.Cluster.Nodes.{list}
use storage_bot.Intent.{
  ActionType, action_help, action_list_clusters, action_health, action_log_analysis,
  action_node_diag, action_skill, action_list_skills, action_rest_storage, action_toggle_llm,
  action_inspect, action_list_inspect, type_text, needs_fallback,
}
use storage_bot.Intent.Parse.{Action, parse_with_all}
use storage_bot.Intent.Fallback.{Model, parse_with_llm}
use storage_bot.Inspect.Level.{Level, level_ok}
use storage_bot.Inspect.Inspectors.{Inspector, cluster_scope, node_scope, by_scope}
use storage_bot.Inspect.Whole.{Runner}
use storage_bot.Bot.State.{
  Env, State, list_skills, clusters_text, dry_run_reply, analyze_or_echo, toggle_llm,
}
use storage_bot.Bot.Skills.{handle_skill}
use storage_bot.Bot.Diagnose.{handle_health, handle_log_analysis, handle_node_diag}
use storage_bot.Bot.Inspection.{handle_inspect}
use storage_bot.Bot.Message.{extract_text, is_bot_mentioned, Card, Shown, card_for_action}
use storage_bot.Bot.Items.{list_inspect_items}
use storage_bot.Bot.Help.{help_message}

-- The event; a mention is its key. The sender's open id is empty if the event has none.
pub record Event : Type 0 where
  pub content : Option Text
  pub chat_type : Option Text
  pub mentions : List (Option Text)
  pub user_id : Text

-- `query_storage` is the Query of a REST storage, by its name, with the output of the answer. `text_field` is what
-- encoding/json reads from a content, `longest_first` the sort of names by length.
pub record Bot (W K F : Type 0) : Type 0 where
  pub env : Env W K
  pub runner : Option (Runner W K F)
  pub query_storage : Text → Text → W → Result Text × W
  pub model : Option (Model W)
  pub longest_first : List Text → List Text
  pub text_field : Text → Option Text
  pub clock : W → ℕ
  pub when : ℕ → Text

pub record BotState (W K : Type 0) : Type 0 where
  pub core : State W K
  pub audit : Option AuditLog

-- HandleMessage reads the chat type for its log line, where it may be nil.
pub data Outcome : Type 0 where
  ignored panicked : Outcome
  replied : Card → Outcome

module _ {W K F : Type 0} (bot : Bot W K F) where
  storage_answer : Text → Result Text × W → State W K → Result Text × State W K
  storage_answer name (err e, w) st =
      (err (cat (lit "query " ∷ name ∷ lit ": " ∷ e ∷ [])), record st { world = w })
  storage_answer name (ok output, w) st =
      let (reply, st1) = analyze_or_echo bot.env name output (record st { world = w }) in
      (ok reply, st1)

  no_storage : Text → Text
  no_storage name = cat (
      lit "🚫 未找到存储 `"
      ∷ name
      ∷ lit "`\n\n已配置的 REST 存储：`"
      ∷ bot.env.show_names bot.env.storages
      ∷ lit "`"
      ∷ [])

  on_storage : Text → Text → State W K → Result Text × State W K
  unfolding storage_answer
  on_storage name raw st =
      let real = storage_answer name (bot.query_storage name raw st.world) st in
      if bot.env.dry_run
      then (
        ok (
            dry_run_reply name (lit "rest storage query")
              (cat (lit "GET " ∷ name ∷ lit " API" ∷ []))),
        st,
      )
      else real

  unfoldable pub handle_rest_storage : Text → Text → State W K → Result Text × State W K
  unfolding on_storage no_storage
  handle_rest_storage name raw st =
      let found = on_storage name raw st in
      if any (λ s. text_eq s name) bot.env.storages then found else (ok (no_storage name), st)

  -- A handler's answer, with the level of an inspection.
  plainly : Result Text × State W K → (Result Text × Level) × State W K
  plainly (r, st) = ((r, level_ok), st)

  told : Text → State W K → (Result Text × Level) × State W K
  told reply st = ((ok reply, level_ok), st)

  unfoldable pub dispatch : ActionType → Action → State W K → (Result Text × Level) × State W K
  unfolding plainly told
  dispatch action_help a st = told help_message st
  dispatch action_list_clusters a st = told (clusters_text bot.env st) st
  dispatch action_list_skills a st = told (list_skills bot.env) st
  dispatch action_list_inspect a st = told (list_inspect_items bot.runner) st
  dispatch action_toggle_llm a st =
      let (reply, st1) = toggle_llm bot.env a.toggle_llm_enable st in told reply st1
  dispatch action_skill a st = plainly (
      handle_skill bot.env
        (record {
          skill_name = a.skill_name;
          cluster_name = a.cluster_name;
          exclude_clusters = a.exclude_clusters;
          node_name = a.node_name;
          args = a.args;
        })
        st)
  dispatch action_health a st = plainly (handle_health bot.env a.cluster_name st)
  dispatch action_log_analysis a st =
      plainly (handle_log_analysis bot.env a.cluster_name a.node_name st)
  dispatch action_node_diag a st = plainly (handle_node_diag bot.env a.cluster_name a.node_name st)
  dispatch action_rest_storage a st = plainly (handle_rest_storage a.storage_name a.raw_message st)
  dispatch action_inspect a st =
      let ((text, level), st1) = handle_inspect bot.runner bot.when a.cluster_name st in
      ((ok text, level), st1)

  or_regex : Action → Result Action × W → State W K → Action × State W K
  or_regex a (err e, w) st = (a, record st { world = w })
  or_regex a (ok b, w) st = (b, record st { world = w })

  with_model : Option (Model W) → Text → Action → State W K → Action × State W K
  unfolding or_regex
  with_model none text a st = (a, st)
  with_model (some m) text a st =
      let asked = or_regex a (parse_with_llm m text (list st.manager) st.world) st in
      if needs_fallback a.type a.cluster_name && not st.llm_disabled then asked else (a, st)

  by_rules : Text → State W K → Action
  by_rules text st =
      parse_with_all
        (record {
          longest_first = bot.longest_first;
          clusters = list st.manager;
          skills = map (λ s. s.name) bot.env.skills;
          storages = bot.env.storages;
        })
        text

  -- What the message asks for, by its sanitized text.
  unfoldable pub understood : Text → State W K → Action × State W K
  unfolding with_model by_rules
  understood text st = with_model bot.model text (by_rules text st) st

  pub status_of : Result Text → Text
  status_of (err e) = lit "error: " ++ e
  status_of (ok reply) = lit "ok"

  pub card_of_answer : Action → Result Text → Level → Card
  card_of_answer a r level =
      let shown : Shown = record {
        kind = a.type;
        cluster_name = a.cluster_name;
        node_name = a.node_name;
        skill_name = a.skill_name;
        storage_name = a.storage_name;
        enable = a.toggle_llm_enable;
      } in
      elim r [
        | err e ↦ card_for_action shown (cat (lit "```\n" ∷ e ∷ lit "\n```" ∷ [])) (some e) level
        | ok reply ↦ card_for_action shown reply none level
      ]

  logged : Option AuditLog → ℕ → Text → Action → Text → Text → Option AuditLog
  logged none now user a text status = none
  logged (some log) now user a text status =
      some (record_entry log now user a.cluster_name (type_text a.type) text status)

  unfoldable pub carried_out : Event → Text → BotState W K → Outcome × BotState W K
  unfolding status_of card_of_answer logged
  carried_out ev text st =
      let (a, core1) = understood (sanitize_for_llm text) st.core in
      let ((r, level), core2) = dispatch a.type a core1 in
      (
        replied (card_of_answer a r level),
        record {
          core = core2;
          audit = logged st.audit (bot.clock core2.world) ev.user_id a text (status_of r);
        },
      )

  in_chat : Event → Text → Option Text → BotState W K → Outcome × BotState W K
  in_chat ev text none st = (panicked, st)
  in_chat ev text (some chat) st =
      let answer = carried_out ev text st in
      if text_eq chat (lit "group") && not (is_bot_mentioned text ev.mentions)
      then (ignored, st)
      else answer

  with_text : Event → Text → BotState W K → Outcome × BotState W K
  unfolding in_chat
  with_text ev [] st = (ignored, st)
  with_text ev (c ∷ s) st = in_chat ev (c ∷ s) ev.chat_type st

  with_content : Event → Option Text → BotState W K → Outcome × BotState W K
  unfolding with_text
  with_content ev none st = (ignored, st)
  with_content ev (some content) st = with_text ev (extract_text bot.text_field content) st

  unfoldable pub handle_message : Event → BotState W K → Outcome × BotState W K
  unfolding with_content
  handle_message ev st = with_content ev ev.content st

  -- Messages, one after the other.
  unfoldable pub serve : List Event → BotState W K → List Outcome × BotState W K
  serve [] st = ([], st)
  serve (ev ∷ evs) st =
      let (o, st1) = handle_message ev st in let (os, st2) = serve evs st1 in (o ∷ os, st2)
