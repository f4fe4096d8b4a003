-- ===== src/Bot/Dispatch/Tests.antt =====
-- Messages to a bot, and the theorems on their handling at concrete inputs. The world is the prompts
-- that the language model got.
use storage_bot.Base.{
  ℕ, ◌≡◌, refl, Option, none, some, List, [], ◌∷◌, Text, lit, inl, inr, min, length, Bool, true,
  false, map,
}
use storage_bot.Base
use storage_bot.Base.Int.{pos}
use storage_bot.Base.Result.{Result, err, ok}
use storage_bot.Executor.{Wire}
use storage_bot.Regex
use storage_bot.Security.Patterns.{either_case}
use storage_bot.Security.Audit.{AuditEntry, AuditLog, new_audit_log, record_entry, recent}
use storage_bot.Security.Audit.History.{keep_last}
use storage_bot.Security.Validator.{sanitize_for_llm}
use storage_bot.Cluster.Nodes.{Kube, list}
use storage_bot.Intent
use storage_bot.Intent.{
  action_list_clusters, action_inspect, action_rest_storage, needs_fallback, skill_alias_table,
  first_skill,
}
use storage_bot.Intent.Parse.{
  strip_mention, asks_items, asks_inspection, parse_stripped, parse_with_all, clean_json_response,
}
use storage_bot.Intent.Target.{first_word}
use storage_bot.Intent.Words.{contains_word, is_name_char}
use storage_bot.Intent.Fallback.{Model, kind_of, parse_with_llm}
use storage_bot.Bot.State.{State}
use storage_bot.Bot.Message.{extract_text, is_bot_mentioned}
use storage_bot.Bot.Dispatch.{
  Event, Bot, BotState, panicked, understood, dispatch, carried_out, handle_message, serve,
}
use storage_bot.Bot.Dispatch.Journal.{Journal, serve-Journal}
use storage_bot.Bot.Dispatch.Overridden.{NoAnswer, global-NoAnswer}

serving : Unit {0}
unfolding either_case needs_fallback skill_alias_table first_skill strip_mention asks_items
    asks_inspection parse_stripped parse_with_all clean_json_response first_word contains_word
    is_name_char kind_of parse_with_llm extract_text is_bot_mentioned Intent.type_text understood
    dispatch carried_out handle_message serve sanitize_for_llm list new_audit_log record_entry
    recent Base.lit Base.trim_space Base.fields Base.has_prefix Base.has_suffix Base.trim_prefix
    Base.trim_suffix Base.text_eq Base.to_lower Base.contains Base.index Regex.match_string
    Regex.find Regex.run Regex.group_of
serving = tt

abbrev kube : Kube (List Text) ℕ
kube = record { connect = λ cfg w. (err [], w); discover = λ k w. (err [], w) }

no_wire : Wire (List Text)
no_wire = record {
  reach = λ w gateway. (ok tt, w);
  on_gateway = λ w gateway cmd. (ok none, w);
  session = λ w hop node cmd. (err [], w);
  partial = λ w. [];
  exec = λ w args. (err [], w);
  list_pods = λ w daemon. (err [], w);
  delete_pod = λ w name. (err [], w);
  denial_text = λ d. [];
  split_host_port = λ h. none;
}

-- A model with one answer, whose text is the action.
abbrev model_with : Result Text → Model (List Text)
model_with answer = record {
  chat = λ system user w. (answer, user ∷ w);
  decode = λ t. ok (record { action = t; cluster = []; node = [] });
  encode_names = λ ns. [];
}

abbrev bot : Option (Model (List Text)) → Bot (List Text) ℕ ℕ
bot model = record {
  env = record {
    kube = kube;
    wire = λ k. no_wire;
    ssh = no_wire;
    analyzer = none;
    skills = [];
    storages = lit "yrfs" ∷ [];
    dry_run = false;
    quote = λ t. t;
    show_names = λ ns. [];
  };
  runner = none;
  query_storage = λ name raw w. (ok raw, w);
  model = model;
  longest_first = λ ns. ns;
  text_field = λ body. some body;
  clock = λ w. 7;
  when = λ t. [];
}

abbrev start : State (List Text) ℕ
start = record {
  manager = record { clusters = []; node_cache = []; kube_cache = [] };
  kube_cache = [];
  llm_disabled = false;
  world = [];
}

abbrev said : Text → Option Text → Event
said text chat = record {
  content = some text;
  chat_type = chat;
  mentions = [];
  user_id = lit "ou_1";
}

abbrev events : List Event
events =
    said (lit "hello") (some (lit "group"))
    ∷ said (lit "help") (some (lit "p2p"))
    ∷ said (lit "help") none
    ∷ []

abbrev fresh : BotState (List Text) ℕ
fresh = record { core = start; audit = some (new_audit_log (pos 10)) }

only_help_logged :
    (serve (bot none) events fresh).1.audit
    ≡ some (
        record_entry
          (new_audit_log (pos 10))
          7
          (lit "ou_1")
          []
          (lit "help")
          (lit "help")
          (lit "ok"))
unfolding serving
only_help_logged = refl

crash_without_chat : (handle_message (bot none) (said (lit "help") none) fresh).0 ≡ panicked
unfolding serving
crash_without_chat = refl

-- The message that the model takes for something else.
storage_alone : (understood (bot none) (lit "yrfs status") start).0.type ≡ action_rest_storage
unfolding serving
storage_alone = refl

storage_overridden :
    (understood (bot (some (model_with (ok (lit "list"))))) (lit "yrfs status") start).0.type
    ≡ action_list_clusters
unfolding serving
storage_overridden = refl

serve-Journal_example :
    (es : List AuditEntry) × Journal (bot none) events fresh (serve (bot none) events fresh).0 es
    × (log : AuditLog) × ((serve (bot none) events fresh).1.audit ≡ some log)
    × (recent log (pos 2) ≡ keep_last (min 2 (new_audit_log (pos 10)).max_size) es)
serve-Journal_example = serve-Journal (bot none) events fresh (pos 10) 2 refl

inspect_all :
    (understood (bot (some (model_with (err (lit "timeout"))))) (lit "inspect all") start).0.type
    ≡ action_inspect
unfolding serving
inspect_all = refl

global-NoAnswer_example :
    NoAnswer (bot (some (model_with (err (lit "timeout"))))) (lit "yrfs status") start
unfolding serving
global-NoAnswer_example =
    global-NoAnswer (bot (some (model_with (err (lit "timeout"))))) (lit "yrfs status") start
      (inl refl)
