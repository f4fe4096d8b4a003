-- ===== src/Intent/Fallback.antt =====
-- intent/parser.go: ParseWithLLM, which asks a language model what a message wants.
pub mod Kinds
use storage_bot.Base.{
  ◌≡◌, Bool, List, [], ◌∷◌, ◌++◌, String, Text, lit, cat, map, text_eq, if◌then◌else◌,
}
use storage_bot.Base.Result.{Result, err, ok}
use storage_bot.Intent.{
  ActionType, action_help, action_list_clusters, action_health, action_log_analysis,
  action_node_diag,
}
use storage_bot.Intent.Parse.{Action, action_of, strip_mention, clean_json_response}

-- The fields that are read from the answer.
pub record Parsed : Type 0 where
  pub action : Text
  pub cluster : Text
  pub node : Text

-- `chat` is the provider, `decode` and `encode_names` are encoding/json.
pub record Model (W : Type 0) : Type 0 where
  pub chat : Text → Text → W → Result Text × W
  pub decode : Text → Result Parsed
  pub encode_names : List Text → Text

prompt_before : List String
prompt_before =
    "You are an intent parser for a Ceph storage cluster management bot.\n"
    ∷ "Given a user message, extract the following information and return ONLY valid JSON (no markdown, no explanation):\n"
    ∷ "\n" ∷ "{\n" ∷ "  \"action\": \"health|logs|node_diag|list|help\",\n"
    ∷ "  \"cluster\": \"<cluster name or empty string>\",\n"
    ∷ "  \"node\": \"<node name or empty string>\"\n" ∷ "}\n" ∷ "\n" ∷ "Available clusters: " ∷ []

prompt_after : List String
prompt_after =
    "\n" ∷ "\n" ∷ "Rules:\n" ∷ "- \"action\" must be one of: health, logs, node_diag, list, help\n"
    ∷ "- If the user asks about cluster status/health/problems/issues, action is \"health\"\n"
    ∷ "- If the user asks about logs or log analysis, action is \"logs\"\n"
    ∷ "- If the user asks about a specific node (disk, memory, process), action is \"node_diag\"\n"
    ∷ "- If the user wants to see all clusters, action is \"list\"\n"
    ∷ "- If unclear, default to \"help\"\n"
    ∷ "- \"cluster\" should match one of the available cluster names. Use fuzzy matching: \"01\" matches \"cluster-01\", \"集群01\" matches \"cluster-01\"\n"
    ∷ "- \"node\" is the target node name if mentioned, otherwise empty" ∷ []

system_prompt : Text → Text
unfolding prompt_before prompt_after
system_prompt clusters = cat (map lit prompt_before) ++ (clusters ++ cat (map lit prompt_after))

unfoldable pub kind_of : Text → ActionType
kind_of action =
    if text_eq action (lit "health")
    then action_health
    else if text_eq action (lit "logs")
    then action_log_analysis
    else if text_eq action (lit "node_diag")
    then action_node_diag
    else if text_eq action (lit "list")
    then action_list_clusters
    else action_help

chosen : Text → Text → Result Parsed → Result Action
chosen message resp (err e) =
    err (cat (lit "failed to parse LLM response as JSON: " ∷ e ∷ lit ", raw: " ∷ resp ∷ []))
chosen message resp (ok p) = ok (record (action_of (kind_of p.action) (strip_mention message)) {
  cluster_name = p.cluster;
  node_name = p.node;
})

module _ {W : Type 0} (model : Model W) where
  answered : Text → Result Text × W → Result Action × W
  unfolding chosen
  answered message (err e, w) = (err (lit "LLM intent parsing failed: " ++ e), w)
  answered message (ok resp, w) =
      let cleaned = clean_json_response resp in (chosen message cleaned (model.decode cleaned), w)

  unfoldable pub parse_with_llm : Text → List Text → W → Result Action × W
  unfolding answered system_prompt
  parse_with_llm message clusters w =
      answered message (model.chat (system_prompt (model.encode_names clusters)) message w)
