-- ===== src/Intent/Fallback/Kinds.antt =====
-- intent/parser.go: what a language model's answer can ask for.
use storage_bot.Base.{◌≡◌, ◌≢◌, subst, List, arith, Text, lit, text_eq, if_intro}
use storage_bot.Base.Result.{Result, err, ok}
use storage_bot.Intent.{
  ActionType, action_rest_storage, action_inspect, action_health, action_log_analysis,
  action_node_diag, action_list_clusters, action_help,
}
use storage_bot.Intent.Parse.{Action}
use storage_bot.Intent.Fallback.{Model, Parsed, kind_of, chosen, answered, parse_with_llm}

-- Neither a REST storage nor an inspection.
abbrev pub Simple : ActionType → Type 0
Simple t = (t ≢ action_rest_storage) × (t ≢ action_inspect)

kind_of-Simple : (action : Text) → Simple (kind_of action)
unfolding kind_of
kind_of-Simple action =
    if_intro Simple (text_eq action (lit "health")) action_health _ (λ e. ((λ h. cc), (λ h. cc)))
      (λ e.
        if_intro Simple (text_eq action (lit "logs")) action_log_analysis _
          (λ e. ((λ h. cc), (λ h. cc)))
          (λ e.
            if_intro Simple (text_eq action (lit "node_diag")) action_node_diag _
              (λ e. ((λ h. cc), (λ h. cc)))
              (λ e.
                if_intro Simple (text_eq action (lit "list")) action_list_clusters action_help
                  (λ e. ((λ h. cc), (λ h. cc))) (λ e. ((λ h. cc), (λ h. cc))))))

chosen-Simple :
    (message resp : Text) (r : Result Parsed) (a : Action)
    → chosen message resp r ≡ ok a
    → Simple a.type
unfolding chosen
chosen-Simple message resp (err e) a h = absurd cc
chosen-Simple message resp (ok p) a h =
    let same : kind_of p.action ≡ a.type = ground arith in
    subst Simple same (kind_of-Simple p.action)

module _ {W : Type 0} (model : Model W) where
  answered-Simple :
      (message : Text) (r : Result Text × W) (a : Action)
      → (answered model message r).0 ≡ ok a
      → Simple a.type
  unfolding answered
  answered-Simple message (err e, w) a h = absurd cc
  answered-Simple message (ok resp, w) a h = chosen-Simple message _ _ a h

  pub parse_with_llm-Simple :
      (message : Text) (clusters : List Text) (w : W) (a : Action)
      → (parse_with_llm model message clusters w).0 ≡ ok a
      → Simple a.type
  unfolding parse_with_llm
  parse_with_llm-Simple message clusters w a h = answered-Simple message _ a h
