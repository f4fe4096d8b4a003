-- ===== src/Bot/Message/Note.antt =====
-- bot/handler.go: the note of a card.
use storage_bot.Base.{◌≡◌, refl, [], Text, none}
use storage_bot.Intent.{
  ActionType, action_help, action_list_clusters, action_health, action_log_analysis,
  action_node_diag, action_skill, action_list_skills, action_rest_storage, action_toggle_llm,
  action_inspect, action_list_inspect,
}
use storage_bot.Inspect.Level.{Level}
use storage_bot.Bot.Message.{Shown, card_of, card_for_action}

card_of-note :
    (k : ActionType) (shown : Shown) (body : Text) (level : Level)
    → (card_of k shown body level).note ≡ []
unfolding card_of
card_of-note action_help shown body level = refl
card_of-note action_list_clusters shown body level = refl
card_of-note action_list_skills shown body level = refl
card_of-note action_list_inspect shown body level = refl
card_of-note action_toggle_llm shown body level = refl
card_of-note action_health shown body level = refl
card_of-note action_log_analysis shown body level = refl
card_of-note action_node_diag shown body level = refl
card_of-note action_skill shown body level = refl
card_of-note action_rest_storage shown body level = refl
card_of-note action_inspect shown body level = refl

pub card_for_action-note :
    (shown : Shown) (body : Text) (level : Level)
    → (card_for_action shown body none level).note ≡ []
unfolding card_for_action
card_for_action-note shown body level = card_of-note shown.kind shown body level
