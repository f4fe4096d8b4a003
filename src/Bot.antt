-- ===== src/Bot.antt =====
-- bot/handler.go: what the bot does for the action that a message asks for.
pub mod State
pub mod Skills
pub mod Diagnose
pub mod Inspection
pub mod Message
pub mod Help
pub mod Items
pub mod Dispatch
mod Tests
