-- ===== src/Storage.antt =====
-- storage: the Yanrong backend and the chat commands on it.
pub mod Path
pub mod Recycle
pub mod Session
pub mod Pages
pub mod Clear
pub mod Skill
mod Tests
