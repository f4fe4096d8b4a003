-- ===== src/Skill.antt =====
-- skill: the commands on a cluster that a chat message can ask for.
pub mod Context
pub mod Bonds
pub mod Nic
pub mod Rgw
pub mod Table
pub mod Ceph
pub mod Nodes
mod Tests
