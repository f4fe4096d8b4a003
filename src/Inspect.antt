-- ===== src/Inspect.antt =====
-- inspect: the inspection of the clusters.
pub mod Level
pub mod Bond
pub mod Migrate
pub mod Ceph
pub mod Hardware
pub mod Pcie
pub mod Inspectors
pub mod Runner
pub mod Render
pub mod Store
pub mod Whole
pub mod Samples
mod Tests
