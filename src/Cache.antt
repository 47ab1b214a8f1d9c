-- ===== src/Cache.antt =====
-- src/cache: the response cache. `Entry` and `Store` hold the data, `Methods` the class, and the
-- other modules the proofs.
pub mod Entry
pub mod Store
pub mod Nodes
mod Back
pub mod Spec
pub mod Invariant
mod Effects
mod Entries
pub mod Refinement
pub mod Space
pub mod Sound
pub mod History
pub mod Harmless
pub mod Calm
pub mod Holding
mod Tests
pub mod Methods
