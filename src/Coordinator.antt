-- ===== src/Coordinator.antt =====
-- src/sovereign/szl_mesh_coordinator.py: the scheduler of the sovereign mesh.
pub mod Relay
pub mod Bft
pub mod Tile
pub mod Pick
pub mod Layers
pub mod Join
pub mod Plan
pub mod Dispatch
pub mod Pipeline
mod Samples
mod Tests
mod JoinTests
