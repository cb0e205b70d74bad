-- ===== src/Agent.antt =====
-- src/sovereign/szl_mesh_agent.py: the node side of the sovereign mesh.
pub mod Ledger
pub mod Gate
pub mod Token
pub mod Registry
pub mod Worker
mod Tests
pub mod JoinSamples
mod JoinTests
