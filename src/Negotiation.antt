-- ===== src/Negotiation.antt =====
-- The negotiation of a plan: the engine (agentic_bus/coordinator/negotiation/engine.py) and the handlers
-- of the coordinator that drive it (agentic_bus/coordinator/runtime.py).
pub mod Plans
pub mod Ordering
pub mod Permutation
pub mod Within
pub mod Policies
pub mod Access
pub mod Convergence
pub mod Approval
pub mod Gates
pub mod Soundness
pub mod Reachability
pub mod Rounds
pub mod Decisions
mod Examples
