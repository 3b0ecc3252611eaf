-- ===== src/Ibac.antt =====
-- Intention-Based Access Control (agentic_bus/core/ibac/): the decisions, the three layers that
-- judge a request, how their outcomes are combined, and the capability that an approval grants.
pub mod Types
pub mod Combination
pub mod Invariants
pub mod Policies
pub mod Rules
pub mod Semantic
pub mod Engine
pub mod Capability
mod Fixtures
mod Examples
