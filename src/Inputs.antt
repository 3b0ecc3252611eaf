-- ===== src/Inputs.antt =====
-- The parameters that the coordinator composes for one step of a plan
-- (agentic_bus/core/step_inputs.py): a model answers with references, and code resolves them against
-- what the step may read.
pub mod Resolution
pub mod Granted
pub mod Independence
pub mod Projection
pub mod Shapes
pub mod Parsing
pub mod Composition
pub mod Outcomes
pub mod Raised
mod Examples
