-- ===== src/Lib.antt =====
-- The coordinator of Agentic Bus: how an intention is judged, how authority is delegated to agents,
-- what agents may see of each other, and what they share.
--
-- The parts and how they interact. A requester's intention is judged by the engine of Ibac
-- (agentic_bus/core/ibac/), at admission and before execution: three layers, of which the strictest
-- decides. An approval issues a capability. Its scopes are names of the vocabulary of Scopes
-- (agentic_bus/core/scopes.py), bounded by what the requester's credential states. An agent is
-- taken up by Admission (agentic_bus/core/auth/agent_auth.py and the runtime) into the Registry
-- (agentic_bus/core/registry/capability_registry.py) and found there, as far as Tenancy
-- (agentic_bus/core/tenancy.py) lets the requester see it. A step is dispatched behind the guards
-- of Authority (in agentic_bus/coordinator/runtime.py) and carries a grant, which the agent's Guard
-- (agentic_bus/agents/scope_guard.py) enforces and reports on, and a snapshot of the session's
-- Memory (agentic_bus/core/session/memory.py). Between discovery and execution stands the
-- Negotiation (agentic_bus/coordinator/negotiation/engine.py and the handlers of the runtime):
-- offers pass two gates, a plan is composed of the accepted ones and waits for the requester, and
-- its policies are set on the memory. The approved plan becomes an execution Graph
-- (agentic_bus/coordinator/graph/builder.py), which the Supervisor runs. A step's parameters are
-- composed as Inputs (agentic_bus/core/step_inputs.py), with references that are resolved against
-- the memory, and what it returns is checked as Artifacts (agentic_bus/core/artifacts.py).
--
-- Which file models what. Scopes: `normalise`, `covers`, `covered_by_any`, `parent_of`,
-- `is_well_formed`, `narrow`, `intersect`, `ScopePolicy.resolve`, by the same names. Ibac/Types:
-- the data of engine.py and manifest.py. Ibac/Combination: `_combine`. Ibac/Invariants:
-- `evaluate_invariants`. Ibac/Policies: `_evaluate_policy`. Ibac/Rules: `_evaluate_rule`, a
-- definition for each of its sections. Ibac/Semantic: `_evaluate_semantic`. Ibac/Engine: `evaluate`
-- and `evaluate_with_llm`. Ibac/Capability: `Capability`, with `issue`, `is_expired` and `check`.
-- Registry: `CapabilityRegistry`; its state is the dictionary of registrations and the set of
-- agents online. Tenancy: `TenantResolver`, and `_visible_agents` of the runtime as
-- `session_visible`. Authority: `_declared_scopes`, `_ungranted_scopes`, `_grant_for`, the
-- comparison in `_reconcile_scope_usage` as `exceeded_scopes`, and the guards of
-- `_make_ws_executor` as `dispatch_guard`. Guard: `ScopeGrant`, `require_scope`, `scope_is_held`,
-- `ScopedResource`; the context variable is the state `Current`. Sessions: `SessionManager` of
-- agentic_bus/core/session/manager.py. Supervisor: the retry loop of
-- agentic_bus/coordinator/execution/supervisor.py; Supervisor/Execution: `execute`. Validation: a
-- round of agentic_bus/coordinator/validation/engine.py, and `_run_validation_loop` of the runtime.
-- Inputs/Resolution: `resolve_refs`, `_walk_path` and `_project`; Inputs/Shapes: `describe_shape`;
-- Inputs/Parsing: `_parse`; Inputs/Composition: `validate_inputs` and `compose_step_inputs`.
-- Artifacts: `validate_artifacts`. Schemas: what both take of `jsonschema`. Graph:
-- `DynamicGraphBuilder`. Negotiation/Plans: `compose_offers` and `needs_fallback`;
-- Negotiation/Ordering: `order_steps`; Negotiation/Policies: `infer_memory_policies`;
-- Negotiation/Convergence: `_handle_offer`, `_try_converge` and `_propose_plan_to_requester` of the
-- runtime; Negotiation/Approval: its `_handle_accept`, `_handle_reject` and
-- `_handle_renegotiation`. Memory: `SessionMemory`; Memory/Backend: `InMemoryBackend`; Memory/Glob:
-- `_matches_pattern`. Execution: the agent's `_handle_execute` (agentic_bus/agents/base/agent.py)
-- with what a task stages and recalls (agentic_bus/agents/memory.py), the context variables being
-- the state `Ambient`. Admission: `AgentAuthPolicy`, and `_admit`, `_handle_agent_registration`,
-- `register_agent` and `handle_disconnect` of the runtime, on the state `Hub`; Admission/Holdings:
-- its `_resolve_scopes`. The modules below these hold what is proved of them; each Examples module
-- holds tests.
--
-- How the code is rendered. Text is a list of code points; `lower`, `upper`, `strip` and `isalnum`
-- are Python's on ASCII. A dictionary is an association list in insertion order, a set a list. A
-- method that mutates its object returns the new state; a raised exception that the code catches is
-- none, one that it raises is a value of its own. Loops are recursion on the list that they run
-- over, so no fuel is needed; the retry loop recurses on the attempts that are left. Times are
-- natural numbers of microseconds, integers of policies and tenants are unbounded, as Python's are.
-- A floating point number of a JSON value is its text with the integer that it equals, if any.
--
-- What is given. The regular expressions of rules (`re_search`), the persisted rules, the language
-- model (a function of the applicable rules and the request, or of a prompt; none is a failed
-- call), what LangGraph makes of a chain of nodes below its recursion limit, the names that it
-- accepts, the executors and tasks of agents and the models of their inputs, `json` and
-- `jsonschema`, whether Python's `sorted` accepts a list, the comparison of entropies, the runs of
-- the compiled graph, the scoring and synthesis that follow them, the validator of an answer, the
-- verifier of tokens, the texts that Python makes of values, the bindings of scopes, the look-ups
-- of users and tenants, and ISO times with their round trip. One evaluation reads the rules twice
-- in the code and once in the model, so a change between the two reads is not modelled.
--
-- What is not modelled, and why. The transports, the HTTP API, the command line, the persistence
-- and the agents' clients are input and output. The prompts and answers of language models beyond
-- their decision, telemetry and log lines decide nothing. The entropy of offers and the scores of
-- candidates are floating point numbers and are left out, with the discovery that sorts by them.
mod Common
pub mod Scopes
pub mod Ibac
pub mod Registry
pub mod Tenancy
pub mod Authority
pub mod Guard
pub mod Memory
pub mod Sessions
pub mod Supervisor
pub mod Validation
pub mod Schemas
pub mod Inputs
pub mod Artifacts
pub mod Graph
pub mod Negotiation
pub mod Admission
pub mod Execution
