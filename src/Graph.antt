-- ===== src/Graph.antt =====
-- The execution graph of a plan (agentic_bus/coordinator/graph/builder.py). LangGraph, which compiles and
-- runs the graph, is not part of the repository: what it makes of a chain is a parameter. An executor is
-- the coordinator's callback to an agent, on a world `W` that it may change.
mod Examples
pub mod Names
pub mod States
pub mod Runs
pub mod Missing
use agentic_bus.Common.{
  ℕ, suc, List, [], ◌∷◌, ◌++◌, Option, none, some, Text, codes, Dict, lookup, insert, map, Json,
  str, obj, Fields, end, field, decimal, Bool, if◌then◌else◌, all,
}
use agentic_bus.Inputs.Parsing.{Answer, answered, failed}
use agentic_bus.Sessions.{PlanStep}
use agentic_bus.Supervisor.Types.{GraphState}

-- An executor gets the state with the index and the capability of its step; an exception it raises
-- is known by its text. A result without "step_results" has none.
abbrev pub Executor : Type 0 → Type 0
Executor W = GraphState → (step_index : ℕ) (capability_id : Text) → W → Answer GraphState × W

abbrev pub Node : Type 0 → Type 0
Node W = GraphState → W → GraphState × W

-- The endpoints of an edge.
pub data Place : Type 0 where
  start finish : Place
  node : Text → Place

pub record StateGraph (W : Type 0) : Type 0 where
  pub nodes : List (Text × Node W)
  pub edges : List (Place × Place)

abbrev pub missing_message : Text → Text
missing_message agent_id = codes "No executor registered for agent '" ++ agent_id ++ codes "'"

abbrev pub missing_error : Text → Json
missing_error agent_id = obj (
    field (codes "agent_id") (str agent_id)
      (field (codes "error") (str (missing_message agent_id)) end))

abbrev pub step_error : PlanStep → (why : Text) → Json
step_error step why = obj (
    field (codes "agent_id") (str step.agent_id) (
      field (codes "capability_id") (str step.capability_id) (field (codes "error") (str why) end)))

abbrev pub or_ok : Option Json → Json
or_ok none = str (codes "ok")
or_ok (some v) = v

abbrev pub add_error : Json → GraphState → GraphState
add_error error state = record state { errors = state.errors ++ error ∷ [] }

abbrev pub underscore : ℕ
underscore = 95

abbrev pub node_name : ℕ → PlanStep → Text
node_name i step = codes "step_" ++ decimal i ++ underscore ∷ step.agent_id

-- The edges behind a place: through the names in their order, to the end.
unfoldable pub chain_from : Place → List Text → List (Place × Place)
chain_from place [] = (place, finish) ∷ []
chain_from place (name ∷ names) = (place, node name) ∷ chain_from (node name) names

module _ {W : Type 0} where
  unfoldable pub register_executor : Text → Executor W → Dict (Executor W) → Dict (Executor W)
  register_executor agent_id executor executors = insert agent_id executor executors

  unfoldable pub missing_executor : Text → Executor W
  missing_executor agent_id state step_index capability_id world =
      (answered (add_error (missing_error agent_id) state), world)

  abbrev pub executor_or : Text → Option (Executor W) → Executor W
  executor_or agent_id none = missing_executor agent_id
  executor_or agent_id (some executor) = executor

  -- What the node returns, merged into the state: the results with the agent's own, or the errors
  -- with one more.
  abbrev pub node_result : PlanStep → GraphState → Answer GraphState × W → GraphState × W
  node_result step state (answered updated, world) = (
    record state {
      step_results =
          insert step.agent_id (or_ok (lookup step.agent_id updated.step_results))
            state.step_results;
    },
    world,
  )
  node_result step state (failed why, world) = (add_error (step_error step why) state, world)

  unfoldable pub wrap_executor : PlanStep → Executor W → (step_index : ℕ) → Node W
  wrap_executor step executor step_index state world =
      node_result step state (executor state step_index step.capability_id world)

  unfoldable pub nodes_from : Dict (Executor W) → (i : ℕ) → List PlanStep → List (Text × Node W)
  unfolding wrap_executor missing_executor
  nodes_from executors i [] = []
  nodes_from executors i (step ∷ steps) =
      (
        node_name i step,
        wrap_executor step (executor_or step.agent_id (lookup step.agent_id executors)) i,
      )
      ∷ nodes_from executors (suc i) steps

  abbrev pub names_of : List (Text × Node W) → List Text
  names_of nodes = map (λ n. n.0) nodes

  abbrev pub graph_of : List (Text × Node W) → StateGraph W
  graph_of nodes = record { nodes = nodes; edges = chain_from start (names_of nodes) }

  -- None is the `ValueError` of a plan without steps or of a name that `add_node` refuses; `accepts` is
  -- LangGraph's test of a name.
  unfoldable pub build :
      (accepts : Text → Bool) → Dict (Executor W) → List PlanStep → Option (StateGraph W)
  unfolding nodes_from chain_from
  build accepts executors [] = none
  build accepts executors (step ∷ steps) =
      let nodes = nodes_from executors 0 (step ∷ steps) in
      if all accepts (names_of nodes) then some (graph_of nodes) else none
