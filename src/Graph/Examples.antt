-- ===== src/Graph/Examples.antt =====
-- A plan of two steps, with and without executors.
use agentic_bus.Common.{
  ℕ, zero, suc, List, [], ◌∷◌, some, Text, codes, Dict, lookup, In, str, null, end, ◌==◌, insert,
  ◌≡◌, refl, Bool, true, false, not, ◌||◌, none, Option, all, nat_eq, ltb, length, ap, arith,
  decimal,
}
use mathlib.Core.List.{cons≢nil}
use agentic_bus.Inputs.Parsing.{answered, failed}
use agentic_bus.Sessions.{PlanStep}
use agentic_bus.Supervisor.Types.{GraphState}
use agentic_bus.Graph.{
  Executor, Node, names_of, StateGraph, step_error, wrap_executor, nodes_from, build,
}
use agentic_bus.Graph.States.{IsAccounted, Extends}
use agentic_bus.Graph.Runs.{run_nodes, RunsChains, build-accounts}
use agentic_bus.Graph.Missing.{missing_executors_succeed}

abbrev step_of : Text → Text → PlanStep
step_of agent_id capability_id = record {
  agent_id = agent_id;
  capability_id = capability_id;
  description = [];
  constraints = null;
  input_schema = null;
  inputs = end;
  output_schema = null;
}

abbrev first_step : PlanStep
first_step = step_of (codes "crm") (codes "find")

abbrev second_step : PlanStep
second_step = step_of (codes "mail") (codes "send")

abbrev plan : List PlanStep
plan = first_step ∷ second_step ∷ []

abbrev blank_state : GraphState
blank_state = record {
  session_id = codes "s1";
  intent_text = [];
  context = [];
  step_results = [];
  errors = [];
}

-- It returns a result for "crm", and fails for any later step.
abbrev answer : Executor ℕ
answer state zero capability_id world =
    (answered (record state { step_results = (codes "crm", str (codes "Ada")) ∷ [] }), world)
answer state (suc n) capability_id world = (failed (codes "offline"), world)

abbrev executors : Dict (Executor ℕ)
executors = (codes "crm", answer) ∷ (codes "mail", answer) ∷ []

-- Runs the nodes in the order in which they were added, where there are fewer than 25.
abbrev by_nodes : StateGraph ℕ → GraphState → ℕ → Option GraphState × ℕ
by_nodes graph state world = elim (ltb (length graph.nodes) 25) [
  | true ↦ (some (run_nodes graph.nodes state world).0, (run_nodes graph.nodes state world).1)
  | false ↦ (none, world)
]

names-length : (nodes : List (Text × Node ℕ)) → length (names_of nodes) ≡ length nodes
names-length [] = refl
names-length (n ∷ nodes) = ap suc (names-length nodes)

by_nodes-RunsChains : RunsChains 25 by_nodes
by_nodes-RunsChains nodes state world h d short =
    let within : ltb (length nodes) 25 ≡ true = ground (arith, short, names-length nodes) in
    chosen _ _ _ within
  where
    chosen : {A : Type 0} (b : Bool) (x y : A) → b ≡ true → elim b [ true ↦ x | false ↦ y ] ≡ x
    chosen true x y e = refl
    chosen false x y e = cc

-- No colon and no bar.
abbrev plain_name : Text → Bool
plain_name name = all (λ c. not (nat_eq c 58 || nat_eq c 124)) name

colon_refused : build plain_name executors (step_of (codes "crm:eu") (codes "find") ∷ []) ≡ none
unfolding build nodes_from decimal
colon_refused = refl

half_done : run_nodes (nodes_from executors 0 plan) blank_state 0 ≡ (
  record blank_state {
    step_results = (codes "crm", str (codes "Ada")) ∷ [];
    errors = step_error second_step (codes "offline") ∷ [];
  },
  0,
)
unfolding nodes_from wrap_executor lookup insert ◌==◌
half_done = refl

build-accounts_example :
    (graph : StateGraph ℕ) × (final : GraphState) × (build plain_name executors plan ≡ some graph)
    × ((by_nodes graph blank_state 0).0 ≡ some final)
    × Extends blank_state final
    × ((step : PlanStep) → In step plan → IsAccounted final step)
unfolding decimal
build-accounts_example =
    build-accounts 25 plain_name by_nodes executors plan blank_state 0 by_nodes-RunsChains cons≢nil
      refl (omega arith)

abbrev nobody : Dict (Executor ℕ)
nobody = []

missing_executors_succeed_example :
    (graph : StateGraph ℕ) × (final : GraphState) × (build plain_name nobody plan ≡ some graph)
    × ((by_nodes graph blank_state 0).0 ≡ some final)
    × (final.errors ≡ [])
    × ((step : PlanStep)
        → In step plan
        → lookup step.agent_id final.step_results ≡ some (str (codes "ok")))
unfolding lookup decimal
missing_executors_succeed_example =
    missing_executors_succeed nobody 25 plain_name by_nodes plan blank_state 0 by_nodes-RunsChains
      cons≢nil refl (omega arith) (λ step m. refl) refl refl
