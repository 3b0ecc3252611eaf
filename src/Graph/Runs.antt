-- ===== src/Graph/Runs.antt =====
-- What a run of a plan's graph leaves: agentic_bus/coordinator/graph/builder.py.
use agentic_bus.Common.{
  ℕ, suc, List, [], ◌∷◌, some, Text, Dict, lookup, In, ◌≡◌, ◌≢◌, inl, inr, refl, Bool, true, Option,
  ◌<◌, all, length, ap, none, sym, subst, if◌then◌else◌, ◌∙◌,
}
use mathlib.Core.List.{cons≢nil}
use agentic_bus.Sessions.{PlanStep}
use agentic_bus.Supervisor.Types.{GraphState}
use agentic_bus.Graph.Names.{AreDistinct, nodes_from-AreDistinct, plan_names, names_of-nodes_from}
use agentic_bus.Graph.States.{
  IsAccounted, Extends, Extends-trans, IsAccounted-Extends, Extends-node, IsAccounted-node,
}
use agentic_bus.Graph.{
  Executor, Node, StateGraph, executor_or, node_result, wrap_executor, nodes_from, names_of,
  graph_of, build,
}

Extends-refl : (state : GraphState) → Extends state state
Extends-refl state = record {
  same_session = refl;
  same_intent = refl;
  same_context = refl;
  keeps_errors = λ e h. h;
  keeps_results = λ agent_id v h. (v, h);
}

module _ {W : Type 0} where
  -- One node after the other, each on the state that the one before it left.
  abbrev pub run_nodes : List (Text × Node W) → GraphState → W → GraphState × W
  run_nodes [] state world = (state, world)
  run_nodes (n ∷ nodes) state world = run_nodes nodes (n.1 state world).0 (n.1 state world).1

  -- LangGraph's documented behaviour on the graphs that are built here: nodes with distinct names that
  -- the edges chain up from the start to the end, fewer than its recursion limit, are run one after
  -- the other. Of a run beyond the limit nothing is assumed.
  abbrev pub RunsChains :
      (limit : ℕ) → (StateGraph W → GraphState → W → Option GraphState × W) → Type 0
  RunsChains limit invoke =
      (nodes : List (Text × Node W)) (state : GraphState) (world : W)
      → nodes ≢ []
      → AreDistinct (names_of nodes)
      → length (names_of nodes) < limit
      → invoke (graph_of nodes) state world
        ≡ (some (run_nodes nodes state world).0, (run_nodes nodes state world).1)

  Extends-run_nodes :
      (executors : Dict (Executor W)) (i : ℕ) (steps : List PlanStep) (state : GraphState)
      (world : W)
      → Extends state (run_nodes (nodes_from executors i steps) state world).0
  unfolding nodes_from wrap_executor
  Extends-run_nodes executors i [] state world = Extends-refl state
  Extends-run_nodes executors i (step ∷ steps) state world =
      let r =
        executor_or step.agent_id (lookup step.agent_id executors) state i step.capability_id
          world in
      Extends-trans state (node_result step state r).0 _ (Extends-node step state r) (
        Extends-run_nodes executors (suc i) steps (node_result step state r).0
          (node_result step state r).1)

  pub IsAccounted-run_nodes :
      (executors : Dict (Executor W)) (i : ℕ) (steps : List PlanStep) (state : GraphState)
      (world : W) (step : PlanStep)
      → In step steps
      → IsAccounted (run_nodes (nodes_from executors i steps) state world).0 step
  unfolding nodes_from wrap_executor
  IsAccounted-run_nodes executors i [] state world step m = absurd m
  IsAccounted-run_nodes executors i (s ∷ steps) state world step (inl e) =
      let r = executor_or s.agent_id (lookup s.agent_id executors) state i s.capability_id world in
      rw e (
        IsAccounted-Extends (node_result s state r).0 _ s
          (Extends-run_nodes executors (suc i) steps (node_result s state r).0
            (node_result s state r).1)
          (IsAccounted-node s state r))
  IsAccounted-run_nodes executors i (s ∷ steps) state world step (inr m) =
      let r = executor_or s.agent_id (lookup s.agent_id executors) state i s.capability_id world in
      IsAccounted-run_nodes executors (suc i) steps (node_result s state r).0
        (node_result s state r).1 step m

  -- The run of a plan's graph ends, in the state and the world that its nodes leave.
  pub invoke-nodes :
      (limit : ℕ) (invoke : StateGraph W → GraphState → W → Option GraphState × W)
      (executors : Dict (Executor W)) (steps : List PlanStep) (state : GraphState) (world : W)
      → RunsChains limit invoke
      → steps ≢ []
      → length (plan_names 0 steps) < limit
      → let nodes = nodes_from executors 0 steps in
        (invoke (graph_of nodes) state world).0 ≡ some (run_nodes nodes state world).0
  invoke-nodes limit invoke executors steps state world chains h short =
      ap (λ r. r.0)
        (chains (nodes_from executors 0 steps) state world (filled steps h)
          (nodes_from-AreDistinct executors 0 steps)
          (subst (λ ns. length ns < limit) (sym (names_of-nodes_from executors 0 steps)) short))
    where
      filled : (steps : List PlanStep) → steps ≢ [] → nodes_from executors 0 steps ≢ []
      filled [] h = absurd (h refl)
      filled (s ∷ steps) h = unfold nodes_from in cons≢nil

  pub build-some :
      (accepts : Text → Bool) (executors : Dict (Executor W)) (steps : List PlanStep)
      → steps ≢ []
      → all accepts (plan_names 0 steps) ≡ true
      → build accepts executors steps ≡ some (graph_of (nodes_from executors 0 steps))
  unfolding build
  build-some accepts executors [] h accepted = absurd (h refl)
  build-some accepts executors (s ∷ steps) h accepted =
      chosen _ (ap (all accepts) (names_of-nodes_from executors 0 (s ∷ steps)) ∙ accepted)
    where
      chosen : {g : StateGraph W} (b : Bool) → b ≡ true → (if b then some g else none) ≡ some g
      chosen b e = rw e refl

  -- A plan with a step, whose node names LangGraph accepts and that has fewer steps than its recursion
  -- limit, is built into a graph. Its run ends, whatever the executors do, and accounts for every step:
  -- its agent has a result in the final state, or the errors hold one of the step. The session, the
  -- intent, the context and the earlier errors are kept. LangGraph is taken to run such chains node by
  -- node.
  pub build-accounts :
      (limit : ℕ) (accepts : Text → Bool)
      (invoke : StateGraph W → GraphState → W → Option GraphState × W)
      (executors : Dict (Executor W)) (steps : List PlanStep) (state : GraphState) (world : W)
      → RunsChains limit invoke
      → steps ≢ []
      → all accepts (plan_names 0 steps) ≡ true
      → length (plan_names 0 steps) < limit
      → (graph : StateGraph W) × (final : GraphState) × (build accepts executors steps ≡ some graph)
        × ((invoke graph state world).0 ≡ some final)
        × Extends state final
        × ((step : PlanStep) → In step steps → IsAccounted final step)
  build-accounts limit accepts invoke executors steps state world chains h accepted short = (
    graph_of (nodes_from executors 0 steps),
    (run_nodes (nodes_from executors 0 steps) state world).0,
    build-some accepts executors steps h accepted,
    invoke-nodes limit invoke executors steps state world chains h short,
    Extends-run_nodes executors 0 steps state world,
    λ step m. IsAccounted-run_nodes executors 0 steps state world step m,
  )
