-- ===== src/Graph/Missing.antt =====
-- A plan whose agents have no executor: agentic_bus/coordinator/graph/builder.py.
use agentic_bus.Common.{
  ℕ, suc, List, [], ◌∷◌, none, some, Option-cases, Bool-cases, Text, codes, ◌==◌, Dict, lookup,
  lookup-insert, In, Json, str, ◌≡◌, ◌≢◌, inl, inr, refl, ap, ◌∙◌, Bool, true, Option, ◌<◌, all,
  length,
}
use agentic_bus.Sessions.{PlanStep}
use agentic_bus.Supervisor.Types.{GraphState}
use agentic_bus.Graph.{
  Executor, StateGraph, missing_executor, wrap_executor, nodes_from, graph_of, build,
}
use agentic_bus.Graph.Names.{plan_names}
use agentic_bus.Graph.States.{IsAccounted}
use agentic_bus.Graph.Runs.{run_nodes, RunsChains, IsAccounted-run_nodes, invoke-nodes, build-some}

-- No error, and "ok" under each agent that has a result.
abbrev pub AllOk : GraphState → Type 0
AllOk state =
    (state.errors ≡ [])
    × ((agent_id : Text) (v : Json)
        → lookup agent_id state.step_results ≡ some v
        → v ≡ str (codes "ok"))

abbrev pub Unregistered : {W : Type 0} → Dict (Executor W) → List PlanStep → Type 0
Unregistered executors steps =
    (step : PlanStep) → In step steps → lookup step.agent_id executors ≡ none

module _ {W : Type 0} (executors : Dict (Executor W)) where
  AllOk-missing :
      (step : PlanStep) (i : ℕ) (state : GraphState) (world : W)
      → AllOk state
      → AllOk (wrap_executor step (missing_executor step.agent_id) i state world).0
  unfolding wrap_executor missing_executor
  AllOk-missing step i state world (none_left, all_ok) = (
    none_left,
    λ agent_id v h. elim (Bool-cases (step.agent_id == agent_id)) [
      | inl t ↦ elim (Option-cases (lookup step.agent_id state.step_results)) [
        | inl e ↦ first (rw (lookup-insert, t, e) at h)
        | inr (w, e) ↦ first (rw (lookup-insert, t, e) at h) ∙ all_ok step.agent_id w e
      ]
      | inr f ↦ all_ok agent_id v (rw (lookup-insert, f) at h)
    ],
  )
    where
      first : {a b : Json} → some a ≡ some b → b ≡ a
      first p = cc

  AllOk-run_nodes :
      (i : ℕ) (steps : List PlanStep) (state : GraphState) (world : W)
      → Unregistered executors steps
      → AllOk state
      → AllOk (run_nodes (nodes_from executors i steps) state world).0
  unfolding nodes_from
  AllOk-run_nodes i [] state world u h = h
  AllOk-run_nodes i (s ∷ steps) state world u h =
      rw (u s (inl refl))
        (AllOk-run_nodes (suc i) steps _ _ (λ t m. u t (inr m)) (AllOk-missing s i state world h))

  settled :
      (final : GraphState) (step : PlanStep)
      → AllOk final
      → IsAccounted final step
      → lookup step.agent_id final.step_results ≡ some (str (codes "ok"))
  settled final step (none_left, all_ok) (inl (v, e)) = e ∙ ap some (all_ok step.agent_id v e)
  settled final step (none_left, all_ok) (inr (why, m)) = absurd (rw none_left at m)

  -- A plan none of whose agents has an executor, whose node names LangGraph accepts and that has fewer
  -- steps than its recursion limit, runs to the end without any error, from a state without errors and
  -- results: the node of a missing executor drops the error that the placeholder appends, and records the
  -- result "ok" for its agent. LangGraph is taken to run such chains node by node.
  pub missing_executors_succeed :
      (limit : ℕ) (accepts : Text → Bool)
      (invoke : StateGraph W → GraphState → W → Option GraphState × W) (steps : List PlanStep)
      (state : GraphState) (world : W)
      → RunsChains limit invoke
      → steps ≢ []
      → all accepts (plan_names 0 steps) ≡ true
      → length (plan_names 0 steps) < limit
      → Unregistered executors steps
      → state.errors ≡ []
      → state.step_results ≡ []
      → (graph : StateGraph W) × (final : GraphState) × (build accepts executors steps ≡ some graph)
        × ((invoke graph state world).0 ≡ some final)
        × (final.errors ≡ [])
        × ((step : PlanStep)
            → In step steps
            → lookup step.agent_id final.step_results ≡ some (str (codes "ok")))
  unfolding lookup
  missing_executors_succeed limit accepts invoke steps state world chains h accepted short u e r = (
    graph_of (nodes_from executors 0 steps),
    (run_nodes (nodes_from executors 0 steps) state world).0,
    build-some accepts executors steps h accepted,
    invoke-nodes limit invoke executors steps state world chains h short,
    final.0,
    λ step m.
        settled (run_nodes (nodes_from executors 0 steps) state world).0 step final
          (IsAccounted-run_nodes executors 0 steps state world step m),
  )
    where
      empty : (a : Text) (v : Json) → lookup a [] ≡ some v → ⊥
      empty a v l = cc

      final : AllOk (run_nodes (nodes_from executors 0 steps) state world).0
      final = AllOk-run_nodes 0 steps state world u (e, λ a v l. absurd (empty a v (rw r at l)))
