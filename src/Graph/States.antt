-- ===== src/Graph/States.antt =====
-- What one node of a plan's graph leaves: agentic_bus/coordinator/graph/builder.py.
use agentic_bus.Common.{
  some, Bool-cases, Text, ◌==◌, eq_self, lookup, lookup-insert, In, In-append_left, In-append_right,
  Json, ◌≡◌, ◌⊎◌, inl, inr, refl, ◌∙◌,
}
use agentic_bus.Inputs.Parsing.{Answer, answered, failed}
use agentic_bus.Sessions.{PlanStep}
use agentic_bus.Supervisor.Types.{GraphState}
use agentic_bus.Graph.{step_error, or_ok, node_result}

-- The result of the agent is there, or an error of the step.
abbrev pub IsAccounted : GraphState → PlanStep → Type 0
IsAccounted state step =
    ((v : Json) × (lookup step.agent_id state.step_results ≡ some v))
    ⊎ ((why : Text) × In (step_error step why) state.errors)

-- What a node does not touch: the session, the intent, earlier errors, and whether an agent has a
-- result.
pub record Extends (before after : GraphState) : Type 0 where
  pub same_session : after.session_id ≡ before.session_id
  pub same_intent : after.intent_text ≡ before.intent_text
  pub same_context : after.context ≡ before.context
  pub keeps_errors : (e : Json) → In e before.errors → In e after.errors
  pub keeps_results :
      (agent_id : Text) (v : Json)
      → lookup agent_id before.step_results ≡ some v
      → (w : Json) × (lookup agent_id after.step_results ≡ some w)

pub Extends-trans : (a b c : GraphState) → Extends a b → Extends b c → Extends a c
Extends-trans a b c f g = record {
  same_session = g.same_session ∙ f.same_session;
  same_intent = g.same_intent ∙ f.same_intent;
  same_context = g.same_context ∙ f.same_context;
  keeps_errors = λ e h. g.keeps_errors e (f.keeps_errors e h);
  keeps_results =
      λ agent_id v h. let (w, e) = f.keeps_results agent_id v h in g.keeps_results agent_id w e;
}

pub IsAccounted-Extends :
    (a b : GraphState) (step : PlanStep) → Extends a b → IsAccounted a step → IsAccounted b step
IsAccounted-Extends a b step f (inl (v, e)) = inl (f.keeps_results step.agent_id v e)
IsAccounted-Extends a b step f (inr (why, m)) = inr (why, f.keeps_errors _ m)

module _ {W : Type 0} where
  pub Extends-node :
      (step : PlanStep) (state : GraphState) (r : Answer GraphState × W)
      → Extends state (node_result step state r).0
  Extends-node step state (answered updated, world) = record {
    same_session = refl;
    same_intent = refl;
    same_context = refl;
    keeps_errors = λ e h. h;
    keeps_results = λ agent_id v h. elim (Bool-cases (step.agent_id == agent_id)) [
      | inl t ↦ (or_ok (lookup step.agent_id updated.step_results), rw (lookup-insert, t) refl)
      | inr f ↦ (v, rw (lookup-insert, f) h)
    ];
  }
  Extends-node step state (failed why, world) = record {
    same_session = refl;
    same_intent = refl;
    same_context = refl;
    keeps_errors = λ e h. In-append_left e state.errors _ h;
    keeps_results = λ agent_id v h. (v, h);
  }

  pub IsAccounted-node :
      (step : PlanStep) (state : GraphState) (r : Answer GraphState × W)
      → IsAccounted (node_result step state r).0 step
  IsAccounted-node step state (answered updated, world) = inl (
    or_ok (lookup step.agent_id updated.step_results),
    rw (lookup-insert, eq_self step.agent_id) refl,
  )
  IsAccounted-node step state (failed why, world) =
      inr (why, In-append_right _ state.errors _ (inl refl))
