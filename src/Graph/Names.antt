-- ===== src/Graph/Names.antt =====
-- The names of a graph's nodes: agentic_bus/coordinator/graph/builder.py.
use agentic_bus.Common.{
  ℕ, suc, ◌<◌, List, [], ◌∷◌, ◌++◌, Text, codes, Dict, ◌≡◌, ◌≢◌, refl, arith, decimal-injective, ap,
}
use agentic_bus.Sessions.{PlanStep}
use agentic_bus.Graph.{Executor, underscore, node_name, nodes_from, names_of}

abbrev pub NotIn : Text → List Text → Type 0
NotIn name [] = Unit {0}
NotIn name (other ∷ names) = (name ≢ other) × NotIn name names

abbrev pub AreDistinct : List Text → Type 0
AreDistinct [] = Unit {0}
AreDistinct (name ∷ names) = NotIn name names × AreDistinct names

node_name-injective : (i j : ℕ) (s t : PlanStep) → node_name i s ≡ node_name j t → i ≡ j
node_name-injective i j s t e =
    decimal-injective underscore i j s.agent_id t.agent_id refl (tails e)
  where
    tails : {a b : Text} → codes "step_" ++ a ≡ codes "step_" ++ b → a ≡ b
    tails p = cc

-- The names of a plan's steps, from an index on.
abbrev pub plan_names : (i : ℕ) → List PlanStep → List Text
plan_names i [] = []
plan_names i (step ∷ steps) = node_name i step ∷ plan_names (suc i) steps

module _ {W : Type 0} where
  pub names_of-nodes_from :
      (executors : Dict (Executor W)) (i : ℕ) (steps : List PlanStep)
      → names_of (nodes_from executors i steps) ≡ plan_names i steps
  unfolding nodes_from
  names_of-nodes_from executors i [] = refl
  names_of-nodes_from executors i (step ∷ steps) =
      ap (λ ns. node_name i step ∷ ns) (names_of-nodes_from executors (suc i) steps)

  later_names :
      (executors : Dict (Executor W)) (i j : ℕ) (s : PlanStep) (steps : List PlanStep)
      → i < j
      → NotIn (node_name i s) (names_of (nodes_from executors j steps))
  unfolding nodes_from
  later_names executors i j s [] h = tt
  later_names executors i j s (t ∷ steps) h = (
    λ e. absurd (irreflexive (node_name-injective i j s t e)),
    later_names executors i (suc j) s steps (omega (arith, h)),
  )
    where
      irreflexive : i ≡ j → ⊥
      irreflexive e = omega (arith, h, e)

  pub nodes_from-AreDistinct :
      (executors : Dict (Executor W)) (i : ℕ) (steps : List PlanStep)
      → AreDistinct (names_of (nodes_from executors i steps))
  unfolding nodes_from
  nodes_from-AreDistinct executors i [] = tt
  nodes_from-AreDistinct executors i (s ∷ steps) = (
    later_names executors i (suc i) s steps (omega arith),
    nodes_from-AreDistinct executors (suc i) steps,
  )
