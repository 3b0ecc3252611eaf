-- ===== src/Ibac/Engine.antt =====
-- `IBACEngine.evaluate` and `evaluate_with_llm`: the deterministic rules, and the three layers.
pub mod Safety
pub mod Ordering
use agentic_bus.Common.{
  List, [], ◌∷◌, Bool, true, false, not, Option, none, some, if◌then◌else◌, Text, codes, Dict, keep,
  ◌==◌,
}
use agentic_bus.Ibac.Types.{
  allow, IbacRequest, nothing_matched, IbacResult, result, IbacPolicy, IbacRule,
}
use agentic_bus.Ibac.Combination.{combine}
use agentic_bus.Ibac.Invariants.{evaluate_invariants}
use agentic_bus.Ibac.Policies.{or_else, evaluate_policy}
use agentic_bus.Ibac.Rules.{evaluate_rule}
use agentic_bus.Ibac.Semantic.{Model, evaluate_semantic}

-- The engine's state is its list of in-memory policies.
unfoldable pub add_policy : IbacPolicy → List IbacPolicy → List IbacPolicy
add_policy p [] = p ∷ []
add_policy p (q ∷ qs) = q ∷ add_policy p qs

unfoldable pub remove_policy : Text → List IbacPolicy → List IbacPolicy
remove_policy policy_id policies = keep (λ p. not (p.policy_id == policy_id)) policies

unfoldable pub first_policy : List IbacPolicy → IbacRequest → Option IbacResult
first_policy [] request = none
first_policy (p ∷ ps) request = or_else (evaluate_policy p request) (first_policy ps request)

-- What the program reaches and does not implement: the persisted rules, enabled ones by priority
-- (none if they cannot be read), the regular expressions, and the model (none if not configured).
pub record Environment : Type 0 where
  pub rules : Option (List IbacRule)
  pub re_search : Text → Text → Option Bool
  pub llm : Option Model

-- `except Exception: rules = []`
abbrev pub rules_or_none : Option (List IbacRule) → List IbacRule
rules_or_none none = []
rules_or_none (some rules) = rules

module _ (env : Environment) where
  unfoldable pub first_rule : List IbacRule → IbacRequest → Option IbacResult
  first_rule [] request = none
  first_rule (r ∷ rs) request =
      or_else (evaluate_rule env.re_search r request) (first_rule rs request)

  abbrev pub or_allow : IbacRequest → Option IbacResult → IbacResult
  or_allow request none = result allow request.evaluation_point (nothing_matched ∷ [])
  or_allow request (some r) = r

  unfoldable pub evaluate : List IbacPolicy → IbacRequest → IbacResult
  unfolding first_policy first_rule
  evaluate policies request =
      or_allow request
        (or_else (first_policy policies request) (first_rule (rules_or_none env.rules) request))

  abbrev pub layers : List IbacPolicy → IbacRequest → Dict IbacResult
  layers policies request =
      (codes "invariant", evaluate_invariants request)
      ∷ (codes "grounded", evaluate policies request)
      ∷ (codes "semantic", evaluate_semantic env.rules env.llm request)
      ∷ []

  -- There are three layers, so `_combine` has a least one.
  unfoldable pub evaluate_with_llm : List IbacPolicy → IbacRequest → Option IbacResult
  evaluate_with_llm policies request = combine (layers policies request)
