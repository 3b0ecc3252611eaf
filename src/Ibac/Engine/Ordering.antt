-- ===== src/Ibac/Engine/Ordering.antt =====
-- The order in which the rules of `IBACEngine.evaluate` answer.
use agentic_bus.Common.{List, [], ◌∷◌, ◌++◌, ◌≡◌, inl, inr, refl, none, some, In}
use agentic_bus.Ibac.Types.{IbacRequest, IbacResult, IbacPolicy, IbacRule}
use agentic_bus.Ibac.Policies.{evaluate_policy}
use agentic_bus.Ibac.Rules.{evaluate_rule}
use agentic_bus.Ibac.Engine.{Environment, first_policy, first_rule, evaluate}

module _ (env : Environment) (policies : List IbacPolicy) (request : IbacRequest) where
  first_policy_silent :
      (ps : List IbacPolicy)
      → ((p : IbacPolicy) → In p ps → evaluate_policy p request ≡ none)
      → first_policy ps request ≡ none
  unfolding first_policy
  first_policy_silent [] h = refl
  first_policy_silent (p ∷ ps) h = rw (h p (inl refl)) (first_policy_silent ps (λ q m. h q (inr m)))

  first_rule_answers :
      (before after : List IbacRule) (rule : IbacRule) (answer : IbacResult)
      → ((r : IbacRule) → In r before → evaluate_rule env.re_search r request ≡ none)
      → evaluate_rule env.re_search rule request ≡ some answer
      → first_rule env (before ++ rule ∷ after) request ≡ some answer
  unfolding first_rule
  first_rule_answers [] after rule answer h e = rw e refl
  first_rule_answers (r ∷ before) after rule answer h e =
      rw (h r (inl refl)) (first_rule_answers before after rule answer (λ q m. h q (inr m)) e)

  -- Where no in-memory policy answers, the answer of the deterministic layer is that of the first
  -- persisted rule that has one; the rules behind it have no say, whatever they would answer.
  pub evaluate_first :
      (before after : List IbacRule) (rule : IbacRule) (answer : IbacResult)
      → env.rules ≡ some (before ++ rule ∷ after)
      → ((p : IbacPolicy) → In p policies → evaluate_policy p request ≡ none)
      → ((r : IbacRule) → In r before → evaluate_rule env.re_search r request ≡ none)
      → evaluate_rule env.re_search rule request ≡ some answer
      → evaluate env policies request ≡ answer
  unfolding evaluate
  evaluate_first before after rule answer loaded silent earlier e = rw (
    first_policy_silent policies silent,
    loaded,
    first_rule_answers before after rule answer earlier e,
  )
