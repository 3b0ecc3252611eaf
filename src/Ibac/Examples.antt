-- ===== src/Ibac/Examples.antt =====
-- The theorems about the engine at concrete requests, and tests.
use agentic_bus.Common.{
  [], ◌∷◌, true, false, ◌≡◌, ◌↔◌, inl, inr, refl, none, some, Text, codes, ◌==◌, lower, upper,
  strip, contains, In, Dict,
}
use agentic_bus.Ibac.Types.{deny, sender_is_impersonating, IbacResult, is_allowed, IbacRule}
use agentic_bus.Ibac.Combination.{combine}
use agentic_bus.Ibac.Combination.Strictest.{combine_strictest, NoLooser}
use agentic_bus.Ibac.Invariants.{evaluate_invariants}
use agentic_bus.Ibac.Rules.{
  evaluate_rule, intent_denial, agent_denial, scope_denial, domain_denial, size_denial,
  approval_demand,
}
use agentic_bus.Ibac.Rules.Outcome.{Violated, evaluate_rule-deny_iff}
use agentic_bus.Ibac.Semantic.{
  evaluate_semantic, judge_rules, read_response, read_decision, parse_decision, decided,
}
use agentic_bus.Ibac.Semantic.Safety.{Cleared, evaluate_semantic-is_allowed_iff}
use agentic_bus.Ibac.Engine.{Environment, first_policy, first_rule, evaluate}
use agentic_bus.Ibac.Engine.Safety.{
  evaluate_with_llm_total, evaluate_with_llm-is_allowed_iff, invariant_boundary,
}
use agentic_bus.Ibac.Fixtures.{
  manifest_from, honest, forged, no_conditions, rule_with, no_deletion, harmless, no_match,
  answering, environment, consenting,
}

permitted : is_allowed ((evaluate_with_llm_total consenting [] honest).0) ≡ true
permitted =
    (evaluate_with_llm-is_allowed_iff consenting [] honest
        (evaluate_with_llm_total consenting [] honest).0
        (evaluate_with_llm_total consenting [] honest).1).1
      (
        unfold evaluate_invariants sender_is_impersonating upper ◌==◌ in refl,
        unfold evaluate first_policy first_rule evaluate_rule intent_denial agent_denial
              scope_denial domain_denial size_denial approval_demand ◌==◌ in
            refl,
        (evaluate_semantic-is_allowed_iff consenting.rules consenting.llm honest).0 (
            unfold evaluate_semantic judge_rules read_response read_decision decided parse_decision
              lower strip ◌==◌ in
            refl),
      )

evaluate_with_llm-is_allowed_iff_example :
    let r = (evaluate_with_llm_total consenting [] honest).0 in
    (is_allowed r ≡ true) ↔ (
      (is_allowed (evaluate_invariants honest) ≡ true)
      × (is_allowed (evaluate consenting [] honest) ≡ true)
      × Cleared consenting.rules consenting.llm honest)
evaluate_with_llm-is_allowed_iff_example =
    evaluate_with_llm-is_allowed_iff consenting [] honest
      (evaluate_with_llm_total consenting [] honest).0
      (evaluate_with_llm_total consenting [] honest).1

forgery : sender_is_impersonating (manifest_from (codes "mallory")) ≡ true
unfolding sender_is_impersonating ◌==◌
forgery = refl

invariant_boundary_example :
    let r = (evaluate_with_llm_total consenting [] forged).0 in
    (r.decision ≡ deny) × (r.relies_on_declared_input ≡ false)
invariant_boundary_example =
    invariant_boundary consenting [] forged (manifest_from (codes "mallory"))
      (evaluate_with_llm_total consenting [] forged).0 refl (inl forgery)
      (evaluate_with_llm_total consenting [] forged).1

abbrev broken_store : Environment
broken_store = environment none (some (answering (codes "allow")))

evaluate_semantic-is_allowed_iff_example :
    (is_allowed (evaluate_semantic (some (harmless ∷ [])) (some (answering (codes "maybe"))) honest)
      ≡ true)
    ↔ Cleared (some (harmless ∷ [])) (some (answering (codes "maybe"))) honest
evaluate_semantic-is_allowed_iff_example =
    evaluate_semantic-is_allowed_iff (some (harmless ∷ [])) (some (answering (codes "maybe")))
      honest

unknown_word :
    is_allowed (evaluate_semantic (some (harmless ∷ [])) (some (answering (codes "maybe"))) honest)
    ≡ false
unfolding evaluate_semantic judge_rules read_response read_decision parse_decision lower strip ◌==◌
unknown_word = refl

evaluate_rule-deny_iff_example :
    ((r : IbacResult) × (evaluate_rule no_match no_deletion honest ≡ some r) × (r.decision ≡ deny))
    ↔ Violated no_match no_deletion honest
evaluate_rule-deny_iff_example = evaluate_rule-deny_iff no_match no_deletion honest

refused : (r : IbacResult) × (evaluate_rule no_match no_deletion honest ≡ some r)
unfolding evaluate_rule intent_denial lower contains
refused = (_, refl)

abbrev verdicts : Dict IbacResult
verdicts =
    (codes "invariant", evaluate_invariants forged)
    ∷ (codes "grounded", evaluate consenting [] forged)
    ∷ []

combined : (r : IbacResult) × (combine verdicts ≡ some r)
unfolding combine
combined = (_, refl)

combine_strictest_example :
    ((l : Text × IbacResult) × In l verdicts × (l.1.decision ≡ combined.0.decision))
    × ((l : Text × IbacResult) → In l verdicts → NoLooser combined.0.decision l.1.decision)
combine_strictest_example = combine_strictest verdicts combined.0 combined.1

abbrev needs_approval : IbacRule
needs_approval = rule_with (record no_conditions { require_human_approval = true })

abbrev demanding : Environment
demanding = environment (some (harmless ∷ needs_approval ∷ no_deletion ∷ [])) none

demand : (r : IbacResult) × (evaluate_rule no_match needs_approval honest ≡ some r)
unfolding evaluate_rule intent_denial agent_denial scope_denial domain_denial size_denial
    approval_demand
demand = (_, refl)

harmless_silent : (r : IbacRule) → In r (harmless ∷ []) → evaluate_rule no_match r honest ≡ none
unfolding evaluate_rule intent_denial agent_denial scope_denial domain_denial size_denial
    approval_demand ◌==◌
harmless_silent r (inl e) = rw e refl
harmless_silent r (inr h) = absurd h
