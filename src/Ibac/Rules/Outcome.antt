-- ===== src/Ibac/Rules/Outcome.antt =====
-- What `IBACEngine._evaluate_rule` answers, over all its sections.
use agentic_bus.Common.{
  Bool, true, false, ◌≡◌, ◌↔◌, ◌⊎◌, inl, inr, sym, ap, ◌∙◌, arith, Option, none, some, Bool-cases,
  Option-cases, Text,
}
use agentic_bus.Ibac.Types.{
  deny, require_human_approval, IbacRequest, IbacResult, is_allowed, denies, IbacRule,
}
use agentic_bus.Ibac.Policies.{applies_at, or_else}
use agentic_bus.Ibac.Policies.Denials.{Denies, Denies-or_else, Denies-map}
use agentic_bus.Ibac.Rules.{
  intent_denial, agent_denial, scope_denial, domain_denial, size_denial, approval_demand,
  evaluate_rule,
}
use agentic_bus.Ibac.Rules.Denials.{
  IntentBlocked, AgentBlocked, ScopesBlocked, DomainsBlocked, TooLarge, intent-Denies, agent-Denies,
  scope-Denies, domain-Denies, size-Denies,
}

gather :
    {D A B C E F : Type 0}
    → (D × A) ⊎ ((D × B) ⊎ ((D × C) ⊎ ((D × E) ⊎ (D × F))))
    → D × (A ⊎ (B ⊎ (C ⊎ (E ⊎ F))))
gather (inl (d, v)) = (d, inl v)
gather (inr (inl (d, v))) = (d, inr (inl v))
gather (inr (inr (inl (d, v)))) = (d, inr (inr (inl v)))
gather (inr (inr (inr (inl (d, v))))) = (d, inr (inr (inr (inl v))))
gather (inr (inr (inr (inr (d, v))))) = (d, inr (inr (inr (inr v))))

spread :
    {D A B C E F : Type 0}
    → D × (A ⊎ (B ⊎ (C ⊎ (E ⊎ F))))
    → (D × A) ⊎ ((D × B) ⊎ ((D × C) ⊎ ((D × E) ⊎ (D × F))))
spread (d, inl v) = inl (d, v)
spread (d, inr (inl v)) = inr (inl (d, v))
spread (d, inr (inr (inl v))) = inr (inr (inl (d, v)))
spread (d, inr (inr (inr (inl v)))) = inr (inr (inr (inl (d, v))))
spread (d, inr (inr (inr (inr v)))) = inr (inr (inr (inr (d, v))))

or_else_assoc :
    (a b c d e f : Option IbacResult)
    → or_else a (or_else b (or_else c (or_else d (or_else e f))))
      ≡ or_else (or_else a (or_else b (or_else c (or_else d e)))) f
or_else_assoc a b c d e f = ground arith

module _ (re_search : Text → Text → Option Bool) (rule : IbacRule) (request : IbacRequest) where
  -- What a rule objects to.
  abbrev pub Broken : Type 0
  Broken =
      IntentBlocked re_search rule request
      ⊎ (AgentBlocked re_search rule request
          ⊎ (ScopesBlocked re_search rule request
              ⊎ (DomainsBlocked re_search rule request ⊎ TooLarge re_search rule request)))

  pub record Violated : Type 0 where
    pub applies : applies_at rule.evaluation_points request.evaluation_point ≡ true
    pub denying : rule.action ≡ denies
    pub broken : Broken

  denial_part : Option IbacResult
  denial_part = or_else (intent_denial re_search rule request) (
      or_else (agent_denial re_search rule request) (
        or_else (scope_denial re_search rule request)
          (or_else (domain_denial re_search rule request) (size_denial re_search rule request))))

  denial_part-Denies : Denies denial_part ((rule.action ≡ denies) × Broken)
  unfolding denial_part
  denial_part-Denies = Denies-map _ gather spread (
      Denies-or_else _ _ (intent-Denies re_search rule request) (
        Denies-or_else _ _ (agent-Denies re_search rule request) (
          Denies-or_else _ _ (scope-Denies re_search rule request) (
            Denies-or_else _ _ (domain-Denies re_search rule request)
              (size-Denies re_search rule request)))))

  evaluate_rule_split :
      applies_at rule.evaluation_points request.evaluation_point ≡ true
      → evaluate_rule re_search rule request
        ≡ or_else denial_part (approval_demand re_search rule request)
  unfolding evaluate_rule denial_part
  evaluate_rule_split here = rw here (
      or_else_assoc (intent_denial re_search rule request) (agent_denial re_search rule request)
        (scope_denial re_search rule request) (domain_denial re_search rule request)
        (size_denial re_search rule request) (approval_demand re_search rule request))

  elsewhere_silent :
      applies_at rule.evaluation_points request.evaluation_point ≡ false
      → evaluate_rule re_search rule request ≡ none
  unfolding evaluate_rule
  elsewhere_silent away = rw away

  approval_asks :
      (r : IbacResult)
      → approval_demand re_search rule request ≡ some r
      → r.decision ≡ require_human_approval
  unfolding approval_demand
  approval_asks r e = ground arith

  from_parts :
      (r : IbacResult)
      → or_else denial_part (approval_demand re_search rule request) ≡ some r
      → ((r.decision ≡ deny) × ((rule.action ≡ denies) × Broken))
        ⊎ (r.decision ≡ require_human_approval)
  from_parts r e = elim (Option-cases denial_part) [
    | inl absent ↦ inr (approval_asks r (rw absent at e))
    | inr (q, found) ↦ inl (denial_part-Denies.sound r (found ∙ (rw found at e)))
  ]

  -- A rule denies a request exactly when it applies at the point of evaluation, is a deny rule,
  -- and the intent, the agent, a scope, a data domain or the size of the composition breaks it.
  pub evaluate_rule-deny_iff :
      ((r : IbacResult) × (evaluate_rule re_search rule request ≡ some r) × (r.decision ≡ deny))
      ↔ Violated
  evaluate_rule-deny_iff = (
    λ (r, e, d). elim (Bool-cases (applies_at rule.evaluation_points request.evaluation_point)) [
      | inl here ↦ elim (from_parts r (sym (evaluate_rule_split here) ∙ e)) [
        | inl (_, (act, v)) ↦ record { applies = here; denying = act; broken = v }
        | inr h ↦ cc
      ]
      | inr away ↦ cc (elsewhere_silent away)
    ],
    λ v.
        let (r, found) = denial_part-Denies.complete (v.denying, v.broken) in
        (
          r,
          evaluate_rule_split v.applies
              ∙ ap (λ o. or_else o (approval_demand re_search rule request)) found,
          (denial_part-Denies.sound r found).0,
        ),
  )

  -- Whatever a rule's action, its answer blocks: a rule never approves.
  pub evaluate_rule_blocks :
      (r : IbacResult) → evaluate_rule re_search rule request ≡ some r → is_allowed r ≡ false
  evaluate_rule_blocks r e =
      elim (Bool-cases (applies_at rule.evaluation_points request.evaluation_point)) [
        | inl here ↦ elim (from_parts r (sym (evaluate_rule_split here) ∙ e)) [
          | inl (d, _) ↦ rw d
          | inr h ↦ rw h
        ]
        | inr away ↦ cc (elsewhere_silent away)
      ]
