-- ===== src/Ibac/Engine/Safety.antt =====
-- The verdicts of `IBACEngine.evaluate` and `evaluate_with_llm`, against the policies, the rules and
-- the layers.
use agentic_bus.Common.{
  List, [], ◌∷◌, true, false, ◌≡◌, ◌↔◌, ◌⊎◌, inl, inr, refl, ◌∙◌, arith, Option, none, some,
  Bool-cases, Option-cases, Text, In,
}
use agentic_bus.Ibac.Types.{
  deny, IntentManifest, sender_is_impersonating, IbacRequest, IbacResult, is_allowed, IbacPolicy,
  IbacRule,
}
use agentic_bus.Ibac.Combination.Strictest.{
  combine-is_allowed_iff, combine-deny_first, combine_total,
}
use agentic_bus.Ibac.Invariants.{leaves_restricted, evaluate_invariants}
use agentic_bus.Ibac.Policies.{or_else, evaluate_policy}
use agentic_bus.Ibac.Policies.Denials.{Forbidden, evaluate_policy-Denies, clash}
use agentic_bus.Ibac.Rules.{evaluate_rule}
use agentic_bus.Ibac.Rules.Outcome.{evaluate_rule_blocks}
use agentic_bus.Ibac.Semantic.{evaluate_semantic, denied}
use agentic_bus.Ibac.Semantic.Safety.{Cleared, evaluate_semantic-is_allowed_iff}
use agentic_bus.Ibac.Engine.{
  Environment, rules_or_none, first_policy, first_rule, evaluate, layers, evaluate_with_llm,
}

-- Every request gets a verdict.
pub evaluate_with_llm_total :
    (env : Environment) (policies : List IbacPolicy) (request : IbacRequest)
    → (r : IbacResult) × (evaluate_with_llm env policies request ≡ some r)
unfolding evaluate_with_llm
evaluate_with_llm_total env policies request = combine_total _ _

module _ (env : Environment) (policies : List IbacPolicy) (request : IbacRequest) where
  -- A policy or a rule that has something to say blocks.
  first_policy_iff :
      (ps : List IbacPolicy)
      → (first_policy ps request ≡ none) ↔ ((p : IbacPolicy) → In p ps → ¬ Forbidden p request)
  unfolding first_policy
  first_policy_iff [] = (λ _ p m. absurd m, λ _. refl)
  first_policy_iff (p ∷ ps) = (
    λ h q m f. elim m [
      | inl e ↦
          let (r, found) = (evaluate_policy-Denies p request).complete (rw e at f) in cc (found, h)
      | inr l ↦ (first_policy_iff ps).0 (later (evaluate_policy p request) h) q l f
    ],
    λ clear. elim (Option-cases (evaluate_policy p request)) [
      | inl e ↦ rw e ((first_policy_iff ps).1 (λ q m. clear q (inr m)))
      | inr (r, e) ↦ absurd (clear p (inl refl) ((evaluate_policy-Denies p request).sound r e).1)
    ],
  )
    where
      later :
          (o : Option IbacResult)
          → or_else o (first_policy ps request) ≡ none
          → first_policy ps request ≡ none
      later none e = e
      later (some r) e = cc

  first_rule_iff :
      (rs : List IbacRule)
      → (first_rule env rs request ≡ none)
        ↔ ((r : IbacRule) → In r rs → evaluate_rule env.re_search r request ≡ none)
  unfolding first_rule
  first_rule_iff [] = (λ _ r m. absurd m, λ _. refl)
  first_rule_iff (r ∷ rs) = (
    λ h q m. elim m [
      | inl e ↦ rw e (head_none (evaluate_rule env.re_search r request) h)
      | inr l ↦ (first_rule_iff rs).0 (later (evaluate_rule env.re_search r request) h) q l
    ],
    λ silent. rw (silent r (inl refl)) ((first_rule_iff rs).1 (λ q m. silent q (inr m))),
  )
    where
      head_none : (o : Option IbacResult) → or_else o (first_rule env rs request) ≡ none → o ≡ none
      head_none none e = refl
      head_none (some q) e = cc

      later :
          (o : Option IbacResult)
          → or_else o (first_rule env rs request) ≡ none
          → first_rule env rs request ≡ none
      later none e = e
      later (some q) e = cc

  first_policy_blocks :
      (ps : List IbacPolicy) (r : IbacResult)
      → first_policy ps request ≡ some r
      → is_allowed r ≡ false
  unfolding first_policy
  first_policy_blocks [] r e = cc
  first_policy_blocks (p ∷ ps) r e = elim (Option-cases (evaluate_policy p request)) [
    | inl silent ↦ first_policy_blocks ps r (rw silent at e)
    | inr (q, found) ↦
        let (d, _) = (evaluate_policy-Denies p request).sound q found in
        let same : q ≡ r = cc (rw found at e) in rw (← same, d)
  ]

  first_rule_blocks :
      (rs : List IbacRule) (r : IbacResult)
      → first_rule env rs request ≡ some r
      → is_allowed r ≡ false
  unfolding first_rule
  first_rule_blocks [] r e = cc
  first_rule_blocks (rule ∷ rs) r e =
      elim (Option-cases (evaluate_rule env.re_search rule request)) [
        | inl silent ↦ first_rule_blocks rs r (rw silent at e)
        | inr (q, found) ↦
            evaluate_rule_blocks env.re_search rule request r (found ∙ (rw found at e))
      ]

  -- The deterministic layer allows exactly when no in-memory policy forbids the request and every
  -- persisted rule, of those that could be read, has no say.
  pub evaluate-is_allowed_iff : (is_allowed (evaluate env policies request) ≡ true) ↔ (
      ((p : IbacPolicy) → In p policies → ¬ Forbidden p request)
      × ((r : IbacRule)
          → In r (rules_or_none env.rules)
          → evaluate_rule env.re_search r request ≡ none))
  unfolding evaluate
  evaluate-is_allowed_iff = (
    λ h. elim (Option-cases (first_policy policies request)) [
      | inr (r, e) ↦ absurd (clash (rw e at h) (first_policy_blocks policies r e))
      | inl ps ↦ elim (Option-cases (first_rule env (rules_or_none env.rules) request)) [
        | inr (r, e) ↦
            absurd (clash (rw (ps, e) at h) (first_rule_blocks (rules_or_none env.rules) r e))
        | inl rs ↦
            ((first_policy_iff policies).0 ps, (first_rule_iff (rules_or_none env.rules)).0 rs)
      ]
    ],
    λ (ps, rs).
        rw ((first_policy_iff policies).1 ps, (first_rule_iff (rules_or_none env.rules)).1 rs),
  )

  -- The verdict allows exactly when each of the three layers does: no layer can outvote another.
  pub evaluate_with_llm-is_allowed_iff :
      (r : IbacResult)
      → evaluate_with_llm env policies request ≡ some r
      → (is_allowed r ≡ true) ↔ (
          (is_allowed (evaluate_invariants request) ≡ true)
          × (is_allowed (evaluate env policies request) ≡ true)
          × Cleared env.rules env.llm request)
  unfolding evaluate_with_llm
  evaluate_with_llm-is_allowed_iff r e =
      let (to, from) = combine-is_allowed_iff (layers env policies request) r e in
      let (clear, cleared) = evaluate_semantic-is_allowed_iff env.rules env.llm request in
      (
        λ h. (to h _ (inl refl), to h _ (inr (inl refl)), clear (to h _ (inr (inr (inl refl))))),
        λ (a, b, c). from (λ l m. by_layer a b (cleared c) l m),
      )
    where
      by_layer :
          is_allowed (evaluate_invariants request) ≡ true
          → is_allowed (evaluate env policies request) ≡ true
          → is_allowed (evaluate_semantic env.rules env.llm request) ≡ true
          → (l : Text × IbacResult) → In l (layers env policies request)
          → is_allowed l.1 ≡ true
      by_layer a b c l (inl e) = rw e a
      by_layer a b c l (inr (inl e)) = rw e b
      by_layer a b c l (inr (inr (inl e))) = rw e c
      by_layer a b c l (inr (inr (inr h))) = absurd h

  -- Where the derived facts show impersonation, or restricted material on its way out of the
  -- tenant, the verdict is a denial that rests on nothing the actor wrote, whatever the policies,
  -- the rules and the model say.
  pub invariant_boundary :
      (m : IntentManifest) (r : IbacResult)
      → request.manifest ≡ some m
      → (sender_is_impersonating m ≡ true) ⊎ (leaves_restricted m.derived ≡ true)
      → evaluate_with_llm env policies request ≡ some r
      → (r.decision ≡ deny) × (r.relies_on_declared_input ≡ false)
  unfolding evaluate_with_llm evaluate_invariants
  invariant_boundary m r given why e =
      let judged = evaluate_invariants request in
      let (d, s) : (judged.decision ≡ deny) × (judged.relies_on_declared_input ≡ false) =
        broken why in
      let (denied, boundary) = combine-deny_first _ _ r d e in (denied, boundary ∙ s)
    where
      broken :
          (sender_is_impersonating m ≡ true) ⊎ (leaves_restricted m.derived ≡ true)
          → ((evaluate_invariants request).decision ≡ deny)
            × ((evaluate_invariants request).relies_on_declared_input ≡ false)
      broken why = rw (given, evaluate_invariants) (ground arith)

  -- If the rules cannot be read, the verdict blocks.
  pub unreadable_rules_block :
      (r : IbacResult)
      → env.rules ≡ none
      → evaluate_with_llm env policies request ≡ some r
      → is_allowed r ≡ false
  unreadable_rules_block r unread e = elim (Bool-cases (is_allowed r)) [
    | inl h ↦ cc ((evaluate_with_llm-is_allowed_iff r e).0 h).2.readable
    | inr h ↦ h
  ]
