-- ===== src/Ibac/Rules/Denials.antt =====
-- When the sections of `_evaluate_rule` deny.
use agentic_bus.Common.{
  List, [], Bool, true, false, not, ◌&&◌, ◌≡◌, ◌≢◌, ◌↔◌, ◌⊎◌, inl, inr, refl, arith, Option, none,
  some, Text, In, elem, is_empty, is_empty_iff, length, ℤ, lower, contains,
}
use agentic_bus.Ibac.Types.{
  IbacRequest, denies, IbacRule, keyword_blocked, pattern_blocked, agent_blocked, agent_not_allowed,
  scope_blocked, domain_blocked, scopes_outside, domains_outside, too_many_agents,
}
use agentic_bus.Ibac.Policies.{refusal}
use agentic_bus.Ibac.Policies.Denials.{
  Denies, silent, Denies-or_else, Denies-if, Denies-map, Denies-first_in, Denies-only_in, Outside,
  elem_iff, clash,
}
use agentic_bus.Ibac.Rules.{
  is_deny, hit, exceeds, has_keyword, has_pattern, intent_denial, agent_denial, scope_denial,
  domain_denial, size_denial, over_limit,
}
use agentic_bus.Ibac.Rules.Sections.{
  Denies-when, Denies-unless, Denies-else, elem-false, Denies-first_that,
}

module _ (re_search : Text → Text → Option Bool) (rule : IbacRule) (request : IbacRequest) where
  -- The intent holds a blocked keyword or pattern, and no approval is asked for instead.
  abbrev pub IntentBlocked : Type 0
  IntentBlocked =
      (rule.conditions.require_human_approval ≡ false)
      × (request.intent_text ≢ [])
      × (((kw : Text) × In kw rule.conditions.intent_keywords
            × (contains (lower kw) (lower request.intent_text) ≡ true))
          ⊎ ((p : Text) × In p rule.conditions.intent_patterns
              × (re_search p request.intent_text ≡ some true)))

  abbrev pub AgentBlocked : Type 0
  AgentBlocked =
      (request.agent_id ≢ [])
      × (In request.agent_id rule.conditions.blocked_agents
          ⊎ ((rule.conditions.allowed_agents ≢ [])
              × ¬ In request.agent_id rule.conditions.allowed_agents))

  abbrev pub ScopesBlocked : Type 0
  ScopesBlocked =
      ((s : Text) × In s request.requested_scopes × In s rule.conditions.blocked_scopes)
      ⊎ Outside request.requested_scopes rule.conditions.allowed_scopes

  abbrev pub DomainsBlocked : Type 0
  DomainsBlocked =
      ((d : Text) × In d request.data_domains × In d rule.conditions.blocked_domains)
      ⊎ Outside request.data_domains rule.conditions.allowed_domains

  abbrev pub TooLarge : Type 0
  TooLarge =
      (limit : ℤ) × (rule.conditions.max_agents ≡ some limit)
      × (request.proposed_capabilities ≢ [])
      × (exceeds (length request.proposed_capabilities) limit ≡ true)

  hit_iff : (o : Option Bool) → (hit o ≡ true) ↔ (o ≡ some true)
  hit_iff o = ground arith

  pub intent-Denies :
      Denies (intent_denial re_search rule request) ((rule.action ≡ denies) × IntentBlocked)
  unfolding intent_denial
  intent-Denies =
      Denies-map _
        (λ (some_text, (armed, found)). (
          ground arith,
          (
            ground arith,
            (is_empty_iff request.intent_text).0 some_text,
            elim found [
              | inl kw ↦ inl kw
              | inr (p, m, t) ↦ inr (p, m, (hit_iff (re_search p request.intent_text)).0 t)
            ],
          ),
        ))
        (λ (d, (auto, some_text, found)). (
          (is_empty_iff request.intent_text).1 some_text,
          (
            ground arith,
            elim found [
              | inl kw ↦ inl kw
              | inr (p, m, t) ↦ inr (p, m, (hit_iff (re_search p request.intent_text)).1 t)
            ],
          ),
        ))
        (Denies-unless (is_empty request.intent_text) _ (
          Denies-when (is_deny rule.action && not rule.conditions.require_human_approval) _ (
            Denies-or_else _ _
              (Denies-first_that (has_keyword re_search rule request)
                (λ kw. refusal request (keyword_blocked kw rule.rule_id)) (λ _. refl)
                rule.conditions.intent_keywords)
              (Denies-first_that (has_pattern re_search rule request)
                (λ p. refusal request (pattern_blocked p rule.rule_id)) (λ _. refl)
                rule.conditions.intent_patterns))))

  pub agent-Denies :
      Denies (agent_denial re_search rule request) ((rule.action ≡ denies) × AgentBlocked)
  unfolding agent_denial
  agent-Denies =
      Denies-map _
        (λ (named, (armed, why)).
          (ground arith, ((is_empty_iff request.agent_id).0 named, read why)))
        (λ (d, (named, why)). ((is_empty_iff request.agent_id).1 named, (ground arith, unread why)))
        (Denies-unless (is_empty request.agent_id) _ (
          Denies-when (is_deny rule.action) _ (
            Denies-else (elem request.agent_id rule.conditions.blocked_agents)
              (not (is_empty rule.conditions.allowed_agents)
                && not (elem request.agent_id rule.conditions.allowed_agents))
              (refusal request (agent_blocked request.agent_id rule.rule_id))
              (refusal request (agent_not_allowed request.agent_id rule.rule_id)) refl refl)))
    where
      blocked : List Text
      blocked = rule.conditions.blocked_agents

      allowed : List Text
      allowed = rule.conditions.allowed_agents

      read :
          (elem request.agent_id blocked ≡ true)
            ⊎ ((not (is_empty allowed) && not (elem request.agent_id allowed)) ≡ true)
          → In request.agent_id blocked ⊎ ((allowed ≢ []) × ¬ In request.agent_id allowed)
      read (inl e) = inl ((elem_iff request.agent_id blocked).0 e)
      read (inr e) = inr (
        (is_empty_iff allowed).0 (ground arith),
        λ m. clash ((elem_iff request.agent_id allowed).1 m) (ground arith),
      )

      unread :
          In request.agent_id blocked ⊎ ((allowed ≢ []) × ¬ In request.agent_id allowed)
          → (elem request.agent_id blocked ≡ true)
            ⊎ ((not (is_empty allowed) && not (elem request.agent_id allowed)) ≡ true)
      unread (inl m) = inl ((elem_iff request.agent_id blocked).1 m)
      unread (inr (some_allowed, absent)) =
          inr
            (rw ((is_empty_iff allowed).1 some_allowed, elem-false request.agent_id allowed absent))

  pub scope-Denies :
      Denies (scope_denial re_search rule request) ((rule.action ≡ denies) × ScopesBlocked)
  unfolding scope_denial
  scope-Denies =
      Denies-map _ (λ (armed, v). (ground arith, v)) (λ (d, v). (ground arith, v))
        (Denies-when (is_deny rule.action) _ (
          Denies-or_else _ _
            (Denies-first_in rule.conditions.blocked_scopes
              (λ s. refusal request (scope_blocked s rule.rule_id)) (λ _. refl)
              request.requested_scopes)
            (Denies-only_in request.requested_scopes rule.conditions.allowed_scopes
              (λ ss. refusal request (scopes_outside ss rule.rule_id)) (λ _. refl))))

  pub domain-Denies :
      Denies (domain_denial re_search rule request) ((rule.action ≡ denies) × DomainsBlocked)
  unfolding domain_denial
  domain-Denies =
      Denies-map _ (λ (armed, v). (ground arith, v)) (λ (d, v). (ground arith, v))
        (Denies-when (is_deny rule.action) _ (
          Denies-or_else _ _
            (Denies-first_in rule.conditions.blocked_domains
              (λ d. refusal request (domain_blocked d rule.rule_id)) (λ _. refl)
              request.data_domains)
            (Denies-only_in request.data_domains rule.conditions.allowed_domains
              (λ ds. refusal request (domains_outside ds rule.rule_id)) (λ _. refl))))

  over_limit-Denies :
      (o : Option ℤ)
      → Denies (over_limit re_search rule request o) (
          (limit : ℤ) × (o ≡ some limit)
          × (request.proposed_capabilities ≢ [])
          × (exceeds (length request.proposed_capabilities) limit ≡ true))
  over_limit-Denies none = silent (λ (limit, e, _, _). cc)
  over_limit-Denies (some limit) =
      Denies-map _
        (λ h. (
          limit,
          refl,
          (is_empty_iff request.proposed_capabilities).0 (ground arith),
          ground arith,
        ))
        (λ (l, e, proposed, over).
          let same : limit ≡ l = cc in
          rw ((is_empty_iff request.proposed_capabilities).1 proposed, same) over)
        (Denies-if
          (not (is_empty request.proposed_capabilities)
            && exceeds (length request.proposed_capabilities) limit)
          (refusal request (too_many_agents limit rule.rule_id)) refl)

  pub size-Denies : Denies (size_denial re_search rule request) ((rule.action ≡ denies) × TooLarge)
  unfolding size_denial
  size-Denies =
      Denies-map _ (λ (armed, v). (ground arith, v)) (λ (d, v). (ground arith, v))
        (Denies-when (is_deny rule.action) _ (over_limit-Denies rule.conditions.max_agents))
