-- ===== src/Ibac/Rules.antt =====
-- `IBACEngine._evaluate_rule`: one persisted rule. None goes on to the next.
-- `re_search pattern text` is Python's re.search with IGNORECASE; none is a `re.error`.
pub mod Sections
pub mod Denials
pub mod Outcome
use agentic_bus.Common.{
  ℕ, List, [], ◌∷◌, Bool, true, false, not, ◌&&◌, ◌||◌, Option, none, some, if◌then◌else◌, ltb,
  Text, codes, elem, any, is_empty, length, lower, contains, ℤ, pos, negsuc, bool,
}
use agentic_bus.Ibac.Types.{
  require_human_approval, IbacRequest, keyword_blocked, pattern_blocked, agent_blocked,
  agent_not_allowed, scope_blocked, domain_blocked, scopes_outside, domains_outside,
  too_many_agents, approval_required, IbacResult, result, Conditions, RuleAction, denies, allows,
  IbacRule,
}
use agentic_bus.Ibac.Policies.{applies_at, or_else, first_in, only_in, refusal}

abbrev pub is_deny : RuleAction → Bool
is_deny denies = true
is_deny allows = false

-- What a section of the function returns only under `if is_deny`.
abbrev pub when : Bool → Option IbacResult → Option IbacResult
when true r = r
when false r = none

-- for x in xs: if test(x): return a denial
abbrev pub first_that : (Text → Bool) → List Text → (Text → IbacResult) → Option IbacResult
first_that test [] denial = none
first_that test (x ∷ xs) denial =
    let rest = first_that test xs denial in if test x then some (denial x) else rest

-- len(xs) > limit
abbrev pub exceeds : ℕ → ℤ → Bool
exceeds n (pos limit) = ltb limit n
exceeds n (negsuc limit) = true

abbrev pub hit : Option Bool → Bool
hit none = false
hit (some b) = b

module _ (re_search : Text → Text → Option Bool) (rule : IbacRule) (request : IbacRequest) where
  abbrev pub has_keyword : Text → Bool
  has_keyword kw = contains (lower kw) (lower request.intent_text)

  abbrev pub has_pattern : Text → Bool
  has_pattern pattern = hit (re_search pattern request.intent_text)

  -- Keyword and pattern matches deny at once only where no approval is asked for instead.
  unfoldable pub intent_denial : Option IbacResult
  intent_denial =
      if is_empty request.intent_text
      then none
      else when (is_deny rule.action && not rule.conditions.require_human_approval) (
          or_else
            (first_that has_keyword rule.conditions.intent_keywords
              (λ kw. refusal request (keyword_blocked kw rule.rule_id)))
            (first_that has_pattern rule.conditions.intent_patterns
              (λ p. refusal request (pattern_blocked p rule.rule_id))))

  unfoldable pub agent_denial : Option IbacResult
  agent_denial =
      if is_empty request.agent_id
      then none
      else when (is_deny rule.action) (
          if elem request.agent_id rule.conditions.blocked_agents
          then some (refusal request (agent_blocked request.agent_id rule.rule_id))
          else if not (is_empty rule.conditions.allowed_agents)
              && not (elem request.agent_id rule.conditions.allowed_agents)
          then some (refusal request (agent_not_allowed request.agent_id rule.rule_id))
          else none)

  unfoldable pub scope_denial : Option IbacResult
  scope_denial = when (is_deny rule.action) (
      or_else
        (first_in request.requested_scopes rule.conditions.blocked_scopes
          (λ s. refusal request (scope_blocked s rule.rule_id)))
        (only_in request.requested_scopes rule.conditions.allowed_scopes
          (λ ss. refusal request (scopes_outside ss rule.rule_id))))

  unfoldable pub domain_denial : Option IbacResult
  domain_denial = when (is_deny rule.action) (
      or_else
        (first_in request.data_domains rule.conditions.blocked_domains
          (λ d. refusal request (domain_blocked d rule.rule_id)))
        (only_in request.data_domains rule.conditions.allowed_domains
          (λ ds. refusal request (domains_outside ds rule.rule_id))))

  abbrev over_limit : Option ℤ → Option IbacResult
  over_limit none = none
  over_limit (some limit) =
      if not (is_empty request.proposed_capabilities)
        && exceeds (length request.proposed_capabilities) limit
      then some (refusal request (too_many_agents limit rule.rule_id))
      else none

  unfoldable pub size_denial : Option IbacResult
  size_denial = when (is_deny rule.action) (over_limit rule.conditions.max_agents)

  -- With no keyword and no pattern the rule flags every intent.
  unfoldable pub flagged : Bool
  flagged =
      is_empty rule.conditions.intent_keywords && is_empty rule.conditions.intent_patterns
      || (any has_keyword rule.conditions.intent_keywords
          || any has_pattern rule.conditions.intent_patterns)

  unfoldable pub approval_demand : Option IbacResult
  unfolding flagged
  approval_demand =
      if rule.conditions.require_human_approval && (not (is_empty request.intent_text) && flagged)
      then some
          (record (result require_human_approval request.evaluation_point
            (approval_required rule.rule_id ∷ [])) {
              decided_by = codes "grounded";
              constraints = (codes "require_human_approval", bool true) ∷ [];
            })
      else none

  unfoldable pub evaluate_rule : Option IbacResult
  unfolding intent_denial agent_denial scope_denial domain_denial size_denial approval_demand
  evaluate_rule =
      if not (applies_at rule.evaluation_points request.evaluation_point)
      then none
      else or_else intent_denial (
          or_else agent_denial
            (or_else scope_denial (or_else domain_denial (or_else size_denial approval_demand))))
