-- ===== src/Ibac/Policies.antt =====
-- `IBACEngine._evaluate_policy`: one in-memory policy. None goes on to the next.
pub mod Denials
use agentic_bus.Common.{
  List, [], ◌∷◌, Bool, true, false, not, ◌&&◌, ◌||◌, Option, none, some, if◌then◌else◌, Text, elem,
  any, keep, is_empty,
}
use agentic_bus.Ibac.Types.{
  deny, EvaluationPoint, same_point, IbacRequest, Reason, policy_scope_denied, policy_domain_denied,
  policy_scopes_outside, IbacResult, result, IbacPolicy,
}

-- An empty list of points stands for all of them.
abbrev pub applies_at : List EvaluationPoint → EvaluationPoint → Bool
applies_at points point = is_empty points || any (λ q. same_point point q) points

abbrev pub or_else : Option IbacResult → Option IbacResult → Option IbacResult
or_else none later = later
or_else (some r) later = some r

-- for x in xs: if x in forbidden: return a denial
abbrev pub first_in : List Text → List Text → (Text → IbacResult) → Option IbacResult
first_in [] forbidden denial = none
first_in (x ∷ xs) forbidden denial =
    let rest = first_in xs forbidden denial in if elem x forbidden then some (denial x) else rest

-- set(xs) - set(allowed)
abbrev pub outside : List Text → List Text → List Text
outside xs allowed = keep (λ x. not (elem x allowed)) xs

-- The allow list binds where it and what is asked for are not empty.
abbrev pub only_in : List Text → List Text → (List Text → IbacResult) → Option IbacResult
only_in xs allowed denial =
    if not (is_empty allowed) && (not (is_empty xs) && not (is_empty (outside xs allowed)))
    then some (denial (outside xs allowed))
    else none

abbrev pub refusal : IbacRequest → Reason → IbacResult
refusal request reason = result deny request.evaluation_point (reason ∷ [])

unfoldable pub evaluate_policy : IbacPolicy → IbacRequest → Option IbacResult
evaluate_policy p request =
    if not (applies_at p.evaluation_points request.evaluation_point)
    then none
    else or_else
        (first_in request.requested_scopes p.denied_scopes
          (λ s. refusal request (policy_scope_denied s p.policy_id)))
        (or_else
          (first_in request.data_domains p.denied_data_domains
            (λ d. refusal request (policy_domain_denied d p.policy_id)))
          (only_in request.requested_scopes p.allowed_scopes
            (λ ss. refusal request (policy_scopes_outside ss p.policy_id))))
