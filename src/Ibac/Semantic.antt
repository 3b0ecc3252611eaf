-- ===== src/Ibac/Semantic.antt =====
-- `IBACEngine._evaluate_semantic`: the layer that asks a language model. What the repository, the
-- model's configuration and the model answer is given; none is a raised exception. A model gets
-- the applicable rules and the request, from which the program fills its prompt.
pub mod Safety
use agentic_bus.Common.{
  List, [], ◌∷◌, Bool, true, false, ◌&&◌, Option, none, some, if◌then◌else◌, keep, Text, codes,
  ◌==◌, lower, strip, Dict, Json, str, null, bool, int, arr, obj, Fields, end, field, get_field,
  truthy,
}
use agentic_bus.Ibac.Types.{
  IbacDecision, allow, deny, allow_with_scope, require_human_approval, permits_execution,
  EvaluationPoint, IbacRequest, Reason, no_applicable_rules, rules_not_loaded, no_llm, llm_failed,
  llm_not_object, llm_no_decision, llm_unknown_decision, llm_said, IbacResult, result, IbacRule,
}
use agentic_bus.Ibac.Policies.{applies_at}

abbrev pub Model : Type 0
Model = List IbacRule → IbacRequest → Option Json

-- `IBACEngine._denied`
abbrev pub denied : IbacRequest → Reason → IbacResult
denied request reason = record (result deny request.evaluation_point (reason ∷ [])) {
  decided_by = codes "fail-closed";
  relies_on_declared_input = false;
}

abbrev pub applicable_rules : List IbacRule → IbacRequest → List IbacRule
applicable_rules rules request =
    keep (λ r. applies_at r.evaluation_points request.evaluation_point) rules

-- IBACDecision(raw.strip().lower()); none is a `ValueError`.
unfoldable pub parse_decision : Text → Option IbacDecision
parse_decision raw =
    let word = lower (strip raw) in
    if word == codes "allow"
    then some allow
    else if word == codes "deny"
    then some deny
    else if word == codes "allow_with_scope"
    then some allow_with_scope
    else if word == codes "require_human_approval"
    then some require_human_approval
    else none

abbrev pub fields_dict : Fields → Dict Json
fields_dict end = []
fields_dict (field k v fs) = (k, v) ∷ fields_dict fs

-- llm_response.get("constraints"), where it is an object
abbrev pub constraints_of : Option Json → Fields
constraints_of (some (obj fs)) = fs
constraints_of _ = end

abbrev pub asks_approval : Option Json → Bool
asks_approval none = false
asks_approval (some v) = truthy v

-- str(llm_response.get("reason", "")), where it is not empty
abbrev pub reason_of : Option Json → List Reason
reason_of none = []
reason_of (some (str [])) = []
reason_of (some v) = llm_said v ∷ []

abbrev pub with_approval : Bool → IbacDecision → IbacDecision
with_approval asked d = if asked && permits_execution d then require_human_approval else d

unfoldable pub decided : IbacRequest → Fields → IbacDecision → IbacResult
decided request response decision =
    let constraints = constraints_of (get_field (codes "constraints") response) in
    record (result
      (with_approval (asks_approval (get_field (codes "require_human_approval") constraints))
        decision)
      request.evaluation_point (reason_of (get_field (codes "reason") response))) {
        decided_by = codes "semantic";
        constraints = fields_dict constraints;
      }

unfoldable pub read_decision : IbacRequest → Fields → Option Json → IbacResult
unfolding decided parse_decision
read_decision request response (some (str raw)) = elim (parse_decision raw) [
  | none ↦ denied request (llm_unknown_decision raw)
  | some decision ↦ decided request response decision
]
read_decision request response _ = denied request llm_no_decision

unfoldable pub read_response : IbacRequest → Option Json → IbacResult
unfolding read_decision
read_response request none = denied request llm_failed
read_response request (some (obj response)) =
    read_decision request response (get_field (codes "decision") response)
read_response request (some v) = denied request llm_not_object

unfoldable pub judge_rules : IbacRequest → Option Model → List IbacRule → IbacResult
unfolding read_response
judge_rules request llm [] = result allow request.evaluation_point (no_applicable_rules ∷ [])
judge_rules request none (r ∷ rs) = denied request no_llm
judge_rules request (some model) (r ∷ rs) = read_response request (model (r ∷ rs) request)

-- The rules are those that `list_all(enabled_only=True)` returns.
unfoldable pub evaluate_semantic : Option (List IbacRule) → Option Model → IbacRequest → IbacResult
unfolding judge_rules
evaluate_semantic none llm request = denied request rules_not_loaded
evaluate_semantic (some rules) llm request =
    judge_rules request llm (applicable_rules rules request)
