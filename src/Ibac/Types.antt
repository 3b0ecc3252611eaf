-- ===== src/Ibac/Types.antt =====
-- The data of core/ibac/engine.py and core/ibac/manifest.py. A result's time of evaluation is left
-- out: nothing reads it. A reason is the list of the messages that the text joins by " | "; a
-- message is a constructor with the values that its f-string shows.
use agentic_bus.Common.{
  List, [], Bool, true, false, not, ◌&&◌, Option, Text, Dict, Json, ℤ, is_empty, ◌==◌,
}

pub data IbacDecision : Type 0 where
  allow deny allow_with_scope require_human_approval : IbacDecision

-- decision in (ALLOW, ALLOW_WITH_SCOPE)
abbrev pub permits_execution : IbacDecision → Bool
permits_execution allow = true
permits_execution deny = false
permits_execution allow_with_scope = true
permits_execution require_human_approval = false

pub data EvaluationPoint : Type 0 where
  intent_admission offer_eligibility negotiation_acceptance : EvaluationPoint
  execution_authorization artifact_emission : EvaluationPoint

abbrev pub same_point : EvaluationPoint → EvaluationPoint → Bool
same_point intent_admission intent_admission = true
same_point offer_eligibility offer_eligibility = true
same_point negotiation_acceptance negotiation_acceptance = true
same_point execution_authorization execution_authorization = true
same_point artifact_emission artifact_emission = true
same_point _ _ = false

pub record DeclaredIntent : Type 0 where
  pub intent_text : Text
  pub purpose : Text
  pub context : Dict Json
  pub requested_scopes : List Text
  pub proposed_capabilities : List Text
  pub data_domains : List Text
  pub claimed_agent_id : Text

pub record DerivedFacts : Type 0 where
  pub evaluation_point : Text
  pub session_id : Text
  pub authenticated_subject : Text
  pub authenticated_agent_id : Text
  pub identity_verified : Bool
  pub resource_classification : Text
  pub destination_external : Option Bool
  pub tenant_id : Text
  pub attributes : Dict Json

pub record IntentManifest : Type 0 where
  pub declared : DeclaredIntent
  pub derived : DerivedFacts

-- bool(claimed and actual and claimed != actual)
unfoldable pub sender_is_impersonating : IntentManifest → Bool
sender_is_impersonating m =
    not (is_empty m.declared.claimed_agent_id)
    && (not (is_empty m.derived.authenticated_agent_id)
        && not (m.declared.claimed_agent_id == m.derived.authenticated_agent_id))

pub record IbacRequest : Type 0 where
  pub evaluation_point : EvaluationPoint
  pub requester_id : Text
  pub requester_oidc_subject : Text
  pub agent_id : Text
  pub intent_text : Text
  pub intent_context : Dict Json
  pub requested_scopes : List Text
  pub proposed_capabilities : List Text
  pub negotiated_constraints : Dict Json
  pub data_domains : List Text
  pub manifest : Option IntentManifest

pub data Reason : Type 0 where
  impersonation : (claimed authenticated : Text) → Reason
  restricted_material : (classification : Text) → Reason
  no_applicable_rules rules_not_loaded no_llm llm_failed llm_not_object : Reason
  llm_no_decision : Reason
  llm_unknown_decision : Text → Reason
  llm_said : Json → Reason
  policy_scope_denied policy_domain_denied : (value policy_id : Text) → Reason
  policy_scopes_outside : (values : List Text) (policy_id : Text) → Reason
  keyword_blocked pattern_blocked agent_blocked agent_not_allowed : (value rule_id : Text) → Reason
  scope_blocked domain_blocked : (value rule_id : Text) → Reason
  scopes_outside domains_outside : (values : List Text) (rule_id : Text) → Reason
  too_many_agents : (max_agents : ℤ) (rule_id : Text) → Reason
  approval_required : (rule_id : Text) → Reason
  nothing_matched : Reason

pub record IbacResult : Type 0 where
  pub decision : IbacDecision
  pub evaluation_point : EvaluationPoint
  pub decided_by : Text
  pub relies_on_declared_input : Bool
  pub constraints : Dict Json
  pub redactions : List Text
  pub negotiation_requirements : Dict Json
  pub reason : List Reason

abbrev pub is_allowed : IbacResult → Bool
is_allowed r = permits_execution r.decision

-- IBACResult(decision=…, evaluation_point=…, reason=…), with the defaults of the other fields
abbrev pub result : IbacDecision → EvaluationPoint → List Reason → IbacResult
result decision point reason = record {
  decision = decision;
  evaluation_point = point;
  decided_by = [];
  relies_on_declared_input = true;
  constraints = [];
  redactions = [];
  negotiation_requirements = [];
  reason = reason;
}

pub record IbacPolicy : Type 0 where
  pub policy_id : Text
  pub description : Text
  pub evaluation_points : List EvaluationPoint
  pub allowed_scopes : List Text
  pub denied_scopes : List Text
  pub allowed_data_domains : List Text
  pub denied_data_domains : List Text

-- The keys of `conditions_json` that the engine reads; an absent list is empty.
pub record Conditions : Type 0 where
  pub require_human_approval : Bool
  pub intent_keywords : List Text
  pub intent_patterns : List Text
  pub blocked_agents : List Text
  pub allowed_agents : List Text
  pub blocked_scopes : List Text
  pub allowed_scopes : List Text
  pub blocked_domains : List Text
  pub allowed_domains : List Text
  pub max_agents : Option ℤ

pub data RuleAction : Type 0 where
  denies allows : RuleAction

pub record IbacRule : Type 0 where
  pub rule_id : Text
  pub name : Text
  pub description : Text
  pub enabled : Bool
  pub priority : ℤ
  pub action : RuleAction
  pub evaluation_points : List EvaluationPoint
  pub conditions : Conditions
