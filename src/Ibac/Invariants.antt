-- ===== src/Ibac/Invariants.antt =====
-- `IBACEngine.evaluate_invariants`: the layer that reads only what the coordinator established.
use agentic_bus.Common.{
  List, [], ◌∷◌, Bool, false, ◌&&◌, Option, none, some, if◌then◌else◌, Text, codes, elem, upper,
}
use agentic_bus.Ibac.Types.{
  allow, deny, EvaluationPoint, DerivedFacts, IntentManifest, sender_is_impersonating, IbacRequest,
  Reason, impersonation, restricted_material, IbacResult, result,
}

abbrev pub restricted_classifications : List Text
restricted_classifications = codes "SECRET" ∷ codes "RESTRICTED" ∷ codes "PII_RESTRICTED" ∷ []

-- `destination_external` may be unknown, which is no yes.
abbrev pub is_external : Option Bool → Bool
is_external none = false
is_external (some b) = b

abbrev pub leaves_restricted : DerivedFacts → Bool
leaves_restricted d =
    is_external d.destination_external
    && elem (upper d.resource_classification) restricted_classifications

-- A denial by this layer.
abbrev pub invariant_denial : EvaluationPoint → Reason → IbacResult
invariant_denial point reason = record (result deny point (reason ∷ [])) {
  decided_by = codes "invariant";
  relies_on_declared_input = false;
}

judge_manifest : EvaluationPoint → IntentManifest → IbacResult
judge_manifest point m =
    if sender_is_impersonating m
    then invariant_denial point
        (impersonation m.declared.claimed_agent_id m.derived.authenticated_agent_id)
    else if leaves_restricted m.derived
    then invariant_denial point (restricted_material m.derived.resource_classification)
    else record (result allow point []) { relies_on_declared_input = false }

unfoldable pub evaluate_invariants : IbacRequest → IbacResult
unfolding judge_manifest
evaluate_invariants request = elim request.manifest [
  | none ↦ result allow request.evaluation_point []
  | some m ↦ judge_manifest request.evaluation_point m
]
