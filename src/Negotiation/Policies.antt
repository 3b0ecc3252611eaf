-- ===== src/Negotiation/Policies.antt =====
-- `infer_memory_policies` of agentic_bus/coordinator/negotiation/engine.py, and the memory that
-- `_build_and_execute` of agentic_bus/coordinator/runtime.py prepares with the policies.
use agentic_bus.Common.{
  List, [], ◌∷◌, ◌++◌, not, Option, none, some, Text, codes, ◌==◌, keep, map, Dict, Json, str, obj,
  Fields, end, field,
}
use agentic_bus.Sessions.{IntentPayload, PlanStep}
use agentic_bus.Memory.{MemoryAccessPolicy, SessionMemory, set_policy, coordinator_write}

-- A plan's step, by the entries that the inference reads.
pub record StepAccess : Type 0 where
  pub agent_id : Text
  pub capability_id : Option Text
  pub memory_read : Option (List Text)
  pub memory_write : Option (List Text)

-- A step that `compose_offers` made declares no access.
abbrev pub access_of : PlanStep → StepAccess
access_of step = record {
  agent_id = step.agent_id;
  capability_id = some step.capability_id;
  memory_read = none;
  memory_write = none;
}

abbrev pub capability_or_default : Option Text → Text
capability_or_default none = codes "default"
capability_or_default (some capability_id) = capability_id

-- The part of a namespace's pattern before its star: the name and a dot.
abbrev pub stem : Text → Text
stem name = name ++ codes "."

abbrev pub namespace : Text → Text
namespace name = stem name ++ codes "*"

abbrev pub shared_key : Text → Text
shared_key capability_id = codes "shared." ++ capability_id

-- `prior` are the agents of the steps before this one.
abbrev pub inferred_policy : (prior : List Text) → StepAccess → MemoryAccessPolicy
inferred_policy prior step = record {
  agent_id = step.agent_id;
  read_patterns =
      namespace (codes "shared") ∷ map namespace (keep (λ a. not (a == step.agent_id)) prior);
  write_patterns =
      shared_key (capability_or_default step.capability_id) ∷ namespace step.agent_id ∷ [];
}

-- Both declarations together override the inference, one alone does not.
abbrev pub declared_or :
    Option (List Text) → Option (List Text) → MemoryAccessPolicy → MemoryAccessPolicy
declared_or (some reads) (some writes) policy = record policy {
  read_patterns = reads;
  write_patterns = writes;
}
declared_or none writes policy = policy
declared_or (some reads) none policy = policy

unfoldable pub policy_of : (prior : List Text) → StepAccess → MemoryAccessPolicy
policy_of prior step = declared_or step.memory_read step.memory_write (inferred_policy prior step)

unfoldable pub policies_from : (prior : List Text) → List StepAccess → List MemoryAccessPolicy
unfolding policy_of
policies_from prior [] = []
policies_from prior (step ∷ steps) =
    policy_of prior step ∷ policies_from (prior ++ step.agent_id ∷ []) steps

unfoldable pub infer_memory_policies : List StepAccess → List MemoryAccessPolicy
unfolding policies_from
infer_memory_policies steps = policies_from [] steps

unfoldable pub set_policies :
    {V : Type 0} → List MemoryAccessPolicy → SessionMemory V → SessionMemory V
set_policies [] memory = memory
set_policies (policy ∷ policies) memory = set_policies policies (set_policy policy memory)

abbrev pub fields_of : Dict Json → Fields
fields_of [] = end
fields_of ((k, v) ∷ d) = field k v (fields_of d)

abbrev pub seed_text : Option IntentPayload → Text
seed_text none = []
seed_text (some intent) = intent.intent_text

abbrev pub seed_context : Option IntentPayload → Fields
seed_context none = end
seed_context (some intent) = fields_of intent.context

-- The policies, then the intent for the agents to read.
unfoldable pub prepare_memory :
    Option IntentPayload → List PlanStep → SessionMemory Json → SessionMemory Json
unfolding set_policies infer_memory_policies
prepare_memory intent steps memory =
    coordinator_write (codes "shared.intent_context") (obj (seed_context intent)) (
      coordinator_write (codes "shared.intent_text") (str (seed_text intent))
        (set_policies (infer_memory_policies (map access_of steps)) memory))
