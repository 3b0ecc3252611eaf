-- ===== src/Registry.antt =====
-- The capability registry (agentic_bus/core/registry/capability_registry.py). The time of a
-- registration, its cost and its latency estimates are left out: the registry never reads them.
-- A Pydantic model is given by the JSON Schema that it derives.
mod Examples
pub mod Membership
pub mod Summaries
use agentic_bus.Common.{
  List, [], ◌∷◌, ◌++◌, Bool, true, false, not, ◌&&◌, Option, none, some, if◌then◌else◌, Text, codes,
  ◌==◌, elem, keep, is_empty, Dict, lookup, insert, remove, values, length, ℕ, Json,
}

pub record AgentCapability : Type 0 where
  pub capability_id : Text
  pub description : Text
  pub required_scopes : List Text
  pub supported_data_domains : List Text
  pub operational_constraints : Dict Json
  pub expected_artifacts : List Text
  pub input_model : Option (Dict Json)
  pub input_schema : Dict Json
  pub output_model : Option (Dict Json)
  pub output_schema : Dict Json

-- A model is given, and no schema was.
abbrev pub derived_schema : Option (Dict Json) → Dict Json → Dict Json
derived_schema none schema = schema
derived_schema (some derived) schema = if is_empty schema then derived else schema

-- `AgentCapability._derive_schemas`
unfoldable pub derive_schemas : AgentCapability → AgentCapability
derive_schemas c = record c {
  input_schema = derived_schema c.input_model c.input_schema;
  output_schema = derived_schema c.output_model c.output_schema;
}

pub record AgentRegistration : Type 0 where
  pub agent_id : Text
  pub version : Text
  pub mode : Text
  pub capabilities : List AgentCapability
  pub semantic_description : Text
  pub required_scopes : List Text
  pub supported_data_domains : List Text
  pub operational_constraints : Dict Json

pub record CapabilityRegistry : Type 0 where
  pub agents : Dict AgentRegistration
  pub online : List Text

abbrev pub empty_registry : CapabilityRegistry
empty_registry = record { agents = []; online = [] }

-- set.add and set.discard
abbrev pub add : Text → List Text → List Text
add x xs = if elem x xs then xs else x ∷ xs

abbrev pub discard : Text → List Text → List Text
discard x xs = keep (λ y. not (x == y)) xs

unfoldable pub register : AgentRegistration → CapabilityRegistry → CapabilityRegistry
register reg r = record r {
  agents = insert reg.agent_id reg r.agents;
  online = add reg.agent_id r.online;
}

unfoldable pub deregister :
    Text → CapabilityRegistry → Option AgentRegistration × CapabilityRegistry
deregister agent_id r = (
  lookup agent_id r.agents,
  record r { agents = remove agent_id r.agents; online = discard agent_id r.online },
)

unfoldable pub mark_offline : Text → CapabilityRegistry → CapabilityRegistry
mark_offline agent_id r = record r { online = discard agent_id r.online }

abbrev pub is_known : Option AgentRegistration → Bool
is_known none = false
is_known (some reg) = true

unfoldable pub mark_online : Text → CapabilityRegistry → CapabilityRegistry
mark_online agent_id r =
    if is_known (lookup agent_id r.agents) then record r { online = add agent_id r.online } else r

abbrev pub is_ephemeral : AgentRegistration → Bool
is_ephemeral reg = reg.mode == codes "ephemeral"

unfoldable pub handle_disconnect : Text → CapabilityRegistry → CapabilityRegistry
unfolding deregister mark_offline
handle_disconnect agent_id r = elim (lookup agent_id r.agents) [
  | none ↦ r
  | some reg ↦ if is_ephemeral reg then (deregister agent_id r).1 else mark_offline agent_id r
]

unfoldable pub is_online : Text → CapabilityRegistry → Bool
is_online agent_id r = elem agent_id r.online

unfoldable pub get : Text → CapabilityRegistry → Option AgentRegistration
get agent_id r = lookup agent_id r.agents

unfoldable pub all_agents : CapabilityRegistry → List AgentRegistration
all_agents r = values r.agents

unfoldable pub find_by_domain : Text → CapabilityRegistry → List AgentRegistration
unfolding all_agents
find_by_domain domain r = keep (λ a. elem domain a.supported_data_domains) (all_agents r)

unfoldable pub count : CapabilityRegistry → ℕ
count r = length r.agents

pub record Summary : Type 0 where
  pub agent_id : Text
  pub agent_description : Text
  pub capability_id : Text
  pub capability_description : Text
  pub required_scopes : List Text
  pub data_domains : List Text
  pub constraints : Dict Json
  pub output_schema : Dict Json

abbrev pub summary : AgentRegistration → AgentCapability → Summary
summary agent cap = record {
  agent_id = agent.agent_id;
  agent_description = agent.semantic_description;
  capability_id = cap.capability_id;
  capability_description = cap.description;
  required_scopes = cap.required_scopes;
  data_domains = cap.supported_data_domains;
  constraints = cap.operational_constraints;
  output_schema = cap.output_schema;
}

abbrev pub summaries_of : AgentRegistration → List AgentCapability → List Summary
summaries_of agent [] = []
summaries_of agent (c ∷ cs) = summary agent c ∷ summaries_of agent cs

-- `only` is none where there is no restriction.
abbrev pub is_listed : Option (List Text) → AgentRegistration → Bool
is_listed none agent = true
is_listed (some only) agent = elem agent.agent_id only

unfoldable pub summarise : Option (List Text) → List AgentRegistration → List Summary
summarise only [] = []
summarise only (a ∷ as') =
    let rest = summarise only as' in
    if is_listed only a then summaries_of a a.capabilities ++ rest else rest

unfoldable pub capability_summaries : Option (List Text) → CapabilityRegistry → List Summary
unfolding all_agents summarise
capability_summaries only r = summarise only (all_agents r)
