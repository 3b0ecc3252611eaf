-- ===== src/Registry/Examples.antt =====
-- The theorems about the registry at concrete agents, and tests.
use agentic_bus.Common.{[], ◌∷◌, ◌≡◌, refl, none, some, Text, codes, ◌==◌, lookup, insert, remove}
use agentic_bus.Registry.{
  AgentCapability, AgentRegistration, CapabilityRegistry, empty_registry, register, get,
  handle_disconnect,
}
use agentic_bus.Registry.Membership.{
  IsConsistent, registers, disconnects, comes_online, apply_all, apply_all-IsConsistent,
  empty-IsConsistent,
}

abbrev pay : AgentCapability
pay = record {
  capability_id = codes "pay";
  description = codes "Pays an invoice";
  required_scopes = codes "payments:write" ∷ [];
  supported_data_domains = codes "finance" ∷ [];
  operational_constraints = [];
  expected_artifacts = [];
  input_model = none;
  input_schema = [];
  output_model = none;
  output_schema = [];
}

abbrev agent_named : Text → Text → AgentRegistration
agent_named name mode = record {
  agent_id = name;
  version = codes "0.1.0";
  mode = mode;
  capabilities = pay ∷ [];
  semantic_description = [];
  required_scopes = [];
  supported_data_domains = codes "finance" ∷ [];
  operational_constraints = [];
}

abbrev payer : AgentRegistration
payer = agent_named (codes "payer") (codes "persistent")

abbrev helper : AgentRegistration
helper = agent_named (codes "helper") (codes "ephemeral")

abbrev two_agents : CapabilityRegistry
two_agents = register helper (register payer empty_registry)

payer_found : get (codes "payer") two_agents ≡ some payer
unfolding get register lookup insert ◌==◌
payer_found = refl

helper_forgotten : get (codes "helper") (handle_disconnect (codes "helper") two_agents) ≡ none
unfolding get register handle_disconnect lookup insert remove ◌==◌
helper_forgotten = refl

apply_all-IsConsistent_example : IsConsistent (
    apply_all empty_registry (
      registers payer
      ∷ registers helper
      ∷ disconnects (codes "helper")
      ∷ comes_online (codes "helper")
      ∷ []))
apply_all-IsConsistent_example =
    apply_all-IsConsistent empty_registry
      (registers payer
        ∷ registers helper
        ∷ disconnects (codes "helper")
        ∷ comes_online (codes "helper")
        ∷ [])
      empty-IsConsistent
