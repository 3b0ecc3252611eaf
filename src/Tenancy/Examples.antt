-- ===== src/Tenancy/Examples.antt =====
-- The theorems about tenants at a concrete assignment, and tests.
use agentic_bus.Common.{
  [], ◌∷◌, ◌≡◌, inl, inr, refl, none, some, if◌then◌else◌, Text, codes, ◌==◌, In, pos, negsuc,
  insert, values,
}
use agentic_bus.Registry.{
  AgentCapability, AgentRegistration, CapabilityRegistry, empty_registry, register, summary,
  capability_summaries, summarise, all_agents,
}
use agentic_bus.Tenancy.{
  TenantScope, UserRepo, TenantRepo, TenantResolver, scope_for, agent_tenants, visible_agents,
  any_agent_is_assigned, session_visible,
}
use agentic_bus.Tenancy.Isolation.{MaySee, discovery_isolated}

abbrev cap : AgentCapability
cap = record {
  capability_id = codes "pay";
  description = [];
  required_scopes = [];
  supported_data_domains = [];
  operational_constraints = [];
  expected_artifacts = [];
  input_model = none;
  input_schema = [];
  output_model = none;
  output_schema = [];
}

abbrev agent_named : Text → AgentRegistration
agent_named name = record {
  agent_id = name;
  version = [];
  mode = codes "persistent";
  capabilities = cap ∷ [];
  semantic_description = [];
  required_scopes = [];
  supported_data_domains = [];
  operational_constraints = [];
}

abbrev registry : CapabilityRegistry
registry = register (agent_named (codes "lost")) (
    register (agent_named (codes "theirs")) (
      register (agent_named (codes "ours"))
        (register (agent_named (codes "global")) empty_registry)))

-- Two agents are assigned, one assignment cannot be read.
abbrev assignments : TenantRepo
assignments agent_id =
    if agent_id == codes "ours"
    then some (pos 1 ∷ [])
    else if agent_id == codes "theirs"
    then some (pos 2 ∷ [])
    else if agent_id == codes "lost"
    then none
    else some []

abbrev resolver : TenantResolver
resolver = record { user_repo = none; tenant_repo = some assignments }

abbrev our_scope : TenantScope
our_scope = record { tenant_ids = pos 3 ∷ pos 1 ∷ []; subject = codes "alice" }

seen :
    capability_summaries (session_visible resolver registry our_scope) registry
    ≡ summary (agent_named (codes "global")) cap ∷ summary (agent_named (codes "ours")) cap ∷ []
unfolding capability_summaries session_visible any_agent_is_assigned visible_agents agent_tenants
    summarise all_agents register insert values ◌==◌
seen = refl

abbrev directory : UserRepo
directory = record {
  get_by_subject = λ subject. if subject == codes "alice" then some (some (pos 9)) else none;
  get_user_tenant_ids = λ user. some (pos 3 ∷ pos 1 ∷ []);
}

sorted_scope :
    scope_for (record { user_repo = some directory; tenant_repo = none }) (codes "alice")
    ≡ record { tenant_ids = pos 1 ∷ pos 3 ∷ []; subject = codes "alice" }
unfolding scope_for ◌==◌
sorted_scope = refl

ours_shown :
    In
      (summary (agent_named (codes "ours")) cap)
      (capability_summaries (session_visible resolver registry our_scope) registry)
ours_shown = rw seen (inr (inl refl))

discovery_isolated_example : MaySee resolver our_scope (codes "ours")
discovery_isolated_example =
    discovery_isolated resolver registry our_scope (summary (agent_named (codes "ours")) cap)
      ours_shown

unreadable : assignments (codes "lost") ≡ none
unfolding ◌==◌
unreadable = refl

no_mark : ¬ In (negsuc 0) our_scope.tenant_ids
no_mark (inl e) = cc
no_mark (inr (inl e)) = cc
no_mark (inr (inr h)) = h
