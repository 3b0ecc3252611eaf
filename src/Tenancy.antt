-- ===== src/Tenancy.antt =====
-- Which agents a requester may see (agentic_bus/core/tenancy.py), and what discovery is shown of
-- them (`_visible_agents` of agentic_bus/coordinator/runtime.py). The repositories are given: none
-- is a raised exception, and an absent repository is none of its own.
mod Examples
pub mod Isolation
use agentic_bus.Common.{
  List, [], ◌∷◌, Bool, true, false, not, ◌||◌, Option, none, some, if◌then◌else◌, Text, any,
  is_empty, map, ℤ, pos, negsuc, int_eq, int_leb,
}
use agentic_bus.Registry.{
  AgentRegistration, CapabilityRegistry, Summary, all_agents, capability_summaries,
}

pub record TenantScope : Type 0 where
  pub tenant_ids : List ℤ
  pub subject : Text

abbrev pub is_resolved : TenantScope → Bool
is_resolved s = not (is_empty s.tenant_ids)

pub record UserRepo : Type 0 where
  pub get_by_subject : Text → Option (Option ℤ)
  pub get_user_tenant_ids : ℤ → Option (List ℤ)

abbrev pub TenantRepo : Type 0
TenantRepo = Text → Option (List ℤ)

pub record TenantResolver : Type 0 where
  pub user_repo : Option UserRepo
  pub tenant_repo : Option TenantRepo

insert_id : ℤ → List ℤ → List ℤ
insert_id t [] = t ∷ []
insert_id t (u ∷ us) = let rest = insert_id t us in if int_leb t u then t ∷ u ∷ us else u ∷ rest

sorted_ids : List ℤ → List ℤ
unfolding insert_id
sorted_ids [] = []
sorted_ids (t ∷ ts) = insert_id t (sorted_ids ts)

-- The tenants of an enrolled user; a failure of either look-up resolves to none.
enrolled_tenants : UserRepo → Text → List ℤ
unfolding sorted_ids
enrolled_tenants repo subject = elim (repo.get_by_subject subject) [
  | none ↦ []
  | some found ↦ elim found [
    | none ↦ []
    | some user ↦ elim (repo.get_user_tenant_ids user) [ none ↦ [] | some ids ↦ sorted_ids ids ]
  ]
]

unfoldable pub scope_for : TenantResolver → Text → TenantScope
unfolding enrolled_tenants
scope_for resolver subject =
    if is_empty subject
    then record { tenant_ids = []; subject = subject }
    else elim resolver.user_repo [
      | none ↦ record { tenant_ids = []; subject = subject }
      | some repo ↦ record { tenant_ids = enrolled_tenants repo subject; subject = subject }
    ]

-- An assignment that cannot be read is [-1].
abbrev pub or_unreachable : Option (List ℤ) → List ℤ
or_unreachable none = negsuc 0 ∷ []
or_unreachable (some ids) = ids

abbrev pub assigned_by : Option TenantRepo → Text → List ℤ
assigned_by none agent_id = []
assigned_by (some repo) agent_id = or_unreachable (repo agent_id)

unfoldable pub agent_tenants : TenantResolver → Text → List ℤ
agent_tenants resolver agent_id = assigned_by resolver.tenant_repo agent_id

abbrev pub shares : List ℤ → TenantScope → Bool
shares assigned scope = any (λ t. any (λ u. int_eq t u) scope.tenant_ids) assigned

unfoldable pub visible_agents : TenantResolver → TenantScope → List Text → List Text
visible_agents resolver scope [] = []
visible_agents resolver scope (a ∷ agent_ids) =
    let rest = visible_agents resolver scope agent_ids in
    if is_empty (agent_tenants resolver a)
    then a ∷ rest
    else if shares (agent_tenants resolver a) scope
    then a ∷ rest
    else rest

unfoldable pub any_agent_is_assigned : TenantResolver → List Text → Bool
any_agent_is_assigned resolver agent_ids =
    any (λ a. not (is_empty (agent_tenants resolver a))) agent_ids

abbrev pub registered_ids : CapabilityRegistry → List Text
registered_ids r = map (λ (a : AgentRegistration). a.agent_id) (all_agents r)

-- `AgBusRuntime._visible_agents`: none where no agent is assigned to a tenant.
unfoldable pub session_visible :
    TenantResolver → CapabilityRegistry → TenantScope → Option (List Text)
session_visible resolver r scope =
    if any_agent_is_assigned resolver (registered_ids r)
    then some (visible_agents resolver scope (registered_ids r))
    else none
