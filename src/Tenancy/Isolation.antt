-- ===== src/Tenancy/Isolation.antt =====
-- Which agents `TenantResolver.visible_agents` and discovery show.
use agentic_bus.Common.{
  List, [], ◌∷◌, true, false, not, ◌≡◌, ◌↔◌, ◌⊎◌, inl, inr, refl, sym, ap, subst, none, some,
  Bool-cases, Text, In, any, any-of-In, In-of-any, is_empty, is_empty_iff, map, elem→In, ℤ, negsuc,
  int_eq, int_eq_iff,
}
use agentic_bus.Registry.{
  AgentRegistration, CapabilityRegistry, Summary, all_agents, capability_summaries,
}
use agentic_bus.Registry.Summaries.{capability_summaries_iff}
use agentic_bus.Tenancy.{
  TenantScope, TenantRepo, TenantResolver, agent_tenants, shares, visible_agents,
  any_agent_is_assigned, registered_ids, session_visible,
}

-- The agent is assigned to no tenant, or to one of the requester's.
abbrev pub MaySee : TenantResolver → TenantScope → Text → Type 0
MaySee resolver scope a =
    (agent_tenants resolver a ≡ [])
    ⊎ ((t : ℤ) × In t (agent_tenants resolver a) × In t scope.tenant_ids)

shares_iff :
    (assigned : List ℤ) (scope : TenantScope)
    → (shares assigned scope ≡ true) ↔ ((t : ℤ) × In t assigned × In t scope.tenant_ids)
shares_iff assigned scope = (
  λ h.
      let (t, m, found) = In-of-any (λ t. any (λ u. int_eq t u) scope.tenant_ids) assigned h in
      let (u, n, e) = In-of-any (λ u. int_eq t u) scope.tenant_ids found in
      (t, m, subst (λ x. In x scope.tenant_ids) (sym ((int_eq_iff t u).0 e)) n),
  λ (t, m, n).
      any-of-In (λ t. any (λ u. int_eq t u) scope.tenant_ids) t assigned m
        (any-of-In (λ u. int_eq t u) t scope.tenant_ids n ((int_eq_iff t t).1 refl)),
)

empty_of : (xs : List ℤ) → is_empty xs ≡ true → xs ≡ []
empty_of [] h = refl
empty_of (x ∷ xs) h = cc

-- Of the given agents, exactly those are visible that are global or share a tenant.
pub visible_agents_iff :
    (resolver : TenantResolver) (scope : TenantScope) (agent_ids : List Text) (a : Text)
    → In a (visible_agents resolver scope agent_ids) ↔ (In a agent_ids × MaySee resolver scope a)
unfolding visible_agents
visible_agents_iff resolver scope [] a = (λ m. absurd m, λ (m, _). absurd m)
visible_agents_iff resolver scope (b ∷ bs) a =
    let (to, from) = visible_agents_iff resolver scope bs a in
    let (shared, share) = shares_iff (agent_tenants resolver b) scope in
    elim (Bool-cases (is_empty (agent_tenants resolver b))) [
      | inl global ↦ rw global (
        λ m. elim m [
          | inl e ↦ (inl e, inl (rw e (empty_of (agent_tenants resolver b) global)))
          | inr l ↦ let (n, s) = to l in (inr n, s)
        ],
        λ (m, s). elim m [ inl e ↦ inl e | inr n ↦ inr (from (n, s)) ],
      )
      | inr assigned ↦ elim (Bool-cases (shares (agent_tenants resolver b) scope)) [
        | inl yes_shared ↦
            rw (assigned, yes_shared)
              (
                λ m. elim m [
                  | inl e ↦ (inl e, inr (rw e (shared yes_shared)))
                  | inr l ↦ let (n, s) = to l in (inr n, s)
                ],
                λ (m, s). elim m [ inl e ↦ inl e | inr n ↦ inr (from (n, s)) ],
              )
        | inr apart ↦
            rw (assigned, apart)
              (
                λ m. let (n, s) = to m in (inr n, s),
                λ (m, s). elim m [
                  | inl e ↦ elim (subst (MaySee resolver scope) e s) [
                    | inl nothing ↦
                        absurd ((is_empty_iff (agent_tenants resolver b)).0 assigned nothing)
                    | inr h ↦ cc (share h)
                  ]
                  | inr n ↦ from (n, s)
                ],
              )
      ]
    ]

In-map :
    (agents : List AgentRegistration) (a : AgentRegistration)
    → In a agents
    → In a.agent_id (map (λ (b : AgentRegistration). b.agent_id) agents)
In-map [] a m = m
In-map (b ∷ bs) a (inl e) = inl (ap (λ (c : AgentRegistration). c.agent_id) e)
In-map (b ∷ bs) a (inr m) = inr (In-map bs a m)

unassigned :
    (resolver : TenantResolver) (ids : List Text) (a : Text)
    → any_agent_is_assigned resolver ids ≡ false
    → In a ids
    → agent_tenants resolver a ≡ []
unfolding any_agent_is_assigned
unassigned resolver ids a h m = elim (Bool-cases (is_empty (agent_tenants resolver a))) [
  | inl e ↦ empty_of (agent_tenants resolver a) e
  | inr e ↦ cc (any-of-In (λ b. not (is_empty (agent_tenants resolver b))) a ids m (rw e))
]

-- Every summary that a session's discovery is shown is of a registered agent that the requester
-- may see: one assigned to no tenant, or to one of the requester's tenants.
pub discovery_isolated :
    (resolver : TenantResolver) (r : CapabilityRegistry) (scope : TenantScope) (s : Summary)
    → In s (capability_summaries (session_visible resolver r scope) r)
    → MaySee resolver scope s.agent_id
unfolding session_visible
discovery_isolated resolver r scope s m =
    elim (Bool-cases (any_agent_is_assigned resolver (registered_ids r))) [
      | inl in_use ↦
          let h =
            (capability_summaries_iff (some (visible_agents resolver scope (registered_ids r))) r
                s).0
              (rw in_use at m) in
          rw h.described
            ((visible_agents_iff resolver scope (registered_ids r) h.agent.agent_id).0
              (elem→In h.agent.agent_id _ h.listed)).1
      | inr unused ↦
          let h = (capability_summaries_iff none r s).0 (rw unused at m) in
          rw h.described (
            inl (
              unassigned resolver (registered_ids r) h.agent.agent_id unused
                (In-map (all_agents r) h.agent h.registered)))
    ]

-- An agent whose assignment cannot be read is shown to nobody whose tenants lack the mark -1.
pub unreadable_hidden :
    (resolver : TenantResolver) (repo : TenantRepo) (r : CapabilityRegistry) (scope : TenantScope)
    (s : Summary)
    → resolver.tenant_repo ≡ some repo
    → repo s.agent_id ≡ none
    → ¬ In (negsuc 0) scope.tenant_ids
    → ¬ In s (capability_summaries (session_visible resolver r scope) r)
unfolding agent_tenants
unreadable_hidden resolver repo r scope s given raises unmarked m =
    elim (rw (given, raises) at (discovery_isolated resolver r scope s m)) [
      | inl e ↦ cc
      | inr (t, inl e, n) ↦ unmarked (subst (λ x. In x scope.tenant_ids) e n)
      | inr (t, inr h, n) ↦ h
    ]
