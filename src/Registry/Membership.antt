-- ===== src/Registry/Membership.antt =====
-- Who is registered and who is online, across the mutations of `CapabilityRegistry`.
use agentic_bus.Common.{
  List, [], ◌∷◌, true, false, ◌≡◌, ◌≢◌, ◌⊎◌, inl, inr, arith, none, some, if◌then◌else◌, Bool-cases,
  Option-cases, Text, ◌==◌, eq_iff, elem, lookup, lookup-insert, lookup-remove,
}
use agentic_bus.Registry.{
  AgentRegistration, CapabilityRegistry, empty_registry, add, discard, register, deregister,
  mark_offline, mark_online, is_ephemeral, handle_disconnect, is_online, get,
}

elem-add : (x a : Text) (xs : List Text) → elem x (add a xs) ≡ true → (x ≡ a) ⊎ (elem x xs ≡ true)
elem-add x a xs h = ground (arith, eq_iff x a)

elem-discard :
    (x a : Text) (xs : List Text) → elem x (discard a xs) ≡ (if a == x then false else elem x xs)
elem-discard x a [] = ground arith
elem-discard x a (y ∷ ys) = ground (arith, elem-discard x a ys, eq_iff a x, eq_iff a y, eq_iff x y)

-- Who is online is registered, and an entry stands under its own agent's id.
pub record IsConsistent (r : CapabilityRegistry) : Type 0 where
  pub online_known : (a : Text) → is_online a r ≡ true → get a r ≢ none
  pub keyed : (a : Text) (reg : AgentRegistration) → get a r ≡ some reg → reg.agent_id ≡ a

register-IsConsistent :
    (reg : AgentRegistration) (r : CapabilityRegistry)
    → IsConsistent r
    → IsConsistent (register reg r)
unfolding register is_online get
register-IsConsistent reg r c = record {
  online_known = λ a on. rw lookup-insert (
      ground (arith, elem-add a reg.agent_id r.online on, eq_iff reg.agent_id a, c.online_known a));
  keyed = λ a found e.
      ground
        (arith, lookup-insert reg.agent_id a reg r.agents, eq_iff reg.agent_id a, c.keyed a found);
}

deregister-IsConsistent :
    (a : Text) (r : CapabilityRegistry) → IsConsistent r → IsConsistent (deregister a r).1
unfolding deregister is_online get
deregister-IsConsistent a r c = record {
  online_known =
      λ b on. rw lookup-remove (ground (arith, elem-discard b a r.online, c.online_known b));
  keyed = λ b found e. ground (arith, lookup-remove a b r.agents, c.keyed b found);
}

mark_offline-IsConsistent :
    (a : Text) (r : CapabilityRegistry) → IsConsistent r → IsConsistent (mark_offline a r)
unfolding mark_offline is_online get
mark_offline-IsConsistent a r c = record {
  online_known = λ b on. c.online_known b (ground (arith, elem-discard b a r.online));
  keyed = c.keyed;
}

mark_online-IsConsistent :
    (a : Text) (r : CapabilityRegistry) → IsConsistent r → IsConsistent (mark_online a r)
unfolding mark_online is_online get
mark_online-IsConsistent a r c = elim (Option-cases (lookup a r.agents)) [
  | inl absent ↦ rw absent c
  | inr (reg, found) ↦ rw found (record {
    online_known = λ b on e. ground (arith, elem-add b a r.online on, c.online_known b);
    keyed = c.keyed;
  })
]

handle_disconnect-IsConsistent :
    (a : Text) (r : CapabilityRegistry) → IsConsistent r → IsConsistent (handle_disconnect a r)
unfolding handle_disconnect
handle_disconnect-IsConsistent a r c = elim (Option-cases (lookup a r.agents)) [
  | inl absent ↦ rw (absent, handle_disconnect) c
  | inr (reg, found) ↦ elim (Bool-cases (is_ephemeral reg)) [
    | inl e ↦ rw (found, handle_disconnect) (rw e (deregister-IsConsistent a r c))
    | inr e ↦ rw (found, handle_disconnect) (rw e (mark_offline-IsConsistent a r c))
  ]
]

-- The mutations of the registry.
pub data Change : Type 0 where
  registers : AgentRegistration → Change
  deregisters goes_offline comes_online disconnects : Text → Change

pub apply : CapabilityRegistry → Change → CapabilityRegistry
apply r (registers reg) = register reg r
apply r (deregisters a) = (deregister a r).1
apply r (goes_offline a) = mark_offline a r
apply r (comes_online a) = mark_online a r
apply r (disconnects a) = handle_disconnect a r

pub apply_all : CapabilityRegistry → List Change → CapabilityRegistry
apply_all r [] = r
apply_all r (c ∷ cs) = apply_all (apply r c) cs

apply-IsConsistent :
    (r : CapabilityRegistry) (c : Change) → IsConsistent r → IsConsistent (apply r c)
unfolding apply
apply-IsConsistent r (registers reg) h = register-IsConsistent reg r h
apply-IsConsistent r (deregisters a) h = deregister-IsConsistent a r h
apply-IsConsistent r (goes_offline a) h = mark_offline-IsConsistent a r h
apply-IsConsistent r (comes_online a) h = mark_online-IsConsistent a r h
apply-IsConsistent r (disconnects a) h = handle_disconnect-IsConsistent a r h

-- After any history of mutations whoever is online is registered, under its own id.
pub apply_all-IsConsistent :
    (r : CapabilityRegistry) (cs : List Change) → IsConsistent r → IsConsistent (apply_all r cs)
unfolding apply_all
apply_all-IsConsistent r [] h = h
apply_all-IsConsistent r (c ∷ cs) h =
    apply_all-IsConsistent (apply r c) cs (apply-IsConsistent r c h)

pub empty-IsConsistent : IsConsistent empty_registry
unfolding is_online get lookup
empty-IsConsistent = record { online_known = λ a on. cc; keyed = λ a reg e. cc }

-- A disconnect leaves the agent offline. It forgets an ephemeral agent and keeps any other one's
-- registration; every other agent's registration and presence stay as they were.
pub handle_disconnect_effect :
    (a b : Text) (r : CapabilityRegistry) (reg : AgentRegistration)
    → get a r ≡ some reg
    → (is_online a (handle_disconnect a r) ≡ false)
      × (get a (handle_disconnect a r) ≡ (if is_ephemeral reg then none else some reg))
      × (a ≢ b
          → (get b (handle_disconnect a r) ≡ get b r)
            × (is_online b (handle_disconnect a r) ≡ is_online b r))
unfolding handle_disconnect is_online get
handle_disconnect_effect a b r reg e = ground (
  arith,
  elem-discard a a r.online,
  elem-discard b a r.online,
  lookup-remove a a r.agents,
  lookup-remove a b r.agents,
  eq_iff a a,
  eq_iff a b,
)
