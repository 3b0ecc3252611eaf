-- ===== src/Registry/Summaries.antt =====
-- `CapabilityRegistry.capability_summaries`: what the semantic adjudicator is shown.
use agentic_bus.Common.{
  List, [], ◌∷◌, true, ◌≡◌, ◌↔◌, inl, inr, refl, Option, Bool-cases, Text, In, In-append_left,
  In-append_right, In-append_cases,
}
use agentic_bus.Registry.{
  AgentCapability, AgentRegistration, CapabilityRegistry, Summary, summary, summaries_of, is_listed,
  summarise, all_agents, capability_summaries,
}

-- `s` summarises a capability of a registered agent that may be shown.
pub record Shows (only : Option (List Text)) (agents : List AgentRegistration) (s : Summary)
    : Type 0 where
  pub agent : AgentRegistration
  pub registered : In agent agents
  pub listed : is_listed only agent ≡ true
  pub capability : AgentCapability
  pub exposed : In capability agent.capabilities
  pub described : s ≡ summary agent capability

In-summaries_of :
    (a : AgentRegistration) (cs : List AgentCapability) (s : Summary)
    → In s (summaries_of a cs)
    → (c : AgentCapability) × In c cs × (s ≡ summary a c)
In-summaries_of a [] s m = absurd m
In-summaries_of a (c ∷ cs) s (inl e) = (c, inl refl, e)
In-summaries_of a (c ∷ cs) s (inr m) = let (d, n, e) = In-summaries_of a cs s m in (d, inr n, e)

In-summaries_of_exposed :
    (a : AgentRegistration) (cs : List AgentCapability) (c : AgentCapability)
    → In c cs
    → In (summary a c) (summaries_of a cs)
In-summaries_of_exposed a [] c m = absurd m
In-summaries_of_exposed a (d ∷ cs) c (inl e) = inl (rw e)
In-summaries_of_exposed a (d ∷ cs) c (inr m) = inr (In-summaries_of_exposed a cs c m)

Shows-cons :
    {only : Option (List Text)} {agents : List AgentRegistration} {s : Summary}
    (a : AgentRegistration)
    → Shows only agents s
    → Shows only (a ∷ agents) s
Shows-cons a h = record {
  agent = h.agent;
  registered = inr h.registered;
  listed = h.listed;
  capability = h.capability;
  exposed = h.exposed;
  described = h.described;
}

summarise_sound :
    (only : Option (List Text)) (agents : List AgentRegistration) (s : Summary)
    → In s (summarise only agents)
    → Shows only agents s
unfolding summarise
summarise_sound only [] s m = absurd m
summarise_sound only (a ∷ agents) s m = elim (Bool-cases (is_listed only a)) [
  | inl shown ↦
      elim (In-append_cases s (summaries_of a a.capabilities) (summarise only agents)
        (rw shown at m)) [
          | inl here ↦
              let (c, n, e) = In-summaries_of a a.capabilities s here in
              record {
                agent = a;
                registered = inl refl;
                listed = shown;
                capability = c;
                exposed = n;
                described = e;
              }
          | inr later ↦ Shows-cons a (summarise_sound only agents s later)
        ]
  | inr hidden ↦ Shows-cons a (summarise_sound only agents s (rw hidden at m))
]

summarise_complete :
    (only : Option (List Text)) (agents : List AgentRegistration) (a : AgentRegistration)
    (c : AgentCapability)
    → In a agents
    → is_listed only a ≡ true
    → In c a.capabilities
    → In (summary a c) (summarise only agents)
unfolding summarise
summarise_complete only [] a c m l n = absurd m
summarise_complete only (b ∷ agents) a c (inl e) l n =
    rw (← e, l)
      (In-append_left (summary a c) (summaries_of a a.capabilities) (summarise only agents)
        (In-summaries_of_exposed a a.capabilities c n))
summarise_complete only (b ∷ agents) a c (inr m) l n = elim (Bool-cases (is_listed only b)) [
  | inl shown ↦ rw shown (
      In-append_right (summary a c) (summaries_of b b.capabilities) (summarise only agents)
        (summarise_complete only agents a c m l n))
  | inr hidden ↦ rw hidden (summarise_complete only agents a c m l n)
]

-- The summaries are exactly those of the capabilities of the registered agents on the list; no
-- other agent's description is in them.
pub capability_summaries_iff :
    (only : Option (List Text)) (r : CapabilityRegistry) (s : Summary)
    → In s (capability_summaries only r) ↔ Shows only (all_agents r) s
unfolding capability_summaries
capability_summaries_iff only r s = (
  summarise_sound only (all_agents r) s,
  λ h.
      rw h.described (
        summarise_complete only (all_agents r) h.agent h.capability h.registered h.listed
          h.exposed),
)
