-- ===== src/Admission/Bindings.antt =====
-- An agent's binding to a subject over any history: agentic_bus/coordinator/runtime.py.
use agentic_bus.Common.{
  List, [], ◌∷◌, Bool, true, false, Option, none, some, Option-cases, Bool-cases, Text, ◌==◌,
  eq_iff, is_empty, lookup, lookup-insert, ◌≡◌, inl, inr, refl, sym, ap, ◌∙◌,
}
use agentic_bus.Registry.{AgentRegistration}
use agentic_bus.Admission.Entitlement.{admission-Passes}
use agentic_bus.Admission.{
  Identity, AuthPolicy, AgentRecord, Records, bound_record, bind_found, bind_subject, admission,
  bind_first, Hub, register_agent, admitted, handle_agent_registration, disconnect_agent, agent_of,
  peer_disconnected, AdmissionRefusal, bound_subject_of,
}

-- The record of the agent is bound to the subject.
abbrev pub IsBound : Text → Text → Records → Type 0
IsBound agent_id subject records =
    (r : AgentRecord) × (lookup agent_id records ≡ some r) × (r.oidc_subject ≡ subject)

-- What happens to the hub: registrations, each with the identity that its connection authenticated as, and
-- disconnects.
pub data HubEvent : Type 0 where
  registers :
      (readable writable : Bool) → Option Identity → AgentRegistration → (peer_id : Text) → HubEvent
  disconnects : (peer_id : Text) → HubEvent

unfoldable pub hub_step : AuthPolicy → HubEvent → Hub → Hub
hub_step policy (registers readable writable identity reg peer_id) hub =
    handle_agent_registration readable writable policy identity reg peer_id hub
hub_step policy (disconnects peer_id) hub = peer_disconnected peer_id hub

unfoldable pub hub_run : AuthPolicy → List HubEvent → Hub → Hub
hub_run policy [] hub = hub
hub_run policy (e ∷ events) hub = hub_run policy events (hub_step policy e hub)

bind_found-IsBound :
    (a s b t : Text) (records : Records)
    → is_empty s ≡ false
    → IsBound a s records
    → IsBound a s (bind_found b t records (lookup b records))
bind_found-IsBound a s b t records filled (r, e, d) = elim (Option-cases (lookup b records)) [
  | inl absent ↦ rw absent (r, e, d)
  | inr (q, found) ↦ elim (Bool-cases (b == a)) [
    | inr other ↦ rw found (r, rw (lookup-insert, other) e, d)
    | inl same ↦
        let names : b ≡ a = (eq_iff b a).0 same in
        let records_eq : q ≡ r = first (sym found ∙ ap (λ k. lookup k records) names ∙ e) in
        let kept : bound_record t q ≡ r = rw (records_eq, d, filled) refl in
        rw found (r, rw (lookup-insert, same, kept) refl, d)
  ]
]
  where
    first : {x y : AgentRecord} → some x ≡ some y → x ≡ y
    first p = cc

bind_subject-IsBound :
    (a s b t : Text) (records : Records)
    → is_empty s ≡ false
    → IsBound a s records
    → IsBound a s (bind_subject b t records)
unfolding bind_subject
bind_subject-IsBound a s b t records filled h = elim (Bool-cases (is_empty t)) [
  | inl blank ↦ rw blank h
  | inr given ↦ rw given (bind_found-IsBound a s b t records filled h)
]

bind_first-IsBound :
    (a s b : Text) (writable : Bool) (identity : Option Identity) (records : Records)
    → is_empty s ≡ false
    → IsBound a s records
    → IsBound a s (bind_first writable identity b records)
bind_first-IsBound a s b writable none records filled h = h
bind_first-IsBound a s b true (some identity) records filled h =
    bind_subject-IsBound a s b identity.subject records filled h
bind_first-IsBound a s b false (some identity) records filled h = h

admitted-IsBound :
    (a s : Text) (writable : Bool) (identity : Option Identity) (reg : AgentRegistration)
    (peer_id : Text) (hub : Hub) (verdict : Option AdmissionRefusal)
    → is_empty s ≡ false
    → IsBound a s hub.records
    → IsBound a s (admitted writable identity reg peer_id hub verdict).records
unfolding register_agent
admitted-IsBound a s writable identity reg peer_id hub none filled h =
    bind_first-IsBound a s reg.agent_id writable identity hub.records filled h
admitted-IsBound a s writable identity reg peer_id hub (some reason) filled h = h

disconnect_agent-records :
    (o : Option Text) (hub : Hub) → (disconnect_agent o hub).records ≡ hub.records
disconnect_agent-records none hub = refl
disconnect_agent-records (some a) hub = refl

hub_step-IsBound :
    (a s : Text) (policy : AuthPolicy) (e : HubEvent) (hub : Hub)
    → is_empty s ≡ false
    → IsBound a s hub.records
    → IsBound a s (hub_step policy e hub).records
unfolding hub_step handle_agent_registration peer_disconnected
hub_step-IsBound a s policy (registers readable writable identity reg peer_id) hub filled h =
    elim (Bool-cases (is_empty reg.agent_id)) [
      | inl unnamed ↦ rw unnamed h
      | inr named ↦ rw named (admitted-IsBound a s writable identity reg peer_id hub _ filled h)
    ]
hub_step-IsBound a s policy (disconnects peer_id) hub filled h =
    rw (disconnect_agent-records (agent_of peer_id hub.peers) hub) h

hub_run-IsBound :
    (a s : Text) (policy : AuthPolicy) (events : List HubEvent) (hub : Hub)
    → is_empty s ≡ false
    → IsBound a s hub.records
    → IsBound a s (hub_run policy events hub).records
unfolding hub_run
hub_run-IsBound a s policy [] hub filled h = h
hub_run-IsBound a s policy (e ∷ events) hub filled h =
    hub_run-IsBound a s policy events (hub_step policy e hub) filled
      (hub_step-IsBound a s policy e hub filled h)

-- Once an agent's record is bound to a subject, whatever registrations and disconnects come, a
-- registration under the agent's name is admitted only to a connection that authenticated as this
-- subject.
pub admission-bound :
    (a s : Text) (policy : AuthPolicy) (events : List HubEvent) (hub : Hub) (readable : Bool)
    (identity : Option Identity) (reg : AgentRegistration)
    → is_empty s ≡ false
    → IsBound a s hub.records
    → reg.agent_id ≡ a
    → admission readable policy identity reg (hub_run policy events hub).records ≡ none
    → (i : Identity) × (identity ≡ some i) × (i.subject ≡ s)
admission-bound a s policy events hub readable identity reg filled bound name allowed =
    let (r, found, subject) = hub_run-IsBound a s policy events hub filled bound in
    let why =
      (admission-Passes readable policy identity reg (hub_run policy events hub).records).0
        allowed in
    let there : bound_subject_of (lookup reg.agent_id (hub_run policy events hub).records) ≡ s =
      ap (λ k. bound_subject_of (lookup k (hub_run policy events hub).records)) name
      ∙ ap bound_subject_of found
      ∙ subject in
    let (i, e, d) = why.matches_binding (rw there filled) in (i, e, d ∙ there)
