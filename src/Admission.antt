-- ===== src/Admission.antt =====
-- Who may connect and register as an agent (agentic_bus/core/auth/agent_auth.py), and the registrations of
-- the coordinator (`_admit`, `_handle_agent_registration`, `register_agent` and `handle_disconnect` of
-- agentic_bus/coordinator/runtime.py). An agent's record is what `PersistentAgent` keeps of it; `bind_subject` is
-- that of agentic_bus/core/persistence/repository.py. Logs and answers are left out.
mod Examples
pub mod Entitlement
pub mod Bindings
pub mod Holdings
use agentic_bus.Common.{
  List, [], ◌∷◌, Bool, true, false, not, ◌&&◌, ◌||◌, Option, none, some, if◌then◌else◌, Text, codes,
  ◌==◌, is_empty, Dict, lookup, insert, remove,
}
use agentic_bus.Registry
use agentic_bus.Registry.{AgentRegistration, CapabilityRegistry, register}

pub record Identity : Type 0 where
  pub subject : Text

-- The reasons of a refusal.
pub data AdmissionRefusal : Type 0 where
  no_credential verification_failed no_subject record_unreadable not_in_good_standing :
      AdmissionRefusal
  awaiting_enrolment authentication_required bound_without_credential bound_to_another :
      AdmissionRefusal

pub record AuthOutcome : Type 0 where
  pub accepted : Bool
  pub identity : Option Identity
  pub reason : Option AdmissionRefusal

abbrev pub has_identity : Option Identity → Bool
has_identity none = false
has_identity (some identity) = true

unfoldable pub is_verified : AuthOutcome → Bool
is_verified outcome = outcome.accepted && has_identity outcome.identity

-- An issuer implies that credentials are required; `flag` is the argument, or the environment's.
pub record AuthPolicy : Type 0 where
  pub issuer : Text
  pub flag : Bool

abbrev pub require_auth : AuthPolicy → Bool
require_auth policy = not (is_empty policy.issuer) || policy.flag

abbrev pub refusal_of : AdmissionRefusal → AuthOutcome
refusal_of reason = record { accepted = false; identity = none; reason = some reason }

abbrev pub as_subject : Option Identity → AuthOutcome
as_subject none = refusal_of verification_failed
as_subject (some identity) =
    if is_empty identity.subject
    then refusal_of no_subject
    else record { accepted = true; identity = some identity; reason = none }

abbrev pub token_text : Option Text → Text
token_text none = []
token_text (some token) = token

-- `verify` is the verifier; none is an exception.
unfoldable pub authenticate :
    (verify : Text → Option Identity) → AuthPolicy → Option Text → AuthOutcome
authenticate verify policy token =
    if is_empty (token_text token)
    then (if require_auth policy
        then refusal_of no_credential
        else record { accepted = true; identity = none; reason = none })
    else as_subject (verify (token_text token))

-- None is that the identity may register.
abbrev pub bound_check : Option Identity → (bound_subject : Text) → Option AdmissionRefusal
bound_check none bound = if is_empty bound then none else some bound_without_credential
bound_check (some identity) bound =
    if is_empty bound || (identity.subject == bound) then none else some bound_to_another

unfoldable pub entitled_to_register :
    AuthPolicy → Option Identity → (bound_subject : Text) → Option AdmissionRefusal
entitled_to_register policy identity bound =
    if require_auth policy && not (has_identity identity)
    then some authentication_required
    else bound_check identity bound

pub data AgentStatus : Type 0 where
  pending approved rejected revoked : AgentStatus

pub record AgentRecord : Type 0 where
  pub status : AgentStatus
  pub oidc_subject : Text

abbrev pub is_barred : AgentStatus → Bool
is_barred pending = false
is_barred approved = false
is_barred rejected = true
is_barred revoked = true

abbrev pub is_approved : AgentStatus → Bool
is_approved approved = true
is_approved _ = false

abbrev pub is_persistent : AgentRegistration → Bool
is_persistent reg = reg.mode == codes "persistent"

abbrev pub bound_subject_of : Option AgentRecord → Text
bound_subject_of none = []
bound_subject_of (some r) = r.oidc_subject

-- The standing of the agent's record, where it has one.
abbrev pub standing : AgentRegistration → Option AgentRecord → Option AdmissionRefusal
standing reg none = none
standing reg (some r) =
    if is_barred r.status
    then some not_in_good_standing
    else if is_persistent reg && not (is_approved r.status)
    then some awaiting_enrolment
    else none

abbrev pub or_refusal : Option AdmissionRefusal → Option AdmissionRefusal → Option AdmissionRefusal
or_refusal none next = next
or_refusal (some reason) next = some reason

abbrev pub Records : Type 0
Records = Dict AgentRecord

-- It fills an empty binding only.
abbrev pub bound_record : Text → AgentRecord → AgentRecord
bound_record subject r = if is_empty r.oidc_subject then record r { oidc_subject = subject } else r

abbrev pub bind_found : Text → Text → Records → Option AgentRecord → Records
bind_found agent_id subject records none = records
bind_found agent_id subject records (some r) = insert agent_id (bound_record subject r) records

unfoldable pub bind_subject : Text → Text → Records → Records
bind_subject agent_id subject records =
    if is_empty subject
    then records
    else bind_found agent_id subject records (lookup agent_id records)

-- `readable` tells whether the record can be read, and `writable` whether the binding can be stored.
unfoldable pub admission :
    (readable : Bool)
    → AuthPolicy
    → Option Identity
    → AgentRegistration
    → Records
    → Option AdmissionRefusal
unfolding entitled_to_register
admission readable policy identity reg records =
    let r = lookup reg.agent_id records in
    if readable
    then or_refusal (standing reg r) (entitled_to_register policy identity (bound_subject_of r))
    else some record_unreadable

abbrev pub bind_first : (writable : Bool) → Option Identity → Text → Records → Records
bind_first writable none agent_id records = records
bind_first writable (some identity) agent_id records =
    if writable then bind_subject agent_id identity.subject records else records

-- What the coordinator knows of the agents: their records, the registry, and the peer of each.
pub record Hub : Type 0 where
  pub records : Records
  pub registry : CapabilityRegistry
  pub peers : Dict Text

unfoldable pub register_agent : AgentRegistration → (peer_id : Text) → Hub → Hub
unfolding register
register_agent reg peer_id hub = record hub {
  registry = register reg hub.registry;
  peers = insert reg.agent_id peer_id hub.peers;
}

abbrev pub admitted :
    (writable : Bool)
    → Option Identity
    → AgentRegistration
    → (peer_id : Text) → Hub
    → Option AdmissionRefusal
    → Hub
admitted writable identity reg peer_id hub none =
    register_agent reg peer_id
      (record hub { records = bind_first writable identity reg.agent_id hub.records })
admitted writable identity reg peer_id hub (some reason) = hub

-- A registration without a name is ignored, and `_admit` judges the others first.
unfoldable pub handle_agent_registration :
    (readable writable : Bool)
    → AuthPolicy
    → Option Identity
    → AgentRegistration
    → (peer_id : Text) → Hub
    → Hub
unfolding register_agent admission
handle_agent_registration readable writable policy identity reg peer_id hub =
    if is_empty reg.agent_id
    then hub
    else admitted writable identity reg peer_id hub
        (admission readable policy identity reg hub.records)

-- The first agent of the peer.
abbrev pub agent_of : Text → Dict Text → Option Text
agent_of peer_id [] = none
agent_of peer_id ((agent_id, p) ∷ peers) =
    let rest = agent_of peer_id peers in if p == peer_id then some agent_id else rest

abbrev pub disconnect_agent : Option Text → Hub → Hub
disconnect_agent none hub = hub
disconnect_agent (some agent_id) hub = record hub {
  registry = Registry.handle_disconnect agent_id hub.registry;
  peers = remove agent_id hub.peers;
}

unfoldable pub peer_disconnected : (peer_id : Text) → Hub → Hub
peer_disconnected peer_id hub = disconnect_agent (agent_of peer_id hub.peers) hub
