-- ===== src/Admission/Examples.antt =====
-- The theorems about admission at a concrete hub, and tests.
use agentic_bus.Common.{
  [], ◌∷◌, true, false, none, some, Text, codes, ◌==◌, lookup, insert, ◌≡◌, ◌↔◌, refl, In,
  if◌then◌else◌,
}
use agentic_bus.Registry
use agentic_bus.Registry.{AgentRegistration, empty_registry, is_online}
use agentic_bus.Admission.{
  Identity, AuthPolicy, AgentRecord, AgentStatus, approved, revoked, pending, Records, admission,
  Hub, bound_to_another, bound_without_credential, not_in_good_standing, awaiting_enrolment,
  authentication_required, no_credential, bind_subject, refusal_of, authenticate, is_verified,
  handle_agent_registration, peer_disconnected,
}
use agentic_bus.Authority.{Bindings}
use agentic_bus.Admission.Holdings.{
  ScopeBook, IsBoundTo, resolve_scopes, resolve_scopes-granted_iff,
}
use agentic_bus.Admission.Entitlement.{IsEntitled, admission_iff}
use agentic_bus.Admission.Bindings.{registers, disconnects, hub_step, hub_run, admission-bound}

abbrev development : AuthPolicy
development = record { issuer = []; flag = false }

abbrev production : AuthPolicy
production = record { issuer = codes "https://id.example"; flag = false }

abbrev alice : Identity
alice = record { subject = codes "alice" }

abbrev mallory : Identity
mallory = record { subject = codes "mallory" }

abbrev agent_named : Text → Text → AgentRegistration
agent_named name mode = record {
  agent_id = name;
  version = codes "0.1.0";
  mode = mode;
  capabilities = [];
  semantic_description = [];
  required_scopes = [];
  supported_data_domains = [];
  operational_constraints = [];
}

abbrev payer : AgentRegistration
payer = agent_named (codes "payer") (codes "persistent")

abbrev ledger : AgentRegistration
ledger = agent_named (codes "ledger") (codes "ephemeral")

abbrev payer_record : AgentStatus → Text → AgentRecord
payer_record status subject = record { status = status; oidc_subject = subject }

abbrev records_with : AgentStatus → Text → Records
records_with status subject = (codes "payer", payer_record status subject) ∷ []

abbrev hub_with : AgentStatus → Text → Hub
hub_with status subject = record {
  records = records_with status subject;
  registry = empty_registry;
  peers = [];
}

bound_to_alice :
    admission true production (some mallory) payer (records_with approved (codes "alice"))
    ≡ some bound_to_another
unfolding admission lookup ◌==◌
bound_to_alice = refl

nobody_is_not_alice :
    admission true development none payer (records_with approved (codes "alice"))
    ≡ some bound_without_credential
unfolding admission lookup ◌==◌
nobody_is_not_alice = refl

revoked_stays_out :
    admission true development
      (some alice)
      (agent_named (codes "payer") (codes "ephemeral"))
      (records_with revoked [])
    ≡ some not_in_good_standing
unfolding admission lookup ◌==◌
revoked_stays_out = refl

pending_waits :
    admission true development none payer (records_with pending []) ≡ some awaiting_enrolment
unfolding admission lookup ◌==◌
pending_waits = refl

production_needs_a_credential :
    admission true production none ledger [] ≡ some authentication_required
unfolding admission lookup ◌==◌
production_needs_a_credential = refl

no_token_in_production : authenticate (λ _. some alice) production none ≡ refusal_of no_credential
unfolding authenticate
no_token_in_production = refl

no_token_in_development : is_verified (authenticate (λ _. some alice) development none) ≡ false
unfolding is_verified authenticate
no_token_in_development = refl

first_registration_binds :
    (handle_agent_registration true true production
      (some alice)
      payer
      (codes "peer-1")
      (hub_with approved [])).records
    ≡ records_with approved (codes "alice")
unfolding handle_agent_registration bind_subject lookup insert ◌==◌
first_registration_binds = refl

-- Of two agents on one connection, a disconnect removes the first.
second_agent_remains :
    let two =
      hub_run development
        (registers true true none ledger (codes "peer-1")
          ∷ registers true true none
              (agent_named (codes "auditor") (codes "ephemeral"))
              (codes "peer-1")
          ∷ [])
        (hub_with approved []) in
    (is_online (codes "ledger") (peer_disconnected (codes "peer-1") two).registry ≡ false)
    × (is_online (codes "auditor") (peer_disconnected (codes "peer-1") two).registry ≡ true)
unfolding hub_run hub_step peer_disconnected is_online lookup insert ◌==◌ handle_agent_registration
    Registry.handle_disconnect
second_agent_remains = (refl, refl)

admission_iff_example :
    (admission true production (some alice) payer (records_with approved (codes "alice")) ≡ none)
    ↔ IsEntitled true production (some alice) payer (records_with approved (codes "alice"))
admission_iff_example =
    admission_iff true production (some alice) payer (records_with approved (codes "alice"))

admission-bound_example : (i : Identity) × (some alice ≡ some i) × (i.subject ≡ codes "alice")
unfolding admission hub_run lookup ◌==◌ hub_step peer_disconnected handle_agent_registration insert
    bind_subject
admission-bound_example =
    admission-bound (codes "payer") (codes "alice") production
      (registers true true (some mallory) payer (codes "peer-2")
        ∷ registers true true (some alice) payer (codes "peer-1")
        ∷ disconnects (codes "peer-1")
        ∷ [])
      (hub_with approved (codes "alice")) true (some alice) payer refl (_, refl, refl) refl refl

abbrev bound_to_pay : Bindings
bound_to_pay agent_id capability_id =
    if capability_id == codes "pay" then some (codes "payments:write" ∷ []) else none

abbrev greedy : AgentRegistration
greedy = record ledger {
  required_scopes = codes "admin:all" ∷ [];
  capabilities =
      record {
        capability_id = codes "pay";
        description = [];
        required_scopes = codes "payments:read" ∷ [];
        supported_data_domains = [];
        operational_constraints = [];
        expected_artifacts = [];
        input_model = none;
        input_schema = [];
        output_model = none;
        output_schema = [];
      }
      ∷ [];
}

abbrev empty_book : ScopeBook
empty_book = record { names = []; requests = [] }

declared_is_not_granted :
    (resolve_scopes true (record { enforced = true }) bound_to_pay greedy empty_book).0.granted
    ≡ codes "payments:write" ∷ []
unfolding resolve_scopes ◌==◌
declared_is_not_granted = refl

resolve_scopes-granted_iff_example :
    In
      (codes "admin:all")
      (resolve_scopes true (record { enforced = false }) bound_to_pay greedy empty_book).0.granted
    ↔ ((true ≡ true)
        × IsBoundTo bound_to_pay greedy.agent_id greedy.capabilities (codes "admin:all"))
resolve_scopes-granted_iff_example =
    resolve_scopes-granted_iff true (record { enforced = false }) bound_to_pay greedy empty_book
      (codes "admin:all")
