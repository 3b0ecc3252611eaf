-- ===== src/Authority/Examples.antt =====
-- The theorems about delegation at a concrete step, and tests.
use agentic_bus.Common.{
  List, [], ◌∷◌, true, false, ◌≡◌, ◌≢◌, ◌⊎◌, inl, inr, refl, none, some, Text, codes, ◌==◌, lower,
  strip, ends_with, starts_with, In, lookup, insert,
}
use agentic_bus.Scopes.{covers, covered_by_any, normalise, drop_last, narrow, intersect}
use agentic_bus.Scopes.Bounds.{CoveredBy}
use agentic_bus.Registry.{CapabilityRegistry, empty_registry, register, get}
use agentic_bus.Ibac.Capability.Tally.{tally}
use agentic_bus.Ibac.Capability.{Capability, is_expired, permits_principal, permits_scope, check}
use agentic_bus.Ibac.Capability.Checks.{Fits}
use agentic_bus.Authority.{
  Bindings, capability_scopes, declared_scopes, ungranted_scopes, grant_for, dispatch_guard,
}
use agentic_bus.Authority.Delegation.{
  grant_for_bounded, empty_delegation_escalates, dispatch_guard_sound,
}

abbrev payer : Text
payer = codes "payer"

abbrev pay : Text
pay = codes "pay"

abbrev write_scope : Text
write_scope = codes "payments:write"

abbrev registry : CapabilityRegistry
registry =
    register
      (record {
        agent_id = payer;
        version = [];
        mode = codes "persistent";
        capabilities =
            record {
              capability_id = pay;
              description = [];
              required_scopes = write_scope ∷ [];
              supported_data_domains = [];
              operational_constraints = [];
              expected_artifacts = [];
              input_model = none;
              input_schema = [];
              output_model = none;
              output_schema = [];
            }
            ∷ [];
        semantic_description = [];
        required_scopes = [];
        supported_data_domains = [];
        operational_constraints = [];
      })
      empty_registry

abbrev bound : List Text
bound = codes "payments:*" ∷ []

abbrev bindings : Bindings
bindings agent_id capability_id = some bound

abbrev claims : List Text
claims = write_scope ∷ codes "ledger:read" ∷ []

granted :
    grant_for true bindings payer pay (capability_scopes claims (codes "payments:*" ∷ []))
    ≡ write_scope ∷ []
unfolding grant_for capability_scopes narrow intersect covered_by_any covers normalise drop_last
    lower strip ends_with starts_with ◌==◌
granted = refl

some_scope : capability_scopes claims (codes "payments:*" ∷ []) ≢ []
unfolding capability_scopes narrow covered_by_any covers normalise drop_last lower strip ends_with
    starts_with ◌==◌
some_scope e = cc

grant_for_bounded_example :
    In write_scope claims
    × ((codes "payments:*" ∷ [] ≡ []) ⊎ CoveredBy (codes "payments:*" ∷ []) write_scope)
    × CoveredBy bound write_scope
grant_for_bounded_example =
    grant_for_bounded bindings payer pay claims (codes "payments:*" ∷ []) bound write_scope refl
      some_scope (rw granted (inl refl))

abbrev capability_for : List Text → Capability
capability_for scopes = record {
  capability_id = codes "c1";
  session_id = codes "s1";
  principals = payer ∷ [];
  purpose = [];
  resources = [];
  actions = [];
  scopes = scopes;
  constraints = [];
  issued_at = tally.isoformat 1;
  expires_at = tally.isoformat 9;
}

abbrev authority : List Text
authority = codes "ledger:write" ∷ []

nothing_covered : (s : Text) → In s claims → covered_by_any authority s ≡ false
unfolding covered_by_any covers normalise drop_last lower strip ends_with starts_with ◌==◌
nothing_covered s (inl e) = rw e refl
nothing_covered s (inr (inl e)) = rw e refl
nothing_covered s (inr (inr h)) = absurd h

still-Fits : Fits tally (capability_for []) payer [] 5
unfolding is_expired
still-Fits = record {
  in_time = refl;
  by_principal = inr (inr (inl refl));
  within = λ s m. absurd m;
}

outside_authority : capability_scopes claims authority ≡ []
unfolding capability_scopes narrow covered_by_any covers normalise drop_last lower strip ends_with
    starts_with ◌==◌
outside_authority = refl

limited : authority ≢ []
limited e = cc

empty_delegation_escalates_example :
    (grant_for true bindings payer pay (capability_scopes claims authority) ≡ bound)
    × (check tally (capability_for []) payer (codes "root:all" ∷ []) 5 ≡ none)
empty_delegation_escalates_example =
    empty_delegation_escalates tally bindings payer pay claims authority bound
      (codes "root:all" ∷ []) (capability_for []) 5 limited nothing_covered refl
      (rw outside_authority refl) still-Fits

named : pay ≢ []
named e = cc

passes :
    dispatch_guard tally true bindings registry
      (some (capability_for (write_scope ∷ [])))
      payer
      pay
      5
    ≡ none
unfolding dispatch_guard declared_scopes ungranted_scopes get register lookup insert check
    is_expired permits_principal permits_scope covered_by_any covers normalise drop_last lower strip
    ends_with starts_with ◌==◌
passes = refl

dispatch_guard_sound_example :
    ((c : Capability)
      → some (capability_for (write_scope ∷ [])) ≡ some c
      → Fits tally c payer (declared_scopes registry payer pay) 5)
    × ((s : Text)
        → In s (declared_scopes registry payer pay)
        → (bound' : List Text) × (bindings payer pay ≡ some bound') × CoveredBy bound' s)
dispatch_guard_sound_example =
    dispatch_guard_sound tally bindings registry (some (capability_for (write_scope ∷ []))) payer
      pay 5 named passes
