-- ===== src/Guard/Examples.antt =====
-- The theorems about the scope guard at a concrete grant, and tests.
use agentic_bus.Common.{
  ℕ, ◌+◌, List, [], ◌∷◌, true, false, ◌≡◌, ◌≢◌, ◌↔◌, refl, none, some, Text, codes, ◌==◌, lower,
  strip, ends_with, starts_with, In,
}
use agentic_bus.Scopes.{covers, covered_by_any, normalise, drop_last}
use agentic_bus.Authority.{Bindings, exceeded_scopes}
use agentic_bus.Guard.{ScopeGrant, ok, permits, require, require_scope, Resource, get_resource}
use agentic_bus.Guard.Reports.{run}
use agentic_bus.Guard.Reconciliation.{fresh_grant, exceeded-denied}

abbrev payments : List Text
payments = codes "payments:*" ∷ []

abbrev write : Text
write = codes "payments:write"

abbrev ledger : Text
ledger = codes "Ledger:read"

abbrev grant : ScopeGrant
grant = fresh_grant (codes "s1") (codes "c1") payments

record_of_run : (run grant (write ∷ ledger ∷ [])).denied ≡ codes "ledger:read" ∷ []
unfolding run require permits covered_by_any covers normalise drop_last lower strip ends_with
    starts_with ◌==◌
record_of_run = refl

exceeded-denied_example :
    In (codes "ledger:read") (exceeded_scopes payments (run grant (write ∷ ledger ∷ [])).used) ↔ (
      In (codes "ledger:read") (run grant (write ∷ ledger ∷ [])).denied
      × (codes "ledger:read" ≢ []))
exceeded-denied_example =
    exceeded-denied (codes "s1") (codes "c1") payments (write ∷ ledger ∷ []) (codes "ledger:read")

abbrev bindings : Bindings
bindings agent_id capability_id = some payments

write_named : normalise write ≢ []
unfolding normalise lower strip
write_named e = cc

write_covered : covered_by_any payments (normalise write) ≡ true
unfolding covered_by_any covers normalise drop_last lower strip ends_with starts_with ◌==◌
write_covered = refl

abbrev audit : Text
audit = codes "audit:read"

audit_named : audit ≢ []
audit_named e = cc

audit_canonical : normalise audit ≡ audit
unfolding normalise lower strip
audit_canonical = refl

audit_refused : covered_by_any payments audit ≡ false
unfolding covered_by_any covers normalise drop_last lower strip ends_with starts_with ◌==◌
audit_refused = refl

-- A factory that numbers what it builds.
abbrev factory : ℕ → ℕ × ℕ
factory w = (w, w + 1)

abbrev unbuilt : Text → Resource ℕ
unbuilt scope = record { scope = scope; value = none }

built :
    get_resource factory (unbuilt write) none 7
    ≡ (ok 7, record { scope = write; value = some 7 }, none, 8)
unfolding get_resource require_scope
built = refl
