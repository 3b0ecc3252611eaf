-- ===== src/Ibac/Capability/Examples.antt =====
-- The theorems about capabilities at a concrete grant.
use agentic_bus.Common.{[], ◌∷◌, ◌≡◌, ◌↔◌, none, codes}
use agentic_bus.Ibac.Capability.Tally.{tally}
use agentic_bus.Ibac.Capability.{Grant, issue, check}
use agentic_bus.Ibac.Capability.Checks.{Fits, check-none_iff}
use agentic_bus.Ibac.Fixtures.{planner}

abbrev grant : Grant
grant = record {
  session_id = codes "s1";
  principals = planner ∷ [];
  purpose = [];
  scopes = codes "ledger:read" ∷ [];
  resources = [];
  actions = [];
  constraints = [];
  ttl_seconds = 0;
}

check-none_iff_example :
    (check tally (issue tally (codes "c1") 5 grant) planner (codes "ledger:read" ∷ []) 4 ≡ none)
    ↔ Fits tally (issue tally (codes "c1") 5 grant) planner (codes "ledger:read" ∷ []) 4
check-none_iff_example =
    check-none_iff tally (issue tally (codes "c1") 5 grant) planner (codes "ledger:read" ∷ []) 4
