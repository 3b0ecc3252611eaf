-- ===== src/Memory/Examples.antt =====
-- The theorems about a session's memory at concrete keys, and tests.
use agentic_bus.Common.{
  ℕ, List, [], ◌∷◌, ◌++◌, true, false, ◌≡◌, ◌≢◌, refl, arith, none, if◌then◌else◌, Text, codes,
  ◌==◌, lookup, insert,
}
use agentic_bus.Memory.Glob.{matches_pattern}
use agentic_bus.Memory.Backend.{get_by_pattern, put}
use agentic_bus.Memory.{
  reads, MemoryAccessPolicy, MemoryWriteRequest, SessionMemory, coordinator, allows, check_read,
  check_write, write, snapshot_for_agent, coordinator_read,
}
use agentic_bus.Memory.Patterns.{NoStar}
use agentic_bus.Memory.Snapshots.{lookup-snapshot_for_agent}
use agentic_bus.Memory.Trail.{all_due}
use agentic_bus.Memory.Audit.{Event, policy_set, key_read, key_written, snapshot_taken, cleared}

abbrev planner : Text
planner = codes "planner"

abbrev plan_key : Text
plan_key = codes "plan.steps"

abbrev secret_key : Text
secret_key = codes "secret"

abbrev plan_policy : MemoryAccessPolicy
plan_policy = record {
  agent_id = planner;
  read_patterns = codes "plan.*" ∷ [];
  write_patterns = codes "plan.*" ∷ [];
}

abbrev memory : SessionMemory ℕ
memory = record {
  backend = put secret_key 9 coordinator [];
  policies = (planner, plan_policy) ∷ [];
  audit = [];
}

shared : (snapshot_for_agent planner (write plan_key 3 planner memory).1).0 ≡ (plan_key, 3) ∷ []
unfolding snapshot_for_agent write check_write put get_by_pattern matches_pattern lookup insert ◌==◌
shared = refl

no_secret : check_write secret_key planner memory ≡ false
unfolding check_write matches_pattern lookup ◌==◌
no_secret = refl

may_write : check_write plan_key planner memory ≡ true
unfolding check_write matches_pattern lookup ◌==◌
may_write = refl

may_read : check_read plan_key planner memory ≡ true
unfolding check_read matches_pattern lookup ◌==◌
may_read = refl

abbrev batch : List (MemoryWriteRequest ℕ)
batch = record { key = secret_key; value = 1 } ∷ record { key = plan_key; value = 2 } ∷ []

lookup-snapshot_for_agent_example : lookup secret_key (snapshot_for_agent planner memory).0 ≡ (
    if allows (λ p. p.read_patterns) (lookup planner memory.policies) secret_key
    then coordinator_read secret_key memory
    else none)
lookup-snapshot_for_agent_example = lookup-snapshot_for_agent secret_key planner memory

no_coordinator : planner ≢ coordinator
no_coordinator e = cc

abbrev history : List (Event ℕ)
history =
    policy_set plan_policy
    ∷ key_written plan_key 3 planner
    ∷ key_read secret_key planner
    ∷ snapshot_taken planner
    ∷ cleared
    ∷ []

denied_is_due :
    all_due memory (key_read secret_key planner ∷ []) ≡ (reads, secret_key, planner, false) ∷ []
unfolding all_due check_read lookup matches_pattern ◌==◌
denied_is_due = refl

plan-NoStar : NoStar plan_key
plan-NoStar = ground arith

newline_admitted : matches_pattern (plan_key ++ 10 ∷ []) plan_key ≡ true
unfolding matches_pattern
newline_admitted = refl

stem-NoStar : NoStar (codes "plan.")
stem-NoStar = ground arith
