-- ===== src/Memory.antt =====
-- The shared memory of a session (agentic_bus/core/session/memory.py). `V` is the type of the stored
-- values. Times are left out. A dictionary keeps its insertion order, as Python's does.
mod Examples
pub mod Glob
pub mod Backend
pub mod Patterns
pub mod Access
pub mod Snapshots
pub mod Audit
pub mod Trail
use agentic_bus.Common.{
  ℕ, ◌+◌, List, [], ◌∷◌, ◌++◌, Bool, true, false, not, ◌&&◌, Option, none, some, if◌then◌else◌,
  Text, codes, ◌==◌, any, length, Dict, lookup, insert, keys,
}
use agentic_bus.Memory.Glob.{matches_pattern}
use agentic_bus.Memory.Backend
use agentic_bus.Memory.Backend.{MemoryEntry, Store, get_by_pattern, put, snapshot}

pub record MemoryAccessPolicy : Type 0 where
  pub agent_id : Text
  pub read_patterns : List Text
  pub write_patterns : List Text

pub data Operation : Type 0 where
  reads writes deletes : Operation

pub record MemoryAuditEntry : Type 0 where
  pub operation : Operation
  pub key : Text
  pub agent_id : Text
  pub allowed : Bool
  pub reason : Text

pub record MemoryWriteRequest (V : Type 0) : Type 0 where
  pub key : Text
  pub value : V

pub record SessionMemory (V : Type 0) : Type 0 where
  pub backend : Store V
  pub policies : Dict MemoryAccessPolicy
  pub audit : List MemoryAuditEntry

abbrev pub coordinator : Text
coordinator = codes "coordinator"

abbrev pub audit_entry : Operation → Text → Text → Bool → Text → MemoryAuditEntry
audit_entry operation key agent_id allowed reason = record {
  operation = operation;
  key = key;
  agent_id = agent_id;
  allowed = allowed;
  reason = reason;
}

abbrev pub allows : (MemoryAccessPolicy → List Text) → Option MemoryAccessPolicy → Text → Bool
allows patterns none key = false
allows patterns (some policy) key = any (λ pattern. matches_pattern key pattern) (patterns policy)

module _ {V : Type 0} where
  abbrev pub empty_memory : SessionMemory V
  empty_memory = record { backend = []; policies = []; audit = [] }

  unfoldable pub set_policy : MemoryAccessPolicy → SessionMemory V → SessionMemory V
  set_policy policy m = record m { policies = insert policy.agent_id policy m.policies }

  unfoldable pub get_policy : Text → SessionMemory V → Option MemoryAccessPolicy
  get_policy agent_id m = lookup agent_id m.policies

  unfoldable pub check_read : Text → Text → SessionMemory V → Bool
  check_read key agent_id m =
      if agent_id == coordinator
      then true
      else allows (λ p. p.read_patterns) (lookup agent_id m.policies) key

  unfoldable pub check_write : Text → Text → SessionMemory V → Bool
  check_write key agent_id m =
      if agent_id == coordinator
      then true
      else allows (λ p. p.write_patterns) (lookup agent_id m.policies) key

  abbrev pub value_of : Option (MemoryEntry V) → Option V
  value_of none = none
  value_of (some entry) = some entry.value

  abbrev pub log : MemoryAuditEntry → SessionMemory V → SessionMemory V
  log entry m = record m { audit = m.audit ++ entry ∷ [] }

  unfoldable pub read : Text → Text → SessionMemory V → Option V × SessionMemory V
  read key agent_id m =
      if not (check_read key agent_id m)
      then (none, log (audit_entry reads key agent_id false (codes "denied by read policy")) m)
      else (value_of (Backend.get key m.backend), log (audit_entry reads key agent_id true []) m)

  unfoldable pub write : Text → V → Text → SessionMemory V → Bool × SessionMemory V
  write key value agent_id m =
      if not (check_write key agent_id m)
      then (false, log (audit_entry writes key agent_id false (codes "denied by write policy")) m)
      else (
        true,
        log (audit_entry writes key agent_id true [])
            (record m { backend = put key value agent_id m.backend }),
      )

  unfoldable pub write_batch :
      List (MemoryWriteRequest V) → Text → SessionMemory V → List Bool × SessionMemory V
  write_batch [] agent_id m = ([], m)
  write_batch (w ∷ ws) agent_id m =
      let (accepted, m') = write w.key w.value agent_id m in
      let (rest, m'') = write_batch ws agent_id m' in (accepted ∷ rest, m'')

  -- The inner loop of `snapshot_for_agent`, over the entries that match one pattern.
  unfoldable pub add_entries :
      Text → Store V → Dict V → List MemoryAuditEntry → Dict V × List MemoryAuditEntry
  add_entries agent_id [] result audit = (result, audit)
  add_entries agent_id ((k, entry) ∷ es) result audit =
      let old = add_entries agent_id es result audit in
      let new =
        add_entries agent_id es (insert k entry.value result)
          (audit ++ audit_entry reads k agent_id true [] ∷ []) in
      elim (lookup k result) [ some v ↦ old | none ↦ new ]

  -- The outer loop, over the read patterns.
  unfoldable pub add_patterns :
      Text → Store V → List Text → Dict V → List MemoryAuditEntry → Dict V × List MemoryAuditEntry
  add_patterns agent_id store [] result audit = (result, audit)
  add_patterns agent_id store (p ∷ ps) result audit =
      let (result', audit') = add_entries agent_id (get_by_pattern p store) result audit in
      add_patterns agent_id store ps result' audit'

  unfoldable pub snapshot_for_agent : Text → SessionMemory V → Dict V × SessionMemory V
  unfolding add_patterns add_entries
  snapshot_for_agent agent_id m = elim (lookup agent_id m.policies) [
    | none ↦ ([], m)
    | some policy ↦
        let (result, audit) = add_patterns agent_id m.backend policy.read_patterns [] m.audit in
        (result, record m { audit = audit })
  ]

  unfoldable pub coordinator_write : Text → V → SessionMemory V → SessionMemory V
  coordinator_write key value m =
      log (audit_entry writes key coordinator true [])
        (record m { backend = put key value coordinator m.backend })

  unfoldable pub coordinator_read : Text → SessionMemory V → Option V
  coordinator_read key m = value_of (Backend.get key m.backend)

  unfoldable pub full_snapshot : SessionMemory V → Dict V
  full_snapshot m = snapshot m.backend

  unfoldable pub clear : SessionMemory V → SessionMemory V
  clear m = record m { backend = []; policies = [] }

pub record AuditSummary : Type 0 where
  pub total_operations : ℕ
  pub accepted_writes : ℕ
  pub accepted_reads : ℕ
  pub denied : ℕ
  pub keys_at_dissolution : List Text

abbrev pub is_write : MemoryAuditEntry → Bool
is_write a = elim a.operation [ writes ↦ a.allowed | _ ↦ false ]

abbrev pub is_read : MemoryAuditEntry → Bool
is_read a = elim a.operation [ reads ↦ a.allowed | _ ↦ false ]

abbrev pub count : (MemoryAuditEntry → Bool) → List MemoryAuditEntry → ℕ
count p [] = 0
count p (a ∷ as') = let rest = count p as' in if p a then rest + 1 else rest

unfoldable pub audit_summary : {V : Type 0} → SessionMemory V → AuditSummary
audit_summary m = record {
  total_operations = length m.audit;
  accepted_writes = count is_write m.audit;
  accepted_reads = count is_read m.audit;
  denied = count (λ a. not a.allowed) m.audit;
  keys_at_dissolution = keys m.backend;
}
