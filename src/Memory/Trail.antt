-- ===== src/Memory/Trail.antt =====
-- What the audit trail of a session's memory says: agentic_bus/core/session/memory.py.
use agentic_bus.Common.{List, [], ◌∷◌, ◌++◌, Bool, true, ◌≡◌, Text, map, Dict}
use agentic_bus.Memory.{
  Operation, reads, writes, MemoryAuditEntry, MemoryWriteRequest, SessionMemory, coordinator,
  snapshot_for_agent, check_read, check_write,
}
use agentic_bus.Memory.Audit.{
  Event, policy_set, key_read, key_written, batch_written, snapshot_taken, coordinator_wrote,
  cleared, step,
}

-- An operation on a key by an agent, and whether it was allowed.
abbrev pub Logged : Type 0
Logged = Operation × Text × Text × Bool

-- What an entry says, but for the reason.
abbrev pub said : MemoryAuditEntry → Logged
said a = (a.operation, a.key, a.agent_id, a.allowed)

abbrev pub trail : List MemoryAuditEntry → List Logged
trail audit = map said audit

module _ {V : Type 0} where
  abbrev pub deliveries : Text → Dict V → List Logged
  deliveries agent_id entries = map (λ e. (reads, e.0, agent_id, true)) entries

  -- What an event has to leave: an entry for each key that is read, written or delivered, also where
  -- the policy refuses, as it stands before the event.
  abbrev pub due : SessionMemory V → Event V → List Logged
  due m (policy_set policy) = []
  due m (key_read key agent_id) = (reads, key, agent_id, check_read key agent_id m) ∷ []
  due m (key_written key value agent_id) = (writes, key, agent_id, check_write key agent_id m) ∷ []
  due m (batch_written ws agent_id) =
      map (λ (w : MemoryWriteRequest V). (writes, w.key, agent_id, check_write w.key agent_id m)) ws
  due m (snapshot_taken agent_id) = deliveries agent_id (snapshot_for_agent agent_id m).0
  due m (coordinator_wrote key value) = (writes, key, coordinator, true) ∷ []
  due m cleared = []

  unfoldable pub all_due : SessionMemory V → List (Event V) → List Logged
  all_due m [] = []
  all_due m (e ∷ es) = due m e ++ all_due (step m e) es

  -- A loop over entries delivers new ones, and logs a read of each.
  abbrev Delivers : Text → Dict V × List MemoryAuditEntry → Dict V → List MemoryAuditEntry → Type 0
  Delivers a after result audit =
      (new : Dict V) × (after.0 ≡ result ++ new) × (trail after.1 ≡ trail audit ++ deliveries a new)
