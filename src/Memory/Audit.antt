-- ===== src/Memory/Audit.antt =====
-- The audit trail, over any history of a session's memory.
use mathlib.Core.List.{append_assoc, append-nil}
use agentic_bus.Common.{
  ◌+◌, List, [], ◌∷◌, ◌++◌, true, not, ◌≡◌, ◌⊎◌, inl, inr, refl, sym, ap, ◌∙◌, arith, Bool-cases,
  Option-cases, Text, length, Dict, lookup, insert,
}
use agentic_bus.Memory.Backend.{Store, get_by_pattern}
use agentic_bus.Memory.{
  reads, writes, MemoryAuditEntry, MemoryAccessPolicy, MemoryWriteRequest, SessionMemory,
  coordinator, audit_entry, set_policy, read, write, write_batch, add_entries, add_patterns,
  snapshot_for_agent, coordinator_write, clear, check_read, check_write, is_write, is_read, count,
  audit_summary,
}

-- What agents and the coordinator do to a session's memory.
pub data Event (V : Type 0) : Type 0 where
  policy_set : MemoryAccessPolicy → Event V
  key_read : (key agent_id : Text) → Event V
  key_written : (key : Text) → V → (agent_id : Text) → Event V
  batch_written : List (MemoryWriteRequest V) → (agent_id : Text) → Event V
  snapshot_taken : (agent_id : Text) → Event V
  coordinator_wrote : (key : Text) → V → Event V
  cleared : Event V

-- An entry that `audit_summary` counts: a read or a write.
abbrev IsCounted : MemoryAuditEntry → Type 0
IsCounted a = (a.operation ≡ reads) ⊎ (a.operation ≡ writes)

abbrev AllCounted : List MemoryAuditEntry → Type 0
AllCounted [] = Unit {0}
AllCounted (a ∷ as') = IsCounted a × AllCounted as'

AllCounted-append :
    (xs ys : List MemoryAuditEntry) → AllCounted xs → AllCounted ys → AllCounted (xs ++ ys)
AllCounted-append [] ys h k = k
AllCounted-append (x ∷ xs) ys (c, h) k = (c, AllCounted-append xs ys h k)

-- An extension of a trail by entries that are counted.
record Extends (before after : List MemoryAuditEntry) : Type 0 where
  added : List MemoryAuditEntry
  extended : after ≡ before ++ added
  counted : AllCounted added

Extends-refl : (xs : List MemoryAuditEntry) → Extends xs xs
Extends-refl xs = record { added = []; extended = sym (append-nil xs); counted = tt }

Extends-one :
    (xs : List MemoryAuditEntry) (a : MemoryAuditEntry) → IsCounted a → Extends xs (xs ++ a ∷ [])
Extends-one xs a c = record { added = a ∷ []; extended = refl; counted = (c, tt) }

Extends-trans : (xs ys zs : List MemoryAuditEntry) → Extends xs ys → Extends ys zs → Extends xs zs
Extends-trans xs ys zs h k = record {
  added = h.added ++ k.added;
  extended = k.extended ∙ ap (λ t. t ++ k.added) h.extended ∙ append_assoc xs h.added k.added;
  counted = AllCounted-append h.added k.added h.counted k.counted;
}

counts_add :
    (as' : List MemoryAuditEntry)
    → AllCounted as'
    → count is_write as' + count is_read as' + count (λ a. not a.allowed) as' ≡ length as'
counts_add [] h = omega arith
counts_add (a ∷ as') (c, h) = ground (arith, counts_add as' h, c)

trail_adds_up :
    (after before : List MemoryAuditEntry)
    → before ≡ []
    → Extends before after
    → count is_write after + count is_read after + count (λ a. not a.allowed) after ≡ length after
trail_adds_up after before empty h =
    let same : after ≡ h.added = h.extended ∙ ap (λ t. t ++ h.added) empty in
    rw same (counts_add h.added h.counted)

module _ {V : Type 0} where
  unfoldable pub step : SessionMemory V → Event V → SessionMemory V
  step m (policy_set policy) = set_policy policy m
  step m (key_read key agent_id) = (read key agent_id m).1
  step m (key_written key value agent_id) = (write key value agent_id m).1
  step m (batch_written ws agent_id) = (write_batch ws agent_id m).1
  step m (snapshot_taken agent_id) = (snapshot_for_agent agent_id m).1
  step m (coordinator_wrote key value) = coordinator_write key value m
  step m cleared = clear m

  unfoldable pub run : SessionMemory V → List (Event V) → SessionMemory V
  run m [] = m
  run m (e ∷ es) = run (step m e) es

  read-Extends : (k a : Text) (m : SessionMemory V) → Extends m.audit (read k a m).1.audit
  unfolding read
  read-Extends k a m = elim (Bool-cases (check_read k a m)) [
    | inl e ↦ rw e (Extends-one m.audit _ (inl refl))
    | inr e ↦ rw e (Extends-one m.audit _ (inl refl))
  ]

  write-Extends :
      (k : Text) (v : V) (a : Text) (m : SessionMemory V) → Extends m.audit (write k v a m).1.audit
  unfolding write
  write-Extends k v a m = elim (Bool-cases (check_write k a m)) [
    | inl e ↦ rw e (Extends-one m.audit _ (inr refl))
    | inr e ↦ rw e (Extends-one m.audit _ (inr refl))
  ]

  write_batch-Extends :
      (ws : List (MemoryWriteRequest V)) (a : Text) (m : SessionMemory V)
      → Extends m.audit (write_batch ws a m).1.audit
  unfolding write_batch
  write_batch-Extends [] a m = Extends-refl m.audit
  write_batch-Extends (w ∷ ws) a m =
      Extends-trans m.audit (write w.key w.value a m).1.audit _ (write-Extends w.key w.value a m)
        (write_batch-Extends ws a (write w.key w.value a m).1)

  add_entries-Extends :
      (a : Text) (es : Store V) (result : Dict V) (audit : List MemoryAuditEntry)
      → Extends audit (add_entries a es result audit).1
  unfolding add_entries
  add_entries-Extends a [] result audit = Extends-refl audit
  add_entries-Extends a ((k, e) ∷ es) result audit = elim (Option-cases (lookup k result)) [
    | inl fresh ↦
        rw (fresh, add_entries)
          (Extends-trans audit (audit ++ audit_entry reads k a true [] ∷ []) _
            (Extends-one audit (audit_entry reads k a true []) (inl refl))
            (add_entries-Extends a es (insert k e.value result) _))
    | inr (v, old) ↦ rw (old, add_entries) (add_entries-Extends a es result audit)
  ]

  add_patterns-Extends :
      (a : Text) (store : Store V) (ps : List Text) (result : Dict V)
      (audit : List MemoryAuditEntry)
      → Extends audit (add_patterns a store ps result audit).1
  unfolding add_patterns
  add_patterns-Extends a store [] result audit = Extends-refl audit
  add_patterns-Extends a store (p ∷ ps) result audit =
      Extends-trans audit (add_entries a (get_by_pattern p store) result audit).1 _
        (add_entries-Extends a (get_by_pattern p store) result audit)
        (add_patterns-Extends a store ps _ _)

  snapshot-Extends :
      (a : Text) (m : SessionMemory V) → Extends m.audit (snapshot_for_agent a m).1.audit
  unfolding snapshot_for_agent
  snapshot-Extends a m = elim (Option-cases (lookup a m.policies)) [
    | inl unknown ↦ rw (unknown, snapshot_for_agent) (Extends-refl m.audit)
    | inr (policy, known) ↦
        rw (known, snapshot_for_agent)
          (add_patterns-Extends a m.backend policy.read_patterns [] m.audit)
  ]

  step-Extends : (m : SessionMemory V) (e : Event V) → Extends m.audit (step m e).audit
  unfolding step set_policy coordinator_write clear
  step-Extends m (policy_set policy) = Extends-refl m.audit
  step-Extends m (key_read key agent_id) = read-Extends key agent_id m
  step-Extends m (key_written key value agent_id) = write-Extends key value agent_id m
  step-Extends m (batch_written ws agent_id) = write_batch-Extends ws agent_id m
  step-Extends m (snapshot_taken agent_id) = snapshot-Extends agent_id m
  step-Extends m (coordinator_wrote key value) =
      Extends-one m.audit (audit_entry writes key coordinator true []) (inr refl)
  step-Extends m cleared = Extends-refl m.audit

  run-Extends : (m : SessionMemory V) (es : List (Event V)) → Extends m.audit (run m es).audit
  unfolding run
  run-Extends m [] = Extends-refl m.audit
  run-Extends m (e ∷ es) =
      Extends-trans m.audit (step m e).audit _ (step-Extends m e) (run-Extends (step m e) es)

  -- The trail only grows: no event, the clearing at dissolution included, takes an entry away or
  -- changes one.
  pub run_append_only :
      (m : SessionMemory V) (es : List (Event V))
      → (added : List MemoryAuditEntry) × ((run m es).audit ≡ m.audit ++ added)
  run_append_only m es = let h = run-Extends m es in (h.added, h.extended)

  -- After any history from an empty trail the summary accounts for every operation once: as an
  -- accepted write, an accepted read or a denial.
  pub audit_summary_adds_up :
      (m : SessionMemory V) (es : List (Event V))
      → m.audit ≡ []
      → let s = audit_summary (run m es) in
        s.accepted_writes + s.accepted_reads + s.denied ≡ s.total_operations
  unfolding audit_summary
  audit_summary_adds_up m es empty = trail_adds_up (run m es).audit m.audit empty (run-Extends m es)
