-- ===== src/Memory/Snapshots.antt =====
-- `SessionMemory.snapshot_for_agent`: what an agent's execute message carries.
use agentic_bus.Common.{
  List, [], ◌∷◌, ◌≡◌, ◌≢◌, inl, inr, refl, ap, ◌∙◌, arith, Option, none, some, if◌then◌else◌,
  Bool-cases, Option-cases, Text, eq_iff, any, Dict, lookup, insert, lookup-insert, lookup-cons,
}
use agentic_bus.Memory.Glob.{matches_pattern}
use agentic_bus.Memory.Backend
use agentic_bus.Memory.Backend.{MemoryEntry, Store, get_by_pattern}
use agentic_bus.Memory.{
  MemoryAuditEntry, SessionMemory, coordinator, allows, check_read, value_of, read,
  coordinator_read, add_entries, add_patterns, snapshot_for_agent,
}
use agentic_bus.Memory.Access.{read_lem}

-- The first of two answers.
abbrev or_value {ℓ} : {V : Type ℓ} → Option V → Option V → Option V
or_value none later = later
or_value (some v) later = some v

or_value_assoc {ℓ} :
    {V : Type ℓ} (a b c : Option V) → or_value (or_value a b) c ≡ or_value a (or_value b c)
or_value_assoc none b c = refl
or_value_assoc (some v) b c = refl

module _ {V : Type 0} where
  lookup-by_pattern :
      (k pattern : Text) (store : Store V)
      → lookup k (get_by_pattern pattern store)
        ≡ (if matches_pattern k pattern then lookup k store else none)
  unfolding get_by_pattern lookup
  lookup-by_pattern k pattern [] = ground arith
  lookup-by_pattern k pattern ((j, e) ∷ es) = elim (Bool-cases (matches_pattern j pattern)) [
    | inl m ↦ rw m (ground (arith, lookup-by_pattern k pattern es, eq_iff j k, m))
    | inr n ↦ rw n (ground (arith, lookup-by_pattern k pattern es, eq_iff j k, n))
  ]

  lookup-add_entries :
      (k agent_id : Text) (es : Store V) (result : Dict V) (audit : List MemoryAuditEntry)
      → lookup k (add_entries agent_id es result audit).0
        ≡ or_value (lookup k result) (value_of (lookup k es))
  unfolding add_entries
  lookup-add_entries k agent_id [] result audit = unfold lookup in ground arith
  lookup-add_entries k agent_id ((j, e) ∷ es) result audit = elim (Option-cases (lookup j result)) [
    | inl fresh ↦
        rw (fresh, add_entries)
          (lookup-add_entries k agent_id es (insert j e.value result) _
            ∙ ground
                (arith, lookup-insert j k e.value result, lookup-cons k j e es, eq_iff j k, fresh))
    | inr (v, old) ↦
        rw (old, add_entries)
          (lookup-add_entries k agent_id es result audit
            ∙ ground (arith, lookup-cons k j e es, eq_iff j k, old))
  ]

  abbrev readable : List Text → Text → Store V → Option V
  readable patterns k store =
      if any (λ p. matches_pattern k p) patterns then value_of (lookup k store) else none

  lookup-add_patterns :
      (k agent_id : Text) (store : Store V) (ps : List Text) (result : Dict V)
      (audit : List MemoryAuditEntry)
      → lookup k (add_patterns agent_id store ps result audit).0
        ≡ or_value (lookup k result) (readable ps k store)
  unfolding add_patterns
  lookup-add_patterns k agent_id store [] result audit = ground arith
  lookup-add_patterns k agent_id store (p ∷ ps) result audit =
      lookup-add_patterns k agent_id store ps _ _
      ∙ ap (λ o. or_value o (readable ps k store))
          (lookup-add_entries k agent_id (get_by_pattern p store) result audit
            ∙ ap (λ o. or_value (lookup k result) (value_of o)) (lookup-by_pattern k p store))
      ∙ ground arith

  -- The snapshot holds a key exactly when the agent's policy lets it be read and it is stored, with
  -- the stored value: nothing else reaches the agent.
  pub lookup-snapshot_for_agent :
      (k a : Text) (m : SessionMemory V)
      → lookup k (snapshot_for_agent a m).0 ≡ (
          if allows (λ p. p.read_patterns) (lookup a m.policies) k
          then coordinator_read k m
          else none)
  unfolding snapshot_for_agent coordinator_read Backend.get
  lookup-snapshot_for_agent k a m = elim (Option-cases (lookup a m.policies)) [
    | inl unknown ↦ rw (unknown, snapshot_for_agent) (unfold lookup in refl)
    | inr (policy, known) ↦
        rw (known, snapshot_for_agent)
          (lookup-add_patterns k a m.backend policy.read_patterns [] m.audit
            ∙ (unfold lookup in refl))
  ]

  -- For every agent but the coordinator a single read and the snapshot agree, key by key.
  pub read-eq-snapshot :
      (k a : Text) (m : SessionMemory V)
      → a ≢ coordinator
      → (read k a m).0 ≡ lookup k (snapshot_for_agent a m).0
  read-eq-snapshot k a m ne =
      read_lem k a m
      ∙ (unfold check_read in ground (arith, eq_iff a coordinator, lookup-snapshot_for_agent k a m))
