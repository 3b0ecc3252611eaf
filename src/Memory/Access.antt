-- ===== src/Memory/Access.antt =====
-- What agents can read and write through `SessionMemory`.
use agentic_bus.Common.{
  List, [], ◌∷◌, true, false, ◌&&◌, ◌≡◌, ◌≢◌, inl, inr, refl, ◌∙◌, arith, none, some, if◌then◌else◌,
  Bool-cases, Text, ◌==◌, eq_iff, lookup, lookup-insert,
}
use agentic_bus.Memory.Backend
use agentic_bus.Memory.Backend.{MemoryEntry, Store, new_entry, next_version, put}
use agentic_bus.Memory.{
  SessionMemory, MemoryWriteRequest, coordinator, check_read, check_write, read, write, write_batch,
  coordinator_read, clear,
}

module _ {V : Type 0} where
  -- A write is accepted exactly when the policy lets it. Then its key holds a new entry by its
  -- agent, with the next version; every other key, and on a refusal every key, is as it was.
  pub write_effect :
      (k j : Text) (v : V) (a : Text) (m : SessionMemory V)
      → ((write k v a m).0 ≡ check_write k a m)
        × (Backend.get j (write k v a m).1.backend ≡ (
            if check_write k a m && (k == j)
            then some (new_entry k v a m.backend)
            else Backend.get j m.backend))
  unfolding write put Backend.get
  write_effect k j v a m = elim (Bool-cases (check_write k a m)) [
    | inl ok_write ↦ rw ok_write (refl, lookup-insert k j (new_entry k v a m.backend) m.backend)
    | inr refused ↦ rw refused (refl, refl)
  ]

  -- Writing changes no policy.
  pub policies-write :
      (k : Text) (v : V) (a : Text) (m : SessionMemory V) → (write k v a m).1.policies ≡ m.policies
  unfolding write
  policies-write k v a m = elim (Bool-cases (check_write k a m)) [ inl e ↦ rw e | inr e ↦ rw e ]

  pub check_write-write :
      (k j : Text) (v : V) (a b : Text) (m : SessionMemory V)
      → check_write j b (write k v a m).1 ≡ check_write j b m
  unfolding check_write
  check_write-write k j v a b m = rw (policies-write k v a m)

  write_elsewhere :
      (k j : Text) (v : V) (a : Text) (m : SessionMemory V)
      → check_write j a m ≡ false
      → Backend.get j (write k v a m).1.backend ≡ Backend.get j m.backend
  write_elsewhere k j v a m refused = (write_effect k j v a m).1 ∙ unaffected
    where
      unaffected :
          (if check_write k a m && (k == j)
            then some (new_entry k v a m.backend)
            else Backend.get j m.backend)
          ≡ Backend.get j m.backend
      unaffected = ground (arith, eq_iff k j, refused)

  -- Whatever a batch asks for, a key that the agent may not write keeps its entry.
  pub write_batch_confined :
      (ws : List (MemoryWriteRequest V)) (j a : Text) (m : SessionMemory V)
      → check_write j a m ≡ false
      → Backend.get j (write_batch ws a m).1.backend ≡ Backend.get j m.backend
  unfolding write_batch
  write_batch_confined [] j a m refused = refl
  write_batch_confined (w ∷ ws) j a m refused =
      write_batch_confined ws j a (write w.key w.value a m).1
        (check_write-write w.key j w.value a a m ∙ refused)
      ∙ write_elsewhere w.key j w.value a m refused

  check_read-write :
      (k j : Text) (v : V) (a b : Text) (m : SessionMemory V)
      → check_read j b (write k v a m).1 ≡ check_read j b m
  unfolding check_read write
  check_read-write k j v a b m = elim (Bool-cases (check_write k a m)) [
    | inl e ↦ rw e
    | inr e ↦ rw e
  ]

  -- An agent that may write a key and one that may read it share it: what the first wrote is what
  -- the second reads.
  pub read-write :
      (k : Text) (v : V) (a b : Text) (m : SessionMemory V)
      → check_write k a m ≡ true
      → check_read k b m ≡ true
      → (read k b (write k v a m).1).0 ≡ some v
  unfolding read
  read-write k v a b m may_write may_read =
      rw (check_read-write k k v a b m, may_read, (write_effect k k v a m).1, may_write)
        (ground (arith, eq_iff k k))

  -- A refused read returns nothing, whatever is stored.
  pub read_lem :
      (k a : Text) (m : SessionMemory V)
      → (read k a m).0 ≡ (if check_read k a m then coordinator_read k m else none)
  unfolding read coordinator_read
  read_lem k a m = elim (Bool-cases (check_read k a m)) [ inl e ↦ rw e | inr e ↦ rw e ]

  -- After dissolution nothing is stored, no agent but the coordinator may read or write, and the
  -- audit trail is what it was.
  pub clear_effect :
      (k a : Text) (m : SessionMemory V)
      → (coordinator_read k (clear m) ≡ none)
        × (a ≢ coordinator
            → (check_read k a (clear m) ≡ false) × (check_write k a (clear m) ≡ false))
        × ((clear m).audit ≡ m.audit)
  unfolding clear coordinator_read check_read check_write lookup Backend.get
  clear_effect k a m = (
    refl,
    λ ne. (ground (arith, eq_iff a coordinator), ground (arith, eq_iff a coordinator)),
    refl,
  )
