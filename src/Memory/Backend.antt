-- ===== src/Memory/Backend.antt =====
-- `InMemoryBackend`: the entries of a session's memory.
use agentic_bus.Common.{
  ℕ, ◌+◌, [], ◌∷◌, Bool, true, false, Option, none, some, Text, keep, Dict, lookup, insert, remove,
}
use agentic_bus.Memory.Glob.{matches_pattern}

pub record MemoryEntry (V : Type 0) : Type 0 where
  pub key : Text
  pub value : V
  pub written_by : Text
  pub version : ℕ

abbrev pub Store : Type 0 → Type 0
Store V = Dict (MemoryEntry V)

module _ {V : Type 0} where
  unfoldable pub get : Text → Store V → Option (MemoryEntry V)
  get key store = lookup key store

  unfoldable pub get_by_pattern : Text → Store V → Store V
  get_by_pattern pattern store = keep (λ e. matches_pattern e.0 pattern) store

  abbrev pub next_version : Option (MemoryEntry V) → ℕ
  next_version none = 1
  next_version (some existing) = existing.version + 1

  abbrev pub new_entry : Text → V → Text → Store V → MemoryEntry V
  new_entry key value written_by store = record {
    key = key;
    value = value;
    written_by = written_by;
    version = next_version (lookup key store);
  }

  unfoldable pub put : Text → V → Text → Store V → Store V
  put key value written_by store = insert key (new_entry key value written_by store) store

  abbrev pub is_some : Option (MemoryEntry V) → Bool
  is_some none = false
  is_some (some e) = true

  unfoldable pub delete : Text → Store V → Bool × Store V
  delete key store = (is_some (lookup key store), remove key store)

  unfoldable pub snapshot : Store V → Dict V
  snapshot [] = []
  snapshot ((k, e) ∷ es) = (k, e.value) ∷ snapshot es
