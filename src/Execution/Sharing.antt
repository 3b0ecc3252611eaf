-- ===== src/Execution/Sharing.antt =====
-- What a later step reads of an earlier one: the staged writes, applied under the policies of
-- agentic_bus/core/session/memory.py.
use agentic_bus.Common.{
  List, [], ◌∷◌, map, Option, none, some, Bool-cases, if◌then◌else◌, ◌&&◌, Text, ◌==◌, eq_iff, Json,
  Dict, lookup, insert, lookup-insert, lookup-cons, ◌≡◌, inl, inr, refl, sym, ap, ◌∙◌, arith,
}
use agentic_bus.Memory.{
  SessionMemory, allows, check_write, write, write_batch, coordinator_read, snapshot_for_agent,
  value_of,
}
use agentic_bus.Memory.Access.{write_effect, policies-write, check_write-write}
use agentic_bus.Memory.Snapshots.{lookup-snapshot_for_agent}
use agentic_bus.Guard.{require_scope}
use agentic_bus.Execution.{
  Ambient, remember, staged_with, staged_writes, or_blank, recall, value_or, set_snapshot,
  TaskOutcome, Task, check_context, input_model_for, Skill, ExecuteMessage, entered, handle_execute,
  apply_writes, write_request,
}

-- No key stands twice, as in any dictionary.
IsDistinct : Dict Json → Type 0
IsDistinct [] = Unit {0}
IsDistinct ((k, v) ∷ d) = (lookup k d ≡ none) × IsDistinct d

insert-IsDistinct : (k : Text) (v : Json) (d : Dict Json) → IsDistinct d → IsDistinct (insert k v d)
unfolding insert IsDistinct
insert-IsDistinct k v [] h = (unfold lookup in refl, tt)
insert-IsDistinct k v ((j, w) ∷ d) (fresh, rest) = elim (Bool-cases (j == k)) [
  | inl same ↦ rw same (fresh, rest)
  | inr other ↦ rw other (
    lookup-insert k j v d ∙ ground (arith, eq_iff j k, eq_iff k j, other, fresh),
    insert-IsDistinct k v d rest,
  )
]

-- What a task does to its context variables: it stages values, and calls what requires a scope.
pub data Action : Type 0 where
  remembers : (key : Text) → Json → Action
  requires : (scope : Text) → Action

unfoldable pub act : Action → Ambient → Ambient
act (remembers key value) ambient = remember key value ambient
act (requires scope) ambient = record ambient { grant = (require_scope scope ambient.grant).1 }

unfoldable pub act_all : List Action → Ambient → Ambient
act_all [] ambient = ambient
act_all (a ∷ actions) ambient = act_all actions (act a ambient)

-- The task that does this, and ends so.
abbrev pub doing : List Action → TaskOutcome → Task
doing actions outcome context ambient = (outcome, act_all actions ambient)

abbrev pub later : Option Json → Option Json → Option Json
later none old = old
later (some new) old = some new

-- The last value that was staged for the key.
unfoldable pub last_remembered : List Action → Text → Option Json
last_remembered [] key = none
last_remembered (remembers k v ∷ actions) key =
    later (last_remembered actions key) (if k == key then some v else none)
last_remembered (requires scope ∷ actions) key = last_remembered actions key

remember-staged :
    (k : Text) (v : Json) (ambient : Ambient) (d : Dict Json)
    → ambient.staged ≡ some d
    → (remember k v ambient).staged ≡ some (insert k v d)
unfolding remember
remember-staged k v ambient d e = ap (staged_with k v) e

act_all-staged :
    (actions : List Action) (ambient : Ambient) (d : Dict Json)
    → ambient.staged ≡ some d
    → IsDistinct d
    → (d' : Dict Json) × ((act_all actions ambient).staged ≡ some d')
      × IsDistinct d'
      × ((j : Text) → lookup j d' ≡ later (last_remembered actions j) (lookup j d))
unfolding act_all act last_remembered
act_all-staged [] ambient d e distinct = (d, e, distinct, λ j. refl)
act_all-staged (requires scope ∷ actions) ambient d e distinct =
    act_all-staged actions _ d e distinct
act_all-staged (remembers k v ∷ actions) ambient d e distinct =
    let (d', there, one, values) =
      act_all-staged actions (remember k v ambient) (insert k v d) (remember-staged k v ambient d e)
        (insert-IsDistinct k v d distinct) in
    (d', there, one, λ j. values j ∙ combine j)
  where
    combine :
        (j : Text)
        → later (last_remembered actions j) (lookup j (insert k v d))
          ≡ later (later (last_remembered actions j) (if k == j then some v else none)) (lookup j d)
    combine j = elim (Bool-cases (k == j)) [
      | inl same ↦
          rw (lookup-insert, same) (split (last_remembered actions j) (some v) (lookup j d))
      | inr other ↦ rw (lookup-insert, other) (split (last_remembered actions j) none (lookup j d))
    ]
      where
        split : (a b c : Option Json) → later a (later b c) ≡ later (later a b) c
        split none b c = refl
        split (some x) b c = refl

coordinator_read-write :
    (k j : Text) (v : Json) (a : Text) (m : SessionMemory Json)
    → coordinator_read j (write k v a m).1
      ≡ (if check_write k a m && (k == j) then some v else coordinator_read j m)
unfolding coordinator_read
coordinator_read-write k j v a m = ap value_of ((write_effect k j v a m).1) ∙ ground arith

coordinator_read-write_batch :
    (d : Dict Json) (j a : Text) (m : SessionMemory Json)
    → IsDistinct d
    → coordinator_read j (write_batch (map write_request d) a m).1 ≡ (
        if check_write j a m
        then later (lookup j d) (coordinator_read j m)
        else coordinator_read j m)
unfolding write_batch IsDistinct
coordinator_read-write_batch [] j a m distinct = unfold lookup in ground arith
coordinator_read-write_batch ((k, v) ∷ d) j a m (fresh, rest) =
    coordinator_read-write_batch d j a (write k v a m).1 rest
    ∙ rw (check_write-write k j v a a m, coordinator_read-write k j v a m, lookup-cons j k v d)
        (elim (Bool-cases (k == j)) [
          | inl same ↦
              let names : k ≡ j = (eq_iff k j).0 same in
              let gone : lookup j d ≡ none = ap (λ i. lookup i d) (sym names) ∙ fresh in
              rw (same, gone, names) (ground arith)
          | inr other ↦ rw other (ground arith)
        ])

policies-write_batch :
    (d : Dict Json) (a : Text) (m : SessionMemory Json)
    → (write_batch (map write_request d) a m).1.policies ≡ m.policies
unfolding write_batch
policies-write_batch [] a m = refl
policies-write_batch ((k, v) ∷ d) a m =
    policies-write_batch d a (write k v a m).1 ∙ policies-write k v a m

-- The context matches the model of the capability, where it has one.
abbrev pub AcceptsContext : List Skill → ExecuteMessage → Ambient → Type 0
AcceptsContext skills message before =
    check_context (input_model_for skills message.agent_capability_id) message.context
      (entered message before)
    ≡ none

memory_writes-handle_execute :
    (skills : List Skill) (actions : List Action) (outcome : TaskOutcome) (message : ExecuteMessage)
    (before : Ambient)
    → AcceptsContext skills message before
    → let writes = (handle_execute skills (doing actions outcome) message before).0.memory_writes in
      IsDistinct writes × ((k : Text) → lookup k writes ≡ last_remembered actions k)
unfolding handle_execute
memory_writes-handle_execute skills actions outcome message before accepts =
    let (d, there, one, values) =
      act_all-staged actions (entered message before) [] refl (unfold IsDistinct in tt) in
    let same : staged_writes (act_all actions (entered message before)) ≡ d = ap or_blank there in
    rw (accepts, same)
      (one, λ k. values k ∙ (unfold lookup in unstaged (last_remembered actions k)))
  where
    unstaged : (o : Option Json) → later o none ≡ o
    unstaged none = refl
    unstaged (some v) = refl

-- What a later step recalls of an earlier one. Agent `a` executes a step, whose context its model
-- accepts, and the coordinator applies the writes of its completion; then agent `b` gets a snapshot
-- and recalls a key. Where its policy does not let it read the key, this is the default. Where it does,
-- it is what `a` last remembered under the key if `a` may write it, else what was stored before, else
-- the default. So it is whatever the outcome of the task of `a`: a task that failed is no exception.
pub recall-handle_execute :
    (skills : List Skill) (actions : List Action) (outcome : TaskOutcome) (message : ExecuteMessage)
    (before after : Ambient) (a b k : Text) (default : Json) (m : SessionMemory Json)
    → AcceptsContext skills message before
    → let writes = (handle_execute skills (doing actions outcome) message before).0.memory_writes in
      let shared = (apply_writes writes a m).1 in
      recall k default (set_snapshot (some (snapshot_for_agent b shared).0) after).1 ≡ (
        if allows (λ p. p.read_patterns) (lookup b m.policies) k
        then value_or default (
            if check_write k a m
            then later (last_remembered actions k) (coordinator_read k m)
            else coordinator_read k m)
        else default)
unfolding recall apply_writes
recall-handle_execute skills actions outcome message before after a b k default m accepts =
    let writes = (handle_execute skills (doing actions outcome) message before).0.memory_writes in
    let (one, values) =
      memory_writes-handle_execute skills actions outcome message before accepts in
    rw
      (
        lookup-snapshot_for_agent k b (write_batch (map write_request writes) a m).1,
        policies-write_batch writes a m,
        coordinator_read-write_batch writes k a m one,
        values k,
      )
      (ground arith)
