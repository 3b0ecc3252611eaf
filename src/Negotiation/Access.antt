-- ===== src/Negotiation/Access.antt =====
-- What the agents of a composed plan may read and write: agentic_bus/coordinator/negotiation/engine.py
-- with agentic_bus/core/session/memory.py.
use mathlib.Core.Bool.{false≢true}
use mathlib.Core.List.{append_assoc, append-nil}
use agentic_bus.Common.{
  List, [], ◌∷◌, ◌++◌, Bool, true, false, not, ◌||◌, some, Bool-cases, Text, codes, ◌==◌, eq_iff,
  eq_self, keep, any, all, nat_eq, map, In, lookup, lookup-insert, ◌≡◌, ◌≢◌, ◌↔◌, ◌⊎◌, inl, inr,
  refl, sym, ◌∙◌, arith,
}
use agentic_bus.Sessions.{PlanStep}
use agentic_bus.Memory.{SessionMemory, coordinator, set_policy, check_read, check_write}
use agentic_bus.Memory.Glob.{star, matches_pattern}
use agentic_bus.Memory.Patterns.{
  NoStar, NoNewline, IsLine, matches_namespace_iff, matches_literal_iff,
}
use agentic_bus.Negotiation.Policies.{
  access_of, stem, namespace, shared_key, inferred_policy, policy_of, policies_from,
  infer_memory_policies, set_policies,
}

-- The key is in the agent's namespace: its name and a dot, and anything on one line behind it.
abbrev pub InNamespace : Text → Text → Type 0
InNamespace key name = (r : Text) × IsLine key (stem name ++ r) × NoNewline r

-- No later step has the agent.
abbrev pub IsAbsent : Text → List PlanStep → Type 0
IsAbsent a [] = Unit {0}
IsAbsent a (s ∷ steps) = ((s.agent_id == a) ≡ false) × IsAbsent a steps

-- The agents of some steps, behind others.
abbrev agents_behind : List Text → List PlanStep → List Text
agents_behind prior [] = prior
agents_behind prior (s ∷ steps) = agents_behind (prior ++ s.agent_id ∷ []) steps

abbrev pub agents_of : List PlanStep → List Text
agents_of steps = map (λ (s : PlanStep). s.agent_id) steps

agents_behind-append :
    (prior : List Text) (steps : List PlanStep)
    → agents_behind prior steps ≡ prior ++ agents_of steps
agents_behind-append prior [] = sym (append-nil prior)
agents_behind-append prior (s ∷ steps) =
    agents_behind-append (prior ++ s.agent_id ∷ []) steps
    ∙ append_assoc prior (s.agent_id ∷ []) (agents_of steps)

NoStar-append : (s t : Text) → NoStar s → NoStar t → NoStar (s ++ t)
NoStar-append [] t h k = k
NoStar-append (c ∷ s) t (n, h) k = (n, NoStar-append s t h k)

namespace_iff :
    (key name : Text)
    → NoStar name
    → (matches_pattern key (namespace name) ≡ true) ↔ InNamespace key name
namespace_iff key name h =
    matches_namespace_iff (stem name) key (NoStar-append name (codes ".") h (ground arith, tt))

pub starless : (s : Text) → all (λ c. not (nat_eq c star)) s ≡ true → NoStar s
starless [] h = tt
starless (c ∷ s) h = (ground arith, starless s (ground arith))

or_iff : {P Q : Type 0} (b c : Bool) → (b ≡ true) ↔ P → (c ≡ true) ↔ Q → ((b || c) ≡ true) ↔ (P ⊎ Q)
or_iff true c (p, _) (q, _) = (λ e. inl (p e), λ _. refl)
or_iff false c (p, p') (q, q') =
    (λ e. inr (q e), λ h. elim h [ inl x ↦ absurd (false≢true (p' x)) | inr y ↦ q' y ])

or_false_iff : {P : Type 0} (b : Bool) → (b ≡ true) ↔ P → ((b || false) ≡ true) ↔ P
or_false_iff true h = h
or_false_iff false h = h

any-namespace_iff :
    (key : Text) (test : Text → Bool) (names : List Text)
    → ((name : Text) → In name names → NoStar name)
    → (any (λ p. matches_pattern key p) (map namespace (keep test names)) ≡ true)
      ↔ ((name : Text) × In name names × (test name ≡ true) × InNamespace key name)
any-namespace_iff key test [] stars = (λ e. absurd (false≢true e), λ (name, m, _, _). absurd m)
any-namespace_iff key test (n ∷ names) stars =
    let (to, from) = any-namespace_iff key test names (λ name m. stars name (inr m)) in
    elim (Bool-cases (test n)) [
      | inr f ↦ rw f (
        λ e. let (name, m, t, w) = to e in (name, inr m, t, w),
        λ (name, m, t, w). elim m [
          | inl same ↦ absurd (clash (rw same at t) f)
          | inr later ↦ from (name, later, t, w)
        ],
      )
      | inl t ↦
          let (out, back) =
            or_iff (matches_pattern key (namespace n)) _ (namespace_iff key n (stars n (inl refl)))
              (to, from) in
          rw t (
            λ e. elim (out e) [
              | inl here ↦ (n, inl refl, t, here)
              | inr (name, m, t', w) ↦ (name, inr m, t', w)
            ],
            λ (name, m, t', w). elim m [
              | inl same ↦ back (inl (rw same at w))
              | inr later ↦ back (inr (name, later, t', w))
            ],
          )
    ]
  where
    clash : {b : Bool} → b ≡ true → b ≡ false → ⊥
    clash p q = cc

shared_iff :
    (key capability_id : Text)
    → NoStar capability_id
    → (matches_pattern key (shared_key capability_id) ≡ true)
      ↔ IsLine key (shared_key capability_id)
shared_iff key capability_id h =
    matches_literal_iff (shared_key capability_id) key
      (NoStar-append (codes "shared.") capability_id (starless (codes "shared.") refl) h)

module _ {V : Type 0} where
  set_policies-IsAbsent :
      (a : Text) (prior : List Text) (steps : List PlanStep) (memory : SessionMemory V)
      → IsAbsent a steps
      → lookup a (set_policies (policies_from prior (map access_of steps)) memory).policies
        ≡ lookup a memory.policies
  unfolding set_policies policies_from policy_of set_policy
  set_policies-IsAbsent a prior [] memory h = refl
  set_policies-IsAbsent a prior (s ∷ steps) memory (n, h) =
      set_policies-IsAbsent a (prior ++ s.agent_id ∷ []) steps _ h ∙ rw (lookup-insert, n) refl

  set_policies-last :
      (prior : List Text) (before after : List PlanStep) (step : PlanStep)
      (memory : SessionMemory V)
      → IsAbsent step.agent_id after
      → lookup step.agent_id
          (set_policies
            (policies_from prior (map access_of (before ++ step ∷ after)))
            memory).policies
        ≡ some (inferred_policy (agents_behind prior before) (access_of step))
  unfolding set_policies policies_from policy_of set_policy
  set_policies-last prior [] after step memory h =
      set_policies-IsAbsent step.agent_id (prior ++ step.agent_id ∷ []) after _ h
      ∙ rw (lookup-insert, eq_self step.agent_id) refl
  set_policies-last prior (s ∷ before) after step memory h =
      set_policies-last (prior ++ s.agent_id ∷ []) before after step _ h

  -- The memory of a session under the policies of a plan's steps.
  abbrev pub under : List PlanStep → SessionMemory V → SessionMemory V
  under steps memory = set_policies (infer_memory_policies (map access_of steps)) memory

  -- For an agent that is not the coordinator and whose name and capability hold no star, the inferred
  -- policies allow writing exactly the shared key of its capability, that of its last step where it has
  -- several, also with a newline behind the key, and the keys of its own namespace: its name, a dot,
  -- and anything on one line, also with a newline behind it.
  pub inferred_write_iff :
      (before after : List PlanStep) (step : PlanStep) (memory : SessionMemory V) (key : Text)
      → IsAbsent step.agent_id after
      → (step.agent_id == coordinator) ≡ false
      → NoStar step.agent_id
      → NoStar step.capability_id
      → (check_write key step.agent_id (under (before ++ step ∷ after) memory) ≡ true)
        ↔ (IsLine key (shared_key step.capability_id) ⊎ InNamespace key step.agent_id)
  unfolding check_write infer_memory_policies
  inferred_write_iff before after step memory key last other a c =
      rw (other, set_policies-last [] before after step memory last)
        (or_iff (matches_pattern key (shared_key step.capability_id)) _
          (shared_iff key step.capability_id c)
          (or_false_iff (matches_pattern key (namespace step.agent_id))
            (namespace_iff key step.agent_id a)))

  -- For an agent that is not the coordinator, where the names of the agents before its last step hold
  -- no star, the inferred policies allow reading exactly what is shared and the namespaces of the
  -- other agents that come before this step. Its own namespace is not among them, and an agent behind it
  -- in the plan may read that namespace.
  pub inferred_read_iff :
      (before after : List PlanStep) (step : PlanStep) (memory : SessionMemory V) (key : Text)
      → IsAbsent step.agent_id after
      → (step.agent_id == coordinator) ≡ false
      → ((name : Text) → In name (agents_of before) → NoStar name)
      → (check_read key step.agent_id (under (before ++ step ∷ after) memory) ≡ true) ↔ (
          InNamespace key (codes "shared")
          ⊎ ((name : Text) × In name (agents_of before)
              × (name ≢ step.agent_id)
              × InNamespace key name))
  unfolding check_read infer_memory_policies
  inferred_read_iff before after step memory key last other stars =
      rw (other, set_policies-last [] before after step memory last, agents_behind-append [] before)
        (or_iff (matches_pattern key (namespace (codes "shared"))) _
          (namespace_iff key (codes "shared") (starless (codes "shared") refl))
          (
            λ e.
                let (name, m, t, w) =
                  (any-namespace_iff key (λ b. not (b == step.agent_id)) (agents_of before) stars).0
                    e in
                (name, m, λ same. different name step.agent_id t same, w),
            λ (name, m, n, w).
                (any-namespace_iff key (λ b. not (b == step.agent_id)) (agents_of before) stars).1
                  (name, m, apart name step.agent_id n, w),
          ))
    where
      different : (b c : Text) → not (b == c) ≡ true → b ≢ c
      different b c t same = ground (arith, eq_iff b c)

      apart : (b c : Text) → b ≢ c → not (b == c) ≡ true
      apart b c n = ground (arith, eq_iff b c)
