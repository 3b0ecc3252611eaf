-- ===== src/Guard.antt =====
-- The agent-side scope guard (agentic_bus/agents/scope_guard.py). The grant of the running task is
-- the state: none outside an execution. A raised `ScopeDenied` is an outcome beside the state,
-- which keeps what was recorded before the raise.
mod Examples
pub mod Reports
pub mod Reconciliation
pub mod Resources
use agentic_bus.Common.{
  List, [], ◌∷◌, ◌++◌, Bool, true, false, not, ◌&&◌, Option, none, some, if◌then◌else◌, Text, elem,
  is_empty,
}
use agentic_bus.Scopes.{normalise, covered_by_any}

pub record ScopeGrant : Type 0 where
  pub session_id : Text
  pub capability_id : Text
  pub granted : List Text
  pub used : List Text
  pub denied : List Text

-- `ScopeDenied(scope, granted)`
pub data Outcome {ℓ} (A : Type ℓ) : Type ℓ where
  ok : A → Outcome A
  scope_denied : (scope : Text) (granted : List Text) → Outcome A

unfoldable pub permits : ScopeGrant → Text → Bool
permits g scope = covered_by_any g.granted scope

-- if scope not in xs: xs.append(scope)
abbrev pub append_new : Text → List Text → List Text
append_new scope xs = if elem scope xs then xs else xs ++ scope ∷ []

abbrev pub record_use : Text → List Text → List Text
record_use scope used = if is_empty scope then used else append_new scope used

-- The body of `ScopeGrant.require` below the line that normalises the scope.
unfoldable pub require_normal : ScopeGrant → Text → Outcome (Unit {0}) × ScopeGrant
require_normal g scope =
    let used = record_use scope g.used in
    if permits g scope then (ok tt, record g { used = used }) else (
      scope_denied scope g.granted,
      record g { used = used; denied = append_new scope g.denied },
    )

unfoldable pub require : ScopeGrant → Text → Outcome (Unit {0}) × ScopeGrant
unfolding require_normal
require g scope = require_normal g (normalise scope)

-- The grant of the current task, as `_current` holds it.
abbrev pub Current : Type 0
Current = Option ScopeGrant

-- `reset_grant` puts back what `set_grant` replaced.
abbrev pub set_grant : Option ScopeGrant → Current → Option ScopeGrant × Current
set_grant grant current = (current, grant)

abbrev pub reset_grant : Option ScopeGrant → Current → Current
reset_grant token current = token

unfoldable pub require_scope : Text → Current → Outcome (Unit {0}) × Current
require_scope scope none = (ok tt, none)
require_scope scope (some g) = let (outcome, g') = require g scope in (outcome, some g')

unfoldable pub scope_is_held : Text → Current → Bool × Current
scope_is_held scope none = (true, none)
scope_is_held scope (some g) =
    let used = if is_empty scope then g.used else append_new (normalise scope) g.used in
    (permits g scope, some (record g { used = used }))

-- A `ScopedResource`: the value is none until the factory has run.
pub record Resource (T : Type 0) : Type 0 where
  pub scope : Text
  pub value : Option T

module _ {W T : Type 0} (factory : W → T × W) where
  abbrev pub is_built : Resource T → Bool
  is_built r = elim r.value [ none ↦ false | some v ↦ true ]

  -- Behind the check. The factory works on the world `W`.
  abbrev pub hand_out : Option T → Resource T → W → T × Resource T × W
  hand_out (some v) r w = (v, r, w)
  hand_out none r w = let (v, w') = factory w in (v, record r { value = some v }, w')

  abbrev pub after_check :
      Outcome (Unit {0}) × Current → Resource T → W → Outcome T × Resource T × Current × W
  after_check (scope_denied scope granted, current) r w =
      (scope_denied scope granted, r, current, w)
  after_check (ok _, current) r w =
      let (v, r', w') = hand_out r.value r w in (ok v, r', current, w')

  unfoldable pub get_resource : Resource T → Current → W → Outcome T × Resource T × Current × W
  get_resource r current w = after_check (require_scope r.scope current) r w
