-- ===== src/Guard/Resources.antt =====
-- `ScopedResource.get` of agentic_bus/agents/scope_guard.py: when its factory runs, and what it hands out.
use agentic_bus.Common.{false, ◌≡◌, refl, arith, some, Text}
use agentic_bus.Scopes.{normalise, covered_by_any}
use agentic_bus.Guard.{
  ScopeGrant, Outcome, ok, scope_denied, permits, require, Current, require_scope, Resource,
  after_check, get_resource,
}

require-refused :
    (g : ScopeGrant) (t : Text)
    → covered_by_any g.granted (normalise t) ≡ false
    → (require g t).0 ≡ scope_denied (normalise t) g.granted
unfolding require permits
require-refused g t h = rw h

module _ {W T : Type 0} (factory : W → T × W) where
  -- A grant that does not cover the scope gets no client: the factory does not run, and a client
  -- that was built before stays where it is.
  pub get_resource-refused :
      (r : Resource T) (g : ScopeGrant) (w : W)
      → covered_by_any g.granted (normalise r.scope) ≡ false
      → get_resource factory r (some g) w
        ≡ (scope_denied (normalise r.scope) g.granted, r, some (require g r.scope).1, w)
  unfolding get_resource require_scope
  get_resource-refused r g w refused = rw (require-refused g r.scope refused)

  -- After the first success the factory does not run again, and the client that is handed out is
  -- still the first one.
  pub get_resource-kept :
      (r r' : Resource T) (current current' later : Current) (v : T) (w w' u : W)
      → get_resource factory r current w ≡ (ok v, r', current', w')
      → ((get_resource factory r' later u).3 ≡ u)
        × ((x : T) → (get_resource factory r' later u).0 ≡ ok x → x ≡ v)
  unfolding get_resource
  get_resource-kept r r' current current' later v w w' u e =
      let kept = built r current v w (require_scope r.scope current) e in
      from_check (require_scope r'.scope later) kept
    where
      built :
          (r : Resource T) (current : Current) (v : T) (w : W) (c : Outcome (Unit {0}) × Current)
          → after_check factory c r w ≡ (ok v, r', current', w')
          → r'.value ≡ some v
      built r current v w (scope_denied s g, c) k = cc
      built r current v w (ok _, c) k = ground arith

      from_check :
          (c : Outcome (Unit {0}) × Current)
          → r'.value ≡ some v
          → ((after_check factory c r' u).3 ≡ u)
            × ((x : T) → (after_check factory c r' u).0 ≡ ok x → x ≡ v)
      from_check (scope_denied s g, c) k = (refl, λ x h. cc)
      from_check (ok _, c) k = (ground arith, λ x h. ground arith)
