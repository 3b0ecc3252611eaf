-- ===== src/Guard/Reconciliation.antt =====
-- The coordinator's reading of a usage report (`_reconcile_scope_usage` of
-- agentic_bus/coordinator/runtime.py), against the grant that the agent worked under.
use agentic_bus.Common.{
  List, [], ◌∷◌, true, false, not, ◌≡◌, ◌≢◌, ◌↔◌, inl, inr, refl, sym, arith, some, Text, In,
  In-keep, In-keep_of,
}
use agentic_bus.Scopes.{normalise, covered_by_any}
use agentic_bus.Authority.{Bindings, exceeded_scopes, grant_for}
use agentic_bus.Guard.{ScopeGrant, ok, permits, append_new, require, scope_is_held}
use agentic_bus.Guard.Reports.{
  run, run-used_iff, run-denied_iff, require-ok_iff, require-used, In-append_new, In-record_use,
}

abbrev pub fresh_grant : Text → Text → List Text → ScopeGrant
fresh_grant session_id capability_id granted = record {
  session_id = session_id;
  capability_id = capability_id;
  granted = granted;
  used = [];
  denied = [];
}

covered_by_nothing : (s : Text) → covered_by_any [] s ≡ false
unfolding covered_by_any
covered_by_nothing s = refl

exceeded_iff :
    (granted used : List Text) (s : Text)
    → In s (exceeded_scopes granted used) ↔ (In s used × (covered_by_any granted s ≡ false))
unfolding exceeded_scopes
exceeded_iff [] used s = (λ m. (m, covered_by_nothing s), λ (m, _). m)
exceeded_iff (g ∷ gs) used s = (
  λ m. let (n, t) = In-keep (λ t. not (covered_by_any (g ∷ gs) t)) s used m in (n, ground arith),
  λ (m, e). In-keep_of (λ t. not (covered_by_any (g ∷ gs) t)) s used m (rw e),
)

-- Where the agent works under a fresh grant of the very scopes that the coordinator reconciles
-- against, and only requires scopes, what is reported beyond the grant is exactly what was required,
-- non-empty, and refused. An agent that asks by `scope_is_held` is apart.
pub exceeded-denied :
    (session_id capability_id : Text) (granted scopes : List Text) (s : Text)
    → let g = fresh_grant session_id capability_id granted in
      In s (exceeded_scopes granted (run g scopes).used) ↔ (In s (run g scopes).denied × (s ≢ []))
exceeded-denied session_id capability_id granted scopes s =
    let g = fresh_grant session_id capability_id granted in
    let (to, from) = exceeded_iff granted (run g scopes).used s in
    let (used, use_of) = run-used_iff g scopes s in
    let (denied, deny_of) = run-denied_iff g scopes s in
    (
      λ m.
          let (n, e) = to m in
          elim (used n) [
            | inl none_yet ↦ absurd none_yet
            | inr (r, named) ↦ (deny_of (inr (r, e)), named)
          ],
      λ (m, named). elim (denied m) [
        | inl none_yet ↦ absurd none_yet
        | inr (r, e) ↦ from (use_of (inr (r, named)), e)
      ],
    )

-- Under enforcement, where the capability names no scope, the agent is sent its binding and may use
-- what that covers, but the coordinator reconciles against the capability: each such use, none of
-- it refused, is reported as beyond the grant.
pub lawful_use_reported :
    (bindings : Bindings) (session_id capability_id agent_id step_capability : Text)
    (bound : List Text) (scope : Text)
    → bindings agent_id step_capability ≡ some bound
    → normalise scope ≢ []
    → covered_by_any bound (normalise scope) ≡ true
    → let g =
        fresh_grant session_id capability_id
          (grant_for true bindings agent_id step_capability []) in
      ((require g scope).0 ≡ ok tt)
      × In (normalise scope) (exceeded_scopes [] (require g scope).1.used)
lawful_use_reported bindings session_id capability_id agent_id step_capability bound scope e named
      covered =
    let sent : grant_for true bindings agent_id step_capability [] ≡ bound =
      unfold grant_for in rw e in
    let g =
      fresh_grant session_id capability_id (grant_for true bindings agent_id step_capability []) in
    (
      (require-ok_iff g scope).0.1 (rw sent covered),
      (exceeded_iff [] (require g scope).1.used (normalise scope)).1 (
        rw (require-used g scope)
            ((In-record_use (normalise scope) (normalise scope) []).1 (inr (refl, named))),
        covered_by_nothing (normalise scope),
      ),
    )

-- Asking whether an uncovered scope, in canonical form, is held, without doing anything, is on
-- record as a use of it, and the coordinator reports it as beyond the grant.
pub probe_reported :
    (g : ScopeGrant) (scope : Text)
    → scope ≢ []
    → normalise scope ≡ scope
    → covered_by_any g.granted scope ≡ false
    → (g' : ScopeGrant) × (scope_is_held scope (some g) ≡ (false, some g'))
      × In scope (exceeded_scopes g.granted g'.used)
unfolding scope_is_held permits
probe_reported g [] named canonical refused = absurd (named refl)
probe_reported g (c ∷ cs) named canonical refused = (
  record g { used = append_new (normalise (c ∷ cs)) g.used },
  rw refused,
  (exceeded_iff g.granted (append_new (normalise (c ∷ cs)) g.used) (c ∷ cs)).1
      ((In-append_new (c ∷ cs) (normalise (c ∷ cs)) g.used).1 (inr (sym canonical)), refused),
)
