-- ===== src/Authority/Delegation.antt =====
-- The chain of delegation: what a grant and a dispatch are bounded by.
use agentic_bus.Common.{
  ℕ, List, [], ◌∷◌, true, false, not, ◌≡◌, ◌≢◌, ◌⊎◌, inl, inr, refl, arith, Option, none, some,
  Bool-cases, Text, In, In-keep_of, keep, is_empty_iff,
}
use agentic_bus.Scopes.{narrow, covered_by_any}
use agentic_bus.Scopes.Bounds.{CoveredBy, covered_by_any_iff, narrow_iff, intersect_iff}
use agentic_bus.Registry.{CapabilityRegistry}
use agentic_bus.Ibac.Capability.{IsoTime, Capability, check}
use agentic_bus.Ibac.Capability.Checks.{Fits, check-none_iff}
use agentic_bus.Authority.{
  Bindings, capability_scopes, declared_scopes, not_covered, ungranted_scopes, grant_for,
  dispatch_guard,
}

-- Under enforcement, where the capability names a scope, each scope that an agent is granted was
-- claimed by the requester, is within the requester's authority (if the credential states one) and
-- is covered by a binding.
pub grant_for_bounded :
    (bindings : Bindings) (agent_id capability_id : Text) (claims authority bound : List Text)
    (s : Text)
    → bindings agent_id capability_id ≡ some bound
    → capability_scopes claims authority ≢ []
    → In s (grant_for true bindings agent_id capability_id (capability_scopes claims authority))
    → In s claims × ((authority ≡ []) ⊎ CoveredBy authority s) × CoveredBy bound s
unfolding grant_for capability_scopes
grant_for_bounded bindings agent_id capability_id claims authority bound s e named m =
    let (kept, by) =
      (intersect_iff (narrow claims authority) bound s).0
        (rw (e, (is_empty_iff (narrow claims authority)).1 named) at m) in
    let (claimed, within) = (narrow_iff claims authority s).0 kept in (claimed, within, by)

-- A binding that cannot be read grants nothing under enforcement.
pub unreadable_grants_nothing :
    (bindings : Bindings) (agent_id capability_id : Text) (scopes : List Text)
    → bindings agent_id capability_id ≡ none
    → grant_for true bindings agent_id capability_id scopes ≡ []
unfolding grant_for
unreadable_grants_nothing bindings agent_id capability_id scopes e = rw e

none_kept :
    (claims authority : List Text)
    → ((s : Text) → In s claims → covered_by_any authority s ≡ false)
    → authority ≢ []
    → narrow claims authority ≡ []
unfolding narrow
none_kept claims [] h some_authority = absurd (some_authority refl)
none_kept claims (a ∷ as') h some_authority = drop_all claims h
  where
    drop_all :
        (xs : List Text)
        → ((s : Text) → In s xs → covered_by_any (a ∷ as') s ≡ false)
        → keep (covered_by_any (a ∷ as')) xs ≡ []
    drop_all [] k = refl
    drop_all (x ∷ xs) k = rw (k x (inl refl)) (drop_all xs (λ s m. k s (inr m)))

-- Where the requester's authority covers none of what was claimed, the capability names no scope,
-- which reads as no limit: under enforcement the agent is granted its whole binding, and the
-- capability's own check lets every scope pass until it expires.
pub empty_delegation_escalates :
    (iso : IsoTime) (bindings : Bindings) (agent_id capability_id : Text)
    (claims authority bound scopes : List Text) (c : Capability) (now : ℕ)
    → authority ≢ []
    → ((s : Text) → In s claims → covered_by_any authority s ≡ false)
    → bindings agent_id capability_id ≡ some bound
    → c.scopes ≡ capability_scopes claims authority
    → Fits iso c agent_id [] now
    → (grant_for true bindings agent_id capability_id (capability_scopes claims authority) ≡ bound)
      × (check iso c agent_id scopes now ≡ none)
unfolding grant_for capability_scopes
empty_delegation_escalates iso bindings agent_id capability_id claims authority bound scopes c now
      limited outside e issued fits =
    let empty = none_kept claims authority outside limited in
    (
      rw (empty, e),
      (check-none_iff iso c agent_id scopes now).1 (record {
        in_time = fits.in_time;
        by_principal = fits.by_principal;
        within = λ s m. inl (rw (issued, empty));
      }),
    )

In-ungranted :
    (bindings : Bindings) (agent_id capability_id : Text) (required : List Text)
    → ungranted_scopes bindings agent_id capability_id required ≡ []
    → capability_id ≢ []
    → (s : Text) → In s required
    → (bound : List Text) × (bindings agent_id capability_id ≡ some bound) × CoveredBy bound s
unfolding ungranted_scopes
In-ungranted bindings agent_id capability_id [] none_missing named s m = absurd m
In-ungranted bindings agent_id [] (x ∷ xs) none_missing named s m = absurd (named refl)
In-ungranted bindings agent_id (c ∷ cs) (x ∷ xs) none_missing named s m =
    from (bindings agent_id (c ∷ cs)) refl none_missing
  where
    from :
        (o : Option (List Text))
        → bindings agent_id (c ∷ cs) ≡ o
        → not_covered (x ∷ xs) o ≡ []
        → (bound : List Text) × (bindings agent_id (c ∷ cs) ≡ some bound) × CoveredBy bound s
    from none e k = cc
    from (some bound) e k = (bound, e, covered bound k)
      where
        covered : (bound : List Text) → not_covered (x ∷ xs) (some bound) ≡ [] → CoveredBy bound s
        covered bound k = elim (Bool-cases (covered_by_any bound s)) [
          | inl found ↦ (covered_by_any_iff bound s).0 found
          | inr lost ↦
              absurd
                (rw k at (In-keep_of (λ t. not (covered_by_any bound t)) s (x ∷ xs) m (rw lost)))
        ]

-- Under enforcement a step of an agent's capability with a non-empty id is dispatched only if the
-- session's capability, where there is one, fits the agent and its declared scopes, and a binding
-- covers each declared scope. For an empty id the code asks for no binding, and nothing is claimed.
pub dispatch_guard_sound :
    (iso : IsoTime) (bindings : Bindings) (r : CapabilityRegistry) (capability : Option Capability)
    (agent_id capability_id : Text) (now : ℕ)
    → capability_id ≢ []
    → dispatch_guard iso true bindings r capability agent_id capability_id now ≡ none
    → ((c : Capability)
        → capability ≡ some c
        → Fits iso c agent_id (declared_scopes r agent_id capability_id) now)
      × ((s : Text)
          → In s (declared_scopes r agent_id capability_id)
          → (bound : List Text) × (bindings agent_id capability_id ≡ some bound)
            × CoveredBy bound s)
unfolding dispatch_guard
dispatch_guard_sound iso bindings r capability agent_id capability_id now named passed =
    let required = declared_scopes r agent_id capability_id in
    let missing = ungranted_scopes bindings agent_id capability_id required in
    (
      λ c e. (check-none_iff iso c agent_id required now).0 (ground arith),
      In-ungranted bindings agent_id capability_id required (ground arith) named,
    )
