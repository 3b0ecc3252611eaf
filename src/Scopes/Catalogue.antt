-- ===== src/Scopes/Catalogue.antt =====
-- What `ScopePolicy.resolve` concludes about the names that a registration declares.
use agentic_bus.Common.{
  List, [], ◌∷◌, ◌++◌, true, false, ◌≡◌, ◌↔◌, ◌⊎◌, inl, inr, refl, sym, subst, arith, Bool-cases,
  Text, In, In-append_left, In-append_right, In-append_cases, elem, elem→In,
}
use agentic_bus.Scopes.{
  normalise, is_well_formed, covered_by_any, ScopePolicy, ScopeDecision, no_decision, file_scope,
  resolve_from, resolve,
}

-- A declared name has the canonical form `s`.
pub record Declares (declared : List Text) (s : Text) : Type 0 where
  pub raw : Text
  pub listed : In raw declared
  pub canonical : normalise raw ≡ s

Declares-cons :
    {raw : Text} {declared : List Text} {s : Text}
    → Declares declared s
    → Declares (raw ∷ declared) s
Declares-cons d = record { raw = d.raw; listed = inr d.listed; canonical = d.canonical }

In-snoc : (s t : Text) (xs : List Text) → In s (xs ++ t ∷ []) → In s xs ⊎ (s ≡ t)
In-snoc s t xs m = elim (In-append_cases s xs (t ∷ []) m) [
  | inl l ↦ inl l
  | inr (inl e) ↦ inr e
  | inr (inr h) ↦ absurd h
]

In-snoc_last : (s t : Text) (xs : List Text) → s ≡ t → In s (xs ++ t ∷ [])
In-snoc_last s t xs e = In-append_right s xs (t ∷ []) (inl e)

-- One of the decision's lists, `field`, holds exactly the names that `Q` describes.
module _ (p : ScopePolicy) (catalogue : List Text) (field : ScopeDecision → List Text)
    (Q : Text → Type 0)
    (adds_only : (raw scope s : Text) (d : ScopeDecision)
      → In s (field (file_scope p catalogue raw scope d))
      → In s (field d) ⊎ ((s ≡ scope) × Q scope))
    (keeps : (raw scope s : Text) (d : ScopeDecision)
      → In s (field d)
      → In s (field (file_scope p catalogue raw scope d)))
    (adds : (raw scope : Text) (d : ScopeDecision)
      → Q scope
      → In scope (field (file_scope p catalogue raw scope d))) where
  sound :
      (declared seen : List Text) (d : ScopeDecision) (s : Text)
      → In s (field (resolve_from p catalogue declared seen d))
      → In s (field d) ⊎ (Declares declared s × Q s)
  unfolding resolve_from
  sound [] seen d s m = inl m
  sound (raw ∷ declared) seen d s m = elim (Bool-cases (elem (normalise raw) seen)) [
    | inl old ↦ later (sound declared seen d s (rw old at m))
    | inr new ↦ fresh (sound declared (normalise raw ∷ seen) _ s (rw new at m))
  ]
    where
      later :
          In s (field d) ⊎ (Declares declared s × Q s)
          → In s (field d) ⊎ (Declares (raw ∷ declared) s × Q s)
      later (inl h) = inl h
      later (inr (h, q)) = inr (Declares-cons h, q)

      here :
          In s (field d) ⊎ ((s ≡ normalise raw) × Q (normalise raw))
          → In s (field d) ⊎ (Declares (raw ∷ declared) s × Q s)
      here (inl h) = inl h
      here (inr (e, q)) =
          inr (record { raw = raw; listed = inl refl; canonical = sym e }, subst Q (sym e) q)

      fresh :
          In s (field (file_scope p catalogue raw (normalise raw) d)) ⊎ (Declares declared s × Q s)
          → In s (field d) ⊎ (Declares (raw ∷ declared) s × Q s)
      fresh (inl h) = here (adds_only raw (normalise raw) s d h)
      fresh (inr (h, q)) = inr (Declares-cons h, q)

  stays :
      (declared seen : List Text) (d : ScopeDecision) (s : Text)
      → In s (field d)
      → In s (field (resolve_from p catalogue declared seen d))
  unfolding resolve_from
  stays [] seen d s m = m
  stays (raw ∷ declared) seen d s m = elim (Bool-cases (elem (normalise raw) seen)) [
    | inl old ↦ rw old (stays declared seen d s m)
    | inr new ↦ rw new (stays declared (normalise raw ∷ seen) _ s (keeps raw (normalise raw) s d m))
  ]

  -- What was seen before is on the list already, if it belongs there.
  Settled : List Text → ScopeDecision → Type 0
  Settled seen d = (t : Text) → In t seen → Q t → In t (field d)

  Settled-file :
      (raw : Text) (seen : List Text) (d : ScopeDecision)
      → Settled seen d
      → Settled (normalise raw ∷ seen) (file_scope p catalogue raw (normalise raw) d)
  unfolding Settled
  Settled-file raw seen d h t (inl e) q =
      subst (λ u. In u (field (file_scope p catalogue raw (normalise raw) d))) (sym e)
        (adds raw (normalise raw) d (subst Q e q))
  Settled-file raw seen d h t (inr m) q = keeps raw (normalise raw) t d (h t m q)

  complete :
      (declared seen : List Text) (d : ScopeDecision) (raw : Text)
      → Settled seen d
      → In raw declared
      → Q (normalise raw)
      → In (normalise raw) (field (resolve_from p catalogue declared seen d))
  unfolding resolve_from
  complete [] seen d raw h m q = absurd m
  complete (r ∷ declared) seen d raw h (inl e) q = elim (Bool-cases (elem (normalise r) seen)) [
    | inl old ↦
        rw (e, old)
          (stays declared seen d (normalise r)
            (unfold Settled in h (normalise r) (elem→In (normalise r) seen old) (rw e at q)))
    | inr new ↦
        rw (e, new)
          (stays declared (normalise r ∷ seen) _ (normalise r) (adds r (normalise r) d (rw e at q)))
  ]
  complete (r ∷ declared) seen d raw h (inr m) q = elim (Bool-cases (elem (normalise r) seen)) [
    | inl old ↦ rw old (complete declared seen d raw h m q)
    | inr new ↦ rw new (complete declared (normalise r ∷ seen) _ raw (Settled-file r seen d h) m q)
  ]

  exact :
      (declared : List Text) (s : Text)
      → field no_decision ≡ []
      → In s (field (resolve p declared catalogue)) ↔ (Declares declared s × Q s)
  unfolding resolve Settled
  exact declared s empty = (
    λ m. elim (sound declared [] no_decision s m) [
      | inl h ↦ absurd (rw empty at h)
      | inr found ↦ found
    ],
    λ (d, q).
        subst (λ t. In t (field (resolve_from p catalogue declared [] no_decision))) d.canonical
          (complete declared [] no_decision d.raw (λ t m _. absurd m) d.listed
            (subst Q (sym d.canonical) q)),
  )

-- A name that the coordinator may act on.
abbrev pub Recognised : ScopePolicy → List Text → Text → Type 0
Recognised p catalogue s =
    (is_well_formed s ≡ true) × ((covered_by_any catalogue s ≡ true) ⊎ (p.enforced ≡ false))

abbrev pub Requested : ScopePolicy → List Text → Text → Type 0
Requested p catalogue s =
    (is_well_formed s ≡ true) × (covered_by_any catalogue s ≡ false) × (p.enforced ≡ true)

-- Recognised are exactly the declared names, in canonical form, that are well formed and that
-- the catalogue covers or the policy, in development, adds.
pub resolve-recognised_iff :
    (p : ScopePolicy) (declared catalogue : List Text) (s : Text)
    → In s (resolve p declared catalogue).recognised
      ↔ (Declares declared s × Recognised p catalogue s)
unfolding file_scope
resolve-recognised_iff p declared catalogue s =
    exact p catalogue (λ d. d.recognised) (Recognised p catalogue)
      (λ raw scope t d m. ground (arith, In-snoc t scope d.recognised))
      (λ raw scope t d m. ground (arith, In-append_left t d.recognised (scope ∷ [])))
      (λ raw scope d q. ground (arith, In-snoc_last scope scope d.recognised)) declared s refl

-- Recorded as requests are exactly the declared names, in canonical form, that are well formed and
-- outside the catalogue, under an enforcing policy.
pub resolve-unrecognised_iff :
    (p : ScopePolicy) (declared catalogue : List Text) (s : Text)
    → In s (resolve p declared catalogue).unrecognised
      ↔ (Declares declared s × Requested p catalogue s)
unfolding file_scope
resolve-unrecognised_iff p declared catalogue s =
    exact p catalogue (λ d. d.unrecognised) (Requested p catalogue)
      (λ raw scope t d m. ground (arith, In-snoc t scope d.unrecognised))
      (λ raw scope t d m. ground (arith, In-append_left t d.unrecognised (scope ∷ [])))
      (λ raw scope d q. ground (arith, In-snoc_last scope scope d.unrecognised)) declared s refl
