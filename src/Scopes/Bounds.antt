-- ===== src/Scopes/Bounds.antt =====
-- Bounding a request by a ceiling (`narrow`) or by a grant (`intersect`).
use agentic_bus.Common.{
  List, [], ◌∷◌, true, ◌≡◌, ◌↔◌, ◌⊎◌, inl, inr, refl, arith, Text, In, In-keep, In-keep_of,
  any-of-In, In-of-any,
}
use agentic_bus.Scopes.{covers, covered_by_any, narrow, intersect}
use agentic_bus.Scopes.Coverage.{covers_trans}

-- Some scope of `granted` covers `s`.
pub record CoveredBy (granted : List Text) (s : Text) : Type 0 where
  pub holder : Text
  pub held : In holder granted
  pub covering : covers holder s ≡ true

pub covered_by_any_iff :
    (granted : List Text) (s : Text) → (covered_by_any granted s ≡ true) ↔ CoveredBy granted s
unfolding covered_by_any
covered_by_any_iff granted s = (
  λ h.
      let (g, m, t) = In-of-any (λ g. covers g s) granted h in
      record { holder = g; held = m; covering = t },
  λ c. any-of-In (λ g. covers g s) c.holder granted c.held c.covering,
)

-- Of the request, `narrow` keeps exactly what the ceiling covers, and all of it under an empty
-- ceiling.
pub narrow_iff :
    (requested ceiling : List Text) (s : Text)
    → In s (narrow requested ceiling) ↔ (In s requested × ((ceiling ≡ []) ⊎ CoveredBy ceiling s))
unfolding narrow
narrow_iff requested [] s = (λ m. (m, inl refl), λ h. h.0)
narrow_iff requested (c ∷ cs) s = (
  λ m.
      let (found, passed) = In-keep (covered_by_any (c ∷ cs)) s requested m in
      (found, inr ((covered_by_any_iff (c ∷ cs) s).0 passed)),
  λ (m, why). elim why [
    | inl e ↦ absurd (ground arith)
    | inr by ↦
        In-keep_of (covered_by_any (c ∷ cs)) s requested m ((covered_by_any_iff (c ∷ cs) s).1 by)
  ],
)

-- Of the request, `intersect` keeps exactly what the grant covers, and nothing under an empty one.
pub intersect_iff :
    (requested granted : List Text) (s : Text)
    → In s (intersect requested granted) ↔ (In s requested × CoveredBy granted s)
unfolding intersect
intersect_iff requested [] s = (λ m. absurd m, λ (m, by). absurd by.held)
intersect_iff requested (g ∷ gs) s = (
  λ m.
      let (found, passed) = In-keep (covered_by_any (g ∷ gs)) s requested m in
      (found, (covered_by_any_iff (g ∷ gs) s).0 passed),
  λ (m, by).
      In-keep_of (covered_by_any (g ∷ gs)) s requested m ((covered_by_any_iff (g ∷ gs) s).1 by),
)

-- Delegation: bounding by a grant that is itself covered, scope for scope, by an outer grant
-- gives no more than bounding by the outer grant.
pub intersect_mono :
    (requested inner outer : List Text) (s : Text)
    → ((g : Text) → In g inner → CoveredBy outer g)
    → In s (intersect requested inner)
    → In s (intersect requested outer)
intersect_mono requested inner outer s within m =
    let (found, by) = (intersect_iff requested inner s).0 m in
    let above = within by.holder by.held in
    (intersect_iff requested outer s).1 (
      found,
      record {
        holder = above.holder;
        held = above.held;
        covering = covers_trans above.holder by.holder s above.covering by.covering;
      },
    )
