-- ===== src/Ibac/Rules/Sections.antt =====
-- When the shapes that the sections of `_evaluate_rule` share deny.
use agentic_bus.Common.{
  List, [], ◌∷◌, Bool, true, false, ◌≡◌, ◌⊎◌, inl, inr, refl, Option, none, some, if◌then◌else◌,
  Bool-cases, Text, In, elem,
}
use agentic_bus.Ibac.Types.{deny, IbacResult}
use agentic_bus.Ibac.Policies.Denials.{
  Denies, silent, Denies-or_else, Denies-if, Denies-map, Denies-first_in, Denies-only_in, Outside,
  elem_iff, clash,
}
use agentic_bus.Ibac.Policies.Denials
use agentic_bus.Ibac.Rules.{when, first_that}

pub Denies-when :
    {V : Type 0} (b : Bool) (a : Option IbacResult)
    → Denies a V
    → Denies (when b a) ((b ≡ true) × V)
Denies-when true a h = Denies-map a (λ v. (refl, v)) (λ (e, v). v) h
Denies-when false a h = silent (λ (e, v). cc)

pub Denies-unless :
    {V : Type 0} (b : Bool) (a : Option IbacResult)
    → Denies a V
    → Denies (if b then none else a) ((b ≡ false) × V)
Denies-unless true a h = silent (λ (e, v). cc)
Denies-unless false a h = Denies-map a (λ v. (refl, v)) (λ (e, v). v) h

pub Denies-else :
    (b c : Bool) (r s : IbacResult)
    → r.decision ≡ deny
    → s.decision ≡ deny
    → Denies (if b then some r else if c then some s else none) ((b ≡ true) ⊎ (c ≡ true))
Denies-else true c r s d e = Denials.denies r d (inl refl)
Denies-else false c r s d e =
    Denies-map (if c then some s else none) inr (λ v. elim v [ inl x ↦ cc | inr y ↦ y ])
      (Denies-if c s e)

pub elem-false : (x : Text) (xs : List Text) → ¬ In x xs → elem x xs ≡ false
elem-false x xs absent = elim (Bool-cases (elem x xs)) [
  | inl e ↦ absurd (absent ((elem_iff x xs).0 e))
  | inr e ↦ e
]

module _ (test : Text → Bool) (denial : Text → IbacResult)
    (denying : (x : Text) → (denial x).decision ≡ deny) where
  pub Denies-first_that :
      (xs : List Text) → Denies (first_that test xs denial) ((x : Text) × In x xs × (test x ≡ true))
  Denies-first_that [] = silent (λ (x, m, t). absurd m)
  Denies-first_that (x ∷ xs) = elim (Bool-cases (test x)) [
    | inl passed ↦ rw passed (Denials.denies (denial x) (denying x) (x, inl refl, passed))
    | inr failed ↦ rw failed (
        Denies-map (first_that test xs denial) (λ (y, m, t). (y, inr m, t))
          (λ (y, m, t). (y, elim m [ inl e ↦ absurd (clash (rw e at t) failed) | inr l ↦ l ], t))
          (Denies-first_that xs))
  ]
