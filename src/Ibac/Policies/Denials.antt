-- ===== src/Ibac/Policies/Denials.antt =====
-- When the sections of `_evaluate_policy`, and those alike of `_evaluate_rule`, deny.
use agentic_bus.Common.{
  List, [], ◌∷◌, Bool, true, false, not, ◌&&◌, ◌≡◌, ◌≢◌, ◌↔◌, ◌⊎◌, inl, inr, refl, sym, subst,
  arith, Option, none, some, if◌then◌else◌, Bool-cases, Text, In, elem, elem→In, In→elem, is_empty,
  is_empty_iff,
}
use agentic_bus.Ibac.Types.{
  deny, IbacRequest, policy_scope_denied, policy_domain_denied, policy_scopes_outside, IbacResult,
  IbacPolicy,
}
use agentic_bus.Ibac.Policies.{
  applies_at, or_else, first_in, outside, only_in, refusal, evaluate_policy,
}

-- A section answers exactly when `V` holds, and its answer is a denial.
pub record Denies (answer : Option IbacResult) (V : Type 0) : Type 0 where
  pub sound : (r : IbacResult) → answer ≡ some r → (r.decision ≡ deny) × V
  pub complete : V → (r : IbacResult) × (answer ≡ some r)

pub silent : {V : Type 0} → ¬ V → Denies none V
silent h = record { sound = λ r e. cc; complete = λ v. absurd (h v) }

pub denies : {V : Type 0} (r : IbacResult) → r.decision ≡ deny → V → Denies (some r) V
denies r d v = record { sound = λ s e. (cc (e, d), v); complete = λ _. (r, refl) }

pub Denies-or_else :
    {V W : Type 0} (a b : Option IbacResult)
    → Denies a V
    → Denies b W
    → Denies (or_else a b) (V ⊎ W)
Denies-or_else none b h k = record {
  sound = λ r e. let (d, w) = k.sound r e in (d, inr w);
  complete = λ vw. elim vw [ inl v ↦ none-ne-some (h.complete v) | inr w ↦ k.complete w ];
}
  where
    none-ne-some : {B : Type 0} → (r : IbacResult) × (◌≡◌ {A = Option IbacResult} none (some r)) → B
    none-ne-some (r, e) = cc
Denies-or_else (some r) b h k = let (d, v) = h.sound r refl in denies r d (inl v)

pub Denies-if :
    (b : Bool) (r : IbacResult) → r.decision ≡ deny → Denies (if b then some r else none) (b ≡ true)
Denies-if true r d = denies r d refl
Denies-if false r d = silent (λ e. cc)

-- To restate what a section denies for.
pub Denies-map :
    {V W : Type 0} (a : Option IbacResult) → (V → W) → (W → V) → Denies a V → Denies a W
Denies-map a f g h = record {
  sound = λ r e. let (d, v) = h.sound r e in (d, f v);
  complete = λ w. h.complete (g w);
}

pub elem_iff : (x : Text) (xs : List Text) → (elem x xs ≡ true) ↔ In x xs
elem_iff x xs = (elem→In x xs, In→elem x xs)

pub clash : {b : Bool} → b ≡ true → b ≡ false → ⊥
clash h k = cc

module _ (forbidden : List Text) (denial : Text → IbacResult)
    (denying : (x : Text) → (denial x).decision ≡ deny) where
  not_head :
      (x y : Text) (xs : List Text)
      → elem x forbidden ≡ false
      → In y (x ∷ xs)
      → In y forbidden
      → In y xs
  not_head x y xs absent (inl e) k =
      absurd (clash (subst (λ z. elem z forbidden ≡ true) e (In→elem y forbidden k)) absent)
  not_head x y xs absent (inr m) k = m

  pub Denies-first_in :
      (xs : List Text)
      → Denies (first_in xs forbidden denial) ((x : Text) × In x xs × In x forbidden)
  Denies-first_in [] = silent (λ (x, m, k). absurd m)
  Denies-first_in (x ∷ xs) = elim (Bool-cases (elem x forbidden)) [
    | inl found ↦ rw found (denies (denial x) (denying x) (x, inl refl, elem→In x forbidden found))
    | inr absent ↦ rw absent (
        Denies-map (first_in xs forbidden denial) (λ (y, m, k). (y, inr m, k))
          (λ (y, m, k). (y, not_head x y xs absent m k, k)) (Denies-first_in xs))
  ]

-- An allow list is broken: it is not empty, and something asked for is not on it.
abbrev pub Outside : List Text → List Text → Type 0
Outside xs allowed = (allowed ≢ []) × ((x : Text) × In x xs × ¬ In x allowed)

outside_iff :
    (xs allowed : List Text)
    → (is_empty (outside xs allowed) ≡ false) ↔ ((x : Text) × In x xs × ¬ In x allowed)
outside_iff xs allowed = (to xs, from xs)
  where
    to :
        (xs : List Text)
        → is_empty (outside xs allowed) ≡ false
        → (x : Text) × In x xs × ¬ In x allowed
    to [] h = absurd (clash refl h)
    to (x ∷ xs) h = elim (Bool-cases (elem x allowed)) [
      | inl old ↦ let (y, m, k) = to xs (rw old at h) in (y, inr m, k)
      | inr new ↦ (x, inl refl, λ m. clash (In→elem x allowed m) new)
    ]

    from :
        (xs : List Text)
        → (x : Text) × In x xs × ¬ In x allowed
        → is_empty (outside xs allowed) ≡ false
    from [] (x, m, k) = absurd m
    from (x ∷ xs) (y, m, k) = elim (Bool-cases (elem x allowed)) [
      | inl old ↦ rw old (
          from xs (
            y,
            elim m [
              | inl e ↦ absurd (k (subst (λ z. In z allowed) (sym e) (elem→In x allowed old)))
              | inr l ↦ l
            ],
            k,
          ))
      | inr new ↦ rw new
    ]

pub Denies-only_in :
    (xs allowed : List Text) (denial : List Text → IbacResult)
    → ((ys : List Text) → (denial ys).decision ≡ deny)
    → Denies (only_in xs allowed denial) (Outside xs allowed)
Denies-only_in xs allowed denial denying =
    Denies-map (only_in xs allowed denial)
      (λ h. ((is_empty_iff allowed).0 (ground arith), (outside_iff xs allowed).0 (ground arith)))
      (λ (a, (x, m, k)).
        broken ((is_empty_iff allowed).1 a) (some_in x xs m) ((outside_iff xs allowed).1 (x, m, k)))
      (Denies-if
        (not (is_empty allowed) && (not (is_empty xs) && not (is_empty (outside xs allowed))))
        (denial (outside xs allowed)) (denying (outside xs allowed)))
  where
    some_in : (x : Text) (xs : List Text) → In x xs → is_empty xs ≡ false
    some_in x [] m = absurd m
    some_in x (y ∷ ys) m = refl

    broken : {a b c : Bool} → a ≡ false → b ≡ false → c ≡ false → (not a && (not b && not c)) ≡ true
    broken p q r = rw (p, q, r)

-- What a policy forbids.
pub record Forbidden (p : IbacPolicy) (request : IbacRequest) : Type 0 where
  pub applies : applies_at p.evaluation_points request.evaluation_point ≡ true
  pub broken :
      ((s : Text) × In s request.requested_scopes × In s p.denied_scopes)
      ⊎ ((d : Text) × In d request.data_domains × In d p.denied_data_domains)
      ⊎ Outside request.requested_scopes p.allowed_scopes

-- A policy denies exactly what it forbids, and otherwise has no say.
pub evaluate_policy-Denies :
    (p : IbacPolicy) (request : IbacRequest)
    → Denies (evaluate_policy p request) (Forbidden p request)
unfolding evaluate_policy
evaluate_policy-Denies p request =
    elim (Bool-cases (applies_at p.evaluation_points request.evaluation_point)) [
      | inl yes_here ↦ rw yes_here (
          Denies-map _ (λ v. record { applies = yes_here; broken = v }) (λ f. f.broken)
            (Denies-or_else _ _
              (Denies-first_in p.denied_scopes
                (λ s. refusal request (policy_scope_denied s p.policy_id)) (λ _. refl)
                request.requested_scopes)
              (Denies-or_else _ _
                (Denies-first_in p.denied_data_domains
                  (λ d. refusal request (policy_domain_denied d p.policy_id)) (λ _. refl)
                  request.data_domains)
                (Denies-only_in request.requested_scopes p.allowed_scopes
                  (λ ss. refusal request (policy_scopes_outside ss p.policy_id)) (λ _. refl)))))
      | inr elsewhere ↦ rw elsewhere (silent (λ f. clash f.applies elsewhere))
    ]
