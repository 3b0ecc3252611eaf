-- ===== src/Ibac/Combination/Strictest.antt =====
-- What `IBACEngine._combine` decides, against the decisions of the layers.
use agentic_bus.Common.{
  [], ◌∷◌, true, false, ◌≡◌, ◌↔◌, inl, inr, refl, subst, arith, ◌≤◌, ◌<◌, some, ltb, Bool-cases,
  Text, Dict, In,
}
use agentic_bus.Ibac.Types.{
  IbacDecision, allow, deny, allow_with_scope, require_human_approval, permits_execution,
  IbacResult, is_allowed,
}
use agentic_bus.Ibac.Combination.{precedence, strictest_from, combine_from, combine}

-- What `min` returns: a layer at most as permissive as any other.
record IsStrictest (layers : Dict IbacResult) (best : Text × IbacResult) : Type 0 where
  member : In best layers
  least :
      (l : Text × IbacResult) → In l layers → precedence best.1.decision ≤ precedence l.1.decision

module _ (b l : Text × IbacResult) (ls : Dict IbacResult) where
  skip_head :
      {best : Text × IbacResult}
      → precedence b.1.decision ≤ precedence l.1.decision
      → IsStrictest (b ∷ ls) best
      → IsStrictest (b ∷ l ∷ ls) best
  skip_head {best} h s = record { member = member s.member; least = least }
    where
      member : In best (b ∷ ls) → In best (b ∷ l ∷ ls)
      member (inl e) = inl e
      member (inr m) = inr (inr m)

      least :
          (k : Text × IbacResult)
          → In k (b ∷ l ∷ ls)
          → precedence best.1.decision ≤ precedence k.1.decision
      least k (inl e) = s.least k (inl e)
      least k (inr (inl e)) = rw e (omega (arith, s.least b (inl refl), h))
      least k (inr (inr m)) = s.least k (inr m)

  take_head :
      {best : Text × IbacResult}
      → precedence l.1.decision < precedence b.1.decision
      → IsStrictest (l ∷ ls) best
      → IsStrictest (b ∷ l ∷ ls) best
  take_head {best} h s = record { member = inr s.member; least = least }
    where
      least :
          (k : Text × IbacResult)
          → In k (b ∷ l ∷ ls)
          → precedence best.1.decision ≤ precedence k.1.decision
      least k (inl e) = rw e (omega (arith, s.least l (inl refl), h))
      least k (inr m) = s.least k m

strictest_from-IsStrictest :
    (b : Text × IbacResult) (ls : Dict IbacResult) → IsStrictest (b ∷ ls) (strictest_from b ls)
unfolding strictest_from
strictest_from-IsStrictest b [] = record {
  member = inl refl;
  least = λ l m. elim m [ inl e ↦ rw e (omega arith) | inr h ↦ absurd h ];
}
strictest_from-IsStrictest b (l ∷ ls) =
    elim (Bool-cases (ltb (precedence l.1.decision) (precedence b.1.decision))) [
      | inl lower ↦ rw lower (take_head b l ls (ground arith) (strictest_from-IsStrictest l ls))
      | inr not_lower ↦
          rw not_lower (skip_head b l ls (ground arith) (strictest_from-IsStrictest b ls))
    ]

combine-least :
    (layers : Dict IbacResult) (r : IbacResult)
    → combine layers ≡ some r
    → ((l : Text × IbacResult) × In l layers × (l.1.decision ≡ r.decision))
      × ((l : Text × IbacResult) → In l layers → precedence r.decision ≤ precedence l.1.decision)
unfolding combine combine_from
combine-least [] r e = cc
combine-least (b ∷ ls) r e =
    let best = strictest_from b ls in
    let s = strictest_from-IsStrictest b ls in
    let same : best.1.decision ≡ r.decision = ground arith in
    (
      (best, s.member, same),
      λ l m. subst (λ d. precedence d ≤ precedence l.1.decision) same (s.least l m),
    )

-- The first decision is no more permissive than the second: to deny is the strictest, then to wait for a
-- human, then to allow under a narrower scope, and to allow is the most permissive.
abbrev pub NoLooser : IbacDecision → IbacDecision → Type 0
NoLooser deny e = Unit {0}
NoLooser require_human_approval deny = ⊥
NoLooser require_human_approval e = Unit {0}
NoLooser allow_with_scope deny = ⊥
NoLooser allow_with_scope require_human_approval = ⊥
NoLooser allow_with_scope e = Unit {0}
NoLooser allow allow = Unit {0}
NoLooser allow e = ⊥

precedence-NoLooser : (d e : IbacDecision) → precedence d ≤ precedence e → NoLooser d e
precedence-NoLooser deny e h = tt
precedence-NoLooser require_human_approval deny h = absurd (omega (arith, h))
precedence-NoLooser require_human_approval require_human_approval h = tt
precedence-NoLooser require_human_approval allow_with_scope h = tt
precedence-NoLooser require_human_approval allow h = tt
precedence-NoLooser allow_with_scope deny h = absurd (omega (arith, h))
precedence-NoLooser allow_with_scope require_human_approval h = absurd (omega (arith, h))
precedence-NoLooser allow_with_scope allow_with_scope h = tt
precedence-NoLooser allow_with_scope allow h = tt
precedence-NoLooser allow deny h = absurd (omega (arith, h))
precedence-NoLooser allow require_human_approval h = absurd (omega (arith, h))
precedence-NoLooser allow allow_with_scope h = absurd (omega (arith, h))
precedence-NoLooser allow allow h = tt

-- The combined decision is that of some layer, and no layer's is stricter, in the order deny, wait for
-- a human, allow under a narrower scope, allow.
pub combine_strictest :
    (layers : Dict IbacResult) (r : IbacResult)
    → combine layers ≡ some r
    → ((l : Text × IbacResult) × In l layers × (l.1.decision ≡ r.decision))
      × ((l : Text × IbacResult) → In l layers → NoLooser r.decision l.1.decision)
combine_strictest layers r e =
    let (some_layer, least) = combine-least layers r e in
    (some_layer, λ l m. precedence-NoLooser r.decision l.1.decision (least l m))

permits_by_precedence : (d : IbacDecision) → (permits_execution d ≡ true) ↔ (2 ≤ precedence d)
permits_by_precedence allow = (λ _. omega arith, λ _. refl)
permits_by_precedence deny = (λ e. cc, λ h. absurd (omega arith))
permits_by_precedence allow_with_scope = (λ _. omega arith, λ _. refl)
permits_by_precedence require_human_approval = (λ e. cc, λ h. absurd (omega arith))

-- The combination allows exactly when every layer does.
pub combine-is_allowed_iff :
    (layers : Dict IbacResult) (r : IbacResult)
    → combine layers ≡ some r
    → (is_allowed r ≡ true) ↔ ((l : Text × IbacResult) → In l layers → is_allowed l.1 ≡ true)
combine-is_allowed_iff layers r e =
    let ((best, member, same), least) = combine-least layers r e in
    (
      λ h l m.
          (permits_by_precedence l.1.decision).1
            (omega (arith, least l m, (permits_by_precedence r.decision).0 h)),
      λ all. subst (λ d. permits_execution d ≡ true) same (all best member),
    )

-- With at least one layer there is a decision.
pub combine_total :
    (l : Text × IbacResult) (ls : Dict IbacResult) → (r : IbacResult) × (combine (l ∷ ls) ≡ some r)
unfolding combine
combine_total l ls = (_, refl)

strictest_from-deny :
    (b : Text × IbacResult) (ls : Dict IbacResult) → b.1.decision ≡ deny → strictest_from b ls ≡ b
unfolding strictest_from
strictest_from-deny b [] d = refl
strictest_from-deny b (l ∷ ls) d =
    let kept : ltb (precedence l.1.decision) (precedence b.1.decision) ≡ false = ground arith in
    rw kept (strictest_from-deny b ls d)

-- A denial by the first layer is the verdict, with that layer's claim to be a boundary.
pub combine-deny_first :
    (b : Text × IbacResult) (ls : Dict IbacResult) (r : IbacResult)
    → b.1.decision ≡ deny
    → combine (b ∷ ls) ≡ some r
    → (r.decision ≡ deny) × (r.relies_on_declared_input ≡ b.1.relies_on_declared_input)
unfolding combine combine_from
combine-deny_first b ls r d e = let same = strictest_from-deny b ls d in ground arith
