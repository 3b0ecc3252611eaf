-- ===== src/Negotiation/Decisions.antt =====
-- What comes of the offers once all are in: agentic_bus/coordinator/runtime.py.
use agentic_bus.Common.{
  ◌+◌, List, [], ◌∷◌, Bool, true, false, not, ◌&&◌, Option, none, some, Bool-cases, any, keep,
  is_empty, Fields, ◌≡◌, inl, inr, refl, sym, ap, ◌∙◌, ltb, arith, ℕ,
}
use agentic_bus.Sessions.{OfferStatus, NegotiationRecord, PlanStep, SessionState}
use agentic_bus.Negotiation.Plans.{
  was_accepted, compose_offers, Fallback, solidification, recursive_simplification, needs_fallback,
  statuses,
}
use agentic_bus.Negotiation.Convergence.{
  HandlerOutcome, proposes, dissolves, Engine, is_closed, judge_offers, propose_ordered,
  propose_plan, propose_from_accepted, next_round, fall_back, settle, try_converge, with_judged,
  with_entropy, initial_statuses, all_responded,
}

abbrev pub gives_up : Option Fallback → Bool
gives_up (some solidification) = true
gives_up (some recursive_simplification) = false
gives_up none = false

-- Beyond the last round without convergence.
gives_up_lem :
    (converged : List OfferStatus → List OfferStatus → Bool) (max_rounds round_num : ℕ)
    (offers : List NegotiationRecord) (initial : List OfferStatus)
    → gives_up (needs_fallback converged max_rounds round_num offers initial)
      ≡ (ltb max_rounds round_num && not (converged (statuses offers) initial))
unfolding needs_fallback
gives_up_lem converged max_rounds round_num offers initial = ground arith

abbrev pub outcome_if : Bool → HandlerOutcome
outcome_if true = proposes
outcome_if false = dissolves

keep-any :
    (offers : List NegotiationRecord)
    → not (is_empty (keep was_accepted offers)) ≡ any was_accepted offers
keep-any [] = refl
keep-any (r ∷ rs) = elim (Bool-cases (was_accepted r)) [
  | inl e ↦ rw e refl
  | inr e ↦ rw e (keep-any rs)
]

compose_offers-viable :
    (offers : List NegotiationRecord) → (compose_offers offers).1 ≡ any was_accepted offers
unfolding compose_offers
compose_offers-viable offers = elim (Bool-cases (is_empty (keep was_accepted offers))) [
  | inl e ↦ rw e (ap not (sym e) ∙ keep-any offers)
  | inr e ↦ rw e (ap not (sym e) ∙ keep-any offers)
]

kept : (b : Bool) → b ≡ (b && true)
kept true = refl
kept false = refl

dropped : (b : Bool) → false ≡ (b && false)
dropped true = refl
dropped false = refl

-- Ordering always gives steps.
abbrev pub OrdersAlways : {W : Type 0} → Engine W → Type 0
OrdersAlways engine =
    (steps : List PlanStep) (decomposition : Fields)
    → (ordered : List PlanStep) × (engine.order_steps steps decomposition ≡ some ordered)

module _ {W : Type 0} (engine : Engine W) (always : OrdersAlways engine) where
  propose_plan-outcome_if :
      (s : SessionState) (world : W)
      → (propose_plan engine s world).outcome ≡ outcome_if (any was_accepted s.offers)
  unfolding propose_plan
  propose_plan-outcome_if s world =
      let (ordered, e) = always (compose_offers s.offers).0 s.composition_plan.decomposition in
      rw (e, sym (compose_offers-viable s.offers)) (branch (compose_offers s.offers).1 ordered)
    where
      branch :
          (b : Bool) (ordered : List PlanStep)
          → (propose_ordered engine s b world (some ordered)).outcome ≡ outcome_if b
      branch true ordered = refl
      branch false ordered = refl

  propose_from_accepted-outcome_if :
      (s : SessionState) (world : W)
      → (propose_from_accepted engine s world).outcome ≡ outcome_if (any was_accepted s.offers)
  unfolding propose_from_accepted
  propose_from_accepted-outcome_if s world = elim (Bool-cases (any was_accepted s.offers)) [
    | inl e ↦ rw e (propose_plan-outcome_if s world ∙ ap outcome_if e)
    | inr e ↦ rw e refl
  ]

  fall_back-outcome_if :
      (f : Option Fallback) (s : SessionState) (world : W)
      → (fall_back engine f s world).outcome
        ≡ outcome_if (any was_accepted s.offers && not (gives_up f))
  fall_back-outcome_if none s world =
      propose_from_accepted-outcome_if s world ∙ ap outcome_if (kept (any was_accepted s.offers))
  fall_back-outcome_if (some recursive_simplification) s world =
      propose_from_accepted-outcome_if s world ∙ ap outcome_if (kept (any was_accepted s.offers))
  fall_back-outcome_if (some solidification) s world =
      ap outcome_if (dropped (any was_accepted s.offers))

  settle-outcome_if :
      (initial : List OfferStatus) (s : SessionState) (world : W)
      → (settle engine initial s world).outcome
        ≡ outcome_if (
            any was_accepted s.offers
            && not (
                gives_up (
                  needs_fallback engine.converged engine.max_rounds
                    (s.composition_plan.round + 1)
                    s.offers
                    initial)))
  unfolding settle needs_fallback
  settle-outcome_if initial s world =
      elim (Bool-cases (engine.converged (statuses s.offers) initial)) [
        | inr e ↦ rw e (fall_back-outcome_if _ (next_round s) world)
        | inl e ↦ elim (Bool-cases (ltb (s.composition_plan.round + 1) engine.max_rounds)) [
          | inl early ↦
              rw (e, early)
                (propose_plan-outcome_if s world ∙ ap outcome_if (kept (any was_accepted s.offers)))
          | inr late ↦
              rw (e, late)
                (propose_plan-outcome_if s world ∙ ap outcome_if (kept (any was_accepted s.offers)))
        ]
      ]

  -- Once every agent that is expected to offer has done so, an open negotiation is decided on the spot:
  -- the session is dissolved where no offer is accepted, and where this round is beyond the last one
  -- that is allowed and the offers have not converged; otherwise a plan is proposed. In the last round
  -- that is allowed a plan is proposed also without convergence. Ordering the steps is taken not to raise.
  pub try_converge-outcome_if :
      (s : SessionState) (world : W)
      → is_closed s.phase ≡ false
      → all_responded s ≡ true
      → let judged = (judge_offers engine s s.offers world).offers in
        let beyond = ltb engine.max_rounds (s.composition_plan.round + 1) in
        let converged = engine.converged (statuses judged) (initial_statuses s) in
        (try_converge engine s world).outcome
        ≡ outcome_if (any was_accepted judged && not (beyond && not converged))
  unfolding try_converge
  try_converge-outcome_if s world o h =
      let judged = (judge_offers engine s s.offers world).offers in
      rw (o, h)
        (settle-outcome_if (initial_statuses s)
          (with_judged engine (with_entropy s) (judge_offers engine s s.offers world)) _)
      ∙ ap (λ b. outcome_if (any was_accepted judged && not b))
          (gives_up_lem engine.converged engine.max_rounds (s.composition_plan.round + 1) judged
            (initial_statuses s))
