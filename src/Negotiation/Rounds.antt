-- ===== src/Negotiation/Rounds.antt =====
-- How often a requester can have a plan negotiated again: agentic_bus/coordinator/runtime.py.
use agentic_bus.Common.{
  ℕ, ◌+◌, ◌≤◌, List, [], ◌∷◌, Bool, true, false, ◌&&◌, Option, none, some, Bool-cases, Text, any,
  is_empty, ltb, Json, ◌≡◌, inl, inr, refl, arith,
}
use agentic_bus.Ibac.Types.{IntentManifest}
use agentic_bus.Sessions.{OfferStatus, OfferPayload, PlanStep, SessionState}
use agentic_bus.Negotiation.Plans.{
  was_accepted, Fallback, solidification, recursive_simplification, statuses,
}
use agentic_bus.Negotiation.Convergence.{
  HandlerOutcome, executes, solicits, Handled, Engine, is_closed, propose_ordered, propose_plan,
  propose_from_accepted, next_round, fall_back, settle, try_converge, handle_offer,
  initial_statuses, all_responded,
}
use agentic_bus.Negotiation.Approval.{
  is_awaiting, max_renegotiations, reset_for, Directory, Event, offers, accepts, rejects,
  handle_accept, handle_renegotiation, handle_reject, handle, finalize_if,
}

abbrev pub round_of : SessionState → ℕ
round_of s = s.composition_plan.renegotiation_round

abbrev pub is_executes : HandlerOutcome → Bool
is_executes executes = true
is_executes _ = false

abbrev pub solicited : HandlerOutcome → ℕ
solicited solicits = 1
solicited _ = 0

-- It starts no execution, solicits nobody, and counts no renegotiation.
pub record IsQuiet {W : Type 0} (n : ℕ) (h : Handled W) : Type 0 where
  pub not_executes : is_executes h.outcome ≡ false
  pub not_solicits : solicited h.outcome ≡ 0
  pub same_round : round_of h.session ≡ n

module _ {W : Type 0} (engine : Engine W) where
  propose_ordered-IsQuiet :
      (s : SessionState) (viable : Bool) (world : W) (result : Option (List PlanStep))
      → IsQuiet (round_of s) (propose_ordered engine s viable world result)
  propose_ordered-IsQuiet s viable world none = record {
    not_executes = refl;
    not_solicits = refl;
    same_round = refl;
  }
  propose_ordered-IsQuiet s false world (some ordered) = record {
    not_executes = refl;
    not_solicits = refl;
    same_round = refl;
  }
  propose_ordered-IsQuiet s true world (some ordered) = record {
    not_executes = refl;
    not_solicits = refl;
    same_round = refl;
  }

  propose_from_accepted-IsQuiet :
      (s : SessionState) (world : W) → IsQuiet (round_of s) (propose_from_accepted engine s world)
  unfolding propose_from_accepted propose_plan
  propose_from_accepted-IsQuiet s world = elim (Bool-cases (any was_accepted s.offers)) [
    | inl e ↦ rw e (propose_ordered-IsQuiet s _ world _)
    | inr e ↦ rw e (record { not_executes = refl; not_solicits = refl; same_round = refl })
  ]

  fall_back-IsQuiet :
      (f : Option Fallback) (s : SessionState) (world : W)
      → IsQuiet (round_of s) (fall_back engine f s world)
  fall_back-IsQuiet none s world = propose_from_accepted-IsQuiet s world
  fall_back-IsQuiet (some recursive_simplification) s world = propose_from_accepted-IsQuiet s world
  fall_back-IsQuiet (some solidification) s world = record {
    not_executes = refl;
    not_solicits = refl;
    same_round = refl;
  }

  settle-IsQuiet :
      (initial : List OfferStatus) (s : SessionState) (world : W)
      → IsQuiet (round_of s) (settle engine initial s world)
  unfolding settle propose_plan
  settle-IsQuiet initial s world =
      elim (Bool-cases (engine.converged (statuses s.offers) initial)) [
        | inl e ↦ rw e (propose_ordered-IsQuiet s _ world _)
        | inr e ↦ rw e (fall_back-IsQuiet _ (next_round s) world)
      ]

  try_converge-IsQuiet :
      (s : SessionState) (world : W) → IsQuiet (round_of s) (try_converge engine s world)
  unfolding try_converge
  try_converge-IsQuiet s world = elim (Bool-cases (is_closed s.phase)) [
    | inl e ↦ rw e (record { not_executes = refl; not_solicits = refl; same_round = refl })
    | inr o ↦ rw o (elim (Bool-cases (all_responded s)) [
      | inr e ↦ rw e (record { not_executes = refl; not_solicits = refl; same_round = refl })
      | inl e ↦ rw e (settle-IsQuiet (initial_statuses s) _ _)
    ])
  ]

  pub handle_offer-IsQuiet :
      (agent_id : Text) (offer : OfferPayload) (manifest : Option IntentManifest) (s : SessionState)
      (world : W)
      → IsQuiet (round_of s) (handle_offer engine agent_id offer manifest s world)
  unfolding handle_offer
  handle_offer-IsQuiet agent_id offer manifest s world = try_converge-IsQuiet _ _

module _ {W : Type 0} (engine : Engine W) (directory : Directory W) where
  -- The renegotiations among the messages: how often the agents are solicited again.
  abbrev pub renegotiations : List (Event × W) → SessionState → ℕ
  renegotiations [] s = 0
  renegotiations ((event, world) ∷ events) s =
      let h = handle engine directory event s world in
      solicited h.outcome + renegotiations events h.session

  abbrev Counts : SessionState → Handled W → Type 0
  Counts s h = (solicited h.outcome + round_of s ≤ round_of h.session) × (round_of h.session ≤ 3)

  handle_renegotiation-Counts :
      (hints : Json) (s : SessionState) (world : W)
      → round_of s ≤ 3
      → Counts s (handle_renegotiation engine directory hints s world)
  unfolding handle_renegotiation
  handle_renegotiation-Counts hints s world h =
      elim (Bool-cases (ltb max_renegotiations (round_of s + 1))) [
        | inl e ↦ rw e (omega arith, h)
        | inr e ↦
            let below : round_of s + 1 ≤ 3 = ground (arith, e) in
            rw e
              (elim (Bool-cases
                (is_empty (directory.discover (reset_for (round_of s + 1) hints s) world).0)) [
                  | inl none_found ↦ rw none_found (omega arith, below)
                  | inr found ↦ rw found (omega arith, below)
                ])
      ]

  finalized :
      (b : Bool) (s : SessionState) (world : W)
      → round_of s ≤ 3
      → Counts s (finalize_if engine directory b s world)
  finalized true s world h = (omega arith, h)
  finalized false s world h = (omega arith, h)

  handle-Counts :
      (event : Event) (s : SessionState) (world : W)
      → round_of s ≤ 3
      → Counts s (handle engine directory event s world)
  unfolding handle_accept handle_reject
  handle-Counts (offers agent_id offer manifest) s world h =
      let quiet = handle_offer-IsQuiet engine agent_id offer manifest s world in
      (omega (arith, quiet.not_solicits, quiet.same_round), omega (arith, h, quiet.same_round))
  handle-Counts (accepts wellformed) s world h = elim (Bool-cases (is_awaiting s.phase)) [
    | inr e ↦ rw e (omega arith, h)
    | inl e ↦ rw e (elim (Bool-cases wellformed) [
      | inr bad ↦ rw bad (omega arith, h)
      | inl good ↦ rw good (finalized s.composition_plan.viable s world h)
    ])
  ]
  handle-Counts (rejects by_requester renegotiate hints) s world h =
      elim (Bool-cases (by_requester && renegotiate)) [
        | inl e ↦ rw e (handle_renegotiation-Counts hints s world h)
        | inr e ↦ rw e (omega arith, h)
      ]

  renegotiations_left :
      (events : List (Event × W)) (s : SessionState)
      → round_of s ≤ 3
      → renegotiations events s + round_of s ≤ 3
  renegotiations_left [] s h = omega (arith, h)
  renegotiations_left ((event, world) ∷ events) s h =
      let (counted, below) = handle-Counts event s world h in
      omega (
        arith,
        counted,
        renegotiations_left events (handle engine directory event s world).session below,
      )

  -- Whatever messages come for a session whose plan is new, the agents are solicited again at most
  -- three times. What an execution does to the session is not counted among the messages.
  pub renegotiations_bounded :
      (events : List (Event × W)) (s : SessionState) → round_of s ≡ 0 → renegotiations events s ≤ 3
  renegotiations_bounded events s e =
      omega (arith, renegotiations_left events s (omega (arith, e)), e)
