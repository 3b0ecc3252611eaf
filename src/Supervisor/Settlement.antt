-- ===== src/Supervisor/Settlement.antt =====
-- What the retry loop of `_execute_with_ibac_validation` leaves in the state.
use agentic_bus.Common.{
  ℕ, zero, suc, ◌+◌, true, false, ◌≡◌, ◌≢◌, inl, inr, refl, sym, ap, ◌∙◌, arith, Option, none, some,
  Bool-cases, Text, Dict, Json, lookup, remove, lookup-remove, eq_iff, insert,
}
use agentic_bus.Ibac.Types.{is_allowed}
use agentic_bus.Sessions.{SessionState}
use agentic_bus.Supervisor.Types.{
  GraphState, Surroundings, not_null, result_of, Run, Progress, done, raised,
}
use agentic_bus.Supervisor.{
  emission_request, validate_step_ibac, reject, retry_state, after_denial, attempts,
}
use agentic_bus.Supervisor.Attempts.{judged, validate_step-allowed, validate_step-final}

done-injective : {W : Type 0} {r s : Run W} → done r ≡ done s → r ≡ s
done-injective e = cc

raised≢done : {W : Type 0} {r s : Run W} → raised r ≢ done s
raised≢done e = cc

lookup_removed : (a : Text) (d : Dict Json) → lookup a (remove a d) ≡ none
lookup_removed a d = ground (arith, lookup-remove a a d, eq_iff a a)

module _ {W : Type 0} (o : Surroundings W) (max_retries : ℕ) (session : SessionState)
    (initial : GraphState) where
  -- A payload that the engine let be emitted, in some state of the world.
  pub record Allowed (a : Text) (payload : Json) : Type 0 where
    pub world : W
    pub verdict :
        is_allowed
          (o.evaluate_with_llm (emission_request o max_retries session initial a payload) world).0
        ≡ true

  -- The state has no result of the agent, or one that was allowed.
  pub data Settled (a : Text) (s : GraphState) : Type 0 where
    cleared : result_of a s ≡ none → Settled a s
    emitted : (payload : Json) → result_of a s ≡ some payload → Allowed a payload → Settled a s

  result_of-reject :
      (a : Text) (run : Run W)
      → result_of a (reject o max_retries session initial a run).final_state ≡ none
  unfolding result_of reject
  result_of-reject a run = ap not_null (lookup_removed a run.final_state.step_results)

  -- Another attempt follows.
  after_denial-Settled :
      (left : ℕ) (again : Json → Run W → Progress W) (a : Text) (run run' : Run W)
      → ((p : Json) (r : Run W)
          → result_of a r.final_state ≡ some p
          → again p r ≡ done run'
          → Settled a run'.final_state)
      → after_denial o max_retries session initial (suc left) again a run ≡ done run'
      → Settled a run'.final_state
  unfolding after_denial
  after_denial-Settled left again a run run' later e =
      from (o.ainvoke (retry_state o max_retries session initial run) run.world).0 refl
    where
      by_result :
          (state : GraphState) (w : W) (found : Option Json)
          → result_of a state ≡ found
          → elim found [
            | none ↦ done (record run { final_state = state; world = w })
            | some p ↦ again p (record run { final_state = state; world = w })
          ]
            ≡ done run'
          → Settled a run'.final_state
      by_result state w none f k =
          cleared (ap (λ r. result_of a r.final_state) (sym (done-injective k)) ∙ f)
      by_result state w (some p) f k = later p _ f k

      from :
          (returned : Option GraphState)
          → (o.ainvoke (retry_state o max_retries session initial run) run.world).0 ≡ returned
          → Settled a run'.final_state
      from none f = absurd (raised≢done (rw (f, after_denial) at e))
      from (some state) f = by_result state _ (result_of a state) refl (rw (f, after_denial) at e)

  first_attempt :
      (left attempt : ℕ) (a : Text) (payload : Json) (run run' : Run W)
      → result_of a run.final_state ≡ some payload
      → attempts o max_retries session initial (suc left) attempt a payload run ≡ done run'
      → ((r : Run W)
          → after_denial o max_retries session initial left
              (attempts o max_retries session initial left (attempt + 1) a)
              a
              r
            ≡ done run'
          → Settled a run'.final_state)
      → Settled a run'.final_state
  unfolding attempts
  first_attempt left attempt a payload run run' present e otherwise =
      elim (Bool-cases (is_allowed (judged o max_retries session initial a payload run))) [
        | inl yes_allowed ↦
            let same = done-injective (
              rw (validate_step-allowed o max_retries session initial a payload run, yes_allowed) at
                e) in
            emitted payload (ap (λ r. result_of a r.final_state) (sym same) ∙ present)
              (record { world = run.world; verdict = yes_allowed })
        | inr refused ↦
            otherwise _
              (rw (validate_step-allowed o max_retries session initial a payload run, refused) at e)
      ]

  -- The loop over the result that an agent has, with at least one attempt and unless the graph raises,
  -- leaves a state that has no result of that agent, or one that the engine allowed.
  pub attempts-Settled :
      (left attempt : ℕ) (a : Text) (payload : Json) (run run' : Run W)
      → result_of a run.final_state ≡ some payload
      → attempts o max_retries session initial (suc left) attempt a payload run ≡ done run'
      → Settled a run'.final_state
  unfolding attempts
  attempts-Settled zero attempt a payload run run' present e =
      first_attempt zero attempt a payload run run' present e (λ r k. cleared (
        ap (λ q. result_of a q.final_state) (sym (done-injective (unfold after_denial in k)))
        ∙ result_of-reject a r))
  attempts-Settled (suc left) attempt a payload run run' present e =
      first_attempt (suc left) attempt a payload run run' present e (λ r k.
        after_denial-Settled left
          (attempts o max_retries session initial (suc left) (attempt + 1) a) a r run'
          (λ p q f g. attempts-Settled left (attempt + 1) a p q run' f g) k)

  -- A retry replaces the whole state by what the graph returned: where an attempt for one agent is
  -- denied, another is left, the graph runs again and the agent's new result is allowed, the results
  -- of every other agent and the list of errors are those of that run, whatever had been judged,
  -- cleared or recorded before.
  pub retry_replaces_state :
      (left attempt : ℕ) (a : Text) (payload again : Json) (run : Run W) (state : GraphState)
      → let refused = validate_step_ibac o max_retries session initial a payload run in
        let denied = record (refused.1) { retries = insert a attempt refused.1.retries } in
        let returned = o.ainvoke (retry_state o max_retries session initial denied) denied.world in
        let resumed = record denied { final_state = state; world = returned.1 } in
        refused.0 ≡ false
        → returned.0 ≡ some state
        → result_of a state ≡ some again
        → is_allowed (judged o max_retries session initial a again resumed) ≡ true
        → (run' : Run W) × (attempts o max_retries session initial
              (suc (suc left))
              attempt
              a
              payload
              run
            ≡ done run')
          × (run'.final_state ≡ state)
  unfolding attempts after_denial
  retry_replaces_state left attempt a payload again run state refused returned found allowed =
      let first = validate_step_ibac o max_retries session initial a payload run in
      let denied = record (first.1) { retries = insert a attempt first.1.retries } in
      let resumed = record denied {
        final_state = state;
        world = (o.ainvoke (retry_state o max_retries session initial denied) denied.world).1;
      } in
      (
        (validate_step_ibac o max_retries session initial a again resumed).1,
        rw refused (
            rw (returned, after_denial)
              (rw (found, after_denial)
                (rw (validate_step-allowed o max_retries session initial a again resumed, allowed)
                  refl))),
        validate_step-final o max_retries session initial a again resumed,
      )
