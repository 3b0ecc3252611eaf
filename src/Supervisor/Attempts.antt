-- ===== src/Supervisor/Attempts.antt =====
-- How often the retry loop of `_execute_with_ibac_validation` asks the engine.
use agentic_bus.Common.{
  ℕ, zero, suc, ◌+◌, ◌*◌, ◌≤◌, List, [], ◌∷◌, ◌++◌, ◌≡◌, inl, inr, refl, ap, ◌∙◌, arith, Option,
  none, some, Bool-cases, Option-cases, Text, Json, length, length-append,
}
use agentic_bus.Ibac.Types.{IbacResult, is_allowed}
use agentic_bus.Sessions.{SessionState, step_agents}
use agentic_bus.Supervisor.Types.{
  GraphState, Surroundings, result_of, Run, Progress, done, raised, and_then,
}
use agentic_bus.Supervisor.{
  emission_request, validate_step_ibac, reject, retry_state, after_denial, attempts, validate_agent,
  validate_agents, execute_with_ibac_validation,
}

abbrev pub run_of : {W : Type 0} → Progress W → Run W
run_of (done run) = run
run_of (raised run) = run

module _ {W : Type 0} (o : Surroundings W) (max_retries : ℕ) (session : SessionState)
    (initial : GraphState) where
  abbrev pub judged : Text → Json → Run W → IbacResult
  judged a payload run =
      (o.evaluate_with_llm (emission_request o max_retries session initial a payload) run.world).0

  pub validate_step-allowed :
      (a : Text) (payload : Json) (run : Run W)
      → (validate_step_ibac o max_retries session initial a payload run).0
        ≡ is_allowed (judged a payload run)
  unfolding validate_step_ibac
  validate_step-allowed a payload run = elim (Bool-cases (is_allowed (judged a payload run))) [
    | inl e ↦ rw e
    | inr e ↦ rw e
  ]

  pub validate_step-final :
      (a : Text) (payload : Json) (run : Run W)
      → (validate_step_ibac o max_retries session initial a payload run).1.final_state
        ≡ run.final_state
  unfolding validate_step_ibac
  validate_step-final a payload run = elim (Bool-cases (is_allowed (judged a payload run))) [
    | inl e ↦ rw e
    | inr e ↦ rw e
  ]

  validate_step-decisions :
      (a : Text) (payload : Json) (run : Run W)
      → (validate_step_ibac o max_retries session initial a payload run).1.decisions
        ≡ run.decisions ++ judged a payload run ∷ []
  unfolding validate_step_ibac
  validate_step-decisions a payload run = elim (Bool-cases (is_allowed (judged a payload run))) [
    | inl e ↦ rw e
    | inr e ↦ rw e
  ]

  after_denial-decisions :
      (left : ℕ) (again : Json → Run W → Progress W) (a : Text) (run : Run W)
      → ((p : Json) (r : Run W) → length (run_of (again p r)).decisions ≤ length r.decisions + left)
      → length (run_of (after_denial o max_retries session initial left again a run)).decisions
        ≤ length run.decisions + left
  unfolding after_denial
  after_denial-decisions zero again a run bounded = unfold reject in omega arith
  after_denial-decisions (suc left) again a run bounded =
      from (o.ainvoke (retry_state o max_retries session initial run) run.world).0 refl
    where
      from :
          (returned : Option GraphState)
          → (o.ainvoke (retry_state o max_retries session initial run) run.world).0 ≡ returned
          → length
              (run_of (after_denial o max_retries session initial (suc left) again a run)).decisions
            ≤ length run.decisions + suc left
      from none e = rw (e, after_denial) (omega arith)
      from (some state) e = elim (Option-cases (result_of a state)) [
        | inl gone ↦ rw (e, after_denial) (rw gone (omega arith))
        | inr (p, found) ↦ rw (e, after_denial) (rw found (bounded p _))
      ]

  attempts-decisions :
      (left attempt : ℕ) (a : Text) (payload : Json) (run : Run W)
      → length
          (run_of (attempts o max_retries session initial left attempt a payload run)).decisions
        ≤ length run.decisions + left
  unfolding attempts
  attempts-decisions zero attempt a payload run = omega arith
  attempts-decisions (suc left) attempt a payload run =
      let count : length
            (validate_step_ibac o max_retries session initial a payload run).1.decisions
          ≡ length run.decisions + 1 =
        ap length (validate_step-decisions a payload run)
        ∙ length-append run.decisions (judged a payload run ∷ []) in
      elim (Bool-cases (validate_step_ibac o max_retries session initial a payload run).0) [
        | inl e ↦ rw e (omega (arith, count))
        | inr e ↦ rw e (
            omega (
              arith,
              count,
              after_denial-decisions left
                  (attempts o max_retries session initial left (attempt + 1) a) a _
                  (λ p r. attempts-decisions left (attempt + 1) a p r),
            ))
      ]

  validate_agent-decisions :
      (a : Text) (run : Run W)
      → length (run_of (validate_agent o max_retries session initial a run)).decisions
        ≤ length run.decisions + max_retries
  unfolding validate_agent
  validate_agent-decisions a run = elim (Option-cases (result_of a run.final_state)) [
    | inl absent ↦ rw (absent, validate_agent) (omega arith)
    | inr (p, found) ↦ rw (found, validate_agent) (attempts-decisions max_retries 1 a p run)
  ]

  and_then-decisions :
      (p : Progress W) (next : Run W → Progress W) (before rest : ℕ)
      → length (run_of p).decisions ≤ before + max_retries
      → ((r : Run W) → length (run_of (next r)).decisions ≤ length r.decisions + rest)
      → length (run_of (and_then p next)).decisions ≤ before + (max_retries + rest)
  and_then-decisions (raised run) next before rest h k = omega (arith, h)
  and_then-decisions (done run) next before rest h k = omega (arith, h, k run)

  validate_agents-decisions :
      (as' : List Text) (run : Run W)
      → length (run_of (validate_agents o max_retries session initial as' run)).decisions
        ≤ length run.decisions + length as' * max_retries
  unfolding validate_agents
  validate_agents-decisions [] run = omega arith
  validate_agents-decisions (a ∷ as') run =
      let bound =
        and_then-decisions (validate_agent o max_retries session initial a run)
          (validate_agents o max_retries session initial as') (length run.decisions)
          (length as' * max_retries) (validate_agent-decisions a run)
          (λ r. validate_agents-decisions as' r) in
      omega (arith, bound)

  -- An execution asks the engine at most `max_retries` times for each step of the plan, and ends.
  pub execute_with_ibac_validation-decisions :
      (decisions : List IbacResult) (world : W)
      → length
          (run_of
            (execute_with_ibac_validation o max_retries session initial decisions world)).decisions
        ≤ length decisions + length (step_agents session.composition_plan) * max_retries
  unfolding execute_with_ibac_validation
  execute_with_ibac_validation-decisions decisions world =
      elim (Option-cases (o.ainvoke initial world).0) [
        | inl e ↦ rw (e, execute_with_ibac_validation) (omega arith)
        | inr (state, e) ↦
            rw (e, execute_with_ibac_validation)
              (validate_agents-decisions (step_agents session.composition_plan) _)
      ]
