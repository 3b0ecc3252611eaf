-- ===== src/Supervisor.antt =====
-- The run of the graph with its validation (`_execute_with_ibac_validation` and `_validate_step_ibac`
-- of agentic_bus/coordinator/execution/supervisor.py). Latencies are left out.
pub mod Types
pub mod Attempts
pub mod Settlement
pub mod Execution
pub mod Gate
mod Examples
use agentic_bus.Common.{
  ℕ, zero, suc, ◌+◌, List, [], ◌∷◌, ◌++◌, Bool, true, false, not, Option, none, some, if◌then◌else◌,
  Text, codes, Dict, Json, str, null, obj, arr, Items, nil, cons, Fields, end, field, get_field,
  truthy, lookup, insert, remove, is_empty, keep, map,
}
use agentic_bus.Scopes.{narrow}
use agentic_bus.Ibac.Types.{
  EvaluationPoint, execution_authorization, artifact_emission, IbacRequest, IbacResult, is_allowed,
  Reason,
}
use agentic_bus.Ibac.Capability.{IsoTime, Capability, Grant, issue, default_ttl_seconds}
use agentic_bus.Sessions.{
  execution, IntentPayload, accepted, OfferStatus, NegotiationRecord, CompositionPlan, SessionState,
  step_agents,
}
use agentic_bus.Supervisor.Types.{
  GraphState, Texts, Surroundings, intent_text_of, context_of, claims_of, request_for, clip,
  first_truthy, not_null, result_of, restrictions_of, str_items, restriction_fields, Run, Progress,
  done, raised, and_then,
}

module _ {W : Type 0} (o : Surroundings W) (max_retries : ℕ) (session : SessionState)
    (initial : GraphState) where
  unfoldable pub result_text : Json → Text
  result_text (obj fs) =
      elim (first_truthy (codes "output" ∷ codes "result" ∷ codes "answer" ∷ []) fs) [
        | none ↦ clip 2000 (o.texts.dumps (obj fs))
        | some v ↦ o.texts.str_of v
      ]
  result_text v = clip 2000 (o.texts.str_of v)

  abbrev pub emission_request : Text → Json → IbacRequest
  emission_request agent_id payload =
      request_for artifact_emission session agent_id
        (intent_text_of session ++ 10 ∷ 10 ∷ codes "Agent answer: " ++ result_text payload)

  unfoldable pub validate_step_ibac : Text → Json → Run W → Bool × Run W
  validate_step_ibac agent_id payload run =
      let (verdict, world) = o.evaluate_with_llm (emission_request agent_id payload) run.world in
      let decisions = run.decisions ++ verdict ∷ [] in
      if not (is_allowed verdict)
      then (
        false,
        record run {
          decisions = decisions;
          world = world;
          restrictions =
              insert agent_id
                (restrictions_of agent_id run.restrictions
                  ++ o.texts.reason_text verdict.reason ∷ [])
                run.restrictions;
        },
      )
      else (true, record run { decisions = decisions; world = world })

  -- The last attempt was denied: the error is recorded and the result is cleared.
  unfoldable pub reject : Text → Run W → Run W
  reject agent_id run = record run {
    final_state = record (run.final_state) {
      errors =
          run.final_state.errors
          ++ obj (
              field (codes "agent_id") (str agent_id) (
                field (codes "error")
                  (str (o.texts.rejection max_retries (restrictions_of agent_id run.restrictions)))
                  end))
            ∷ [];
      step_results = remove agent_id run.final_state.step_results;
    };
  }

  abbrev pub retry_state : Run W → GraphState
  retry_state run = record initial {
    context =
        insert (codes "_ibac_restrictions")
          (obj (restriction_fields (step_agents session.composition_plan) run.restrictions))
          initial.context;
  }

  -- What follows a denied attempt, with `left` attempts left; `again` is the next one.
  unfoldable pub after_denial : ℕ → (Json → Run W → Progress W) → Text → Run W → Progress W
  unfolding reject result_of
  after_denial zero again agent_id run = done (reject agent_id run)
  after_denial (suc left) again agent_id run =
      let (returned, world) = o.ainvoke (retry_state run) run.world in
      elim returned [
        | none ↦ raised (record run { world = world })
        | some state ↦
            let run' = record run { final_state = state; world = world } in
            elim (result_of agent_id state) [ none ↦ done run' | some payload ↦ again payload run' ]
      ]

  -- for attempt in range(1, max_retries + 1): the first argument is how many attempts are left.
  unfoldable pub attempts : ℕ → ℕ → Text → Json → Run W → Progress W
  unfolding validate_step_ibac after_denial
  attempts zero attempt agent_id payload run = done run
  attempts (suc left) attempt agent_id payload run =
      let again = attempts left (attempt + 1) agent_id in
      let (allowed, run') = validate_step_ibac agent_id payload run in
      if allowed
      then done run'
      else after_denial left again agent_id
          (record run' { retries = insert agent_id attempt run'.retries })

  unfoldable pub validate_agent : Text → Run W → Progress W
  unfolding attempts result_of
  validate_agent agent_id run = elim (result_of agent_id run.final_state) [
    | none ↦ done run
    | some payload ↦ attempts max_retries 1 agent_id payload run
  ]

  unfoldable pub validate_agents : List Text → Run W → Progress W
  unfolding validate_agent
  validate_agents [] run = done run
  validate_agents (a ∷ as') run = and_then (validate_agent a run) (validate_agents as')

  abbrev pub no_retries : List Text → Dict ℕ
  no_retries [] = []
  no_retries (a ∷ as') = insert a 0 (no_retries as')

  unfoldable pub execute_with_ibac_validation : List IbacResult → W → Progress W
  unfolding validate_agents
  execute_with_ibac_validation decisions world =
      let (returned, world') = o.ainvoke initial world in
      let start : GraphState → Run W = λ state. record {
        final_state = state;
        retries = no_retries (step_agents session.composition_plan);
        restrictions = [];
        decisions = decisions;
        world = world';
      } in
      elim returned [
        | none ↦ raised (start initial)
        | some state ↦ validate_agents (step_agents session.composition_plan) (start state)
      ]
