-- ===== src/Supervisor/Execution.antt =====
-- `ExecutionSupervisor.execute`: the gate, the capability, the run, and the completion.
use agentic_bus.Common.{
  ℕ, List, [], ◌∷◌, ◌++◌, Bool, true, false, not, Option, none, some, if◌then◌else◌, Text, codes,
  Dict, Json, lookup, is_empty, keep, map, str,
}
use agentic_bus.Scopes.{narrow}
use agentic_bus.Ibac.Types.{execution_authorization, IbacRequest, IbacResult, is_allowed, Reason}
use agentic_bus.Ibac.Capability.{IsoTime, Capability, issue, default_ttl_seconds}
use agentic_bus.Sessions.{execution, accepted, NegotiationRecord, SessionState}
use agentic_bus.Supervisor.Types.{
  GraphState, Texts, Surroundings, intent_text_of, context_of, claims_of, request_for, Run,
  Progress, done, raised,
}
use agentic_bus.Supervisor.{execute_with_ibac_validation}

pub data Status : Type 0 where
  success partial_failure denied error : Status

-- The `complete` message, with the metadata that its status carries.
pub record Complete : Type 0 where
  pub status : Status
  pub artifacts : List (Dict Json)
  pub ibac_reason : List Reason
  pub errors : List Json
  pub output : Json × Json

abbrev pub bare : Status → Complete
bare status = record {
  status = status;
  artifacts = [];
  ibac_reason = [];
  errors = [];
  output = (str [], str []);
}

-- None is an exception that leaves the method: the `ValueError` of a session that the manager no
-- longer has, or one of scoring or synthesis.
pub record Executed (W : Type 0) : Type 0 where
  pub complete : Option Complete
  pub session : SessionState
  pub world : W

abbrev pub is_accepted : NegotiationRecord → Bool
is_accepted r = elim r.status [ accepted ↦ true | _ ↦ false ]

-- The plan's participants or, without any, the agents of the accepted offers.
abbrev pub principals_of : SessionState → List Text
principals_of session =
    if is_empty session.composition_plan.participating_agents
    then map (λ (r : NegotiationRecord). r.agent_id) (keep is_accepted session.offers)
    else session.composition_plan.participating_agents

abbrev pub purpose_of : Texts → SessionState → Text
purpose_of texts session = elim (lookup (codes "purpose") (context_of session)) [
  | none ↦ []
  | some v ↦ texts.str_of v
]

abbrev pub initial_state : SessionState → GraphState
initial_state session = record {
  session_id = session.session_id;
  intent_text = intent_text_of session;
  context = context_of session;
  step_results = [];
  errors = [];
}

-- `fresh_id` is the capability's generated identifier, `now` the time at which it is issued, `held`
-- whether the session manager has the session.
module _ {W : Type 0} (o : Surroundings W) (iso : IsoTime) (max_retries : ℕ) (fresh_id : Text)
    (now : ℕ) (held : Bool) where
  unfoldable pub execution_capability : SessionState → IbacResult → Capability
  unfolding issue
  execution_capability session verdict = issue iso fresh_id now (record {
    session_id = session.session_id;
    principals = principals_of session;
    purpose = purpose_of o.texts session;
    scopes = narrow (claims_of session) session.requester_authority;
    resources = [];
    actions = [];
    constraints = verdict.constraints;
    ttl_seconds = default_ttl_seconds;
  })

  abbrev pub gate_request : SessionState → IbacRequest
  gate_request session = request_for execution_authorization session [] (intent_text_of session)

  abbrev pub with_decisions : SessionState → Run W → SessionState
  with_decisions session run = record session { ibac_decisions = run.decisions }

  abbrev pub completion : GraphState → Option (Json × Json) → Option Complete
  completion final none = none
  completion final (some output) =
      some (record (bare (if is_empty final.errors then success else partial_failure)) {
        artifacts = final.step_results ∷ [];
        errors = final.errors;
        output = output;
      })

  -- Behind the run: scoring, synthesis, and the completion.
  unfoldable pub complete_run : SessionState → Progress W → Executed W
  complete_run session (raised run) = record {
    complete = some (bare error);
    session = with_decisions session run;
    world = run.world;
  }
  complete_run session (done run) =
      let (scored, world) = o.score_all_steps run.final_state run.world in
      let (output, world') = o.synthesise_output run.final_state world in
      let session' = with_decisions session run in
      if scored
      then record {
        complete = completion run.final_state output;
        session = session';
        world = world';
      }
      else record { complete = none; session = session'; world = world }

  -- Behind the gate, with the capability issued.
  unfoldable pub run_session : SessionState → W → Executed W
  unfolding complete_run
  run_session session world =
      if not held
      then record { complete = none; session = session; world = world }
      else complete_run (record session { phase = execution })
          (execute_with_ibac_validation o max_retries (record session { phase = execution })
            (initial_state session) session.ibac_decisions world)

  unfoldable pub execute : SessionState → W → Executed W
  unfolding run_session execution_capability
  execute session world =
      let (verdict, world') = o.evaluate_with_llm (gate_request session) world in
      let judged = record session { ibac_decisions = session.ibac_decisions ++ verdict ∷ [] } in
      if not (is_allowed verdict)
      then record {
        complete = some (record (bare denied) { ibac_reason = verdict.reason });
        session = judged;
        world = world';
      }
      else run_session (record judged { capability = some (execution_capability session verdict) })
          world'
