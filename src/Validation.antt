-- ===== src/Validation.antt =====
-- The validation of an execution's output by the assigned agent: `AnswerValidationEngine.validate`
-- (agentic_bus/coordinator/validation/engine.py), and `_run_validation_loop` and
-- `_validation_renegotiate` of agentic_bus/coordinator/runtime.py up to the request for offers. Given
-- are the validator (none if there is none to be found), the summary
-- of the rules, and the discovery of agents, on a world `W`. The session manager has the session.
pub mod Rounds
mod Examples
use agentic_bus.Common.{
  ℕ, ◌+◌, List, [], ◌∷◌, ◌++◌, Bool, true, false, Option, none, some, if◌then◌else◌, leb, Text,
  codes, Dict, Json, str, bool, int, arr, obj, Items, nil, cons, Fields, end, field, pos, get_field,
  truthy, insert, is_empty,
}
use agentic_bus.Sessions.{
  discovery, negotiation, IntentPayload, empty_plan, ValidationResult, SessionState,
}
use agentic_bus.Supervisor.Types.{intent_text_of, context_of}

-- What a call of the validator comes to: the text of the exception that it raised, or its answer.
pub data Reply : Type 0 where
  call_failed : Text → Reply
  answered : Fields → Reply

-- answer, intent text, context, summary of the rules
abbrev pub Validator : Type 0 → Type 0
Validator W = Json → Text → Dict Json → Text → W → Reply × W

-- `ValidationResult.to_dict`
abbrev pub to_dict : ValidationResult → Json
to_dict vr = obj (
    field (codes "approved") (bool vr.approved) (
      field (codes "reason") vr.reason (
        field (codes "suggestions") vr.suggestions (
          field (codes "round_num") (int (pos vr.round_num))
            (field (codes "validator_agent_id") (str vr.validator_agent_id) end)))))

abbrev pub history_items : List ValidationResult → Items
history_items [] = nil
history_items (vr ∷ vrs) = cons (to_dict vr) (history_items vrs)

abbrev pub feedback : SessionState → Json
feedback session = arr (history_items session.validation_history)

abbrev pub validation_context : SessionState → Dict Json
validation_context session =
    if is_empty session.validation_history
    then context_of session
    else insert (codes "_validation_feedback") (feedback session) (context_of session)

abbrev pub or_default : Option Json → Json → Json
or_default none default = default
or_default (some v) default = v

-- What stands for the answer of a validator that raised.
abbrev pub failed_call : Text → Fields
failed_call exc = field (codes "approved") (bool false) (
    field (codes "reason") (str (codes "Validation call failed: " ++ exc))
      (field (codes "suggestions") (arr (cons (str (codes "Retry the execution.")) nil)) end))

abbrev pub response_of : Reply → Fields
response_of (call_failed exc) = failed_call exc
response_of (answered fs) = fs

abbrev pub round_result : SessionState → Fields → ValidationResult
round_result session fs = record {
  approved = truthy (or_default (get_field (codes "approved") fs) (bool false));
  reason = or_default (get_field (codes "reason") fs) (str []);
  suggestions = or_default (get_field (codes "suggestions") fs) (arr nil);
  round_num = session.validation_rounds + 1;
  validator_agent_id = session.assigned_agent_id;
}

abbrev pub recorded : SessionState → ValidationResult → SessionState
recorded session vr = record session {
  validation_rounds = vr.round_num;
  validation_history = session.validation_history ++ vr ∷ [];
}

pub data LoopOutcome : Type 0 where
  passed renegotiated rejected : LoopOutcome

-- Whether the session was dissolved stands beside the outcome.
pub record LoopResult (W : Type 0) : Type 0 where
  pub outcome : LoopOutcome
  pub dissolves : Bool
  pub session : SessionState
  pub world : W

abbrev pub with_feedback :
    SessionState → ValidationResult → Option IntentPayload → Option IntentPayload
with_feedback session vr none = none
with_feedback session vr (some intent) = some (record intent {
  context = insert (codes "_validation_suggestions") vr.suggestions (
      insert (codes "_validation_rejection_reason") vr.reason
        (insert (codes "_validation_feedback") (feedback session) intent.context));
})

-- The session as it enters discovery again; the new plan has no steps.
abbrev pub reset_negotiation : SessionState → ValidationResult → SessionState
reset_negotiation session vr = record session {
  offers = [];
  accepted_offers = [];
  solicited_agents = [];
  intent = with_feedback session vr session.intent;
  composition_plan = empty_plan;
  phase = discovery;
}

module _ {W : Type 0} (summary : Text) (discover : SessionState → W → List Text × W) where
  unfoldable pub validate :
      Validator W → Json → SessionState → W → ValidationResult × SessionState × W
  validate validator answer session world =
      let (returned, world') =
        validator answer (intent_text_of session) (validation_context session) summary world in
      let vr = round_result session (response_of returned) in (vr, recorded session vr, world')

  unfoldable pub validation_renegotiate : SessionState → ValidationResult → W → LoopResult W
  validation_renegotiate session vr world =
      let reset = reset_negotiation session vr in
      let (candidates, world') = discover reset world in
      let found = record reset { discovered_agents = candidates } in
      if is_empty candidates
      then record { outcome = renegotiated; dissolves = true; session = found; world = world' }
      else record {
        outcome = renegotiated;
        dissolves = false;
        session = record found { phase = negotiation };
        world = world';
      }

  unfoldable pub after_round : ValidationResult → SessionState → W → LoopResult W
  unfolding validation_renegotiate
  after_round vr session world =
      if vr.approved
      then record { outcome = passed; dissolves = false; session = session; world = world }
      else if leb session.max_validation_rounds session.validation_rounds
      then record { outcome = rejected; dissolves = true; session = session; world = world }
      else validation_renegotiate session vr world

  -- A validator that is not found skips the validation.
  unfoldable pub validated_by : Option (Validator W) → Json → SessionState → W → LoopResult W
  unfolding after_round validate
  validated_by none answer session world = record {
    outcome = passed;
    dissolves = false;
    session = session;
    world = world;
  }
  validated_by (some validator) answer session world =
      let (vr, session', world') = validate validator answer session world in
      after_round vr session' world'

  unfoldable pub run_validation_loop : Option (Validator W) → Json → SessionState → W → LoopResult W
  unfolding validated_by
  run_validation_loop found answer session world =
      if is_empty session.assigned_agent_id
      then record { outcome = passed; dissolves = false; session = session; world = world }
      else validated_by found answer session world
