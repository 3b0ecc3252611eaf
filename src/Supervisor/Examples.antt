-- ===== src/Supervisor/Examples.antt =====
-- The theorems about the supervised execution at a concrete graph, and tests.
use agentic_bus.Common.{
  ℕ, ◌+◌, [], ◌∷◌, true, false, ◌≡◌, ◌↔◌, ◌⊎◌, refl, Option, none, some, if◌then◌else◌, Text, codes,
  Json, str, null, end, In, contains, starts_with, lookup, insert, remove, ltb, ◌==◌,
}
use agentic_bus.Scopes.Bounds.{CoveredBy}
use agentic_bus.Ibac.Types.{IbacRequest, IbacResult, allow, deny, result, is_allowed}
use agentic_bus.Ibac.Capability.{Capability}
use agentic_bus.Ibac.Capability.Tally.{tally}
use agentic_bus.Sessions.{SessionState, new_session, PlanStep, empty_plan}
use agentic_bus.Supervisor.Types.{GraphState, Surroundings, Run, done, result_of}
use agentic_bus.Supervisor.{
  result_text, validate_step_ibac, reject, retry_state, after_denial, attempts, validate_agent,
  validate_agents, execute_with_ibac_validation,
}
use agentic_bus.Supervisor.Settlement.{Settled, attempts-Settled}
use agentic_bus.Supervisor.Execution.{success, initial_state, execute, run_session, complete_run}
use agentic_bus.Supervisor.Gate.{
  status_of, verdict, progress, Succeeds, execute-success_iff, execute-capability,
}

abbrev first_agent : Text
first_agent = codes "a"

abbrev second_agent : Text
second_agent = codes "b"

-- The world counts the runs of the graph. The first agent's answer is always bad, the second's is
-- good from the third run on.
abbrev answers : GraphState → ℕ → Option GraphState × ℕ
answers state runs = (
  some (record state {
    step_results =
        (first_agent, str (codes "bad"))
        ∷ (second_agent, str (if ltb runs 2 then codes "bad" else codes "good"))
        ∷ [];
  }),
  runs + 1,
)

abbrev judge : IbacRequest → ℕ → IbacResult × ℕ
judge request runs = (
  result (if contains (codes "bad") request.intent_text then deny else allow)
      request.evaluation_point [],
  runs,
)

abbrev text_of : Json → Text
text_of (str t) = t
text_of v = []

abbrev surroundings : Surroundings ℕ
surroundings = record {
  ainvoke = answers;
  evaluate_with_llm = judge;
  score_all_steps = λ state runs. (true, runs);
  synthesise_output = λ state runs. (some (str [], str []), runs);
  texts = record {
    str_of = text_of;
    dumps = text_of;
    reason_text = λ reason. [];
    rejection = λ limit restrictions. codes "rejected";
  };
}

abbrev step_of : Text → PlanStep
step_of agent_id = record {
  agent_id = agent_id;
  capability_id = [];
  description = [];
  constraints = null;
  input_schema = null;
  inputs = end;
  output_schema = null;
}

abbrev session : SessionState
session = record (new_session (codes "s1") (codes "alice") []) {
  composition_plan = record empty_plan {
    participating_agents = first_agent ∷ second_agent ∷ [];
    steps = step_of first_agent ∷ step_of second_agent ∷ [];
  };
}

abbrev start : Run ℕ
start = record {
  final_state = record (initial_state session) {
    step_results = (first_agent, str (codes "bad")) ∷ [];
  };
  retries = [];
  restrictions = [];
  decisions = [];
  world = 1;
}

-- The first agent's answer is rejected for good, with an error; the second agent's retry brings it
-- back, and the execution reports success.
rejected_result_returns :
    let done_execution = execute surroundings tally 2 (codes "c1") 5 true session 0 in
    (status_of done_execution ≡ some success)
    × (elim done_execution.complete [ none ↦ [] | some c ↦ c.artifacts ]
        ≡ ((first_agent, str (codes "bad")) ∷ (second_agent, str (codes "good")) ∷ []) ∷ [])
unfolding execute run_session complete_run execute_with_ibac_validation validate_agents
    validate_agent attempts after_denial validate_step_ibac reject result_of result_text contains
    starts_with lookup insert remove ◌==◌
rejected_result_returns = (refl, refl)

one_attempt :
    (r : Run ℕ) × (attempts surroundings 1 session
        (initial_state session)
        1
        1
        first_agent
        (str (codes "bad"))
        start
      ≡ done r)
unfolding attempts after_denial validate_step_ibac result_text contains starts_with
one_attempt = (_, refl)

bad_present : result_of first_agent start.final_state ≡ some (str (codes "bad"))
unfolding result_of lookup ◌==◌
bad_present = refl

attempts-Settled_example :
    Settled surroundings 1 session (initial_state session) first_agent one_attempt.0.final_state
attempts-Settled_example =
    attempts-Settled surroundings 1 session (initial_state session) 0 1 first_agent
      (str (codes "bad")) start one_attempt.0 bad_present one_attempt.1

execute-success_iff_example :
    (status_of (execute surroundings tally 2 (codes "c1") 5 true session 0) ≡ some success) ↔ (
      (is_allowed (verdict surroundings tally 2 (codes "c1") 5 true session 0) ≡ true)
      × (true ≡ true)
      × Succeeds surroundings tally 2
          (codes "c1")
          5
          true
          (progress surroundings tally 2 (codes "c1") 5 true session 0))
execute-success_iff_example = execute-success_iff surroundings tally 2 (codes "c1") 5 true session 0

issued :
    (c : Capability) × ((execute surroundings tally 2
        (codes "c1")
        5
        true
        session
        0).session.capability
      ≡ some c)
unfolding execute run_session complete_run execute_with_ibac_validation validate_agents
    validate_agent attempts after_denial validate_step_ibac reject result_of result_text contains
    starts_with lookup insert remove ◌==◌
issued = (_, refl)

execute-capability_example :
    (is_allowed (verdict surroundings tally 2 (codes "c1") 5 true session 0) ≡ true)
    × ((s : Text)
        → In s issued.0.scopes
        → In s [] × ((session.requester_authority ≡ []) ⊎ CoveredBy session.requester_authority s))
execute-capability_example =
    execute-capability surroundings tally 2 (codes "c1") 5 true session 0 issued.0 refl issued.1

-- A start at which the second agent's next answer is good.
abbrev second_start : Run ℕ
second_start = record start {
  final_state = record (initial_state session) {
    step_results = (second_agent, str (codes "bad")) ∷ [];
    errors = str (codes "rejected") ∷ [];
  };
  world = 2;
}

abbrev second_run : GraphState
second_run =
    record (retry_state surroundings 2 session (initial_state session)
      (validate_step_ibac surroundings 2 session (initial_state session) second_agent
        (str (codes "bad")) second_start).1) {
          step_results = (first_agent, str (codes "bad")) ∷ (second_agent, str (codes "good")) ∷ [];
        }

second_denied :
    (validate_step_ibac surroundings 2 session
      (initial_state session)
      second_agent
      (str (codes "bad"))
      second_start).0
    ≡ false
unfolding validate_step_ibac result_text contains starts_with
second_denied = refl

second_found : result_of second_agent second_run ≡ some (str (codes "good"))
unfolding result_of lookup ◌==◌
second_found = refl
