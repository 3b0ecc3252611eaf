-- ===== src/Supervisor/Types.antt =====
-- The data of the supervised execution, and what is given to it: what the compiled graph returns (none
-- is a raised exception), the engine's verdict, the scoring (false is an exception) and the
-- synthesis by a language model (none is an exception), all on a world `W` that they may change, and the texts that Python makes of values.
use agentic_bus.Common.{
  ℕ, zero, suc, List, [], ◌∷◌, Option, none, some, if◌then◌else◌, Text, Dict, Json, str, null, arr,
  Items, nil, cons, Fields, end, field, get_field, truthy, lookup, is_empty, Bool,
}
use agentic_bus.Ibac.Types.{EvaluationPoint, IbacRequest, IbacResult, Reason}
use agentic_bus.Sessions.{SessionState}

-- `AgBusGraphState`
pub record GraphState : Type 0 where
  pub session_id : Text
  pub intent_text : Text
  pub context : Dict Json
  pub step_results : Dict Json
  pub errors : List Json

pub record Texts : Type 0 where
  pub str_of : Json → Text
  pub dumps : Json → Text
  pub reason_text : List Reason → Text
  pub rejection : (max_retries : ℕ) (restrictions : List Text) → Text

pub record Surroundings (W : Type 0) : Type 0 where
  pub ainvoke : GraphState → W → Option GraphState × W
  pub evaluate_with_llm : IbacRequest → W → IbacResult × W
  pub score_all_steps : GraphState → W → Bool × W
  pub synthesise_output : GraphState → W → Option (Json × Json) × W
  pub texts : Texts

abbrev pub intent_text_of : SessionState → Text
intent_text_of session = elim session.intent [ none ↦ [] | some i ↦ i.intent_text ]

abbrev pub context_of : SessionState → Dict Json
context_of session = elim session.intent [ none ↦ [] | some i ↦ i.context ]

abbrev pub claims_of : SessionState → List Text
claims_of session = elim session.intent [ none ↦ [] | some i ↦ i.ibac_claims_requested ]

-- The two requests of the supervisor: no manifest, and no constraint or domain.
abbrev pub request_for : EvaluationPoint → SessionState → Text → Text → IbacRequest
request_for point session agent_id text = record {
  evaluation_point = point;
  requester_id = session.requester_id;
  requester_oidc_subject = session.requester_oidc_subject;
  agent_id = agent_id;
  intent_text = text;
  intent_context = context_of session;
  requested_scopes = claims_of session;
  proposed_capabilities = [];
  negotiated_constraints = [];
  data_domains = [];
  manifest = none;
}

abbrev pub clip : ℕ → Text → Text
clip zero s = []
clip (suc n) [] = []
clip (suc n) (c ∷ s) = c ∷ clip n s

-- response.get(k1, "") or response.get(k2, "") or …
abbrev pub first_truthy : List Text → Fields → Option Json
first_truthy [] fs = none
first_truthy (k ∷ ks) fs = elim (get_field k fs) [
  | none ↦ first_truthy ks fs
  | some v ↦ if truthy v then some v else first_truthy ks fs
]

-- final_state.get("step_results", {}).get(agent_id), which is None for a null as well
abbrev pub not_null : Option Json → Option Json
not_null none = none
not_null (some null) = none
not_null (some v) = some v

unfoldable pub result_of : Text → GraphState → Option Json
result_of agent_id s = not_null (lookup agent_id s.step_results)

abbrev pub restrictions_of : Text → Dict (List Text) → List Text
restrictions_of agent_id d = elim (lookup agent_id d) [ none ↦ [] | some rs ↦ rs ]

abbrev pub str_items : List Text → Items
str_items [] = nil
str_items (t ∷ ts) = cons (str t) (str_items ts)

abbrev pub restriction_fields : List Text → Dict (List Text) → Fields
restriction_fields [] d = end
restriction_fields (a ∷ as') d =
    let rest = restriction_fields as' d in
    if is_empty (restrictions_of a d)
    then rest
    else field a (arr (str_items (restrictions_of a d))) rest

-- What an execution has come to: the graph's last state, the number of the last denied attempt and
-- the restrictions by agent, and the decisions recorded on the session.
pub record Run (W : Type 0) : Type 0 where
  pub final_state : GraphState
  pub retries : Dict ℕ
  pub restrictions : Dict (List Text)
  pub decisions : List IbacResult
  pub world : W

pub data Progress (W : Type 0) : Type 0 where
  done raised : Run W → Progress W

abbrev pub and_then : {W : Type 0} → Progress W → (Run W → Progress W) → Progress W
and_then (done run) next = next run
and_then (raised run) next = raised run
