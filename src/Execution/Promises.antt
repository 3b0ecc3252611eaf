-- ===== src/Execution/Promises.antt =====
-- Whether an artifact is held against the shape that its offer promised: `_validate_artifacts` and
-- `_promised_schema` of agentic_bus/coordinator/runtime.py, with the completion of
-- agentic_bus/agents/base/agent.py.
use agentic_bus.Common.{
  List, [], ◌∷◌, Bool, false, not, ◌&&◌, ◌||◌, Option, none, some, Option-cases, Bool-cases,
  if◌then◌else◌, Text, codes, ◌==◌, eq_iff, is_empty, Json, truthy, In, ◌≡◌, ◌≢◌, inl, inr, refl,
  ap, ◌∙◌, arith,
}
use agentic_bus.Schemas.{Validators}
use agentic_bus.Artifacts.{ValidationReport, report_ok, validate_artifacts}
use agentic_bus.Sessions.{NegotiationRecord}
use agentic_bus.Negotiation.Plans.{was_accepted}
use agentic_bus.Guard.{ScopeGrant, Current, require, require_normal, require_scope}
use agentic_bus.Execution.{
  Ambient, remember, TaskOutcome, Skill, ExecuteMessage, Completion, input_model_for, check_context,
  entered, handle_execute,
}
use agentic_bus.Execution.Sharing.{Action, remembers, requires, act, act_all, doing}

abbrev pub given_schema : Json → Option Json
given_schema schema = if truthy schema then some schema else none

-- Of the first accepted offer of the agent under this capability; an empty one stands for any.
unfoldable pub promised_schema :
    List NegotiationRecord → (agent_id capability_id : Text) → Option Json
promised_schema [] agent_id capability_id = none
promised_schema (r ∷ offers) agent_id capability_id =
    let rest = promised_schema offers agent_id capability_id in
    if not (was_accepted r) || not (r.agent_id == agent_id)
    then rest
    else if not (is_empty capability_id) && not (r.offer.capability_id == capability_id)
    then rest
    else given_schema r.offer.output_schema

-- What a completion states in its metadata.
abbrev pub grant_capability : Current → Text
grant_capability none = []
grant_capability (some grant) = grant.capability_id

abbrev pub echoed_capability : Completion → Text
echoed_capability completion = grant_capability completion.reported

abbrev pub report_passes : ValidationReport → Bool
report_passes report = report.unchecked || report_ok report

abbrev pub status_after :
    (enforced : Bool) → Option ValidationReport → (status : Text) → Option Text
status_after enforced none status = none
status_after enforced (some report) status =
    some (if report_passes report || not enforced then status else codes "error")

-- The status of the completion after the check. `enforced` is the coordinator's setting; none is an
-- exception of the validator.
unfoldable pub validated_status :
    Validators
    → (enforced : Bool) → List NegotiationRecord
    → (agent_id : Text) → List Json
    → Completion
    → Option Text
unfolding validate_artifacts promised_schema
validated_status validators enforced offers agent_id artifacts completion =
    let capability_id = echoed_capability completion in
    let schema = promised_schema offers agent_id capability_id in
    if is_empty artifacts
    then some completion.status
    else status_after enforced
        (validate_artifacts validators agent_id capability_id artifacts schema) completion.status

promised_schema-none :
    (offers : List NegotiationRecord) (a c : Text)
    → is_empty c ≡ false
    → ((r : NegotiationRecord) → In r offers → r.offer.capability_id ≢ c)
    → promised_schema offers a c ≡ none
unfolding promised_schema
promised_schema-none [] a c named other = refl
promised_schema-none (r ∷ offers) a c named other =
    let rest = promised_schema-none offers a c named (λ q m. other q (inr m)) in
    elim (Bool-cases (r.offer.capability_id == c)) [
      | inl same ↦ absurd (other r (inl refl) ((eq_iff r.offer.capability_id c).0 same))
      | inr differs ↦ rw (rest, named, differs) (ground arith)
    ]

require-capability :
    (g : ScopeGrant) (scope : Text) → (require g scope).1.capability_id ≡ g.capability_id
unfolding require require_normal
require-capability g scope = ground arith

act_all-capability :
    (actions : List Action) (ambient : Ambient) (g : ScopeGrant)
    → ambient.grant ≡ some g
    → grant_capability (act_all actions ambient).grant ≡ g.capability_id
unfolding act_all act remember require_scope
act_all-capability [] ambient g e = rw e refl
act_all-capability (remembers k v ∷ actions) ambient g e = act_all-capability actions _ g e
act_all-capability (requires scope ∷ actions) ambient g e =
    act_all-capability actions _ (require g scope).1 (ap (λ c. (require_scope scope c).1) e)
    ∙ require-capability g scope

echoed_capability-handle_execute :
    (skills : List Skill) (actions : List Action) (outcome : TaskOutcome) (message : ExecuteMessage)
    (before : Ambient)
    → echoed_capability (handle_execute skills (doing actions outcome) message before).0
      ≡ message.capability_id
unfolding handle_execute
echoed_capability-handle_execute skills actions outcome message before =
    elim (Option-cases (
      check_context (input_model_for skills message.agent_capability_id) message.context
        (entered message before))) [
          | inl accepts ↦ rw accepts (act_all-capability actions (entered message before) _ refl)
          | inr (refusal, e) ↦ rw e refl
        ]

-- A completion echoes the capability id of its execute message. Where this id is not empty and no offer
-- of the session is under it, as where it is the id of the capability that was issued for the session, the status of the completion
-- is kept whatever the artifacts are and whatever the offers promised, also where the check is enforced.
pub validated_status-handle_execute :
    (validators : Validators) (enforced : Bool) (offers : List NegotiationRecord) (a : Text)
    (artifacts : List Json) (skills : List Skill) (actions : List Action) (outcome : TaskOutcome)
    (message : ExecuteMessage) (before : Ambient)
    → is_empty message.capability_id ≡ false
    → ((r : NegotiationRecord) → In r offers → r.offer.capability_id ≢ message.capability_id)
    → let completion = (handle_execute skills (doing actions outcome) message before).0 in
      (echoed_capability completion ≡ message.capability_id)
      × (validated_status validators enforced offers a artifacts completion
          ≡ some completion.status)
unfolding validated_status validate_artifacts
validated_status-handle_execute validators enforced offers a artifacts skills actions outcome
      message before named other =
    let echo = echoed_capability-handle_execute skills actions outcome message before in
    (
      echo,
      rw (echo, promised_schema-none offers a message.capability_id named other) (ground arith),
    )
