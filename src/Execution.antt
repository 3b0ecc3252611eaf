-- ===== src/Execution.antt =====
-- An agent's execution of a step: what it stages for the session's memory and reads of it
-- (agentic_bus/agents/memory.py), its context (agentic_bus/agents/inputs.py), `_handle_execute` and
-- `_input_model_for` of agentic_bus/agents/base/agent.py, and the writes that the coordinator applies
-- (agentic_bus/coordinator/runtime.py). The context variables of the running task are the state. A Pydantic model is
-- what it finds wrong with a context. Events and the texts of errors are left out.
mod Examples
pub mod Sharing
pub mod Promises
use agentic_bus.Common.{
  List, [], ◌∷◌, map, Bool, true, false, Option, none, some, if◌then◌else◌, Text, codes, ◌==◌,
  is_empty, Json, Dict, lookup, insert,
}
use agentic_bus.Guard
use agentic_bus.Guard.{ScopeGrant, Current, set_grant, reset_grant, require_scope}
use agentic_bus.Memory.{SessionMemory, MemoryWriteRequest, write_batch}

-- The values of the context variables. None is outside of an execution.
pub record Ambient : Type 0 where
  pub grant : Current
  pub staged : Option (Dict Json)
  pub snapshot : Option (Dict Json)
  pub context : Option (Dict Json)

-- x or {}
abbrev pub or_blank : Option (Dict Json) → Dict Json
or_blank none = []
or_blank (some d) = d

abbrev pub staged_with : Text → Json → Option (Dict Json) → Option (Dict Json)
staged_with key value none = none
staged_with key value (some staged) = some (insert key value staged)

unfoldable pub remember : Text → Json → Ambient → Ambient
remember key value ambient = record ambient { staged = staged_with key value ambient.staged }

abbrev pub staged_writes : Ambient → Dict Json
staged_writes ambient = or_blank ambient.staged

-- Each returns the value that the variable had, for the reset.
abbrev pub open_staging : Ambient → Option (Dict Json) × Ambient
open_staging ambient = (ambient.staged, record ambient { staged = some [] })

abbrev pub reset_staging : Option (Dict Json) → Ambient → Ambient
reset_staging token ambient = record ambient { staged = token }

abbrev pub value_or : Json → Option Json → Json
value_or default none = default
value_or default (some value) = value

abbrev pub recall_from : Text → Json → Option (Dict Json) → Json
recall_from key default none = default
recall_from key default (some snapshot) = value_or default (lookup key snapshot)

unfoldable pub recall : Text → Json → Ambient → Json
recall key default ambient = recall_from key default ambient.snapshot

abbrev pub recalled : Ambient → Dict Json
recalled ambient = or_blank ambient.snapshot

abbrev pub set_snapshot : Option (Dict Json) → Ambient → Option (Dict Json) × Ambient
set_snapshot snapshot ambient =
    (ambient.snapshot, record ambient { snapshot = some (or_blank snapshot) })

abbrev pub reset_snapshot : Option (Dict Json) → Ambient → Ambient
reset_snapshot token ambient = record ambient { snapshot = token }

abbrev pub set_context : Option (Dict Json) → Ambient → Option (Dict Json) × Ambient
set_context context ambient =
    (ambient.context, record ambient { context = some (or_blank context) })

abbrev pub reset_context : Option (Dict Json) → Ambient → Ambient
reset_context token ambient = record ambient { context = token }

pub record FieldError : Type 0 where
  pub field : Text
  pub reason : Text

-- `check` is the list of the fields that do not match; it is empty for a context that does.
pub record InputModel : Type 0 where
  pub name : Text
  pub check : Dict Json → List FieldError

-- The capabilities of the agent, with their models.
pub record Skill : Type 0 where
  pub capability_id : Text
  pub input_model : Option InputModel

abbrev pub model_of : Text → List Skill → Option InputModel
model_of wanted [] = none
model_of wanted (skill ∷ skills) =
    let rest = model_of wanted skills in
    if skill.capability_id == wanted then skill.input_model else rest

abbrev pub only_model : List Skill → Option InputModel
only_model (skill ∷ []) = skill.input_model
only_model _ = none

unfoldable pub input_model_for : List Skill → (agent_capability_id : Text) → Option InputModel
input_model_for skills wanted =
    if is_empty wanted then only_model skills else model_of wanted skills

pub data TaskOutcome : Type 0 where
  returned : Json → TaskOutcome
  raised_invalid_input : (model : Text) (errors : List FieldError) → TaskOutcome
  raised_scope_denied : (scope : Text) → TaskOutcome
  raised_error : (message : Text) → TaskOutcome

abbrev pub completion_status : TaskOutcome → Text
completion_status (returned result) = codes "success"
completion_status (raised_invalid_input model errors) = codes "invalid_input"
completion_status (raised_scope_denied scope) = codes "denied"
completion_status (raised_error message) = codes "error"

-- `InvalidInput`, where a field does not match.
abbrev pub invalid_input : Text → List FieldError → Option TaskOutcome
invalid_input model [] = none
invalid_input model (e ∷ errors) = some (raised_invalid_input model (e ∷ errors))

-- `inputs(model, context)`; none is that the context matches.
abbrev pub agent_inputs : InputModel → (context : Option (Dict Json)) → Ambient → Option TaskOutcome
agent_inputs model none ambient = invalid_input model.name (model.check (or_blank ambient.context))
agent_inputs model (some context) ambient = invalid_input model.name (model.check context)

abbrev pub check_context : Option InputModel → Dict Json → Ambient → Option TaskOutcome
check_context none context ambient = none
check_context (some model) context ambient = agent_inputs model (some context) ambient

abbrev pub Task : Type 0
Task = (context : Dict Json) → Ambient → TaskOutcome × Ambient

pub record ExecuteMessage : Type 0 where
  pub session_id : Text
  pub capability_id : Text
  pub agent_capability_id : Text
  pub authorized_scopes : List Text
  pub memory_snapshot : Option (Dict Json)
  pub context : Dict Json

-- The artifact is the outcome, as a value. `reported` is the grant, with what was used of it.
pub record Completion : Type 0 where
  pub status : Text
  pub artifact : TaskOutcome
  pub memory_writes : Dict Json
  pub reported : Current

abbrev pub grant_of : ExecuteMessage → ScopeGrant
grant_of message = record {
  session_id = message.session_id;
  capability_id = message.capability_id;
  granted = message.authorized_scopes;
  used = [];
  denied = [];
}

-- The context variables that the task runs under.
abbrev pub entered : ExecuteMessage → Ambient → Ambient
entered message ambient =
    let a1 = record ambient { grant = (set_grant (some (grant_of message)) ambient.grant).1 } in
    let a2 = (open_staging a1).1 in
    let a3 = (set_snapshot message.memory_snapshot a2).1 in
    (set_context (some message.context) a3).1

-- The try block: the context is checked first.
abbrev pub attempt : Option TaskOutcome → Task → Dict Json → Ambient → TaskOutcome × Ambient
attempt none task context ambient = task context ambient
attempt (some refusal) task context ambient = (refusal, ambient)

-- The finally block: each variable gets back what it had before.
abbrev pub left : (before after : Ambient) → Ambient
left before after =
    let a1 = reset_staging before.staged after in
    let a2 = reset_snapshot before.snapshot a1 in
    let a3 = reset_context before.context a2 in
    record a3 { grant = reset_grant before.grant a3.grant }

unfoldable pub handle_execute : List Skill → Task → ExecuteMessage → Ambient → Completion × Ambient
unfolding input_model_for
handle_execute skills task message ambient =
    let inside = entered message ambient in
    let model = input_model_for skills message.agent_capability_id in
    let (outcome, after) =
      attempt (check_context model message.context inside) task message.context inside in
    (
      record {
        status = completion_status outcome;
        artifact = outcome;
        memory_writes = staged_writes after;
        reported = after.grant;
      },
      left ambient after,
    )

abbrev pub write_request : Text × Json → MemoryWriteRequest Json
write_request (key, value) = record { key = key; value = value }

-- What the coordinator makes of a completion's writes.
unfoldable pub apply_writes :
    Dict Json → (agent_id : Text) → SessionMemory Json → List Bool × SessionMemory Json
unfolding write_batch
apply_writes raw_writes agent_id m = write_batch (map write_request raw_writes) agent_id m
