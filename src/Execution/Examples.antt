-- ===== src/Execution/Examples.antt =====
-- The theorems about executions at concrete agents, and tests.
use agentic_bus.Common.{
  List, [], ◌∷◌, true, false, none, some, Text, codes, ◌==◌, Json, null, bool, lookup, insert, ◌≡◌,
  refl, In, ◌≢◌, inl, inr, ap, sym, ◌∙◌,
}
use agentic_bus.Memory.Glob.{matches_pattern}
use agentic_bus.Memory.{
  SessionMemory, empty_memory, set_policy, check_write, coordinator_read, snapshot_for_agent,
}
use agentic_bus.Execution.{
  Ambient, recall, remember, staged_writes, open_staging, set_snapshot, InputModel, Skill,
  input_model_for, raised_error, returned, ExecuteMessage, handle_execute, apply_writes,
}
use agentic_bus.Schemas.{Validators}
use agentic_bus.Artifacts.{check_artifacts, validate_artifacts, report_ok}
use agentic_bus.Sessions.{NegotiationRecord, accepted}
use agentic_bus.Execution.Promises.{
  promised_schema, echoed_capability, validated_status, validated_status-handle_execute,
}
use agentic_bus.Execution.Sharing.{
  remembers, doing, act, act_all, last_remembered, recall-handle_execute,
}

abbrev idle : Ambient
idle = record { grant = none; staged = none; snapshot = none; context = none }

abbrev anything : InputModel
anything = record { name = codes "Anything"; check = λ _. [] }

abbrev nothing : InputModel
nothing = record {
  name = codes "Nothing";
  check = λ _. record { field = codes "to"; reason = codes "missing" } ∷ [];
}

abbrev skills : List Skill
skills =
    record { capability_id = codes "read"; input_model = some anything }
    ∷ record { capability_id = codes "send"; input_model = some nothing }
    ∷ []

abbrev message_for : Text → ExecuteMessage
message_for wanted = record {
  session_id = codes "s";
  capability_id = codes "c";
  agent_capability_id = wanted;
  authorized_scopes = codes "crm:read" ∷ [];
  memory_snapshot = none;
  context = [];
}

abbrev rows : Text
rows = codes "crm.rows"

abbrev memory : SessionMemory Json
memory =
    set_policy
      (record { agent_id = codes "crm"; read_patterns = []; write_patterns = codes "crm.*" ∷ [] })
      (set_policy
        (record {
          agent_id = codes "mail";
          read_patterns = codes "crm.*" ∷ [];
          write_patterns = [];
        })
        empty_memory)

remembered_twice :
    staged_writes (
      act_all (remembers rows (bool false) ∷ remembers rows (bool true) ∷ []) (open_staging idle).1)
    ≡ (rows, bool true) ∷ []
unfolding act_all act remember insert ◌==◌
remembered_twice = refl

outside_of_an_execution : staged_writes (remember rows null idle) ≡ []
unfolding remember
outside_of_an_execution = refl

ambiguous_capability : input_model_for skills [] ≡ none
unfolding input_model_for
ambiguous_capability = refl

refused_input :
    (handle_execute skills
      (doing (remembers rows null ∷ []) (returned null))
      (message_for (codes "send"))
      idle).0.memory_writes
    ≡ []
unfolding handle_execute input_model_for ◌==◌
refused_input = refl

-- The task fails, and what it remembered is recalled.
recall-handle_execute_example :
    let writes =
      (handle_execute skills
        (doing (remembers rows (bool true) ∷ []) (raised_error (codes "broken")))
        (message_for (codes "read"))
        idle).0.memory_writes in
    recall rows null
      (set_snapshot
        (some (snapshot_for_agent (codes "mail") (apply_writes writes (codes "crm") memory).1).0)
        idle).1
    ≡ bool true
unfolding input_model_for ◌==◌ lookup insert set_policy check_write coordinator_read last_remembered
    matches_pattern
recall-handle_execute_example =
    recall-handle_execute skills (remembers rows (bool true) ∷ []) (raised_error (codes "broken"))
      (message_for (codes "read")) idle idle (codes "crm") (codes "mail") rows null memory refl

-- Nothing but null matches the schema.
abbrev only_null : Validators
only_null schema = some (λ v.
    some
      (elim v [ null ↦ [] | _ ↦ record { absolute_path = []; message = codes "not null" } ∷ [] ]))

abbrev reading_offer : NegotiationRecord
reading_offer = record {
  agent_id = codes "crm";
  offer = record {
    capability_id = codes "read";
    capability_description = [];
    constraints = null;
    required_scopes = [];
    input_schema = null;
    output_schema = bool true;
  };
  status = accepted;
  rejection_reason = [];
}

reading_is_not_c :
    (r : NegotiationRecord) → In r (reading_offer ∷ []) → r.offer.capability_id ≢ codes "c"
reading_is_not_c r (inl e) same = different (ap (λ q. q.offer.capability_id) (sym e) ∙ same)
  where
    different : codes "read" ≢ codes "c"
    different e = cc
reading_is_not_c r (inr none_left) same = absurd none_left

promise_found : promised_schema (reading_offer ∷ []) (codes "crm") (codes "read") ≡ some (bool true)
unfolding promised_schema ◌==◌
promise_found = refl

-- An echo of the offer's id would be checked.
promise_broken :
    validated_status only_null true
      (reading_offer ∷ [])
      (codes "crm")
      (bool true ∷ [])
      (handle_execute skills
        (doing [] (returned (bool true)))
        (record (message_for (codes "read")) { capability_id = codes "read" })
        idle).0
    ≡ some (codes "error")
unfolding validated_status handle_execute input_model_for act_all ◌==◌ promised_schema
    check_artifacts validate_artifacts report_ok
promise_broken = refl

validated_status-handle_execute_example :
    let completion =
      (handle_execute skills
        (doing [] (returned (bool true)))
        (message_for (codes "read"))
        idle).0 in
    (echoed_capability completion ≡ codes "c")
    × (validated_status only_null true
          (reading_offer ∷ [])
          (codes "crm")
          (bool true ∷ [])
          completion
        ≡ some completion.status)
validated_status-handle_execute_example =
    validated_status-handle_execute only_null true (reading_offer ∷ []) (codes "crm")
      (bool true ∷ []) skills [] (returned (bool true)) (message_for (codes "read")) idle refl
      reading_is_not_c
