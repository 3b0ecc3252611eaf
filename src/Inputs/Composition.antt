-- ===== src/Inputs/Composition.antt =====
-- `compose_step_inputs` and `validate_inputs` of agentic_bus/core/step_inputs.py.
use agentic_bus.Common.{
  List, [], ◌∷◌, ◌++◌, Bool, true, false, not, Option, none, some, if◌then◌else◌, Text, codes,
  is_empty, length, map, Dict, Json, null, bool, int, float, str, arr, obj, Items, nil, cons,
  Fields, end, truthy, decimal,
}
use agentic_bus.Schemas.{SchemaError, IterErrors, Validators, path_text, join}
use agentic_bus.Inputs.Resolution.{
  key_error, index_error, type_error, value_error, validator_error, Resolved, ok, raised, bind_ok,
  resolve_refs,
}
use agentic_bus.Inputs.Shapes.{describe_shape, take, type_name, keys_of}
use agentic_bus.Inputs.Parsing.{Answer, answered, failed, ModelReply, parse}

pub record ComposedInputs : Type 0 where
  pub agent_id : Text
  pub capability_id : Text
  pub inputs : Fields
  pub unchecked : Bool
  pub violations : List Text

unfoldable pub is_ok : ComposedInputs → Bool
is_ok r = is_empty r.violations

unfoldable pub composed_summary : ComposedInputs → Text
unfolding is_ok
composed_summary r =
    if r.unchecked
    then codes "no input_schema declared; nothing to compose"
    else if is_ok r
    then codes "composed " ++ decimal (length (keys_of r.inputs)) ++ codes " parameter(s)"
    else join (codes "; ") r.violations

-- A plan's step, by the entries that the composition reads.
pub record Step : Type 0 where
  pub agent_id : Text
  pub capability_id : Text
  pub description : Text
  pub input_schema : Option Json

-- What fills the template of the prompt.
pub record Prompt : Type 0 where
  pub intent_text : Text
  pub agent_id : Text
  pub capability_id : Text
  pub description : Text
  pub input_schema : Text
  pub prior : Text
  pub memory : Text

-- What the code calls: Python's `str` and `repr` of a decoded value, `dict` of a list with items,
-- `json.dumps` with the two settings used, `json.loads`, and the `jsonschema` package.
pub record Environment : Type 0 where
  pub str_of : Json → Text
  pub repr : Json → Text
  pub dict_of : Items → Resolved Fields
  pub dumps : Json → Text
  pub dumps_default : Json → Text
  pub loads : Text → Answer Json
  pub validators : Validators

-- dict(value)
abbrev pub as_dict : Environment → Json → Resolved Fields
as_dict env (obj fs) = ok fs
as_dict env (arr nil) = ok end
as_dict env (arr (cons v vs)) = env.dict_of (cons v vs)
as_dict env (str []) = ok end
as_dict env (str (c ∷ s)) = raised value_error
as_dict env v = raised type_error

abbrev pub violation : SchemaError → Text
violation error =
    (if is_empty (path_text error) then codes "<root>" else path_text error)
    ++ codes ": "
    ++ error.message

abbrev pub blank_inputs : Text → Text → ComposedInputs
blank_inputs agent_id capability_id = record {
  agent_id = agent_id;
  capability_id = capability_id;
  inputs = end;
  unchecked = false;
  violations = [];
}

-- None is a schema that nobody can use.
abbrev pub with_violations : ComposedInputs → Option (List SchemaError) → Resolved ComposedInputs
with_violations r none = raised validator_error
with_violations r (some errors) = ok (record r { violations = map violation errors })

abbrev pub checked_by : Option IterErrors → Json → ComposedInputs → Resolved ComposedInputs
checked_by none value r = ok (record r { unchecked = true })
checked_by (some iter_errors) value r = with_violations r (iter_errors value)

abbrev pub is_absent : Option Json → Bool
is_absent none = true
is_absent (some schema) = not (truthy schema)

abbrev pub schema_or : Option Json → Json
schema_or none = obj end
schema_or (some schema) = if truthy schema then schema else obj end

module _ (env : Environment) where
  abbrev pub verdict : Option Json → Json → ComposedInputs → Resolved ComposedInputs
  verdict none value r = ok (record r { unchecked = true })
  verdict (some schema) value r =
      if truthy schema
      then checked_by (env.validators schema) value r
      else ok (record r { unchecked = true })

  -- The schema is checked against the value, the record keeps `dict` of it.
  unfoldable pub validate_inputs :
      Json → (input_schema : Option Json) (agent_id capability_id : Text) → Resolved ComposedInputs
  validate_inputs value schema agent_id capability_id =
      bind_ok (as_dict env value)
        (λ fs. verdict schema value (record (blank_inputs agent_id capability_id) { inputs = fs }))

  unfoldable pub shape_line : Text × Json → Text
  shape_line (k, v) = codes "  " ++ k ++ codes ": " ++ describe_shape 0 v

  -- prior_results or {}
  abbrev pub or_empty : Json → Json
  or_empty v = if truthy v then v else obj end

  abbrev pub or_else : Text → Text → Text
  or_else [] default = default
  or_else (c ∷ s) default = c ∷ s

  unfoldable pub prompt_of : Text → Step → (prior_results : Json) → Dict Json → Prompt
  unfolding shape_line
  prompt_of intent_text step prior_results memory = record {
    intent_text = intent_text;
    agent_id = step.agent_id;
    capability_id = step.capability_id;
    description = step.description;
    input_schema = env.dumps (schema_or step.input_schema);
    prior = or_else (take 2000 (env.dumps_default (or_empty prior_results))) (codes "{}");
    memory = or_else (join (codes "\n") (map shape_line memory)) (codes "  (nothing)");
  }

  abbrev pub violated : Step → Text → Resolved ComposedInputs
  violated step why =
      ok (record (blank_inputs step.agent_id step.capability_id) { violations = why ∷ [] })

  unfoldable pub validated : Step → Resolved Json → Resolved ComposedInputs
  unfolding validate_inputs
  validated step (ok value) =
      validate_inputs value (some (schema_or step.input_schema)) step.agent_id step.capability_id
  validated step (raised (key_error k)) =
      violated step (codes "reference to memory this step cannot read: " ++ env.repr k)
  validated step (raised index_error) = raised index_error
  validated step (raised type_error) = raised type_error
  validated step (raised value_error) = raised value_error
  validated step (raised validator_error) = raised validator_error

  abbrev pub not_an_object : Step → Json → Resolved ComposedInputs
  not_an_object step v =
      violated step (codes "composition returned " ++ type_name v ++ codes ", not an object")

  unfoldable pub filled : Step → Dict Json → Answer Json → Resolved ComposedInputs
  unfolding validated
  filled step memory (failed why) = violated step (codes "composition failed: " ++ why)
  filled step memory (answered (obj fs)) = validated step (resolve_refs env.str_of memory (obj fs))
  filled step memory (answered null) = not_an_object step null
  filled step memory (answered (bool b)) = not_an_object step (bool b)
  filled step memory (answered (int n)) = not_an_object step (int n)
  filled step memory (answered (float r w)) = not_an_object step (float r w)
  filled step memory (answered (str s)) = not_an_object step (str s)
  filled step memory (answered (arr vs)) = not_an_object step (arr vs)

  abbrev pub parsed : Answer ModelReply → Answer Json
  parsed (failed why) = failed why
  parsed (answered reply) = parse env.loads reply

  -- `llm` is the model that was passed or, without one, that `get_llm` returns; none where it raises.
  unfoldable pub compose_step_inputs :
      (llm : Option (Prompt → Answer ModelReply)) (intent_text : Text) (step : Step)
      (prior_results : Json) (memory : Dict Json)
      → Resolved ComposedInputs
  unfolding filled prompt_of
  compose_step_inputs llm intent_text step prior_results memory =
      if is_absent step.input_schema
      then ok (record (blank_inputs step.agent_id step.capability_id) { unchecked = true })
      else elim llm [
        | none ↦ violated step (codes "no LLM available to compose parameters")
        | some ainvoke ↦
            filled step memory (parsed (ainvoke (prompt_of intent_text step prior_results memory)))
      ]
