-- ===== src/Inputs/Examples.antt =====
-- A shipping step whose parameters come from an order list in memory, on concrete values.
use agentic_bus.Common.{
  ℕ, [], ◌∷◌, some, Text, codes, Dict, lookup, Json, null, int, str, arr, obj, nil, cons, Fields,
  end, field, ◌↔◌, pos, ◌==◌, split_on, all_digits, int_of, decimal, strip, starts_with, ◌≡◌, inl,
  inr, refl,
}
use agentic_bus.Schemas.{IterErrors, Validators}
use agentic_bus.Inputs.Resolution.{
  dereference, walk_path, project, key_error, index_error, value_error, ok, raised, resolve_refs,
  select,
}
use agentic_bus.Inputs.Granted.{references}
use agentic_bus.Inputs.Independence.{Agree, resolve_refs-Agree}
use agentic_bus.Inputs.Shapes.{describe_shape}
use agentic_bus.Inputs.Parsing.{
  Answer, answered, failed, ModelReply, decoded, plain, parse, unfenced, braces,
}
use agentic_bus.Inputs.Composition.{
  ComposedInputs, Step, Prompt, Environment, blank_inputs, prompt_of, parsed, validated, filled,
  compose_step_inputs,
}
use agentic_bus.Inputs.Outcomes.{
  erase_memory, prompt_of-erase, IsClean, Accepted, compose_step_inputs-IsClean_iff,
}
use agentic_bus.Inputs.Raised.{Escapes, compose_step_inputs-raised_iff}

abbrev plain_str : Json → Text
plain_str (str s) = s
plain_str _ = []

abbrev order : ℕ → Text → Json
order id name = obj (field (codes "id") (int (pos id)) (field (codes "name") (str name) end))

abbrev memory : Dict Json
memory =
    (codes "shop.orders", arr (cons (order 7 (codes "Ada")) (cons (order 8 (codes "Alan")) nil)))
    ∷ (codes "shop.secret", str (codes "hush"))
    ∷ []

abbrev reference : Text → Fields → Json
reference key fs = obj (field (codes "$from") (str key) fs)

abbrev ids : Fields
ids = field (codes "$fields") (obj (field (codes "number") (str (codes "id")) end)) end

abbrev answer_fields : Fields
answer_fields = field (codes "orders") (reference (codes "shop.orders") ids) end

abbrev resolved : Fields
resolved =
    field (codes "orders")
      (arr (
        cons (obj (field (codes "number") (int (pos 7)) end))
          (cons (obj (field (codes "number") (int (pos 8)) end)) nil)))
      end

resolves : resolve_refs plain_str memory (obj answer_fields) ≡ ok (obj resolved)
unfolding resolve_refs ◌==◌ dereference lookup project select
resolves = refl

beyond_the_end :
    resolve_refs plain_str memory
      (reference (codes "shop.orders") (field (codes "$path") (str (codes "5.id")) end))
    ≡ raised index_error
unfolding resolve_refs ◌==◌ dereference lookup walk_path split_on all_digits int_of
beyond_the_end = refl

not_granted :
    resolve_refs plain_str memory (reference (codes "other") end)
    ≡ raised (key_error (str (codes "other")))
unfolding resolve_refs ◌==◌ dereference lookup project select
not_granted = refl

second_name :
    resolve_refs plain_str memory
      (reference (codes "shop.orders") (field (codes "$path") (str (codes "1.name")) end))
    ≡ ok (str (codes "Alan"))
unfolding resolve_refs ◌==◌ dereference lookup walk_path split_on all_digits int_of
second_name = refl

shape_of_orders : describe_shape 0 (order 7 (codes "Ada")) ≡ codes "{id, name}"
unfolding describe_shape
shape_of_orders = refl

shape_of_list :
    describe_shape 0 (arr (cons (order 7 (codes "Ada")) (cons (order 8 (codes "Alan")) nil)))
    ≡ codes "list[2] of {id, name}"
unfolding describe_shape decimal ◌==◌
shape_of_list = refl

abbrev no_errors : IterErrors
no_errors v = some []

abbrev lenient : Validators
lenient v = some no_errors

abbrev env : Environment
env = record {
  str_of = plain_str;
  repr = plain_str;
  dict_of = λ vs. raised value_error;
  dumps = plain_str;
  dumps_default = plain_str;
  loads = λ s. failed (codes "no JSON");
  validators = lenient;
}

abbrev schema : Json
schema = obj (field (codes "type") (str (codes "object")) end)

abbrev ship : Step
ship = record {
  agent_id = codes "shipping";
  capability_id = codes "ship";
  description = [];
  input_schema = some schema;
}

abbrev model : Fields → Prompt → Answer ModelReply
model fs prompt = answered (decoded fs)

fenced :
    parse (λ s. answered (str s)) (plain (codes " ```json\n{\"a\": 1}\n``` "))
    ≡ answered (str (codes "{\"a\": 1}"))
unfolding parse unfenced braces strip starts_with
fenced = refl

abbrev accepted : ComposedInputs
accepted = record (blank_inputs (codes "shipping") (codes "ship")) { inputs = resolved }

-- The memory without the entry that the request does not name.
abbrev orders_only : Dict Json
orders_only =
    (codes "shop.orders", arr (cons (order 7 (codes "Ada")) (cons (order 8 (codes "Alan")) nil)))
    ∷ []

resolve_refs-Agree_example :
    resolve_refs plain_str memory (obj answer_fields)
    ≡ resolve_refs plain_str orders_only (obj answer_fields)
unfolding references ◌==◌ lookup
resolve_refs-Agree_example =
    resolve_refs-Agree plain_str memory orders_only (obj answer_fields) same
  where
    text_eq : {a b : Text} → str a ≡ str b → a ≡ b
    text_eq p = cc

    same : Agree memory orders_only (references (obj answer_fields))
    same name (inl e) = rw (text_eq e) refl
    same name (inr m) = absurd m

prompt_of-erase_example :
    prompt_of env (codes "ship it") ship null (erase_memory memory)
    ≡ prompt_of env (codes "ship it") ship null memory
prompt_of-erase_example = prompt_of-erase env (codes "ship it") ship null memory

compose_step_inputs-IsClean_iff_example :
    ((compose_step_inputs env (some (model answer_fields)) (codes "ship it") ship null memory
        ≡ ok accepted)
      × IsClean env ship memory accepted)
    ↔ Accepted env ship memory
        (parsed env (model answer_fields (prompt_of env (codes "ship it") ship null memory)))
        accepted
compose_step_inputs-IsClean_iff_example =
    compose_step_inputs-IsClean_iff env (model answer_fields) (codes "ship it") ship null memory
      schema accepted refl refl

abbrev far : Fields
far =
    field (codes "order")
      (reference (codes "shop.orders") (field (codes "$path") (str (codes "5.id")) end)) end

compose_step_inputs-raised_iff_example :
    (compose_step_inputs env (some (model far)) (codes "ship it") ship null memory
      ≡ raised index_error)
    ↔ Escapes env ship memory
        (parsed env (model far (prompt_of env (codes "ship it") ship null memory)))
        index_error
compose_step_inputs-raised_iff_example =
    compose_step_inputs-raised_iff env (model far) (codes "ship it") ship null memory index_error
      refl

-- An index beyond the end of a list leaves the composition as an exception.
index_escapes :
    compose_step_inputs env (some (model far)) (codes "ship it") ship null memory
    ≡ raised index_error
unfolding compose_step_inputs filled validated parse resolve_refs ◌==◌ dereference lookup walk_path
    split_on all_digits int_of
index_escapes = refl
