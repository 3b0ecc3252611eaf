-- ===== src/Schemas.antt =====
-- The `jsonschema` package, which agentic_bus/core/artifacts.py and agentic_bus/core/step_inputs.py
-- call, as a parameter: what it makes of a schema and of a value, and the path texts of its errors.
use agentic_bus.Common.{List, [], ◌∷◌, ◌++◌, Option, Text, codes, Json}

-- `ValidationError`, with `str` taken of each part of its `absolute_path`.
pub record SchemaError : Type 0 where
  pub absolute_path : List Text
  pub message : Text

-- A validator's `iter_errors`, run to its end. None is an exception, as of a reference in the schema
-- that cannot be resolved.
abbrev pub IterErrors : Type 0
IterErrors = Json → Option (List SchemaError)

-- `validator_for` and `check_schema`. None is a schema that is refused, by whatever exception.
abbrev pub Validators : Type 0
Validators = Json → Option IterErrors

-- separator.join(texts)
abbrev pub join : Text → List Text → Text
join separator [] = []
join separator (t ∷ []) = t
join separator (t ∷ u ∷ ts) = t ++ separator ++ join separator (u ∷ ts)

abbrev pub path_text : SchemaError → Text
path_text error = join (codes "/") error.absolute_path
