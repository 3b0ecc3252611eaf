-- ===== src/Inputs/Raised.antt =====
-- The exceptions that leave `compose_step_inputs` of agentic_bus/core/step_inputs.py.
use agentic_bus.Common.{
  false, some, Text, Dict, Json, null, bool, int, float, str, arr, obj, Fields, ◌≡◌, ◌≢◌, ◌↔◌, ◌⊎◌,
  inl, inr, refl, ap, ◌∙◌, true, Option, none, Option-cases, Bool-cases, truthy,
}
use agentic_bus.Inputs.Resolution.{
  Failure, key_error, index_error, type_error, value_error, validator_error, Resolved, ok, raised,
  bind_ok, resolve_refs,
}
use agentic_bus.Schemas.{IterErrors}
use agentic_bus.Inputs.Parsing.{Answer, answered, failed, ModelReply}
use agentic_bus.Inputs.Composition.{
  ComposedInputs, Step, Prompt, Environment, as_dict, schema_or, verdict, is_absent,
  validate_inputs, prompt_of, validated, filled, parsed, compose_step_inputs,
}

module _ (env : Environment) (step : Step) (memory : Dict Json) where
  -- The references raise something that is no `KeyError`, or `dict` refuses what they resolve to, or
  -- the validator of a usable schema raises something on it.
  abbrev pub Escapes : Answer Json → Failure → Type 0
  Escapes answer e =
      (fs : Fields) × (answer ≡ answered (obj fs))
      × (((resolve_refs env.str_of memory (obj fs) ≡ raised e) × ((k : Json) → e ≢ key_error k))
          ⊎ ((value : Json) × (resolve_refs env.str_of memory (obj fs) ≡ ok value)
              × ((as_dict env value ≡ raised e)
                  ⊎ ((inputs : Fields) × (iter_errors : IterErrors) × (as_dict env value
                        ≡ ok inputs)
                      × (env.validators (schema_or step.input_schema) ≡ some iter_errors)
                      × (iter_errors value ≡ none)
                      × (e ≡ validator_error)))))

  raised-bind_ok :
      {A B : Type 0} (r : Resolved A) (f : A → Resolved B) (e : Failure)
      → bind_ok r f ≡ raised e
      → (r ≡ raised e) ⊎ ((a : A) × (r ≡ ok a) × (f a ≡ raised e))
  raised-bind_ok (ok a) f e h = inr (a, refl, h)
  raised-bind_ok (raised e') f e h = inl (cc)

  raised-verdict :
      (schema value : Json) (r : ComposedInputs) (e : Failure)
      → truthy schema ≡ true
      → verdict env (some schema) value r ≡ raised e
      → (iter_errors : IterErrors) × (env.validators schema ≡ some iter_errors)
        × (iter_errors value ≡ none)
        × (e ≡ validator_error)
  raised-verdict schema value r e present h = elim (Option-cases (env.validators schema)) [
    | inl refused ↦ absurd (never (rw (present, refused) at h))
    | inr (iter_errors, usable) ↦ elim (Option-cases (iter_errors value)) [
      | inl fails ↦ (iter_errors, usable, fails, same h (rw (present, usable, fails) refl))
      | inr (errors, found) ↦ absurd (never (rw (present, usable, found) at h))
    ]
  ]
    where
      never : {a : ComposedInputs} → ok a ≡ raised e → ⊥
      never p = cc

      same :
          {o : Resolved ComposedInputs}
          → o ≡ raised e
          → o ≡ raised validator_error
          → e ≡ validator_error
      same p q = cc

  raised-validated :
      (fs : Fields) (resolved : Resolved Json) (e : Failure)
      → truthy (schema_or step.input_schema) ≡ true
      → resolve_refs env.str_of memory (obj fs) ≡ resolved
      → validated env step resolved ≡ raised e
      → Escapes (answered (obj fs)) e
  unfolding validated validate_inputs
  raised-validated fs (ok value) e present r h = elim (raised-bind_ok (as_dict env value) _ e h) [
    | inl refused ↦ (fs, refl, inr (value, r, inl refused))
    | inr (inputs, d, h') ↦
        let (iter_errors, usable, fails, same) =
          raised-verdict (schema_or step.input_schema) value _ e present h' in
        (fs, refl, inr (value, r, inr (inputs, iter_errors, d, usable, fails, same)))
  ]
  raised-validated fs (raised (key_error k)) e present r h = cc
  raised-validated fs (raised index_error) e present r h =
      let same : index_error ≡ e = cc in (fs, refl, inl (r ∙ ap raised same, λ k p. cc))
  raised-validated fs (raised type_error) e present r h =
      let same : type_error ≡ e = cc in (fs, refl, inl (r ∙ ap raised same, λ k p. cc))
  raised-validated fs (raised value_error) e present r h =
      let same : value_error ≡ e = cc in (fs, refl, inl (r ∙ ap raised same, λ k p. cc))
  raised-validated fs (raised validator_error) e present r h =
      let same : validator_error ≡ e = cc in (fs, refl, inl (r ∙ ap raised same, λ k p. cc))

  raised-filled :
      (answer : Answer Json) (e : Failure)
      → truthy (schema_or step.input_schema) ≡ true
      → filled env step memory answer ≡ raised e
      → Escapes answer e
  unfolding filled
  raised-filled (failed why) e present h = cc
  raised-filled (answered null) e present h = cc
  raised-filled (answered (bool b)) e present h = cc
  raised-filled (answered (int n)) e present h = cc
  raised-filled (answered (float r w)) e present h = cc
  raised-filled (answered (str s)) e present h = cc
  raised-filled (answered (arr vs)) e present h = cc
  raised-filled (answered (obj fs)) e present h =
      raised-validated fs (resolve_refs env.str_of memory (obj fs)) e present refl h

  validated-raised :
      (e : Failure) → ((k : Json) → e ≢ key_error k) → validated env step (raised e) ≡ raised e
  unfolding validated
  validated-raised (key_error k) n = absurd (n k refl)
  validated-raised index_error n = refl
  validated-raised type_error n = refl
  validated-raised value_error n = refl
  validated-raised validator_error n = refl

  Escapes-filled :
      (answer : Answer Json) (e : Failure)
      → truthy (schema_or step.input_schema) ≡ true
      → Escapes answer e
      → filled env step memory answer ≡ raised e
  unfolding filled validated validate_inputs
  Escapes-filled answer e present (fs, a, inl (r, n)) = rw (a, r) (validated-raised e n)
  Escapes-filled answer e present (fs, a, inr (value, r, inl d)) = rw (a, r, d) refl
  Escapes-filled answer e present
        (fs, a, inr (value, r, inr (inputs, iter_errors, d, usable, fails, same))) =
      rw (a, r, d, present, usable, fails, same) refl

-- For a step that publishes a schema, an exception leaves the composition exactly where the model
-- answers with an object and its references raise something that is no `KeyError`, such as an index
-- beyond the end of a list, or resolve to a value that `dict` refuses, or to one on which the validator
-- of the schema, where that is usable, raises something.
pub compose_step_inputs-raised_iff :
    (env : Environment) (ainvoke : Prompt → Answer ModelReply) (intent_text : Text) (step : Step)
    (prior_results : Json) (memory : Dict Json) (e : Failure)
    → is_absent step.input_schema ≡ false
    → (compose_step_inputs env (some ainvoke) intent_text step prior_results memory ≡ raised e)
      ↔ Escapes env step memory
          (parsed env (ainvoke (prompt_of env intent_text step prior_results memory)))
          e
unfolding compose_step_inputs
compose_step_inputs-raised_iff env ainvoke intent_text step prior_results memory e there =
    let answer = parsed env (ainvoke (prompt_of env intent_text step prior_results memory)) in
    let present = published step.input_schema there in
    rw there (
      λ h. raised-filled env step memory answer e present h,
      λ escapes. Escapes-filled env step memory answer e present escapes,
    )
  where
    published : (o : Option Json) → is_absent o ≡ false → truthy (schema_or o) ≡ true
    published none h = cc
    published (some schema) h = elim (Bool-cases (truthy schema)) [
      | inl t ↦ rw t t
      | inr f ↦ absurd (clash (rw f at h))
    ]
      where
        clash : true ≡ false → ⊥
        clash p = cc
