-- ===== src/Inputs/Outcomes.antt =====
-- What the composition of a step's parameters comes to: agentic_bus/core/step_inputs.py.
use agentic_bus.Common.{
  List, [], ◌∷◌, true, false, some, Option-cases, Text, Dict, Json, null, bool, int, float, str,
  arr, obj, Fields, truthy, map, ◌≡◌, ◌↔◌, inl, inr, refl, sym, subst, ◌∙◌, ap,
}
use mathlib.Core.Bool.{false≢true}
use mathlib.Core.List.{cons≢nil}
use agentic_bus.Inputs.Granted.{bind_ok-inv}
use agentic_bus.Schemas.{IterErrors}
use agentic_bus.Inputs.Resolution.{
  key_error, index_error, type_error, value_error, validator_error, Resolved, ok, raised,
  resolve_refs,
}
use agentic_bus.Inputs.Shapes.{erase, describe_shape-erase}
use agentic_bus.Inputs.Parsing.{Answer, answered, failed, ModelReply}
use agentic_bus.Inputs.Composition.{
  ComposedInputs, Step, Prompt, Environment, as_dict, violation, blank_inputs, is_absent, schema_or,
  verdict, validate_inputs, shape_line, prompt_of, violated, validated, filled, parsed,
  compose_step_inputs,
}

ok-injective : {A : Type 0} {a b : A} → ok a ≡ ok b → a ≡ b
ok-injective e = cc

map-nil : {A B : Type 0} (f : A → B) (xs : List A) → map f xs ≡ [] → xs ≡ []
map-nil f [] h = refl
map-nil f (x ∷ xs) h = absurd (cons≢nil h)

abbrev pub erase_memory : Dict Json → Dict Json
erase_memory [] = []
erase_memory ((k, v) ∷ memory) = (k, erase v) ∷ erase_memory memory

shape_lines-erase :
    (env : Environment) (memory : Dict Json)
    → map (shape_line env) (erase_memory memory) ≡ map (shape_line env) memory
unfolding shape_line
shape_lines-erase env [] = refl
shape_lines-erase env ((k, v) ∷ memory) =
    rw (describe_shape-erase 0 v, shape_lines-erase env memory) refl

-- The prompt is the same when every value in the memory is wiped out, with the results of earlier steps
-- as they are: of the memory that is passed the model is shown the keys and shapes only. The results
-- go into the prompt as they are.
pub prompt_of-erase :
    (env : Environment) (intent_text : Text) (step : Step) (prior_results : Json)
    (memory : Dict Json)
    → prompt_of env intent_text step prior_results (erase_memory memory)
      ≡ prompt_of env intent_text step prior_results memory
unfolding prompt_of
prompt_of-erase env intent_text step prior_results memory = rw (shape_lines-erase env memory) refl

module _ (env : Environment) (step : Step) (memory : Dict Json) where
  -- The model answered with an object, its references resolve, and the agent's schema is usable
  -- and finds no fault with the value that they resolve to.
  abbrev pub Accepted : Answer Json → ComposedInputs → Type 0
  Accepted answer r =
      (fs : Fields) × (inputs : Fields) × (value : Json) × (iter_errors : IterErrors) × (answer
        ≡ answered (obj fs))
      × (resolve_refs env.str_of memory (obj fs) ≡ ok value)
      × (as_dict env value ≡ ok inputs)
      × (env.validators (schema_or step.input_schema) ≡ some iter_errors)
      × (iter_errors value ≡ some [])
      × (r ≡ record (blank_inputs step.agent_id step.capability_id) { inputs = inputs })

  -- A composition counts as checked and free of violations.
  abbrev pub IsClean : ComposedInputs → Type 0
  IsClean r = (r.unchecked ≡ false) × (r.violations ≡ [])

  violated-unclean :
      (why : Text) (r : ComposedInputs) → violated env step why ≡ ok r → IsClean r → ⊥
  violated-unclean why r h clean =
      let (_, none_left) = subst IsClean (sym (ok-injective h)) clean in cons≢nil none_left

  verdict-clean :
      (schema value : Json) (r r' : ComposedInputs)
      → truthy schema ≡ true
      → verdict env (some schema) value r ≡ ok r'
      → IsClean r'
      → (iter_errors : IterErrors) × (env.validators schema ≡ some iter_errors)
        × (iter_errors value ≡ some [])
        × (r' ≡ record r { violations = [] })
  verdict-clean schema value r r' present h clean = elim (Option-cases (env.validators schema)) [
    | inl refused ↦
        let (checked, _) = subst IsClean (sym (ok-injective (rw (present, refused) at h))) clean in
        absurd (false≢true (sym checked))
    | inr (iter_errors, usable) ↦ elim (Option-cases (iter_errors value)) [
      | inl fails ↦ absurd (refuse (rw (present, usable, fails) at h))
      | inr (errors, found) ↦
          let e = ok-injective (rw (present, usable, found) at h) in
          let (_, none_left) = subst IsClean (sym e) clean in
          let quiet = map-nil violation errors none_left in
          (
            iter_errors,
            usable,
            found ∙ ap some quiet,
            sym e ∙ ap (λ vs. record r { violations = map violation vs }) quiet,
          )
    ]
  ]
    where
      refuse : raised validator_error ≡ ok r' → ⊥
      refuse p = cc

  validated-clean :
      (fs : Fields) (resolved : Resolved Json) (r : ComposedInputs)
      → truthy (schema_or step.input_schema) ≡ true
      → resolve_refs env.str_of memory (obj fs) ≡ resolved
      → validated env step resolved ≡ ok r
      → IsClean r
      → Accepted (answered (obj fs)) r
  unfolding validated validate_inputs
  validated-clean fs (ok value) r present e h clean =
      let (inputs, dict_eq, h') = bind_ok-inv (as_dict env value) _ r h in
      let (iter_errors, usable, quiet, r_eq) =
        verdict-clean (schema_or step.input_schema) value _ r present h' clean in
      (fs, inputs, value, iter_errors, refl, e, dict_eq, usable, quiet, r_eq)
  validated-clean fs (raised (key_error k)) r present e h clean =
      absurd (violated-unclean _ r h clean)
  validated-clean fs (raised index_error) r present e h clean = cc
  validated-clean fs (raised type_error) r present e h clean = cc
  validated-clean fs (raised value_error) r present e h clean = cc
  validated-clean fs (raised validator_error) r present e h clean = cc

  filled-clean :
      (answer : Answer Json) (r : ComposedInputs)
      → truthy (schema_or step.input_schema) ≡ true
      → filled env step memory answer ≡ ok r
      → IsClean r
      → Accepted answer r
  unfolding filled
  filled-clean (failed why) r present h clean = absurd (violated-unclean _ r h clean)
  filled-clean (answered null) r present h clean = absurd (violated-unclean _ r h clean)
  filled-clean (answered (bool b)) r present h clean = absurd (violated-unclean _ r h clean)
  filled-clean (answered (int n)) r present h clean = absurd (violated-unclean _ r h clean)
  filled-clean (answered (float t w)) r present h clean = absurd (violated-unclean _ r h clean)
  filled-clean (answered (str s)) r present h clean = absurd (violated-unclean _ r h clean)
  filled-clean (answered (arr vs)) r present h clean = absurd (violated-unclean _ r h clean)
  filled-clean (answered (obj fs)) r present h clean =
      validated-clean fs (resolve_refs env.str_of memory (obj fs)) r present refl h clean

  Accepted-filled :
      (answer : Answer Json) (r : ComposedInputs)
      → truthy (schema_or step.input_schema) ≡ true
      → Accepted answer r
      → (filled env step memory answer ≡ ok r) × IsClean r
  unfolding filled validated validate_inputs
  Accepted-filled answer r present
        (fs, inputs, value, iter_errors, a, resolves, dict_eq, usable, quiet, r_eq) =
      (rw (a, resolves, dict_eq, present, usable, quiet, r_eq) refl, rw r_eq (refl, refl))

-- The parameters that a model composes count as checked and free of violations exactly where the
-- step publishes a schema, a model answers with an object, its references resolve, and the schema is
-- usable and finds no fault with the very value that they resolve to, of which the agent gets `dict`.
pub compose_step_inputs-IsClean_iff :
    (env : Environment) (ainvoke : Prompt → Answer ModelReply) (intent_text : Text) (step : Step)
    (prior_results : Json) (memory : Dict Json) (schema : Json) (r : ComposedInputs)
    → step.input_schema ≡ some schema
    → truthy schema ≡ true
    → ((compose_step_inputs env (some ainvoke) intent_text step prior_results memory ≡ ok r)
        × IsClean env step memory r)
      ↔ Accepted env step memory
          (parsed env (ainvoke (prompt_of env intent_text step prior_results memory)))
          r
unfolding compose_step_inputs
compose_step_inputs-IsClean_iff env ainvoke intent_text step prior_results memory schema r e
      present =
    let published : truthy (schema_or step.input_schema) ≡ true = rw e (rw present present) in
    let there : is_absent step.input_schema ≡ false = rw e (rw present refl) in
    let answer = parsed env (ainvoke (prompt_of env intent_text step prior_results memory)) in
    rw there (
      λ (h, clean). filled-clean env step memory answer r published h clean,
      λ accepted. Accepted-filled env step memory answer r published accepted,
    )
