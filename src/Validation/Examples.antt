-- ===== src/Validation/Examples.antt =====
-- The theorems about validation rounds at a concrete validator, and tests.
use agentic_bus.Common.{
  ℕ, ◌+◌, ◌<◌, [], ◌∷◌, Bool, true, false, ◌≡◌, ◌↔◌, ◌⊎◌, refl, none, some, Text, codes, null, bool,
  end, field, List, ◌==◌,
}
use agentic_bus.Sessions.{SessionState, new_session}
use agentic_bus.Validation.{
  answered, Validator, passed, renegotiated, LoopResult, validate, validation_renegotiate,
  after_round, validated_by, run_validation_loop,
}
use agentic_bus.Validation.Rounds.{
  Approves, start, again, Renegotiations_bounded, run_validation_loop-passed_iff,
}

abbrev saying : Bool → Validator ℕ
saying verdict answer text context summary world =
    (answered (field (codes "approved") (bool verdict) end), world + 1)

abbrev one_agent : SessionState → ℕ → List Text × ℕ
one_agent session world = (codes "planner" ∷ [], world)

abbrev session : SessionState
session = record (new_session (codes "s1") (codes "alice") []) {
  assigned_agent_id = codes "critic";
}

abbrev first_pass : LoopResult ℕ
first_pass = run_validation_loop [] one_agent (some (saying false)) null session 0

first_renegotiates : first_pass.outcome ≡ renegotiated
unfolding run_validation_loop validated_by validate after_round validation_renegotiate ◌==◌
first_renegotiates = refl

approved_passes :
    (run_validation_loop [] one_agent (some (saying true)) null session 0).outcome ≡ passed
unfolding run_validation_loop validated_by validate after_round ◌==◌
approved_passes = refl

Renegotiations_bounded_example :
    (◌≡◌ {A = ℕ} 1 0) ⊎ (session.validation_rounds + 1 < session.max_validation_rounds)
Renegotiations_bounded_example =
    Renegotiations_bounded [] one_agent 1 session first_pass.session
      (again (some (saying false)) null 0 start first_renegotiates refl refl)

run_validation_loop-passed_iff_example :
    ((run_validation_loop [] one_agent (some (saying true)) null session 0).outcome ≡ passed) ↔ (
      (session.assigned_agent_id ≡ [])
      ⊎ ((some (saying true) ≡ none) ⊎ Approves [] one_agent (some (saying true)) null session 0))
run_validation_loop-passed_iff_example =
    run_validation_loop-passed_iff [] one_agent (some (saying true)) null session 0
