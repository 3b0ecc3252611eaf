-- ===== src/Artifacts.antt =====
-- The check of a completion's artifacts against the schema that its offer declared
-- (agentic_bus/core/artifacts.py).
mod Examples
pub mod Reports
use agentic_bus.Common.{
  ℕ, suc, List, [], ◌∷◌, ◌++◌, Bool, true, false, not, Option, none, some, if◌then◌else◌, Text,
  codes, is_empty, length, map, Json, obj, end, truthy, decimal,
}
use agentic_bus.Schemas.{SchemaError, IterErrors, Validators, path_text, join}

pub record ArtifactViolation : Type 0 where
  pub agent_id : Text
  pub capability_id : Text
  pub index : ℕ
  pub reason : Text
  pub path : Text

pub record ValidationReport : Type 0 where
  pub agent_id : Text
  pub capability_id : Text
  pub checked : ℕ
  pub violations : List ArtifactViolation
  pub unchecked : Bool

-- str(violation)
unfoldable pub violation_text : ArtifactViolation → Text
violation_text v =
    codes "artifact "
    ++ decimal v.index
    ++ codes " from "
    ++ v.agent_id
    ++ codes ":"
    ++ v.capability_id
    ++ codes " does not match its declared schema"
    ++ (if is_empty v.path then [] else codes " at " ++ v.path)
    ++ codes ": "
    ++ v.reason

unfoldable pub report_ok : ValidationReport → Bool
report_ok r = is_empty r.violations

unfoldable pub report_summary : ValidationReport → Text
unfolding report_ok violation_text
report_summary r =
    if r.unchecked
    then codes "no output_schema declared; nothing to check"
    else if report_ok r
    then decimal r.checked ++ codes " artifact(s) matched the declared schema"
    else join (codes "; ") (map violation_text r.violations)

module _ (validators : Validators) (agent_id capability_id : Text) where
  abbrev pub artifact_violation : ℕ → SchemaError → ArtifactViolation
  artifact_violation index error = record {
    agent_id = agent_id;
    capability_id = capability_id;
    index = index;
    reason = error.message;
    path = path_text error;
  }

  abbrev pub empty_report : ValidationReport
  empty_report = record {
    agent_id = agent_id;
    capability_id = capability_id;
    checked = 0;
    violations = [];
    unchecked = false;
  }

  abbrev pub with_errors : ℕ → List SchemaError → ValidationReport → ValidationReport
  with_errors index errors report = record report {
    checked = suc report.checked;
    violations = report.violations ++ map (artifact_violation index) errors;
  }

  -- The loop over `enumerate(artifacts)`, from an index on. An exception of the validator leaves it.
  unfoldable pub check_artifacts :
      IterErrors → (index : ℕ) → List Json → ValidationReport → Option ValidationReport
  check_artifacts iter_errors index [] report = some report
  check_artifacts iter_errors index (a ∷ artifacts) report = elim (iter_errors a) [
    | none ↦ none
    | some errors ↦
        check_artifacts iter_errors (suc index) artifacts (with_errors index errors report)
  ]

  -- With the validator of a usable schema, or none.
  abbrev pub with_validator : Option IterErrors → List Json → Option ValidationReport
  with_validator none artifacts = some (record empty_report { unchecked = true })
  with_validator (some iter_errors) artifacts = check_artifacts iter_errors 0 artifacts empty_report

  abbrev pub usable_validator : Option Json → Option IterErrors
  usable_validator none = none
  usable_validator (some schema) = if truthy schema then validators schema else none

  -- None is an exception.
  unfoldable pub validate_artifacts :
      List Json → (output_schema : Option Json) → Option ValidationReport
  unfolding check_artifacts
  validate_artifacts artifacts schema = with_validator (usable_validator schema) artifacts
