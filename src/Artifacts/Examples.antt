-- ===== src/Artifacts/Examples.antt =====
-- Two artifacts of which the second does not match its schema.
use agentic_bus.Common.{
  List, [], ◌∷◌, true, false, none, some, codes, length, In, Json, null, int, str, obj, field, end,
  pos, decimal, ◌≡◌, ◌↔◌, refl, Option, Text,
}
use agentic_bus.Schemas.{IterErrors, Validators}
use agentic_bus.Artifacts.{
  ArtifactViolation, ValidationReport, empty_report, report_ok, report_summary, violation_text,
  check_artifacts, validate_artifacts,
}
use agentic_bus.Artifacts.Reports.{Explains, RaisesOn, validate_artifacts-Explains}

abbrev no_null : IterErrors
no_null null = some (record { absolute_path = codes "rows" ∷ []; message = codes "is null" } ∷ [])
no_null (str s) = none
no_null _ = some []

abbrev summary_of : Option ValidationReport → Text
unfolding report_summary report_ok violation_text decimal
summary_of none = []
summary_of (some report) = report_summary report

abbrev strict : Validators
strict schema = some no_null

abbrev schema : Json
schema = obj (field (codes "type") (str (codes "object")) end)

abbrev artifacts : List Json
artifacts = int (pos 1) ∷ null ∷ []

second_fails :
    summary_of (validate_artifacts strict (codes "erp") (codes "export") artifacts (some schema))
    ≡ codes "artifact 1 from erp:export does not match its declared schema at rows: is null"
unfolding report_summary report_ok violation_text validate_artifacts check_artifacts decimal
second_fails = refl

nothing_promised :
    validate_artifacts strict (codes "erp") (codes "export") artifacts none
    ≡ some (record (empty_report strict (codes "erp") (codes "export")) { unchecked = true })
unfolding validate_artifacts
nothing_promised = refl

broken_reference :
    validate_artifacts strict (codes "erp") (codes "export") (null ∷ str [] ∷ []) (some schema)
    ≡ none
unfolding validate_artifacts check_artifacts
broken_reference = refl

validate_artifacts-Explains_example :
    ((validate_artifacts strict (codes "erp") (codes "export") artifacts (some schema) ≡ none)
      ↔ RaisesOn no_null artifacts)
    × ((report : ValidationReport)
        → validate_artifacts strict (codes "erp") (codes "export") artifacts (some schema)
          ≡ some report
        → (report.unchecked ≡ false)
          × (report.checked ≡ length artifacts)
          × ((v : ArtifactViolation)
              → In v report.violations
                ↔ Explains strict (codes "erp") (codes "export") no_null artifacts v))
validate_artifacts-Explains_example =
    validate_artifacts-Explains strict (codes "erp") (codes "export") artifacts (some schema)
      no_null refl
