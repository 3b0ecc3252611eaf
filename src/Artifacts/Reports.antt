-- ===== src/Artifacts/Reports.antt =====
-- What a report on artifacts says: agentic_bus/core/artifacts.py.
use agentic_bus.Common.{
  ℕ, zero, suc, ◌+◌, List, [], ◌∷◌, ◌++◌, false, Option, some, Text, length, map, In,
  In-append_left, In-append_right, In-append_cases, Json, ◌≡◌, ◌↔◌, ◌⊎◌, inl, inr, refl, ap, ◌∙◌,
  subst, arith, none, Option-cases, sym,
}
use agentic_bus.Schemas.{SchemaError, IterErrors, Validators}
use agentic_bus.Artifacts.{
  ArtifactViolation, ValidationReport, artifact_violation, empty_report, with_errors,
  check_artifacts, usable_validator, validate_artifacts,
}

-- The artifact that stands at an index.
abbrev pub At : ℕ → Json → List Json → Type 0
At n a [] = ⊥
At zero a (b ∷ artifacts) = a ≡ b
At (suc n) a (b ∷ artifacts) = At n a artifacts

In-map :
    {A B : Type 0} (f : A → B) (b : B) (xs : List A)
    → In b (map f xs)
    → (a : A) × In a xs × (b ≡ f a)
In-map f b [] h = absurd h
In-map f b (x ∷ xs) (inl e) = (x, inl refl, e)
In-map f b (x ∷ xs) (inr h) = let (a, m, e) = In-map f b xs h in (a, inr m, e)

In-map_of : {A B : Type 0} (f : A → B) (a : A) (xs : List A) → In a xs → In (f a) (map f xs)
In-map_of f a [] h = absurd h
In-map_of f a (x ∷ xs) (inl e) = inl (ap f e)
In-map_of f a (x ∷ xs) (inr h) = inr (In-map_of f a xs h)

module _ (validators : Validators) (agent_id capability_id : Text)
    (errors : Json → List SchemaError) where
  -- A violation stands for one error of one artifact.
  abbrev ExplainsAll : ℕ → List Json → ArtifactViolation → Type 0
  ExplainsAll index artifacts v =
      (n : ℕ) × (a : Json) × (error : SchemaError) × At n a artifacts
      × In error (errors a)
      × (v ≡ artifact_violation validators agent_id capability_id (index + n) error)

  -- The loop where the validator raises nothing.
  abbrev pub check_all : ℕ → List Json → ValidationReport → ValidationReport
  check_all index [] report = report
  check_all index (a ∷ artifacts) report =
      check_all (suc index) artifacts
        (with_errors validators agent_id capability_id index (errors a) report)

  check_all_sound :
      (index : ℕ) (artifacts : List Json) (report : ValidationReport) (v : ArtifactViolation)
      → In v (check_all index artifacts report).violations
      → In v report.violations ⊎ ExplainsAll index artifacts v
  check_all_sound index [] report v h = inl h
  check_all_sound index (a ∷ artifacts) report v h =
      let new = map (artifact_violation validators agent_id capability_id index) (errors a) in
      elim (check_all_sound (suc index) artifacts _ v h) [
        | inr (n, b, error, at, m, e) ↦ inr (
          suc n,
          b,
          error,
          at,
          m,
          e ∙ ap (λ k. artifact_violation validators agent_id capability_id k error) (shift n),
        )
        | inl early ↦ elim (In-append_cases v report.violations new early) [
          | inl old ↦ inl old
          | inr here ↦
              let (error, m, e) = In-map _ v (errors a) here in
              inr (
                0,
                a,
                error,
                refl,
                m,
                e ∙ ap (λ k. artifact_violation validators agent_id capability_id k error) first,
              )
        ]
      ]
    where
      shift : (n : ℕ) → suc index + n ≡ index + suc n
      shift n = omega arith

      first : index ≡ index + 0
      first = omega arith

  check_all_keeps :
      (index : ℕ) (artifacts : List Json) (report : ValidationReport) (v : ArtifactViolation)
      → In v report.violations
      → In v (check_all index artifacts report).violations
  check_all_keeps index [] report v h = h
  check_all_keeps index (a ∷ artifacts) report v h =
      check_all_keeps (suc index) artifacts _ v (In-append_left v report.violations _ h)

  check_all_complete :
      (index : ℕ) (artifacts : List Json) (report : ValidationReport) (n : ℕ) (a : Json)
      (error : SchemaError)
      → At n a artifacts
      → In error (errors a)
      → In
          (artifact_violation validators agent_id capability_id (index + n) error)
          (check_all index artifacts report).violations
  check_all_complete index [] report n a error at m = absurd at
  check_all_complete index (b ∷ artifacts) report zero a error at m =
      let here =
        In-map_of (artifact_violation validators agent_id capability_id index) error (errors b)
          (subst (λ c. In error (errors c)) at m) in
      subst
        (λ k.
          In (artifact_violation validators agent_id capability_id k error)
            (check_all index (b ∷ artifacts) report).violations)
        first
        (check_all_keeps (suc index) artifacts _ _ (In-append_right _ report.violations _ here))
    where
      first : index ≡ index + 0
      first = omega arith
  check_all_complete index (b ∷ artifacts) report (suc n) a error at m =
      subst
        (λ k.
          In (artifact_violation validators agent_id capability_id k error)
            (check_all index (b ∷ artifacts) report).violations)
        shift (check_all_complete (suc index) artifacts _ n a error at m)
    where
      shift : suc index + n ≡ index + suc n
      shift = omega arith

  check_all-checked :
      (index : ℕ) (artifacts : List Json) (report : ValidationReport)
      → (check_all index artifacts report).checked ≡ report.checked + length artifacts
  check_all-checked index [] report = omega arith
  check_all-checked index (a ∷ artifacts) report = omega (
    arith,
    check_all-checked (suc index) artifacts (record report {
      checked = suc report.checked;
      violations =
          report.violations
          ++ map (artifact_violation validators agent_id capability_id index) (errors a);
    }),
  )

  check_all-unchecked :
      (index : ℕ) (artifacts : List Json) (report : ValidationReport)
      → (check_all index artifacts report).unchecked ≡ report.unchecked
  check_all-unchecked index [] report = refl
  check_all-unchecked index (a ∷ artifacts) report = check_all-unchecked (suc index) artifacts _

abbrev listed : Option (List SchemaError) → List SchemaError
listed none = []
listed (some errors) = errors

-- The errors of an artifact, as far as the validator gives any.
abbrev total : IterErrors → Json → List SchemaError
total iter_errors a = listed (iter_errors a)

abbrev pub RaisesOn : IterErrors → List Json → Type 0
RaisesOn iter_errors artifacts = (a : Json) × In a artifacts × (iter_errors a ≡ none)

module _ (validators : Validators) (agent_id capability_id : Text) (iter_errors : IterErrors) where
  -- A violation stands for one error of one artifact.
  abbrev pub Explains : List Json → ArtifactViolation → Type 0
  Explains artifacts v =
      (n : ℕ) × (a : Json) × (errors : List SchemaError) × (error : SchemaError) × At n a artifacts
      × (iter_errors a ≡ some errors)
      × In error errors
      × (v ≡ artifact_violation validators agent_id capability_id n error)

  check_artifacts-some :
      (index : ℕ) (artifacts : List Json) (report report' : ValidationReport)
      → check_artifacts validators agent_id capability_id iter_errors index artifacts report
        ≡ some report'
      → check_all validators agent_id capability_id (total iter_errors) index artifacts report
        ≡ report'
  unfolding check_artifacts
  check_artifacts-some index [] report report' h = cc
  check_artifacts-some index (a ∷ artifacts) report report' h =
      elim (Option-cases (iter_errors a)) [
        | inl raised ↦ absurd (differ (rw (raised, check_artifacts) at h))
        | inr (errors, e) ↦
            rw e
              (check_artifacts-some (suc index) artifacts _ report' (rw (e, check_artifacts) at h))
      ]
    where
      differ : none ≡ some report' → ⊥
      differ p = cc

  check_artifacts-none :
      (index : ℕ) (artifacts : List Json) (report : ValidationReport)
      → (check_artifacts validators agent_id capability_id iter_errors index artifacts report
          ≡ none)
        ↔ RaisesOn iter_errors artifacts
  unfolding check_artifacts
  check_artifacts-none index [] report = (λ h. cc, λ (a, m, e). absurd m)
  check_artifacts-none index (b ∷ artifacts) report = elim (Option-cases (iter_errors b)) [
    | inl raised ↦ rw (raised, check_artifacts) (λ h. (b, inl refl, raised), λ h. refl)
    | inr (errors, e) ↦
        let (to, from) = check_artifacts-none (suc index) artifacts _ in
        rw (e, check_artifacts)
          (
            λ h. let (a, m, r) = to h in (a, inr m, r),
            λ (a, m, r). elim m [
              | inl same ↦ absurd (clash (rw same at r) e)
              | inr n ↦ from (a, n, r)
            ],
          )
  ]
    where
      clash :
          {o : Option (List SchemaError)} {errors : List SchemaError}
          → o ≡ none
          → o ≡ some errors
          → ⊥
      clash p q = cc

  Explains-ExplainsAll :
      (artifacts : List Json) (v : ArtifactViolation)
      → ExplainsAll validators agent_id capability_id (total iter_errors) 0 artifacts v
        ↔ Explains artifacts v
  Explains-ExplainsAll artifacts v = (
    λ (n, a, error, at, m, e). elim (Option-cases (iter_errors a)) [
      | inl raised ↦ absurd (rw raised at m)
      | inr (errors, found) ↦
          (n, a, errors, error, at, found, rw found at m, e ∙ same_index n error)
    ],
    λ (n, a, errors, error, at, found, m, e).
        (n, a, error, at, rw found m, e ∙ sym (same_index n error)),
  )
    where
      same_index :
          (n : ℕ) (error : SchemaError)
          → artifact_violation validators agent_id capability_id (0 + n) error
            ≡ artifact_violation validators agent_id capability_id n error
      same_index n error =
          ap (λ k. artifact_violation validators agent_id capability_id k error) (omega arith)

-- With a usable schema an exception leaves the validation exactly where the validator raises one on
-- some artifact. Otherwise the report is no unchecked one, counts every artifact, and lists as
-- violations exactly the errors that the validator finds, each under the index of its own artifact.
pub validate_artifacts-Explains :
    (validators : Validators) (agent_id capability_id : Text) (artifacts : List Json)
    (schema : Option Json) (iter_errors : IterErrors)
    → usable_validator validators agent_id capability_id schema ≡ some iter_errors
    → ((validate_artifacts validators agent_id capability_id artifacts schema ≡ none)
        ↔ RaisesOn iter_errors artifacts)
      × ((report : ValidationReport)
          → validate_artifacts validators agent_id capability_id artifacts schema ≡ some report
          → (report.unchecked ≡ false)
            × (report.checked ≡ length artifacts)
            × ((v : ArtifactViolation)
                → In v report.violations
                  ↔ Explains validators agent_id capability_id iter_errors artifacts v))
unfolding validate_artifacts
validate_artifacts-Explains validators agent_id capability_id artifacts schema iter_errors usable =
    (
      rw usable (check_artifacts-none validators agent_id capability_id iter_errors 0 artifacts _),
      λ report h.
          let start = empty_report validators agent_id capability_id in
          let errors = total iter_errors in
          let same =
            check_artifacts-some validators agent_id capability_id iter_errors 0 artifacts start
              report (rw usable at h) in
          rw (sym same) (
            check_all-unchecked validators agent_id capability_id errors 0 artifacts start,
            check_all-checked validators agent_id capability_id errors 0 artifacts start ∙ counted,
            λ v.
                let (to, from) =
                  Explains-ExplainsAll validators agent_id capability_id iter_errors artifacts v in
                (
                  λ m.
                      elim (check_all_sound validators agent_id capability_id errors 0 artifacts
                        start v m) [ inl early ↦ absurd early | inr why ↦ to why ],
                  λ why.
                      let (n, a, error, at, m, e) = from why in
                      rw e (
                        check_all_complete validators agent_id capability_id errors 0 artifacts
                          start n a error at m),
                ),
          ),
    )
  where
    counted : 0 + length artifacts ≡ length artifacts
    counted = omega arith
