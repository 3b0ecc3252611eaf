-- ===== src/Supervisor/Gate.antt =====
-- The gate and the completion of `ExecutionSupervisor.execute`.
use agentic_bus.Common.{
  ℕ, ◌+◌, ◌*◌, ◌≤◌, List, [], ◌∷◌, ◌++◌, Bool, true, false, not, ◌≡◌, ◌↔◌, ◌⊎◌, inl, inr, refl, sym,
  ap, subst, ◌∙◌, arith, Option, none, some, if◌then◌else◌, Bool-cases, Text, Json, In, length,
  length-append, is_empty, Option-cases,
}
use agentic_bus.Scopes.Bounds.{CoveredBy, narrow_iff}
use agentic_bus.Ibac.Types.{IbacResult, is_allowed}
use agentic_bus.Ibac.Capability.{IsoTime, Capability, issue}
use agentic_bus.Sessions.{execution, SessionState, step_agents}
use agentic_bus.Supervisor.Types.{Surroundings, claims_of, Run, Progress, done, raised}
use agentic_bus.Supervisor.{execute_with_ibac_validation}
use agentic_bus.Supervisor.Attempts.{run_of, execute_with_ibac_validation-decisions}
use agentic_bus.Supervisor.Execution.{
  Status, success, partial_failure, Executed, initial_state, execution_capability, gate_request,
  complete_run, run_session, execute,
}

abbrev pub status_of : {W : Type 0} → Executed W → Option Status
status_of e = elim e.complete [ none ↦ none | some c ↦ some c.status ]

abbrev scopes_in : Option Capability → List Text
scopes_in none = []
scopes_in (some c) = c.scopes

module _ {W : Type 0} (o : Surroundings W) (iso : IsoTime) (max_retries : ℕ) (fresh_id : Text)
    (now : ℕ) (held : Bool) where
  abbrev pub verdict : SessionState → W → IbacResult
  verdict session world =
      (o.evaluate_with_llm (gate_request o iso max_retries fresh_id now held session) world).0

  -- The session as it enters the run.
  abbrev pub authorized : SessionState → W → SessionState
  authorized session world = record session {
    ibac_decisions = session.ibac_decisions ++ verdict session world ∷ [];
    capability = some (
        execution_capability o iso max_retries fresh_id now held
          (record session { ibac_decisions = session.ibac_decisions ++ verdict session world ∷ [] })
          (verdict session world));
  }

  abbrev pub progress : SessionState → W → Progress W
  progress session world =
      execute_with_ibac_validation o max_retries
        (record (authorized session world) { phase = execution })
        (initial_state (authorized session world)) (authorized session world).ibac_decisions
        (o.evaluate_with_llm (gate_request o iso max_retries fresh_id now held session) world).1

  -- The run ended without an exception and without an error in its last state, and so did the scoring
  -- and the synthesis behind it.
  pub record Succeeds (p : Progress W) : Type 0 where
    pub run : Run W
    pub output : Json × Json
    pub ended : p ≡ done run
    pub no_errors : run.final_state.errors ≡ []
    pub scored : (o.score_all_steps run.final_state run.world).0 ≡ true
    pub synthesised :
        (o.synthesise_output run.final_state (o.score_all_steps run.final_state run.world).1).0
        ≡ some output

  complete_run-success_iff :
      (session : SessionState) (p : Progress W)
      → (status_of (complete_run o iso max_retries fresh_id now held session p) ≡ some success)
        ↔ Succeeds p
  unfolding complete_run
  complete_run-success_iff session (raised run) = (λ h. cc, λ h. cc (h.ended))
  complete_run-success_iff session (done run) =
      elim (Bool-cases (o.score_all_steps run.final_state run.world).0) [
        | inr fails ↦ rw fails (
          λ h. cc,
          λ h. absurd (
              clash
                (ap (λ r. (o.score_all_steps r.final_state r.world).0) (run_eq h.ended) ∙ h.scored)
                fails),
        )
        | inl scored ↦
            rw scored
              (elim (Option-cases
                (o.synthesise_output run.final_state
                  (o.score_all_steps run.final_state run.world).1).0) [
                    | inl none_made ↦
                        rw none_made (λ h. cc, λ h. absurd (missing none_made (made h)))
                    | inr (output, e) ↦ rw e (
                      λ h. record {
                        run = run;
                        output = output;
                        ended = refl;
                        no_errors = empty_errors run.final_state.errors h;
                        scored = scored;
                        synthesised = e;
                      },
                      λ h. rw (ap (λ r. r.final_state.errors) (run_eq h.ended) ∙ h.no_errors) refl,
                    )
                  ])
      ]
    where
      empty_errors :
          (errors : List Json)
          → some (if is_empty errors then success else partial_failure) ≡ some success
          → errors ≡ []
      empty_errors [] e = refl
      empty_errors (x ∷ xs) e = cc

      run_eq : {r : Run W} → done run ≡ done r → run ≡ r
      run_eq p = cc

      clash : {b : Bool} → b ≡ true → b ≡ false → ⊥
      clash p q = cc

      missing : {q : Option (Json × Json)} {output : Json × Json} → q ≡ none → q ≡ some output → ⊥
      missing p q = cc

      made :
          (h : Succeeds (done run))
          → (o.synthesise_output run.final_state (o.score_all_steps run.final_state run.world).1).0
            ≡ some h.output
      made h =
          ap
            (λ r. (o.synthesise_output r.final_state (o.score_all_steps r.final_state r.world).1).0)
            (run_eq h.ended)
          ∙ h.synthesised

  -- An execution reports success exactly when the engine allowed it, the session manager still had the
  -- session, the graph's run, with its validation, ended without an exception and without an error,
  -- and neither the scoring nor the synthesis behind it raised an exception.
  pub execute-success_iff :
      (session : SessionState) (world : W)
      → (status_of (execute o iso max_retries fresh_id now held session world) ≡ some success) ↔ (
          (is_allowed (verdict session world) ≡ true)
          × (held ≡ true)
          × Succeeds (progress session world))
  unfolding execute run_session
  execute-success_iff session world = elim (Bool-cases (is_allowed (verdict session world))) [
    | inr refused ↦ rw refused (λ h. cc, λ (a, _, _). cc)
    | inl allowed ↦ rw allowed (
        by_holding held _ _ (progress session world) refl (
          complete_run-success_iff (record (authorized session world) { phase = execution })
            (progress session world)))
  ]
    where
      by_holding :
          (b : Bool) (other e : Executed W) (p : Progress W)
          → status_of other ≡ none
          → (status_of e ≡ some success) ↔ Succeeds p
          → (status_of (if not b then other else e) ≡ some success)
            ↔ ((true ≡ true) × (b ≡ true) × Succeeds p)
      by_holding true other e p q (to, from) = (λ h. (refl, refl, to h), λ (_, _, r). from r)
      by_holding false other e p q (to, from) = (λ h. cc (h, q), λ (_, h, _). cc)

  complete_run-capability :
      (session : SessionState) (p : Progress W)
      → (complete_run o iso max_retries fresh_id now held session p).session.capability
        ≡ session.capability
  unfolding complete_run
  complete_run-capability session (raised run) = refl
  complete_run-capability session (done run) =
      elim (Bool-cases (o.score_all_steps run.final_state run.world).0) [
        | inl e ↦ rw e refl
        | inr e ↦ rw e refl
      ]

  run_session-capability :
      (session : SessionState) (world : W)
      → (run_session o iso max_retries fresh_id now held session world).session.capability
        ≡ session.capability
  unfolding run_session
  run_session-capability session world = elim (Bool-cases held) [
    | inl e ↦ rw e (complete_run-capability (record session { phase = execution }) _)
    | inr e ↦ rw e refl
  ]

  -- An execution whose session had no capability has one afterwards only if the engine allowed it; its
  -- scopes were all claimed, and are within the requester's authority where the credential states one.
  pub execute-capability :
      (session : SessionState) (world : W) (c : Capability)
      → session.capability ≡ none
      → (execute o iso max_retries fresh_id now held session world).session.capability ≡ some c
      → (is_allowed (verdict session world) ≡ true)
        × ((s : Text)
            → In s c.scopes
            → In s (claims_of session)
              × ((session.requester_authority ≡ []) ⊎ CoveredBy session.requester_authority s))
  unfolding execute execution_capability issue
  execute-capability session world c bare_session e =
      elim (Bool-cases (is_allowed (verdict session world))) [
        | inr refused ↦ cc (bare_session, rw refused at e)
        | inl allowed ↦
            let same =
              sym (run_session-capability (authorized session world) _) ∙ (rw allowed at e) in
            (
              allowed,
              λ s m.
                  (narrow_iff (claims_of session) session.requester_authority s).0
                    (subst (λ o'. In s (scopes_in o')) (sym same) m),
            )
      ]

  complete_run-decisions :
      (session : SessionState) (p : Progress W)
      → (complete_run o iso max_retries fresh_id now held session p).session.ibac_decisions
        ≡ (run_of p).decisions
  unfolding complete_run
  complete_run-decisions session (raised run) = refl
  complete_run-decisions session (done run) =
      elim (Bool-cases (o.score_all_steps run.final_state run.world).0) [
        | inl e ↦ rw e refl
        | inr e ↦ rw e refl
      ]

  run_session-decisions :
      (session : SessionState) (world : W)
      → length
          (run_session o iso max_retries fresh_id now held session world).session.ibac_decisions
        ≤ length session.ibac_decisions
          + length (step_agents session.composition_plan) * max_retries
  unfolding run_session
  run_session-decisions session world = elim (Bool-cases held) [
    | inl e ↦ rw e (
        rw (complete_run-decisions (record session { phase = execution }) _) (
          execute_with_ibac_validation-decisions o max_retries
            (record session { phase = execution }) (initial_state session) session.ibac_decisions
            world))
    | inr e ↦ rw e (omega arith)
  ]

  -- Whatever happens, an execution records on the session at most one decision for the gate and
  -- `max_retries` for each step of its plan.
  pub execute-decisions :
      (session : SessionState) (world : W)
      → length (execute o iso max_retries fresh_id now held session world).session.ibac_decisions
        ≤ length session.ibac_decisions
          + 1
          + length (step_agents session.composition_plan) * max_retries
  unfolding execute
  execute-decisions session world =
      let count = length-append session.ibac_decisions (verdict session world ∷ []) in
      elim (Bool-cases (is_allowed (verdict session world))) [
        | inr refused ↦ rw refused (omega (arith, count))
        | inl allowed ↦
            rw allowed (omega (arith, count, run_session-decisions (authorized session world) _))
      ]
