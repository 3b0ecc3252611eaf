-- ===== src/Validation/Rounds.antt =====
-- The rounds of `_run_validation_loop`.
use agentic_bus.Common.{
  ℕ, ◌+◌, ◌<◌, List, [], ◌∷◌, true, ◌≡◌, ◌↔◌, ◌⊎◌, inl, inr, refl, ap, ◌∙◌, arith, Option, none,
  some, leb, Bool-cases, Text, Json, is_empty, is_empty_iff, length, length-append,
}
use agentic_bus.Sessions.{ValidationResult, SessionState}
use agentic_bus.Validation.{
  reset_negotiation, Validator, passed, renegotiated, validate, validation_renegotiate, after_round,
  validated_by, run_validation_loop,
}

-- What a pass leaves of the session's rounds.
record SameRounds (s t : SessionState) : Type 0 where
  rounds : t.validation_rounds ≡ s.validation_rounds
  history : t.validation_history ≡ s.validation_history
  limit : t.max_validation_rounds ≡ s.max_validation_rounds

same : (s : SessionState) → SameRounds s s
same s = record { rounds = refl; history = refl; limit = refl }

module _ {W : Type 0} (summary : Text) (discover : SessionState → W → List Text × W) where
  renegotiate-SameRounds :
      (vr : ValidationResult) (session : SessionState) (world : W)
      → SameRounds session (validation_renegotiate summary discover session vr world).session
  unfolding validation_renegotiate
  renegotiate-SameRounds vr session world =
      elim (Bool-cases (is_empty (discover (reset_negotiation session vr) world).0)) [
        | inl e ↦ rw e (record { rounds = refl; history = refl; limit = refl })
        | inr e ↦ rw e (record { rounds = refl; history = refl; limit = refl })
      ]

  renegotiate-outcome :
      (vr : ValidationResult) (session : SessionState) (world : W)
      → (validation_renegotiate summary discover session vr world).outcome ≡ renegotiated
  unfolding validation_renegotiate
  renegotiate-outcome vr session world =
      elim (Bool-cases (is_empty (discover (reset_negotiation session vr) world).0)) [
        | inl e ↦ rw e refl
        | inr e ↦ rw e refl
      ]

  after_round-SameRounds :
      (vr : ValidationResult) (session : SessionState) (world : W)
      → SameRounds session (after_round summary discover vr session world).session
  unfolding after_round
  after_round-SameRounds vr session world = elim (Bool-cases vr.approved) [
    | inl e ↦ rw e (same session)
    | inr e ↦ elim (Bool-cases (leb session.max_validation_rounds session.validation_rounds)) [
      | inl f ↦ rw (e, f) (same session)
      | inr f ↦ rw (e, f) (renegotiate-SameRounds vr session world)
    ]
  ]

  after_round_below :
      (vr : ValidationResult) (session : SessionState) (world : W)
      → (after_round summary discover vr session world).outcome ≡ renegotiated
      → session.validation_rounds < session.max_validation_rounds
  unfolding after_round
  after_round_below vr session world h = elim (Bool-cases vr.approved) [
    | inl e ↦ cc (rw e at h)
    | inr e ↦ elim (Bool-cases (leb session.max_validation_rounds session.validation_rounds)) [
      | inl f ↦ cc (rw (e, f) at h)
      | inr f ↦ ground (arith, f)
    ]
  ]

  validated_by_uses :
      (found : Option (Validator W)) (answer : Json) (session : SessionState) (world : W)
      → let r = validated_by summary discover found answer session world in
        r.outcome ≡ renegotiated
        → (r.session.validation_rounds ≡ session.validation_rounds + 1)
          × (r.session.validation_rounds < session.max_validation_rounds)
          × (r.session.max_validation_rounds ≡ session.max_validation_rounds)
          × (length r.session.validation_history ≡ length session.validation_history + 1)
  unfolding validated_by validate
  validated_by_uses none answer session world h = cc
  validated_by_uses (some validator) answer session world h =
      let (vr, s, w) = validate summary discover validator answer session world in
      let kept = after_round-SameRounds vr s w in
      let below = after_round_below vr s w h in
      (
        kept.rounds,
        omega (arith, kept.rounds, below),
        kept.limit,
        ap length kept.history ∙ length-append session.validation_history (vr ∷ []),
      )

  -- A pass of the loop that asks for renegotiation has used one round and left one: the rounds grow by
  -- one and are then below the limit, which stays, and the history grows with them.
  pub renegotiation_uses_round :
      (found : Option (Validator W)) (answer : Json) (session : SessionState) (world : W)
      → let r = run_validation_loop summary discover found answer session world in
        r.outcome ≡ renegotiated
        → (r.session.validation_rounds ≡ session.validation_rounds + 1)
          × (r.session.validation_rounds < session.max_validation_rounds)
          × (r.session.max_validation_rounds ≡ session.max_validation_rounds)
          × (length r.session.validation_history ≡ length session.validation_history + 1)
  unfolding run_validation_loop
  renegotiation_uses_round found answer session world e =
      elim (Bool-cases (is_empty session.assigned_agent_id)) [
        | inl nobody ↦ cc (rw nobody at e)
        | inr assigned ↦
            rw assigned (validated_by_uses found answer session world (rw assigned at e))
      ]

  -- Passes of the loop that all ask for renegotiation. Between two passes the session may change, but
  -- for its rounds and their limit.
  pub data Renegotiations : ℕ → SessionState → SessionState → Type 0 where
    start : {s : SessionState} → Renegotiations 0 s s
    again :
        {n : ℕ} {s t u : SessionState} (found : Option (Validator W)) (answer : Json) (world : W)
        → Renegotiations n s t
        → (run_validation_loop summary discover found answer t world).outcome ≡ renegotiated
        → u.validation_rounds
          ≡ (run_validation_loop summary discover found answer t world).session.validation_rounds
        → u.max_validation_rounds
          ≡ (run_validation_loop summary discover found answer t
              world).session.max_validation_rounds
        → Renegotiations (n + 1) s u

  -- The validator is found, and its round approves.
  pub record Approves (found : Option (Validator W)) (answer : Json) (session : SessionState)
      (world : W) : Type 0 where
    pub validator : Validator W
    pub resolved : found ≡ some validator
    pub approval : (validate summary discover validator answer session world).0.approved ≡ true

  -- Where a row of renegotiations has come to.
  record Used (n : ℕ) (s t : SessionState) : Type 0 where
    rounds : t.validation_rounds ≡ s.validation_rounds + n
    limit : t.max_validation_rounds ≡ s.max_validation_rounds
    below : (n ≡ 0) ⊎ (t.validation_rounds < t.max_validation_rounds)

  Renegotiations-Used : (n : ℕ) (s t : SessionState) → Renegotiations n s t → Used n s t
  Renegotiations-Used n s t start = record { rounds = omega arith; limit = refl; below = inl refl }
  Renegotiations-Used n s u (again found answer world before e rounds limit) =
      let h = Renegotiations-Used _ s _ before in
      let (r, b, l, _) = renegotiation_uses_round found answer _ world e in
      record {
        rounds = omega (arith, h.rounds, r, rounds);
        limit = limit ∙ l ∙ h.limit;
        below = inr (omega (arith, b, rounds, limit, l));
      }

  -- There are fewer renegotiations in a row than rounds left.
  pub Renegotiations_bounded :
      (n : ℕ) (s t : SessionState)
      → Renegotiations n s t
      → (n ≡ 0) ⊎ (s.validation_rounds + n < s.max_validation_rounds)
  Renegotiations_bounded n s t r =
      let h = Renegotiations-Used n s t r in
      elim h.below [ inl e ↦ inl e | inr b ↦ inr (omega (arith, b, h.rounds, h.limit)) ]

  after_round-passed_iff :
      (vr : ValidationResult) (session : SessionState) (world : W)
      → ((after_round summary discover vr session world).outcome ≡ passed) ↔ (vr.approved ≡ true)
  unfolding after_round
  after_round-passed_iff vr session world = elim (Bool-cases vr.approved) [
    | inl e ↦ rw e (λ _. refl, λ _. refl)
    | inr e ↦ elim (Bool-cases (leb session.max_validation_rounds session.validation_rounds)) [
      | inl f ↦ rw (e, f) (λ h. cc, λ h. cc)
      | inr f ↦ rw (e, f) (λ h. cc (renegotiate-outcome vr session world, h), λ h. cc)
    ]
  ]

  validated_by-passed_iff :
      (found : Option (Validator W)) (answer : Json) (session : SessionState) (world : W)
      → ((validated_by summary discover found answer session world).outcome ≡ passed)
        ↔ ((found ≡ none) ⊎ Approves found answer session world)
  unfolding validated_by
  validated_by-passed_iff none answer session world = (λ _. inl refl, λ _. refl)
  validated_by-passed_iff (some validator) answer session world =
      let (vr, s, w) = validate summary discover validator answer session world in
      let (to, from) = after_round-passed_iff vr s w in
      (
        λ h. inr (record { validator = validator; resolved = refl; approval = to h }),
        λ why. elim why [
          | inl e ↦ cc
          | inr a ↦
              let same : validator ≡ a.validator = cc (a.resolved) in
              from (
                ap (λ v. (validate summary discover v answer session world).0.approved) same
                ∙ a.approval)
        ],
      )

  -- The answer goes out exactly when no agent is assigned, when the validator cannot be found, or when
  -- it approves in this round.
  pub run_validation_loop-passed_iff :
      (found : Option (Validator W)) (answer : Json) (session : SessionState) (world : W)
      → ((run_validation_loop summary discover found answer session world).outcome ≡ passed) ↔ (
          (session.assigned_agent_id ≡ []) ⊎ ((found ≡ none) ⊎ Approves found answer session world))
  unfolding run_validation_loop
  run_validation_loop-passed_iff found answer session world =
      elim (Bool-cases (is_empty session.assigned_agent_id)) [
        | inl nobody ↦ rw nobody (λ _. inl (empty_of session.assigned_agent_id nobody), λ _. refl)
        | inr assigned ↦
            let (to, from) = validated_by-passed_iff found answer session world in
            rw assigned (
              λ h. inr (to h),
              λ why. elim why [
                | inl e ↦ absurd ((is_empty_iff session.assigned_agent_id).0 assigned e)
                | inr h ↦ from h
              ],
            )
      ]
    where
      empty_of : (s : Text) → is_empty s ≡ true → s ≡ []
      empty_of [] e = refl
      empty_of (c ∷ s) e = cc
