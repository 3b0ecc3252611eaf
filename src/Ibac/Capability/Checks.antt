-- ===== src/Ibac/Capability/Checks.antt =====
-- What passes `Capability.check`, and until when.
use agentic_bus.Common.{
  ℕ, ◌+◌, ◌*◌, List, [], ◌∷◌, true, false, not, ◌&&◌, ◌||◌, ◌≡◌, ◌↔◌, ◌⊎◌, inl, inr, refl, arith,
  none, leb, Bool-cases, Text, In, elem, elem→In, In→elem, is_empty, is_empty_iff,
}
use agentic_bus.Ibac.Capability.{
  IsoTime, Capability, Grant, issue, microseconds, is_expired, permits_principal, permits_scope,
  check_scopes, check,
}

-- The list is empty, which grants to anyone or anything, or holds the name.
abbrev pub Admits : List Text → Text → Type 0
Admits names x = (names ≡ []) ⊎ In x names

Admits-iff :
    (names : List Text) (x : Text) → ((is_empty names || elem x names) ≡ true) ↔ Admits names x
Admits-iff [] x = (λ _. inl refl, λ _. refl)
Admits-iff (n ∷ ns) x =
    (λ h. inr (elem→In x (n ∷ ns) h), λ a. elim a [ inl e ↦ cc | inr m ↦ In→elem x (n ∷ ns) m ])

module _ (iso : IsoTime) where
  -- The operation fits the capability at `now`.
  pub record Fits (c : Capability) (principal : Text) (scopes : List Text) (now : ℕ) : Type 0 where
    pub in_time : is_expired iso c now ≡ false
    pub by_principal : (principal ≡ []) ⊎ Admits c.principals principal
    pub within : (s : Text) → In s scopes → Admits c.scopes s

  check_scopes_iff :
      (c : Capability) (scopes : List Text)
      → (check_scopes iso c scopes ≡ none) ↔ ((s : Text) → In s scopes → Admits c.scopes s)
  unfolding check_scopes permits_scope
  check_scopes_iff c [] = (λ _ s m. absurd m, λ _. refl)
  check_scopes_iff c (s ∷ ss) =
      let (to, from) = check_scopes_iff c ss in
      let (admitted, admit) = Admits-iff c.scopes s in
      elim (Bool-cases (is_empty c.scopes || elem s c.scopes)) [
        | inl yes_s ↦ rw yes_s (
          λ h t m. elim m [ inl e ↦ rw e (admitted yes_s) | inr n ↦ to h t n ],
          λ all. from (λ t n. all t (inr n)),
        )
        | inr no_s ↦ rw no_s (λ h. cc, λ all. cc (admit (all s (inl refl))))
      ]

  principal_iff :
      (c : Capability) (principal : Text)
      → ((not (is_empty principal) && not (permits_principal iso c principal)) ≡ false)
        ↔ ((principal ≡ []) ⊎ Admits c.principals principal)
  unfolding permits_principal
  principal_iff c [] = (λ _. inl refl, λ _. refl)
  principal_iff c (d ∷ ds) =
      let (to, from) = Admits-iff c.principals (d ∷ ds) in
      (λ h. inr (to (ground arith)), λ why. elim why [ inl e ↦ cc | inr a ↦ rw (from a) ])

  -- A check passes exactly when the capability has not expired, the principal is empty or named or the
  -- grant is to anyone, and each scope is named or the grant is not limited to scopes.
  pub check-none_iff :
      (c : Capability) (principal : Text) (scopes : List Text) (now : ℕ)
      → (check iso c principal scopes now ≡ none) ↔ Fits c principal scopes now
  unfolding check
  check-none_iff c principal scopes now =
      let (named, naming) = principal_iff c principal in
      let (to, from) = check_scopes_iff c scopes in
      (
        λ h. record {
          in_time = ground arith;
          by_principal = named (ground arith);
          within = to (ground arith);
        },
        λ f. rw (f.in_time, naming f.by_principal) (from f.within),
      )

  -- An issued capability has expired exactly from the moment on at which its time to live, counted
  -- from its issue, is over.
  pub issue_lifetime :
      (fresh_id : Text) (now later : ℕ) (g : Grant)
      → is_expired iso (issue iso fresh_id now g) later
        ≡ leb (now + g.ttl_seconds * microseconds) later
  unfolding is_expired issue
  issue_lifetime fresh_id now later g = rw (
    (is_empty_iff (iso.isoformat (now + g.ttl_seconds * microseconds))).1
        (iso.not_empty (now + g.ttl_seconds * microseconds)),
    iso.round_trip (now + g.ttl_seconds * microseconds),
  )
