-- ===== src/Admission/Entitlement.antt =====
-- When a registration is admitted: agentic_bus/core/auth/agent_auth.py and `_admit` of
-- agentic_bus/coordinator/runtime.py.
use agentic_bus.Common.{
  Bool, true, false, Option, none, some, Bool-cases, Text, ◌==◌, eq_iff, is_empty, lookup, ◌≡◌, ◌↔◌,
  inl, inr, refl, ◌∙◌, if◌then◌else◌, codes, ap, [], ◌∷◌, ◌≢◌, ◌⊎◌, ◌&&◌, sym, not,
}
use agentic_bus.Registry.{AgentRegistration}
use agentic_bus.Admission.{
  Identity, AuthPolicy, Records, admission, AdmissionRefusal, standing, bound_check,
  entitled_to_register, bound_subject_of, or_refusal, require_auth, has_identity, AgentStatus,
  pending, approved, rejected, revoked, not_in_good_standing, awaiting_enrolment, is_barred,
  is_persistent, is_approved, AgentRecord,
}

-- The three tests of `_admit`, each as the code makes it.
pub record Passes (readable : Bool) (policy : AuthPolicy) (identity : Option Identity)
    (reg : AgentRegistration) (records : Records) : Type 0 where
  pub can_be_read : readable ≡ true
  pub in_standing : standing reg (lookup reg.agent_id records) ≡ none
  pub is_known : require_auth policy ≡ true → has_identity identity ≡ true
  pub matches_binding :
      is_empty (bound_subject_of (lookup reg.agent_id records)) ≡ false
      → (i : Identity) × (identity ≡ some i)
        × (i.subject ≡ bound_subject_of (lookup reg.agent_id records))

or_refusal-none :
    (a b : Option AdmissionRefusal) → (or_refusal a b ≡ none) ↔ ((a ≡ none) × (b ≡ none))
or_refusal-none none b = (λ e. (refl, e), λ (_, e). e)
or_refusal-none (some r) b = (λ e. cc, λ (e, _). cc)

bound_check-none :
    (identity : Option Identity) (bound : Text)
    → (bound_check identity bound ≡ none)
      ↔ (is_empty bound ≡ false → (i : Identity) × (identity ≡ some i) × (i.subject ≡ bound))
bound_check-none none bound = elim (Bool-cases (is_empty bound)) [
  | inl e ↦ rw e (λ _ f. cc, λ _. refl)
  | inr e ↦ rw e (λ f. cc, λ h. let (i, f, _) = h refl in cc)
]
bound_check-none (some identity) bound = elim (Bool-cases (is_empty bound)) [
  | inl e ↦ rw e (λ _ f. cc, λ _. refl)
  | inr e ↦ rw e (elim (Bool-cases (identity.subject == bound)) [
    | inl same ↦
        rw same (λ _ _. (identity, refl, (eq_iff identity.subject bound).0 same), λ _. refl)
    | inr other ↦ rw other (
      λ f. cc,
      λ h.
          let (i, f, d) = h refl in
          absurd (clash ((eq_iff identity.subject bound).1 (subject_eq f ∙ d)) other),
    )
  ])
]
  where
    clash : {b : Bool} → b ≡ true → b ≡ false → ⊥
    clash p q = cc

    subject_eq : {i j : Identity} → some i ≡ some j → i.subject ≡ j.subject
    subject_eq p = cc

entitled-none :
    (policy : AuthPolicy) (identity : Option Identity) (bound : Text)
    → (entitled_to_register policy identity bound ≡ none) ↔ (
        (require_auth policy ≡ true → has_identity identity ≡ true)
        × (bound_check identity bound ≡ none))
unfolding entitled_to_register
entitled-none policy identity bound = elim (Bool-cases (require_auth policy)) [
  | inr e ↦ rw e (λ h. (λ f. cc, h), λ (_, h). h)
  | inl e ↦ rw e (elim (Bool-cases (has_identity identity)) [
    | inl t ↦ rw t (λ h. (λ _. refl, h), λ (_, h). h)
    | inr f ↦ rw f (λ h. cc, λ (h, _). let g = h refl in cc)
  ])
]

pub admission-Passes :
    (readable : Bool) (policy : AuthPolicy) (identity : Option Identity) (reg : AgentRegistration)
    (records : Records)
    → (admission readable policy identity reg records ≡ none)
      ↔ Passes readable policy identity reg records
unfolding admission
admission-Passes false policy identity reg records = (λ e. cc, λ h. let f = h.can_be_read in cc)
admission-Passes true policy identity reg records =
    let r = lookup reg.agent_id records in
    let (split, join) =
      or_refusal-none (standing reg r)
        (entitled_to_register policy identity (bound_subject_of r)) in
    let (entitled, back) = entitled-none policy identity (bound_subject_of r) in
    let (bound, unbound) = bound_check-none identity (bound_subject_of r) in
    (
      λ e.
          let (s, t) = split e in
          let (known, b) = entitled t in
          record {
            can_be_read = refl;
            in_standing = s;
            is_known = known;
            matches_binding = bound b;
          },
      λ h. join (h.in_standing, back (h.is_known, unbound h.matches_binding)),
    )

-- What admits an agent: its record can be read and is in good standing, a credential was presented
-- where one is required, and a binding is met by its own subject.
pub record IsEntitled (readable : Bool) (policy : AuthPolicy) (identity : Option Identity)
    (reg : AgentRegistration) (records : Records) : Type 0 where
  pub can_be_read : readable ≡ true
  pub in_standing :
      (r : AgentRecord)
      → lookup reg.agent_id records ≡ some r
      → (r.status ≢ rejected)
        × (r.status ≢ revoked)
        × (reg.mode ≡ codes "persistent" → r.status ≡ approved)
  pub is_known : (policy.issuer ≢ []) ⊎ (policy.flag ≡ true) → (i : Identity) × (identity ≡ some i)
  pub matches_binding :
      (r : AgentRecord)
      → lookup reg.agent_id records ≡ some r
      → r.oidc_subject ≢ []
      → (i : Identity) × (identity ≡ some i) × (i.subject ≡ r.oidc_subject)

abbrev Stands : AgentRegistration → AgentStatus → Type 0
Stands reg status =
    (status ≢ rejected) × (status ≢ revoked) × (reg.mode ≡ codes "persistent" → status ≡ approved)

Stands-iff :
    (reg : AgentRegistration) (r : AgentRecord)
    → (standing reg (some r) ≡ none) ↔ Stands reg r.status
Stands-iff reg r = by_status r.status
  where
    persistent : is_persistent reg ≡ true → reg.mode ≡ codes "persistent"
    persistent = (eq_iff reg.mode (codes "persistent")).0

    ephemeral : is_persistent reg ≡ false → reg.mode ≢ codes "persistent"
    ephemeral f e = clash ((eq_iff reg.mode (codes "persistent")).1 e) f
      where
        clash : {b : Bool} → b ≡ true → b ≡ false → ⊥
        clash p q = cc

    by_status :
        (status : AgentStatus)
        → ((if is_barred status
              then some not_in_good_standing
              else if is_persistent reg && not (is_approved status)
              then some awaiting_enrolment
              else none)
            ≡ none)
          ↔ Stands reg status
    by_status rejected = (λ e. cc, λ (n, _, _). absurd (n refl))
    by_status revoked = (λ e. cc, λ (_, n, _). absurd (n refl))
    by_status approved = elim (Bool-cases (is_persistent reg)) [
      | inl t ↦ rw t (λ e. (λ p. cc, λ p. cc, λ m. refl), λ h. refl)
      | inr f ↦ rw f (λ e. (λ p. cc, λ p. cc, λ m. refl), λ h. refl)
    ]
    by_status pending = elim (Bool-cases (is_persistent reg)) [
      | inl t ↦ rw t (λ e. cc, λ (_, _, must). let bad = must (persistent t) in cc)
      | inr f ↦ rw f (λ e. (λ p. cc, λ p. cc, λ m. absurd (ephemeral f m)), λ h. refl)
    ]

filled_iff : (t : Text) → (is_empty t ≡ false) ↔ (t ≢ [])
filled_iff [] = (λ e. cc, λ n. absurd (n refl))
filled_iff (c ∷ t) = (λ e p. cc, λ n. refl)

required_iff :
    (policy : AuthPolicy)
    → (require_auth policy ≡ true) ↔ ((policy.issuer ≢ []) ⊎ (policy.flag ≡ true))
required_iff policy = elim (Bool-cases (is_empty policy.issuer)) [
  | inr given ↦ rw given (λ e. inl ((filled_iff policy.issuer).0 given), λ h. refl)
  | inl blank ↦ rw blank (
    λ e. inr e,
    λ h. elim h [ inl n ↦ absurd (clash blank ((filled_iff policy.issuer).1 n)) | inr e ↦ e ],
  )
]
  where
    clash : {b : Bool} → b ≡ true → b ≡ false → ⊥
    clash p q = cc

known_iff :
    (identity : Option Identity)
    → (has_identity identity ≡ true) ↔ ((i : Identity) × (identity ≡ some i))
known_iff none = (λ e. cc, λ (i, e). cc)
known_iff (some i) = (λ e. (i, refl), λ h. refl)

-- A registration is admitted exactly where the agent's record can be read and is in good standing (not
-- rejected or revoked and, for a persistent agent, approved), a credential was presented where one is
-- required, and the subject that the record is bound to, if any, is the one that the connection
-- authenticated as.
pub admission_iff :
    (readable : Bool) (policy : AuthPolicy) (identity : Option Identity) (reg : AgentRegistration)
    (records : Records)
    → (admission readable policy identity reg records ≡ none)
      ↔ IsEntitled readable policy identity reg records
admission_iff readable policy identity reg records =
    let (to, from) = admission-Passes readable policy identity reg records in
    let o = lookup reg.agent_id records in
    (
      λ e.
          let h = to e in
          record {
            can_be_read = h.can_be_read;
            in_standing =
                λ r found. (Stands-iff reg r).0 (ap (standing reg) (sym found) ∙ h.in_standing);
            is_known = λ must. (known_iff identity).0 (h.is_known ((required_iff policy).1 must));
            matches_binding = λ r found n.
                let same = ap bound_subject_of found in
                let (i, d, q) =
                  h.matches_binding (ap is_empty same ∙ (filled_iff r.oidc_subject).1 n) in
                (i, d, q ∙ same);
          },
      λ h. from (record {
        can_be_read = h.can_be_read;
        in_standing = stands o h.in_standing;
        is_known = λ must. (known_iff identity).1 (h.is_known ((required_iff policy).0 must));
        matches_binding = binding o h.matches_binding;
      }),
    )
  where
    stands :
        (o : Option AgentRecord)
        → ((r : AgentRecord) → o ≡ some r → Stands reg r.status)
        → standing reg o ≡ none
    stands none h = refl
    stands (some r) h = (Stands-iff reg r).1 (h r refl)

    binding :
        (o : Option AgentRecord)
        → ((r : AgentRecord)
            → o ≡ some r
            → r.oidc_subject ≢ []
            → (i : Identity) × (identity ≡ some i) × (i.subject ≡ r.oidc_subject))
        → is_empty (bound_subject_of o) ≡ false
        → (i : Identity) × (identity ≡ some i) × (i.subject ≡ bound_subject_of o)
    binding none h e = cc
    binding (some r) h e = h r refl ((filled_iff r.oidc_subject).0 e)
