-- ===== src/Guard/Reports.antt =====
-- What a `ScopeGrant` has on record after an execution.
use agentic_bus.Common.{
  List, [], ◌∷◌, Bool, true, false, ◌≡◌, ◌≢◌, ◌↔◌, ◌⊎◌, inl, inr, refl, sym, ap, ◌∙◌, arith,
  if◌then◌else◌, Bool-cases, Text, In, In-append_left, In-append_right, In-append_cases, elem,
  elem→In, subst,
}
use agentic_bus.Scopes.{normalise, covered_by_any}
use agentic_bus.Guard.{ScopeGrant, ok, permits, append_new, record_use, require}

pub In-append_new : (s t : Text) (xs : List Text) → In s (append_new t xs) ↔ (In s xs ⊎ (s ≡ t))
In-append_new s t xs = elim (Bool-cases (elem t xs)) [
  | inl old ↦ rw old (
    λ m. inl m,
    λ h. elim h [ inl m ↦ m | inr e ↦ subst (λ u. In u xs) (sym e) (elem→In t xs old) ],
  )
  | inr new ↦ rw new (
    λ m. elim (In-append_cases s xs (t ∷ []) m) [
      | inl l ↦ inl l
      | inr (inl e) ↦ inr e
      | inr (inr h) ↦ absurd h
    ],
    λ h. elim h [
      | inl m ↦ In-append_left s xs (t ∷ []) m
      | inr e ↦ In-append_right s xs (t ∷ []) (inl e)
    ],
  )
]

pub In-record_use :
    (s t : Text) (xs : List Text) → In s (record_use t xs) ↔ (In s xs ⊎ ((s ≡ t) × (s ≢ [])))
In-record_use s [] xs = (λ m. inl m, λ h. elim h [ inl m ↦ m | inr (e, n) ↦ absurd (n e) ])
In-record_use s (c ∷ t) xs =
    let (to, from) = In-append_new s (c ∷ t) xs in
    (
      λ m. elim (to m) [ inl l ↦ inl l | inr e ↦ inr (e, λ n. cc (e, n)) ],
      λ h. elim h [ inl l ↦ from (inl l) | inr (e, n) ↦ from (inr e) ],
    )

-- The scopes that work required, one call of `require` after the other.
unfoldable pub run : ScopeGrant → List Text → ScopeGrant
run g [] = g
run g (s ∷ ss) = run (require g s).1 ss

-- A call required the scope of canonical form `s`.
pub record Required (scopes : List Text) (s : Text) : Type 0 where
  pub raw : Text
  pub called : In raw scopes
  pub canonical : s ≡ normalise raw

Required-cons :
    (t : Text) {scopes : List Text} {s : Text} → Required scopes s → Required (t ∷ scopes) s
Required-cons t r = record { raw = r.raw; called = inr r.called; canonical = r.canonical }

require-granted : (g : ScopeGrant) (t : Text) → (require g t).1.granted ≡ g.granted
unfolding require permits
require-granted g t = ground arith

pub require-used :
    (g : ScopeGrant) (t : Text) → (require g t).1.used ≡ record_use (normalise t) g.used
unfolding require
require-used g t = elim (Bool-cases (permits g (normalise t))) [ inl p ↦ rw p | inr p ↦ rw p ]

require-denied :
    (g : ScopeGrant) (t : Text)
    → (require g t).1.denied ≡ (
        if covered_by_any g.granted (normalise t)
        then g.denied
        else append_new (normalise t) g.denied)
unfolding require permits
require-denied g t = elim (Bool-cases (covered_by_any g.granted (normalise t))) [
  | inl p ↦ rw p
  | inr p ↦ rw p
]

-- A required scope is refused exactly when the grant does not cover it, and the grant itself never
-- changes.
pub require-ok_iff :
    (g : ScopeGrant) (t : Text)
    → (((require g t).0 ≡ ok tt) ↔ (covered_by_any g.granted (normalise t) ≡ true))
      × ((require g t).1.granted ≡ g.granted)
unfolding require permits
require-ok_iff g t = elim (Bool-cases (covered_by_any g.granted (normalise t))) [
  | inl p ↦ rw p ((λ _. refl, λ _. refl), refl)
  | inr p ↦ rw p ((λ e. cc, λ e. cc), refl)
]

-- Every non-empty scope that was required is on record as used, refused or not, and nothing else is.
pub run-used_iff :
    (g : ScopeGrant) (scopes : List Text) (s : Text)
    → In s (run g scopes).used ↔ (In s g.used ⊎ (Required scopes s × (s ≢ [])))
unfolding run
run-used_iff g [] s = (λ m. inl m, λ h. elim h [ inl m ↦ m | inr (r, _) ↦ absurd r.called ])
run-used_iff g (t ∷ ts) s =
    let (to, from) = run-used_iff (require g t).1 ts s in
    let (read, write) = In-record_use s (normalise t) g.used in
    (
      λ m. elim (to m) [
        | inl l ↦ elim (read (rw (require-used g t) at l)) [
          | inl old ↦ inl old
          | inr (e, n) ↦ inr (record { raw = t; called = inl refl; canonical = e }, n)
        ]
        | inr (r, n) ↦ inr (Required-cons t r, n)
      ],
      λ h. elim h [
        | inl old ↦ from (inl (rw (require-used g t) (write (inl old))))
        | inr (r, n) ↦ elim r.called [
          | inl e ↦
              from (inl (rw (require-used g t) (write (inr (r.canonical ∙ ap normalise e, n)))))
          | inr later ↦
              from (inr (record { raw = r.raw; called = later; canonical = r.canonical }, n))
        ]
      ],
    )

In-denied :
    (covered : Bool) (s t : Text) (xs : List Text)
    → In s (if covered then xs else append_new t xs) ↔ (In s xs ⊎ ((s ≡ t) × (covered ≡ false)))
In-denied true s t xs = (λ m. inl m, λ h. elim h [ inl m ↦ m | inr (e, n) ↦ cc ])
In-denied false s t xs =
    let (to, from) = In-append_new s t xs in
    (
      λ m. elim (to m) [ inl l ↦ inl l | inr e ↦ inr (e, refl) ],
      λ h. elim h [ inl l ↦ from (inl l) | inr (e, n) ↦ from (inr e) ],
    )

-- On record as denied is exactly what was required and is not covered by the grant.
pub run-denied_iff :
    (g : ScopeGrant) (scopes : List Text) (s : Text)
    → In s (run g scopes).denied
      ↔ (In s g.denied ⊎ (Required scopes s × (covered_by_any g.granted s ≡ false)))
unfolding run
run-denied_iff g [] s = (λ m. inl m, λ h. elim h [ inl m ↦ m | inr (r, _) ↦ absurd r.called ])
run-denied_iff g (t ∷ ts) s =
    let (to, from) = run-denied_iff (require g t).1 ts s in
    let (read, write) =
      In-denied (covered_by_any g.granted (normalise t)) s (normalise t) g.denied in
    (
      λ m. elim (to m) [
        | inl l ↦ elim (read (rw (require-denied g t) at l)) [
          | inl old ↦ inl old
          | inr (e, n) ↦ inr (record { raw = t; called = inl refl; canonical = e }, rw e n)
        ]
        | inr (r, n) ↦ inr (Required-cons t r, rw (require-granted g t) at n)
      ],
      λ h. elim h [
        | inl old ↦ from (inl (rw (require-denied g t) (write (inl old))))
        | inr (r, n) ↦ elim r.called [
          | inl e ↦
              let same = r.canonical ∙ ap normalise e in
              from (inl (rw (require-denied g t) (write (inr (same, rw same at n)))))
          | inr later ↦ from (
              inr (
                record { raw = r.raw; called = later; canonical = r.canonical },
                rw (require-granted g t) n,
              ))
        ]
      ],
    )
