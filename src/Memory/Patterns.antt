-- ===== src/Memory/Patterns.antt =====
-- Which keys a policy's pattern names, by `_matches_pattern` of agentic_bus/core/session/memory.py.
use mathlib.Core.Path.{ap₂}
use mathlib.Core.List.{
  reverse-reverse, reverse-append, reverse-cons, head-eq_of_cons-eq, tail-eq_of_cons-eq, cons≢nil,
}
use agentic_bus.Common.{
  [], ◌∷◌, ◌++◌, Bool, true, false, ◌||◌, ◌≡◌, ◌≢◌, ◌↔◌, ◌⊎◌, inl, inr, refl, sym, ap, ◌∙◌, subst,
  arith, some, nat_eq, nat_eq_iff, Bool-cases, Option-cases, Text, reverse,
}
use agentic_bus.Memory.Glob.{
  star, newline, match_star, match_char, match_all, drop_newline, before_newline, match_before,
  matches_pattern,
}

abbrev pub NoStar : Text → Type 0
NoStar [] = Unit {0}
NoStar (c ∷ s) = (c ≢ star) × NoStar s

abbrev pub NoNewline : Text → Type 0
NoNewline [] = Unit {0}
NoNewline (c ∷ s) = (c ≢ newline) × NoNewline s

-- The key is `s`, or `s` with a newline behind it.
abbrev pub IsLine : Text → Text → Type 0
IsLine key s = (key ≡ s) ⊎ (key ≡ s ++ newline ∷ [])

drop_newline_iff : (r t : Text) → (drop_newline r ≡ some t) ↔ (r ≡ newline ∷ reverse t)
unfolding drop_newline
drop_newline_iff [] t = (λ e. cc, λ e. cc)
drop_newline_iff (c ∷ r) t = elim (Bool-cases (nat_eq c newline)) [
  | inl e ↦ rw e (
    λ h.
        ap₂ ◌∷◌ ((nat_eq_iff c newline).0 e)
          (sym (reverse-reverse r) ∙ ap reverse (some-injective h)),
    λ h. ap some (ap reverse (tail-eq_of_cons-eq h) ∙ reverse-reverse t),
  )
  | inr n ↦ rw n (λ h. cc, λ h. absurd (differ ((nat_eq_iff c newline).1 (head-eq_of_cons-eq h)) n))
]
  where
    differ : {b : Bool} → b ≡ true → b ≡ false → ⊥
    differ p q = cc

    some-injective : {s t : Text} → some s ≡ some t → s ≡ t
    some-injective p = cc

before_newline_iff : (s t : Text) → (before_newline s ≡ some t) ↔ (s ≡ t ++ newline ∷ [])
unfolding before_newline
before_newline_iff s t =
    let (to, from) = drop_newline_iff (reverse s) t in
    (
      λ h.
          sym (reverse-reverse s)
          ∙ ap reverse (to h)
          ∙ reverse-cons newline (reverse t)
          ∙ ap (λ u. u ++ newline ∷ []) (reverse-reverse t),
      λ e. from (ap reverse e ∙ reverse-append t (newline ∷ [])),
    )

match_before_iff :
    (pattern key : Text)
    → (match_before pattern (before_newline key) ≡ true)
      ↔ ((t : Text) × (key ≡ t ++ newline ∷ []) × (match_all pattern t ≡ true))
match_before_iff pattern key = elim (Option-cases (before_newline key)) [
  | inl e ↦ rw e (λ h. cc, λ (t, k, m). cc (e, (before_newline_iff key t).1 k))
  | inr (s, e) ↦ rw e (
    λ h. (s, (before_newline_iff key s).0 e, h),
    λ (t, k, m). let same : s ≡ t = cc (e, (before_newline_iff key t).1 k) in rw same m,
  )
]

match_literal_iff : (p s : Text) → NoStar p → (match_all p s ≡ true) ↔ (s ≡ p)
unfolding match_all match_char
match_literal_iff [] [] h = (λ _. refl, λ _. refl)
match_literal_iff [] (c ∷ s) h = (λ e. cc, λ e. cc)
match_literal_iff (p ∷ ps) [] (n, h) = (λ e. ground (arith, n), λ e. cc)
match_literal_iff (p ∷ ps) (c ∷ s) (n, h) =
    let (to, from) = match_literal_iff ps s h in
    (
      λ e. ap₂ ◌∷◌ (ground (arith, n)) (to (ground (arith, n))),
      λ e.
          let same : c ≡ p = head-eq_of_cons-eq e in
          let rest = from (tail-eq_of_cons-eq e) in ground (arith, n, rest, same),
    )

-- A pattern without a star names its own key and, since `$` holds before a final newline, the key
-- with a newline behind it; no other.
pub matches_literal_iff : (p key : Text) → NoStar p → (matches_pattern key p ≡ true) ↔ IsLine key p
unfolding matches_pattern
matches_literal_iff p key h =
    let (to, from) = match_literal_iff p key h in
    let (read, write) = match_before_iff p key in
    (
      λ e. elim (Bool-cases (match_all p key)) [
        | inl m ↦ inl (to m)
        | inr n ↦
            let (t, k, m) = read (rw n at e) in
            inr (k ∙ ap (λ u. u ++ newline ∷ []) ((match_literal_iff p t h).0 m))
      ],
      λ why. elim why [
        | inl e ↦ rw (from e)
        | inr e ↦
            let found = write (p, e, (match_literal_iff p p h).1 refl) in
            either (match_all p key) found
      ],
    )
  where
    either : (b : Bool) {c : Bool} → c ≡ true → (b || c) ≡ true
    either true e = refl
    either false e = e

match_star_iff : (s : Text) → (match_star (match_all []) s ≡ true) ↔ NoNewline s
unfolding match_star match_all
match_star_iff [] = (λ _. tt, λ _. refl)
match_star_iff (c ∷ s) =
    let (to, from) = match_star_iff s in
    (λ e. (ground arith, to (ground arith)), λ (n, h). let rest = from h in ground (arith, n, rest))

match_prefix_iff :
    (p s : Text)
    → NoStar p
    → (match_all (p ++ star ∷ []) s ≡ true) ↔ ((r : Text) × (s ≡ p ++ r) × NoNewline r)
unfolding match_all match_char
match_prefix_iff [] s h =
    let (to, from) = match_star_iff s in
    (λ e. (s, refl, to e), λ (r, e, n). from (subst NoNewline (sym e) n))
match_prefix_iff (p ∷ ps) [] (n, h) =
    (λ e. absurd (ground (arith, n)), λ (r, e, _). absurd (cons≢nil (sym e)))
match_prefix_iff (p ∷ ps) (c ∷ s) (n, h) =
    let (to, from) = match_prefix_iff ps s h in
    (
      λ e.
          let (r, tail_eq, clean) = to (ground (arith, n)) in
          let same : c ≡ p = ground (arith, n) in (r, ap₂ ◌∷◌ same tail_eq, clean),
      λ (r, e, clean).
          let same : c ≡ p = head-eq_of_cons-eq e in
          let rest = from (r, tail-eq_of_cons-eq e, clean) in ground (arith, n, rest, same),
    )

-- A pattern `stem*`, with no other star, names exactly the keys that begin with the stem and hold
-- no newline behind it but one that ends the key.
pub matches_namespace_iff :
    (stem key : Text)
    → NoStar stem
    → (matches_pattern key (stem ++ star ∷ []) ≡ true)
      ↔ ((r : Text) × IsLine key (stem ++ r) × NoNewline r)
unfolding matches_pattern
matches_namespace_iff stem key h =
    let (to, from) = match_prefix_iff stem key h in
    let (read, write) = match_before_iff (stem ++ star ∷ []) key in
    (
      λ e. elim (Bool-cases (match_all (stem ++ star ∷ []) key)) [
        | inl m ↦ let (r, k, clean) = to m in (r, inl k, clean)
        | inr n ↦
            let (t, k, m) = read (rw n at e) in
            let (r, k', clean) = (match_prefix_iff stem t h).0 m in
            (r, inr (k ∙ ap (λ u. u ++ newline ∷ []) k'), clean)
      ],
      λ (r, why, clean). elim why [
        | inl e ↦ rw (from (r, e, clean))
        | inr e ↦
            either (match_all (stem ++ star ∷ []) key)
              (write (stem ++ r, e, (match_prefix_iff stem (stem ++ r) h).1 (r, refl, clean)))
      ],
    )
  where
    either : (b : Bool) {c : Bool} → c ≡ true → (b || c) ≡ true
    either true e = refl
    either false e = e
