-- ===== src/Scopes/Coverage.antt =====
-- When one scope `covers` another.
use mathlib.Core.List.{append_assoc, cons≢nil, head-eq_of_cons-eq, tail-eq_of_cons-eq}
use agentic_bus.Common.{
  ℕ, [], ◌∷◌, ◌++◌, true, ◌≡◌, ◌≢◌, ◌↔◌, ◌⊎◌, refl, sym, ap, ◌∙◌, arith, Text, eq_iff, starts_with,
  ends_with, starts_with_iff, ends_with_iff,
}
use agentic_bus.Scopes.{
  wildcard, below_mark, separator, normalise, drop_last, covers_normal, covers,
}

-- `granted` is `p:*` and `requested` lies below `p:`.
pub record Below (granted requested : Text) : Type 0 where
  pub stem : Text
  pub rest : Text
  pub granted_eq : granted ≡ stem ++ separator ∷ wildcard
  pub requested_eq : requested ≡ stem ++ separator ∷ rest

-- Coverage of canonical names, said without the program's tests.
pub record Covers (granted requested : Text) : Type 0 where
  pub granted_named : granted ≢ []
  pub requested_named : requested ≢ []
  pub reason : (granted ≡ requested) ⊎ (granted ≡ wildcard) ⊎ Below granted requested

drop_last-append : (s : Text) (c : ℕ) → drop_last (s ++ c ∷ []) ≡ s
unfolding drop_last
drop_last-append [] c = refl
drop_last-append (d ∷ []) c = refl
drop_last-append (d ∷ e ∷ s) c = ap (λ t. d ∷ t) (drop_last-append (e ∷ s) c)

drop_mark : (p : Text) → drop_last (p ++ below_mark) ≡ p ++ separator ∷ []
drop_mark p =
    ap drop_last (sym (append_assoc p (separator ∷ []) wildcard))
    ∙ drop_last-append (p ++ separator ∷ []) b'*'

Below-of :
    (g r : Text) → ends_with below_mark g ≡ true → starts_with (drop_last g) r ≡ true → Below g r
Below-of g r e s =
    let (p, ge) = (ends_with_iff below_mark g).0 e in
    let (rest, re) = (starts_with_iff (drop_last g) r).0 s in
    record {
      stem = p;
      rest = rest;
      granted_eq = ge;
      requested_eq =
          re
          ∙ ap (λ t. drop_last t ++ rest) ge
          ∙ ap (λ t. t ++ rest) (drop_mark p)
          ∙ append_assoc p (separator ∷ []) rest;
    }

of-Below :
    (g r : Text)
    → Below g r
    → (ends_with below_mark g ≡ true) × (starts_with (drop_last g) r ≡ true)
of-Below g r b = (
  (ends_with_iff below_mark g).1 (b.stem, b.granted_eq),
  (starts_with_iff (drop_last g) r).1 (
    b.rest,
    b.requested_eq
        ∙ sym (
            ap (λ t. drop_last t ++ b.rest) b.granted_eq
            ∙ ap (λ t. t ++ b.rest) (drop_mark b.stem)
            ∙ append_assoc b.stem (separator ∷ []) b.rest),
  ),
)

covers_normal_sound : (g r : Text) → covers_normal g r ≡ true → Covers g r
unfolding covers_normal
covers_normal_sound [] r h = ground arith
covers_normal_sound (c ∷ g) [] h = ground arith
covers_normal_sound (c ∷ g) (d ∷ r) h = record {
  granted_named = cons≢nil;
  requested_named = cons≢nil;
  reason =
      ground (arith, eq_iff (c ∷ g) (d ∷ r), eq_iff (c ∷ g) wildcard, Below-of (c ∷ g) (d ∷ r));
}

covers_normal_complete : (g r : Text) → Covers g r → covers_normal g r ≡ true
unfolding covers_normal
covers_normal_complete [] r h = absurd (h.granted_named refl)
covers_normal_complete (c ∷ g) [] h = absurd (h.requested_named refl)
covers_normal_complete (c ∷ g) (d ∷ r) h =
    ground
      (arith, h.reason, eq_iff (c ∷ g) (d ∷ r), eq_iff (c ∷ g) wildcard, of-Below (c ∷ g) (d ∷ r))

-- `covers` holds exactly when, for the canonical forms, both are non-empty and the grant is the
-- request, or `*`, or `p:*` with the request below `p:`.
pub covers_iff :
    (granted requested : Text)
    → (covers granted requested ≡ true) ↔ Covers (normalise granted) (normalise requested)
unfolding covers
covers_iff g r = (
  covers_normal_sound (normalise g) (normalise r),
  covers_normal_complete (normalise g) (normalise r),
)

no_middle : (xs r : Text) → xs ++ separator ∷ r ≢ []
no_middle [] r = cons≢nil
no_middle (x ∷ xs) r = cons≢nil

separator-ne-star : separator ≢ b'*'
separator-ne-star e = omega arith

-- A separator that stands in `q ++ "*"` stands in `q`.
separator_before :
    (xs q r : Text) → xs ++ separator ∷ r ≡ q ++ wildcard → (t : Text) × (q ≡ xs ++ separator ∷ t)
separator_before [] [] r e = absurd (separator-ne-star (head-eq_of_cons-eq e))
separator_before [] (d ∷ q) r e = (q, ap (λ c. c ∷ q) (sym (head-eq_of_cons-eq e)))
separator_before (x ∷ xs) [] r e = absurd (no_middle xs r (tail-eq_of_cons-eq e))
separator_before (x ∷ xs) (d ∷ q) r e =
    let (t, h) = separator_before xs q r (tail-eq_of_cons-eq e) in
    (t, ap (λ c. c ∷ q) (sym (head-eq_of_cons-eq e)) ∙ ap (λ s. x ∷ s) h)

Below-trans : (a b c : Text) → Below a b → Below b c → Below a c
Below-trans a b c h k =
    let (t, e) =
      separator_before h.stem (k.stem ++ separator ∷ []) h.rest
        (sym h.requested_eq ∙ k.granted_eq ∙ sym (append_assoc k.stem (separator ∷ []) wildcard)) in
    record {
      stem = h.stem;
      rest = t ++ k.rest;
      granted_eq = h.granted_eq;
      requested_eq =
          k.requested_eq
          ∙ sym (append_assoc k.stem (separator ∷ []) k.rest)
          ∙ ap (λ q. q ++ k.rest) e
          ∙ append_assoc h.stem (separator ∷ t) k.rest;
    }

Below-ne-wildcard : (a b : Text) → Below a b → b ≢ wildcard
Below-ne-wildcard a b h e =
    elim h.stem as (λ s. b ≡ s ++ separator ∷ h.rest → ⊥) [
      | [] ↦ λ k. ground arith
      | c ∷ s ↦ λ k. no_middle s h.rest (ground arith)
    ]
      h.requested_eq

Covers-trans : (a b c : Text) → Covers a b → Covers b c → Covers a c
Covers-trans a b c h k = record {
  granted_named = h.granted_named;
  requested_named = k.requested_named;
  reason = ground (arith, h.reason, k.reason, Below-trans a b c, Below-ne-wildcard a b);
}

-- Coverage is transitive: what a grant covers, and what that covers in turn, the grant covers.
pub covers_trans : (a b c : Text) → covers a b ≡ true → covers b c ≡ true → covers a c ≡ true
covers_trans a b c h k = (covers_iff a c).1 (
    Covers-trans (normalise a) (normalise b) (normalise c) ((covers_iff a b).0 h)
      ((covers_iff b c).0 k))
