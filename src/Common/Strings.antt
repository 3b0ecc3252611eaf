-- ===== src/Common/Strings.antt =====
-- Text as a list of code points, with the methods of Python's `str` that the program calls.
-- `lower`, `strip` and `is_alnum` are Python's on ASCII; other code points have no case, are no
-- space and are not alphanumeric.
use Prim.Native.Nat.{ℕ, ◌+◌, ◌-◌}
use Prim.Native.Char.{code}
use Prim.Native.String.{String}
use mathlib.Core.Path.{◌≡◌, refl, ap, sym, ◌∙◌}
use mathlib.Core.Logic.{◌↔◌, inl, inr}
use mathlib.Core.Bool.{Bool, true, false, ◌&&◌, ◌||◌, false≢true}
use mathlib.Core.List.{List, [], ◌∷◌, ◌++◌, map, reverse, reverse-append, reverse-reverse}
use native.Mathlib.Omega.{arith}
use agentic_bus.Common.Tests.{nat_eq, leb, if◌then◌else◌}
use agentic_bus.Common.Lists.{any, In}

abbrev pub Text : Type 0
Text = List ℕ

abbrev pub codes : String → Text
codes String.[] = []
codes (String.◌∷◌ c s) = code c ∷ codes s

infix 50 ◌==◌
unfoldable pub ◌==◌ : Text → Text → Bool
[] == [] = true
[] == (d ∷ t) = false
(c ∷ s) == [] = false
(c ∷ s) == (d ∷ t) = nat_eq c d && (s == t)

pub eq_sound : (s t : Text) → (s == t) ≡ true → s ≡ t
unfolding ◌==◌
eq_sound [] [] h = refl
eq_sound [] (d ∷ t) h = ground arith
eq_sound (c ∷ s) [] h = ground arith
eq_sound (c ∷ s) (d ∷ t) h = ground (arith, eq_sound s t)

pub eq_self : (s : Text) → (s == s) ≡ true
unfolding ◌==◌
eq_self [] = refl
eq_self (c ∷ s) = ground (arith, eq_self s)

pub eq_iff : (s t : Text) → ((s == t) ≡ true) ↔ (s ≡ t)
eq_iff s t = (eq_sound s t, λ e. rw e (eq_self t))

-- x in xs
abbrev pub elem : Text → List Text → Bool
elem x xs = any (λ y. x == y) xs

pub elem→In : (x : Text) (xs : List Text) → elem x xs ≡ true → In x xs
elem→In x [] h = absurd (false≢true h)
elem→In x (y ∷ ys) h = ground (arith, eq_iff x y, elem→In x ys)

pub In→elem : (x : Text) (xs : List Text) → In x xs → elem x xs ≡ true
In→elem x [] h = absurd h
In→elem x (y ∷ ys) (inl e) = ground (arith, eq_iff x y)
In→elem x (y ∷ ys) (inr h) = ground (arith, In→elem x ys h)

is_space : ℕ → Bool
is_space c = leb 9 c && leb c 13 || leb 28 c && leb c 32

lower_char : ℕ → ℕ
lower_char c = if leb 65 c && leb c 90 then c + 32 else c

unfoldable pub is_alnum : ℕ → Bool
is_alnum c = leb 48 c && leb c 57 || leb 65 c && leb c 90 || leb 97 c && leb c 122

unfoldable pub lower : Text → Text
unfolding lower_char
lower = map lower_char

upper_char : ℕ → ℕ
upper_char c = if leb 97 c && leb c 122 then c - 32 else c

unfoldable pub upper : Text → Text
unfolding upper_char
upper = map upper_char

skip_space : Text → Text
skip_space [] = []
skip_space (c ∷ s) = let rest = skip_space s in if is_space c then rest else c ∷ s

unfoldable pub strip : Text → Text
unfolding skip_space is_space
strip s = reverse (skip_space (reverse (skip_space s)))

-- text.startswith(prefix)
unfoldable pub starts_with : Text → Text → Bool
starts_with [] text = true
starts_with (c ∷ p) [] = false
starts_with (c ∷ p) (d ∷ text) = nat_eq c d && starts_with p text

-- text.endswith(suffix)
unfoldable pub ends_with : Text → Text → Bool
unfolding starts_with
ends_with suffix text = starts_with (reverse suffix) (reverse text)

-- needle in text
unfoldable pub contains : Text → Text → Bool
unfolding starts_with
contains needle [] = starts_with needle []
contains needle (c ∷ text) = starts_with needle (c ∷ text) || contains needle text

cons_head : ℕ → List Text → List Text
cons_head c [] = (c ∷ []) ∷ []
cons_head c (s ∷ ss) = (c ∷ s) ∷ ss

-- text.split(sep), for a separator of one character
unfoldable pub split_on : ℕ → Text → List Text
unfolding cons_head
split_on sep [] = [] ∷ []
split_on sep (c ∷ text) =
    let rest = split_on sep text in if nat_eq c sep then [] ∷ rest else cons_head c rest

pub starts_with_iff : (p text : Text) → (starts_with p text ≡ true) ↔ ((s : Text) × (text ≡ p ++ s))
unfolding starts_with
starts_with_iff p text = (to p text, from p text)
  where
    to : (p text : Text) → starts_with p text ≡ true → (s : Text) × (text ≡ p ++ s)
    to [] text h = (text, refl)
    to (c ∷ p) [] h = ground arith
    to (c ∷ p) (d ∷ text) h = let (s, e) = to p text (ground arith) in (s, ground arith)

    from : (p text : Text) → (s : Text) × (text ≡ p ++ s) → starts_with p text ≡ true
    from [] text h = refl
    from (c ∷ p) [] h = ground arith
    from (c ∷ p) (d ∷ text) h = ground (arith, from p text)

pub ends_with_iff :
    (suffix text : Text) → (ends_with suffix text ≡ true) ↔ ((s : Text) × (text ≡ s ++ suffix))
unfolding ends_with
ends_with_iff suffix text = (
  λ h.
      let (s, e) = (starts_with_iff (reverse suffix) (reverse text)).0 h in
      (
        reverse s,
        sym (reverse-reverse text)
            ∙ ap reverse e
            ∙ reverse-append (reverse suffix) s
            ∙ ap (λ t. reverse s ++ t) (reverse-reverse suffix),
      ),
  λ (s, e).
      (starts_with_iff (reverse suffix) (reverse text)).1
        (reverse s, ap reverse e ∙ reverse-append s suffix),
)
