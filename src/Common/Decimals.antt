-- ===== src/Common/Decimals.antt =====
-- The decimal texts of natural numbers: `str(n)`, `text.isdigit()` and `int(text)` for ASCII digits.
use Prim.Native.Nat.{ℕ, zero, suc, ◌+◌, ◌-◌, ◌*◌, ◌/◌, ◌%◌, ◌<◌}
use mathlib.Core.Path.{◌≡◌, refl, sym, ap, ◌∙◌}
use mathlib.Core.Logic.{inl, inr}
use native.Mathlib.Omega.{arith}
use mathlib.Core.Bool.{Bool, false, ◌&&◌}
use mathlib.Core.List.{[], ◌∷◌, ◌++◌}
use agentic_bus.Common.Tests.{leb, ltb, if◌then◌else◌, Bool-cases}
use agentic_bus.Common.Lists.{all}
use agentic_bus.Common.Strings.{Text}

-- The digits of n in front of `rest`; n digits are more than enough.
abbrev digits_from : (fuel : ℕ) → ℕ → Text → Text
digits_from zero n rest = rest
digits_from (suc fuel) n rest =
    let more = digits_from fuel (n / 10) ((48 + n % 10) ∷ rest) in
    if ltb n 10 then (48 + n) ∷ rest else more

-- str(n)
unfoldable pub decimal : ℕ → Text
decimal n = digits_from (suc n) n []

abbrev pub is_digit : ℕ → Bool
is_digit c = leb 48 c && leb c 57

-- text.isdigit()
unfoldable pub all_digits : Text → Bool
all_digits [] = false
all_digits (c ∷ s) = all is_digit (c ∷ s)

abbrev read_from : ℕ → Text → ℕ
read_from n [] = n
read_from n (c ∷ s) = read_from (10 * n + (c - 48)) s

-- int(text), for a text of digits
unfoldable pub int_of : Text → ℕ
int_of s = read_from 0 s

-- The number that the leading digits of a text add to what was read before them.
abbrev read_digits : ℕ → Text → ℕ
read_digits n [] = n
read_digits n (c ∷ s) = if is_digit c then read_digits (10 * n + (c - 48)) s else n

digits_from-append :
    (fuel n : ℕ) (rest t : Text) → digits_from fuel n rest ++ t ≡ digits_from fuel n (rest ++ t)
digits_from-append zero n rest t = refl
digits_from-append (suc fuel) n rest t = elim (Bool-cases (ltb n 10)) [
  | inl e ↦ rw e refl
  | inr e ↦ rw e (digits_from-append fuel (n / 10) ((48 + n % 10) ∷ rest) t)
]

read_digits-digits_from :
    (fuel n : ℕ) (rest : Text)
    → n < fuel
    → read_digits 0 (digits_from fuel n rest) ≡ read_digits n rest
read_digits-digits_from zero n rest h = absurd (ground (arith, h))
read_digits-digits_from (suc fuel) n rest h = elim (Bool-cases (ltb n 10)) [
  | inl e ↦ rw e (ground (arith, e))
  | inr e ↦ rw e (
      read_digits-digits_from fuel (n / 10) ((48 + n % 10) ∷ rest) (ground (arith, e))
      ∙ ground arith)
]

-- Two texts that begin with the digits of a number and go on with the same other character begin with
-- the same number.
pub decimal-injective :
    (c : ℕ) (i j : ℕ) (s t : Text)
    → is_digit c ≡ false
    → decimal i ++ c ∷ s ≡ decimal j ++ c ∷ t
    → i ≡ j
unfolding decimal
decimal-injective c i j s t f e = sym (value i s) ∙ ap (read_digits 0) e ∙ value j t
  where
    value : (n : ℕ) (u : Text) → read_digits 0 (digits_from (suc n) n [] ++ c ∷ u) ≡ n
    value n u =
        ap (read_digits 0) (digits_from-append (suc n) n [] (c ∷ u))
        ∙ read_digits-digits_from (suc n) n (c ∷ u) (omega arith)
        ∙ rw f refl
