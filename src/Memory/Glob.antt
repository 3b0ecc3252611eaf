-- ===== src/Memory/Glob.antt =====
-- `_matches_pattern` and `_glob_to_regex`: the regular expression that they build is the pattern's
-- characters, each for itself, with `.*` for each `*`, between `^` and `$`. So a star stands for
-- any characters but newlines, and `$` also holds before a newline that ends the key.
use agentic_bus.Common.{
  ℕ, [], ◌∷◌, Bool, false, not, ◌&&◌, ◌||◌, Option, none, some, if◌then◌else◌, nat_eq, Text,
  is_empty, reverse,
}

abbrev pub star : ℕ
star = b'*'

abbrev pub newline : ℕ
newline = 10

-- `.*` before what `rest` matches
unfoldable pub match_star : (Text → Bool) → Text → Bool
match_star rest [] = rest []
match_star rest (c ∷ s) = rest (c ∷ s) || (not (nat_eq c newline) && match_star rest s)

unfoldable pub match_char : (Text → Bool) → ℕ → Text → Bool
match_char rest p [] = false
match_char rest p (c ∷ s) = nat_eq p c && rest s

-- The whole text is matched.
unfoldable pub match_all : Text → Text → Bool
unfolding match_star match_char
match_all [] s = is_empty s
match_all (p ∷ ps) s =
    let rest = match_all ps in if nat_eq p star then match_star rest s else match_char rest p s

unfoldable pub drop_newline : Text → Option Text
drop_newline [] = none
drop_newline (c ∷ r) = if nat_eq c newline then some (reverse r) else none

-- The text before a newline that ends it.
unfoldable pub before_newline : Text → Option Text
unfolding drop_newline
before_newline s = drop_newline (reverse s)

abbrev pub match_before : Text → Option Text → Bool
match_before pattern none = false
match_before pattern (some s) = match_all pattern s

unfoldable pub matches_pattern : Text → Text → Bool
unfolding match_all before_newline
matches_pattern key pattern = match_all pattern key || match_before pattern (before_newline key)
