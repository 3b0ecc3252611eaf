-- ===== src/Scopes.antt =====
-- The scope vocabulary (agentic_bus/core/scopes.py): which scope covers which, what is a usable
-- name, how a request is bounded by a ceiling or a grant, and what a coordinator does with names
-- that its catalogue lacks. The value of an environment variable is an argument; none is unset.
pub mod Coverage
pub mod Bounds
pub mod Catalogue
mod Examples
use agentic_bus.Common.{
  ℕ, List, [], ◌∷◌, ◌++◌, Bool, true, false, not, ◌&&◌, ◌||◌, Option, none, some, if◌then◌else◌,
  ltb, nat_eq, Text, codes, length, is_empty, any, all, keep, elem, ◌==◌, lower, strip, starts_with,
  ends_with, split_on, is_alnum,
}

abbrev pub separator : ℕ
separator = b':'

abbrev pub wildcard : Text
wildcard = b'*' ∷ []

-- SEPARATOR + WILDCARD
abbrev pub below_mark : Text
below_mark = b':' ∷ b'*' ∷ []

unfoldable pub normalise : Text → Text
normalise scope = lower (strip scope)

-- scope[: -1]
unfoldable pub drop_last : Text → Text
drop_last [] = []
drop_last (c ∷ s) = let rest = drop_last s in if is_empty s then [] else c ∷ rest

-- The body of `covers` below the two lines that normalise its arguments.
covers_normal : Text → Text → Bool
covers_normal granted requested =
    if is_empty granted || is_empty requested
    then false
    else if granted == requested
    then true
    else if granted == wildcard
    then true
    else if ends_with below_mark granted
    then starts_with (drop_last granted) requested
    else false

unfoldable pub covers : Text → Text → Bool
unfolding covers_normal
covers granted requested = covers_normal (normalise granted) (normalise requested)

unfoldable pub covered_by_any : List Text → Text → Bool
covered_by_any granted requested = any (λ g. covers g requested) granted

-- scope.rsplit(":", 1)[0], for a scope that holds the separator
before_last : Text → Text
before_last [] = []
before_last (c ∷ s) =
    let rest = before_last s in if any (λ d. nat_eq d separator) s then c ∷ rest else []

unfoldable pub parent_of : Text → Text
unfolding before_last
parent_of scope =
    let s = normalise scope in if any (λ d. nat_eq d separator) s then before_last s else []

-- c.isalnum() or c in "-_."
name_char : ℕ → Bool
name_char c = is_alnum c || (nat_eq c b'-' || (nat_eq c b'_' || nat_eq c b'.'))

-- The loop over the segments; the last one is the one with no segment behind it.
segments_ok : List Text → Bool
segments_ok [] = true
segments_ok (segment ∷ rest) =
    let later = segments_ok rest in
    if is_empty segment
    then false
    else if segment == wildcard
    then (if is_empty rest then later else false)
    else if all name_char segment
    then later
    else false

unfoldable pub is_well_formed : Text → Bool
unfolding segments_ok name_char
is_well_formed scope =
    let s = normalise scope in
    if is_empty s || ltb 128 (length s)
    then false
    else if s == wildcard
    then true
    else segments_ok (split_on separator s)

abbrev truthy_words : List Text
truthy_words = codes "true" ∷ codes "1" ∷ codes "yes" ∷ codes "on" ∷ []

unfoldable pub env_flag : Option Text → Bool → Bool
env_flag none default = default
env_flag (some raw) default = elem (lower (strip raw)) truthy_words

unfoldable pub narrow : List Text → List Text → List Text
narrow requested ceiling =
    if is_empty ceiling then requested else keep (λ s. covered_by_any ceiling s) requested

unfoldable pub intersect : List Text → List Text → List Text
intersect requested granted =
    if is_empty granted then [] else keep (λ s. covered_by_any granted s) requested

-- Of its own in the source, with the body of `_env_flag` over AGBUS_SCOPE_ENFORCED.
unfoldable pub scope_enforcement_enabled : Option Text → Bool → Bool
scope_enforcement_enabled none default = default
scope_enforcement_enabled (some raw) default = elem (lower (strip raw)) truthy_words

pub record ScopeDecision : Type 0 where
  pub recognised : List Text
  pub unrecognised : List Text
  pub catalogued : List Text
  pub malformed : List Text

abbrev no_decision : ScopeDecision
no_decision = record { recognised = []; unrecognised = []; catalogued = []; malformed = [] }

pub record ScopePolicy : Type 0 where
  pub enforced : Bool

-- ScopePolicy(enforced), with the value of AGBUS_SCOPE_CATALOGUE_ENFORCED
unfoldable pub scope_policy : Option Bool → Option Text → ScopePolicy
scope_policy none env = record { enforced = env_flag env false }
scope_policy (some enforced) env = record { enforced = enforced }

abbrev pub auto_catalogues : ScopePolicy → Bool
auto_catalogues p = not p.enforced

-- One round of the loop for a scope not seen before.
file_scope : ScopePolicy → List Text → Text → Text → ScopeDecision → ScopeDecision
file_scope p catalogue raw scope d =
    if not (is_well_formed scope)
    then record d { malformed = d.malformed ++ raw ∷ [] }
    else if covered_by_any catalogue scope
    then record d { recognised = d.recognised ++ scope ∷ [] }
    else if auto_catalogues p
    then record d {
      catalogued = d.catalogued ++ scope ∷ [];
      recognised = d.recognised ++ scope ∷ [];
    }
    else record d { unrecognised = d.unrecognised ++ scope ∷ [] }

-- The loop over the declared names, with `seen` and `decision`.
resolve_from : ScopePolicy → List Text → List Text → List Text → ScopeDecision → ScopeDecision
resolve_from p catalogue [] seen d = d
resolve_from p catalogue (raw ∷ declared) seen d =
    let scope = normalise raw in
    let skipped = resolve_from p catalogue declared seen d in
    let filed =
      resolve_from p catalogue declared (scope ∷ seen) (file_scope p catalogue raw scope d) in
    if elem scope seen then skipped else filed

unfoldable pub resolve : ScopePolicy → List Text → List Text → ScopeDecision
unfolding resolve_from file_scope
resolve p declared catalogue = resolve_from p catalogue declared [] no_decision
