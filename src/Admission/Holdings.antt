-- ===== src/Admission/Holdings.antt =====
-- What scopes a registering agent is told that it holds: `_resolve_scopes` of agentic_bus/coordinator/runtime.py, with
-- `add_scope` and `record_request` of agentic_bus/core/persistence/scope_repository.py. The bindings that an administrator
-- authored are a parameter, as for dispatch; what is written is taken to be stored. Logs are left out.
use agentic_bus.Common.{
  ℕ, suc, List, [], ◌∷◌, ◌++◌, Bool, true, false, Option, none, some, if◌then◌else◌, Text, eq_iff,
  elem, is_empty, Dict, lookup, insert, In, In-append_left, In-append_right, In-append_cases, ◌≡◌,
  ◌↔◌, ◌⊎◌, inl, inr, refl, subst, arith,
}
use agentic_bus.Scopes.{ScopePolicy, normalise, is_well_formed, resolve}
use agentic_bus.Ibac.Combination.{insert_text, sorted_set}
use agentic_bus.Authority.{Bindings}
use agentic_bus.Registry.{AgentCapability, AgentRegistration}

-- The catalogue, and how often each agent asked for a name outside of it.
pub record ScopeBook : Type 0 where
  pub names : List Text
  pub requests : Dict (Dict ℕ)

abbrev pub catalogue : ScopeBook → List Text
catalogue book = sorted_set book.names

-- A malformed name is refused with a ValueError, which the caller drops.
unfoldable pub add_scope : Text → ScopeBook → ScopeBook
add_scope name book =
    let scope = normalise name in
    if is_well_formed scope
    then (if elem scope book.names then book else record book { names = book.names ++ scope ∷ [] })
    else book

abbrev pub asked_again : Option ℕ → ℕ
asked_again none = 1
asked_again (some n) = suc n

abbrev pub dict_or_empty : Option (Dict ℕ) → Dict ℕ
dict_or_empty none = []
dict_or_empty (some d) = d

unfoldable pub record_request : (agent_id : Text) → Text → ScopeBook → ScopeBook
record_request agent_id name book =
    let scope = normalise name in
    let asked = dict_or_empty (lookup agent_id book.requests) in
    record book {
      requests =
          insert agent_id (insert scope (asked_again (lookup scope asked)) asked) book.requests;
    }

unfoldable pub add_scopes : List Text → ScopeBook → ScopeBook
unfolding add_scope
add_scopes [] book = book
add_scopes (s ∷ ss) book = add_scopes ss (add_scope s book)

unfoldable pub record_requests : (agent_id : Text) → List Text → ScopeBook → ScopeBook
unfolding record_request
record_requests agent_id [] book = book
record_requests agent_id (s ∷ ss) book =
    record_requests agent_id ss (record_request agent_id s book)

unfoldable pub requested_by : List AgentCapability → List Text
requested_by [] = []
requested_by (c ∷ cs) = c.required_scopes ++ requested_by cs

abbrev pub bound_or_nothing : Option (List Text) → List Text
bound_or_nothing none = []
bound_or_nothing (some scopes) = scopes

unfoldable pub granted_to : Bindings → (agent_id : Text) → List AgentCapability → List Text
granted_to bindings agent_id [] = []
granted_to bindings agent_id (c ∷ cs) =
    bound_or_nothing (bindings agent_id c.capability_id) ++ granted_to bindings agent_id cs

pub record ScopesAnswer : Type 0 where
  pub granted : List Text
  pub unrecognised : List Text
  pub catalogue_shown : List Text

-- `readable` tells whether the catalogue can be read.
unfoldable pub resolve_scopes :
    (readable : Bool)
    → ScopePolicy
    → Bindings
    → AgentRegistration
    → ScopeBook
    → ScopesAnswer × ScopeBook
unfolding resolve sorted_set add_scopes record_requests requested_by granted_to
resolve_scopes readable policy bindings reg book =
    let decision =
      resolve policy (reg.required_scopes ++ requested_by reg.capabilities) (catalogue book) in
    let stored =
      record_requests reg.agent_id decision.unrecognised (add_scopes decision.catalogued book) in
    let answer : ScopesAnswer = record {
      granted = sorted_set (granted_to bindings reg.agent_id reg.capabilities);
      unrecognised = decision.unrecognised;
      catalogue_shown = if is_empty decision.unrecognised then [] else catalogue stored;
    } in
    if readable
    then (answer, stored)
    else (record { granted = []; unrecognised = []; catalogue_shown = [] }, book)

In-insert_text : (s t : Text) (ts : List Text) → In s (insert_text t ts) ↔ ((s ≡ t) ⊎ In s ts)
unfolding insert_text
In-insert_text s t [] = (λ h. h, λ h. h)
In-insert_text s t (u ∷ ts) = ground (arith, eq_iff t u, In-insert_text s t ts)

In-sorted_set : (s : Text) (ts : List Text) → In s (sorted_set ts) ↔ In s ts
unfolding sorted_set
In-sorted_set s [] = (λ h. h, λ h. h)
In-sorted_set s (t ∷ ts) = ground (arith, In-insert_text s t (sorted_set ts), In-sorted_set s ts)

-- An administrator bound the scope to one of these capabilities of the agent.
abbrev pub IsBoundTo : Bindings → Text → List AgentCapability → Text → Type 0
IsBoundTo bindings agent_id capabilities s =
    (c : AgentCapability) × In c capabilities
    × In s (bound_or_nothing (bindings agent_id c.capability_id))

granted_to_iff :
    (bindings : Bindings) (agent_id s : Text) (cs : List AgentCapability)
    → In s (granted_to bindings agent_id cs) ↔ IsBoundTo bindings agent_id cs s
unfolding granted_to
granted_to_iff bindings agent_id s [] = (λ h. absurd h, λ (c, m, h). absurd m)
granted_to_iff bindings agent_id s (c ∷ cs) =
    let (there, back) = granted_to_iff bindings agent_id s cs in
    let own = bound_or_nothing (bindings agent_id c.capability_id) in
    (
      λ h. elim (In-append_cases s own (granted_to bindings agent_id cs) h) [
        | inl m ↦ (c, inl refl, m)
        | inr m ↦ let (d, listed, held) = there m in (d, inr listed, held)
      ],
      λ (d, listed, held). elim listed [
        | inl same ↦
            In-append_left s own (granted_to bindings agent_id cs)
              (subst (λ q. In s (bound_or_nothing (bindings agent_id q.capability_id))) same held)
        | inr m ↦ In-append_right s own (granted_to bindings agent_id cs) (back (d, m, held))
      ],
    )

-- A registering agent is told that it holds a scope exactly where the catalogue can be read and an
-- administrator bound the scope to one of the capabilities that it registers, whatever scopes it
-- declares, whatever the catalogue holds and whether the policy enforces it.
pub resolve_scopes-granted_iff :
    (readable : Bool) (policy : ScopePolicy) (bindings : Bindings) (reg : AgentRegistration)
    (book : ScopeBook) (s : Text)
    → In s (resolve_scopes readable policy bindings reg book).0.granted
      ↔ ((readable ≡ true) × IsBoundTo bindings reg.agent_id reg.capabilities s)
unfolding resolve_scopes
resolve_scopes-granted_iff false policy bindings reg book s = (λ h. absurd h, λ (e, h). cc)
resolve_scopes-granted_iff true policy bindings reg book s =
    let (out, into) = In-sorted_set s (granted_to bindings reg.agent_id reg.capabilities) in
    let (bound, held) = granted_to_iff bindings reg.agent_id s reg.capabilities in
    (λ h. (refl, bound (out h)), λ (e, h). into (held h))
