-- ===== src/Ibac/Capability.antt =====
-- Capabilities (agentic_bus/core/ibac/capability.py). Time is in microseconds and read once per
-- call; how a time is written and read as text is given.
pub mod Checks
pub mod Tally
mod Examples
use agentic_bus.Common.{
  ℕ, ◌+◌, ◌*◌, List, [], ◌∷◌, Bool, true, false, not, ◌&&◌, ◌||◌, ◌≡◌, ◌≢◌, Option, none, some,
  if◌then◌else◌, leb, Text, codes, elem, is_empty, Dict, lookup, Json, bool,
}

-- datetime.isoformat and datetime.fromisoformat: what is written is read back, and is not empty.
pub record IsoTime : Type 0 where
  pub isoformat : ℕ → Text
  pub fromisoformat : Text → Option ℕ
  pub round_trip : (t : ℕ) → fromisoformat (isoformat t) ≡ some t
  pub not_empty : (t : ℕ) → isoformat t ≢ []

abbrev pub default_ttl_seconds : ℕ
default_ttl_seconds = 3600

abbrev pub microseconds : ℕ
microseconds = 1000000

pub record Capability : Type 0 where
  pub capability_id : Text
  pub session_id : Text
  pub principals : List Text
  pub purpose : Text
  pub resources : List Text
  pub actions : List Text
  pub scopes : List Text
  pub constraints : Dict Json
  pub issued_at : Text
  pub expires_at : Text

-- Why an operation was refused; the message names the capability, which is at hand.
pub data CapabilityViolation : Type 0 where
  expired : CapabilityViolation
  principal_refused scope_refused : Text → CapabilityViolation

-- What `issue` is called with.
pub record Grant : Type 0 where
  pub session_id : Text
  pub principals : List Text
  pub purpose : Text
  pub scopes : List Text
  pub resources : List Text
  pub actions : List Text
  pub constraints : Dict Json
  pub ttl_seconds : ℕ

module _ (iso : IsoTime) where
  -- `fresh_id` is the generated identifier, `now` the time of the call.
  unfoldable pub issue : Text → ℕ → Grant → Capability
  issue fresh_id now g = record {
    capability_id = fresh_id;
    session_id = g.session_id;
    principals = g.principals;
    purpose = g.purpose;
    resources = g.resources;
    actions = g.actions;
    scopes = g.scopes;
    constraints = g.constraints;
    issued_at = iso.isoformat now;
    expires_at = iso.isoformat (now + g.ttl_seconds * microseconds);
  }

  abbrev pub passed : ℕ → Option ℕ → Bool
  passed now none = true
  passed now (some expiry) = leb expiry now

  -- An expiry that cannot be read counts as passed.
  unfoldable pub is_expired : Capability → ℕ → Bool
  is_expired c now =
      if is_empty c.expires_at then false else passed now (iso.fromisoformat c.expires_at)

  unfoldable pub permits_principal : Capability → Text → Bool
  permits_principal c principal = is_empty c.principals || elem principal c.principals

  unfoldable pub permits_scope : Capability → Text → Bool
  permits_scope c scope = is_empty c.scopes || elem scope c.scopes

  -- The loop over the scopes.
  check_scopes : Capability → List Text → Option CapabilityViolation
  check_scopes c [] = none
  check_scopes c (s ∷ ss) =
      let rest = check_scopes c ss in
      if not (permits_scope c s) then some (scope_refused s) else rest

  -- The first violation.
  unfoldable pub check : Capability → Text → List Text → ℕ → Option CapabilityViolation
  unfolding check_scopes
  check c principal scopes now =
      if is_expired c now
      then some expired
      else if not (is_empty principal) && not (permits_principal c principal)
      then some (principal_refused principal)
      else check_scopes c scopes

  abbrev pub is_false : Option Json → Bool
  is_false (some (bool false)) = true
  is_false _ = false

  unfoldable pub forbids_external_disclosure : Capability → Bool
  forbids_external_disclosure c = is_false (lookup (codes "external_disclosure") c.constraints)
