-- ===== src/Negotiation/Reachability.antt =====
-- The sessions that messages about a plan lead to: agentic_bus/coordinator/runtime.py.
use agentic_bus.Common.{[], Bool, ◌≡◌, ◌≢◌}
use agentic_bus.Sessions.{awaiting_approval, SessionState}
use agentic_bus.Negotiation.Convergence.{Engine}
use agentic_bus.Negotiation.Approval.{Directory, Event, offers, handle}

module _ {W : Type 0} (engine : Engine W) (directory : Directory W) where
  -- The sessions that messages lead to, from one that has neither offers nor a plan that waits for
  -- approval. Each message comes in a world of its own, so that anything may happen in between.
  pub data Reaches : SessionState → Type 0 where
    opened : {s : SessionState} → s.offers ≡ [] → s.phase ≢ awaiting_approval → Reaches s
    handled :
        {s : SessionState}
        → Reaches s
        → (event : Event) (world : W) → Reaches (handle engine directory event s world).session
