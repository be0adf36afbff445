-- ===== src/Session/Consistent.antt =====
-- What every call of auth/client.go keeps, whatever the network answers and however it ends: the
-- status that the metrics show is that of the client, and every connection is closed or in use.
pub mod Parts
pub mod Interactions
pub mod Methods
pub mod Recoveries
pub mod Runs
use uavlink_edge.Common.{All, Bool, length, some, true, ℕ, ◌≡◌, ◌≤◌, ◌⊎◌}
use Prim.Native.String.{String}
use uavlink_edge.Forward.History.Laws.{elem}
use uavlink_edge.Session.World.{DisconnectCause, World, cause_text, disconnect_none}

-- What the client and the metrics say of the connection to the server.
pub record Status : Type 0 where
  pub shown_reachable : Bool
  pub shown_reason : String
  pub shown_status : String
  pub reachable : Bool
  pub cause : DisconnectCause
  pub ever : Bool

abbrev pub status_of : World → Status
status_of w = record {
  shown_reachable = w.metrics.server_reachable;
  shown_reason = w.metrics.disconnect_reason;
  shown_status = w.metrics.auth_status;
  reachable = w.client.server_reachable;
  cause = w.client.disconnect_cause;
  ever = w.client.ever_connected;
}

pub record IsCoherent (s : Status) : Type 0 where
  pub shown : s.shown_reachable ≡ s.reachable
  pub reason : s.shown_reason ≡ cause_text s.cause
  pub live :
      s.reachable ≡ true
      → (s.cause ≡ disconnect_none) × (s.ever ≡ true) × (s.shown_status ≡ "Authenticated")

-- A connection that was opened is closed, or it is the one that the client has.
abbrev pub IsDisposed : World → ℕ → Type 0
IsDisposed w n = (elem n w.closed ≡ true) ⊎ (w.client.conn ≡ some n)

pub record IsConsistent (w : World) : Type 0 where
  pub coherent : IsCoherent (status_of w)
  pub disposed : All (IsDisposed w) w.opened
  pub few_logs : length w.metrics.recent_logs ≤ 100
