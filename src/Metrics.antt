-- ===== src/Metrics.antt =====
-- The status and the recent logs of metrics/metrics.go. A time is a number of nanoseconds, and what
-- time.Now() gives is an argument. A log entry keeps a message of any type in place of its text.
pub mod Logs
use uavlink_edge.Common.{
  Bool, List, [], drop, false, if◌then◌else◌, leb, length, not, true, ℕ, ◌++◌, ◌||◌, ◌∷◌,
}
use Prim.Native.String.{String}
use text.Mathlib.Text.{◌==◌ as str_eq}

pub record LogEntry (Message : Type 0) : Type 0 where
  pub time : ℕ
  pub level : String
  pub message : Message

-- The fields of Metrics that the session client writes. An IP address is its text.
pub record Metrics (Message : Type 0) : Type 0 where
  pub current_ip : List ℕ
  pub auth_status : String
  pub disconnect_reason : String
  pub server_reachable : Bool
  pub last_auth : ℕ
  pub last_refresh_ok : ℕ
  pub session_expires_at : ℕ
  pub refresh_interval : ℕ
  pub recent_logs : List (LogEntry Message)

module _ {Message : Type 0} where
  unfoldable pub set_ip : List ℕ → Metrics Message → Metrics Message
  set_ip ip m = record m { current_ip = ip }

  unfoldable pub set_auth_status : ℕ → String → Metrics Message → Metrics Message
  set_auth_status now status m =
      if str_eq status "Authenticated"
      then record m {
        auth_status = status;
        last_auth = now;
        server_reachable = true;
        disconnect_reason = "";
      }
      else if str_eq status "Disconnected" || str_eq status "Reconnecting"
      then record m { auth_status = status; server_reachable = false }
      else record m { auth_status = status }

  unfoldable pub set_disconnect_reason : String → Metrics Message → Metrics Message
  set_disconnect_reason reason m =
      if not (str_eq reason "")
      then record m { disconnect_reason = reason; server_reachable = false }
      else record m { disconnect_reason = reason }

  unfoldable pub set_last_refresh_ok : ℕ → Metrics Message → Metrics Message
  set_last_refresh_ok t m = record m { last_refresh_ok = t }

  unfoldable pub set_session_info : ℕ → ℕ → Metrics Message → Metrics Message
  set_session_info expires interval m = record m {
    session_expires_at = expires;
    refresh_interval = interval;
  }

  -- The logs, oldest first, with a new entry.
  unfoldable pub push_log : LogEntry Message → List (LogEntry Message) → List (LogEntry Message)
  push_log entry logs = (if leb 100 (length logs) then drop 1 logs else logs) ++ entry ∷ []

  unfoldable pub add_log : ℕ → String → Message → Metrics Message → Metrics Message
  unfolding push_log
  add_log now level message m =
      let entry : LogEntry Message = record { time = now; level = level; message = message } in
      record m { recent_logs = push_log entry m.recent_logs }
