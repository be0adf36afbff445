-- ===== src/Session/World.antt =====
-- The state of auth/client.go, what lies outside of it, and calls that end in a value, an error or a
-- run-time panic. Errors are constructors in place of their texts.
--
-- The network, the clock, the secret file and the cryptographic functions are outside. Each
-- interaction has a number, the `tick`, and `Outside` says how an interaction of that number goes,
-- so a theorem for every `Outside` is one for every behaviour of the network and the clock. A
-- connection is known by the tick at which it was dialled.
use uavlink_edge.Common.{Bool, List, Option, false, true, ℕ}
use Prim.Native.String.{String}
use uavlink_edge.Metrics.{Metrics}
use uavlink_edge.Wire.Bytes.{Bytes}
use uavlink_edge.Wire.Cursor.{ParseError}

pub data DisconnectCause : Type 0 where
  disconnect_none disconnect_network disconnect_session_invalid disconnect_auth_failed
        disconnect_server_transient :
      DisconnectCause

abbrev pub cause_text : DisconnectCause → String
cause_text disconnect_none = ""
cause_text disconnect_network = "network_error"
cause_text disconnect_session_invalid = "session_invalid"
cause_text disconnect_auth_failed = "auth_failed"
cause_text disconnect_server_transient = "server_transient"

abbrev pub is_network : DisconnectCause → Bool
is_network disconnect_network = true
is_network _ = false

-- The fields of Client that its methods read or write; a callback is present or not. stopped and
-- vpn_ready say that the channels stopCh and vpnReadyCh are closed.
pub record Client : Type 0 where
  pub drone_uuid : Bytes
  pub shared_secret : Bytes
  pub secret : Bytes
  pub session_token : Bytes
  pub expires_at : ℕ
  pub refresh_interval : ℕ
  pub conn : Option ℕ
  pub running : Bool
  pub stopped : Bool
  pub reconnect_interval : ℕ
  pub next_reconnect_at : ℕ
  pub server_reachable : Bool
  pub ever_connected : Bool
  pub disconnect_cause : DisconnectCause
  pub last_refresh_ok : ℕ
  pub previous_local_ip : Bytes
  pub last_ip_change_time : ℕ
  pub ip_change_threshold : ℕ
  pub vehicle_type : ℕ
  pub model : Bytes
  pub on_network_error : Bool
  pub on_disconnect_cause : Bool
  pub on_session_restored : Bool
  pub vpn_manager : Bool
  pub vpn_public_key : Bytes
  pub vpn_ready : Bool

-- The messages that the client logs in the metrics.
pub data LogMessage : Type 0 where
  server_disconnected : DisconnectCause → LogMessage
  authentication_successful : Bytes → LogMessage
  local_ip_changed : Bytes → Bytes → LogMessage
  api_key_generated api_key_revoked api_key_deleted : LogMessage

-- A callback that was started.
pub data Callback : Type 0 where
  session_restored network_error : Callback
  disconnect_caused : DisconnectCause → Callback

-- The connections that were opened and closed and the packets that were written are kept in lists,
-- the latest first.
pub record World : Type 0 where
  pub client : Client
  pub metrics : Metrics LogMessage
  pub tick : ℕ
  pub opened : List ℕ
  pub closed : List ℕ
  pub written : List (ℕ × Bytes)
  pub callbacks : List Callback

pub record Outside : Type 0 where
  -- time.Now(), in nanoseconds since the zero time.
  pub now_at : ℕ → ℕ
  -- Whether dialling succeeds, and the local address of a connection if it has one.
  pub dial_at : ℕ → Bool
  pub local_ip : ℕ → Option Bytes
  -- Whether a write succeeds, and what a read returns.
  pub write_at : ℕ → Bool
  pub read_at : ℕ → Option Bytes
  -- LoadSecret and SaveSecret.
  pub load_secret_at : ℕ → Option (Bytes × Bytes)
  pub save_secret_at : ℕ → Bool
  -- LoadOrGenerateKeyPair and SaveProvisionedConfig of the VPN manager.
  pub key_pair_at : ℕ → Option (Bytes × Bytes)
  pub save_config_at : ℕ → Bool
  -- DRONEBRIDGE_AUTH_FORCE_FRESH_CONN
  pub auth_force_fresh_conn : Bool
  -- The crypto and encoding packages of Go, and %d of fmt.
  pub sha256 : Bytes → Bytes
  pub hmac_sha256 : Bytes → Bytes → Bytes
  pub encode_hex : Bytes → Bytes
  pub decimal : ℕ → Bytes

pub data RefreshMessage : Type 0 where
  no_session_token reconnect_failed send_failed receive_failed parse_failed : RefreshMessage
  refresh_rejected recovery_failed : RefreshMessage

-- The errors of the methods; the last is a *RefreshError with its code.
pub data Failure : Type 0 where
  secret_missing connection_failed write_failed read_failed no_token refresh_skipped : Failure
  no_session not_running not_connected no_active_session timed_out shared_secret_required : Failure
  save_failed no_vpn_manager no_key_pair : Failure
  bad_packet : ParseError → Failure
  rejected : ℕ → Failure
  refresh_error : RefreshMessage → ℕ → Failure
