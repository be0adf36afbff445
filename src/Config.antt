-- ===== src/Config.antt =====
-- Load, Validate and normalizeCameraConfig of config/config.go, from the decoded file on. A float is
-- not modelled: the frequencies, the threshold and the coordinates are left out.
pub mod Laws
pub mod Loading
use uavlink_edge.Common.{
  Bool, List, Option, [], false, if◌then◌else◌, length, ltb, none, not, some, true, zero, ℕ, ◌==◌,
  ◌||◌, ◌∷◌,
}
use Prim.Native.String.{String}
use text.Mathlib.Text.{◌==◌ as str_eq}

-- An int of the source.
pub data ℤ : Type 0 where
  pos negsuc : ℕ → ℤ

abbrev pub is_positive : ℤ → Bool
is_positive (pos n) = ltb 0 n
is_positive (negsuc n) = false

abbrev pub is_negative : ℤ → Bool
is_negative (pos n) = false
is_negative (negsuc n) = true

-- p <= 0 || p > 65535
abbrev pub no_port : ℤ → Bool
no_port (pos n) = n == 0 || ltb 65535 n
no_port (negsuc n) = true

abbrev pub is_empty : String → Bool
is_empty s = str_eq s ""

pub record Stream : Type 0 where
  pub detect_frame_skip : ℤ
  pub overlay_frame_skip : ℤ
  pub gate_timeout_ms : ℤ
  pub lores_size : List ℤ

-- The fields that Load reads or sets; of auth.model its length in bytes, and of the maps of a modem
-- whether they are there; negative_heartbeat says that auth.session_heartbeat_frequency is below 0.
pub record Config : Type 0 where
  pub log_level : String
  pub show_packet_stats : Bool
  pub auth_enabled : Bool
  pub auth_host : String
  pub auth_port : ℤ
  pub keepalive_interval : ℤ
  pub negative_heartbeat : Bool
  pub model_length : ℕ
  pub local_listen_port : ℤ
  pub target_host : String
  pub target_port : ℤ
  pub web_port : ℤ
  pub subnet : String
  pub pixhawk_connection_timeout : ℤ
  pub cellular_driver : String
  pub cellular_iface : String
  pub sim7600 : Bool
  pub sim8262 : Bool
  pub vpn_config_file : String
  pub vpn_port : ℤ
  pub router_vpn_ip : String
  pub streams : List Stream

pub data Invalid : Type 0 where
  no_auth_host bad_auth_port bad_keepalive bad_heartbeat long_model bad_listen_port : Invalid
  no_target_host bad_target_port bad_web_port : Invalid

pub data LoadError : Type 0 where
  unreadable : LoadError
  invalid : Invalid → LoadError

abbrev pub or_default : String → String → String
or_default s default = if is_empty s then default else s

-- The part of Load between the decoding and Validate; `omitted` says that the file has no
-- log.show_packet_stats.
unfoldable pub set_defaults : Bool → Config → Config
set_defaults omitted cfg = record cfg {
  show_packet_stats = if omitted then true else cfg.show_packet_stats;
  log_level = or_default cfg.log_level "info";
  subnet = or_default cfg.subnet "24";
  pixhawk_connection_timeout =
      if is_positive cfg.pixhawk_connection_timeout then cfg.pixhawk_connection_timeout else pos 30;
  cellular_driver = or_default cfg.cellular_driver "sim7600_qmi";
  cellular_iface = or_default cfg.cellular_iface "wwan0";
  sim7600 = true;
  sim8262 = true;
  vpn_config_file = or_default cfg.vpn_config_file "vpn_config.json";
  vpn_port = elim cfg.vpn_port [ pos zero ↦ pos 14550 | p ↦ p ];
  router_vpn_ip = or_default cfg.router_vpn_ip "10.8.0.1";
}

-- The tests of Validate that are made when auth is enabled.
unfoldable pub validate_auth : Config → Option Invalid
validate_auth c =
    if is_empty c.auth_host
    then some no_auth_host
    else if no_port c.auth_port
    then some bad_auth_port
    else if not (is_positive c.keepalive_interval)
    then some bad_keepalive
    else if c.negative_heartbeat
    then some bad_heartbeat
    else if ltb 32 c.model_length
    then some long_model
    else none

unfoldable pub validate_network : Config → Option Invalid
validate_network c =
    if no_port c.local_listen_port
    then some bad_listen_port
    else if is_empty c.target_host
    then some no_target_host
    else if no_port c.target_port
    then some bad_target_port
    else if no_port c.web_port
    then some bad_web_port
    else none

-- The first error, if there is one.
abbrev pub first_error : Option Invalid → Option Invalid → Option Invalid
first_error none later = later
first_error (some e) later = some e

unfoldable pub validate : Config → Option Invalid
validate c = first_error (if c.auth_enabled then validate_auth c else none) (validate_network c)

unfoldable pub normalize_stream : Stream → Stream
normalize_stream s = record {
  detect_frame_skip = if is_positive s.detect_frame_skip then s.detect_frame_skip else pos 3;
  overlay_frame_skip = if is_positive s.overlay_frame_skip then s.overlay_frame_skip else pos 5;
  gate_timeout_ms = if is_negative s.gate_timeout_ms then pos 0 else s.gate_timeout_ms;
  lores_size = if ltb (length s.lores_size) 2 then pos 320 ∷ pos 240 ∷ [] else s.lores_size;
}

abbrev pub normalize_all : List Stream → List Stream
normalize_all [] = []
normalize_all (s ∷ streams) = normalize_stream s ∷ normalize_all streams

unfoldable pub normalize_camera_config : Config → Config
normalize_camera_config cfg = record cfg { streams = normalize_all cfg.streams }

pub data Loaded : Type 0 where
  loaded : Config → Loaded
  refused : LoadError → Loaded

abbrev pub unless_invalid : Option Invalid → Config → Loaded
unless_invalid none cfg = loaded (normalize_camera_config cfg)
unless_invalid (some e) cfg = refused (invalid e)

-- Load, where the file may be unreadable or not decode.
unfoldable pub load : Bool → Option Config → Loaded
load omitted none = refused unreadable
load omitted (some file) = let cfg = set_defaults omitted file in unless_invalid (validate cfg) cfg
