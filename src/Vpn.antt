-- ===== src/Vpn.antt =====
-- Manager of vpn/manager.go. WireGuard, the file system, JSON and the parsers of keys and addresses
-- are outside: each call of them has a number, the `tick`, and VpnOutcomes says how it goes. The file
-- of the configuration is a field of the state: what is written is read back, and left_at says what
-- a write that fails leaves. A device is known by the tick at which it was created; the tunnel is
-- created with it. The text that IpcSet takes, the time in the configuration, which nothing reads,
-- and the connections over the tunnel are not modelled.
pub mod Laws
use uavlink_edge.Common.{
  Bool, List, Option, [], false, if◌then◌else◌, none, not, some, true, ℕ, ◌&&◌, ◌+◌, ◌∷◌,
}
use Prim.Native.String.{String}
use uavlink_edge.Forward.Monitor.{before_slash, is_blank}
use uavlink_edge.Forward.Nodes.{close_old}
use uavlink_edge.Forward.Uplink.{VpnStatus}
use uavlink_edge.Link.Arbiter.{is_some}

pub record VpnConfig : Type 0 where
  pub config_ip : String
  pub private_key : String
  pub public_key : String
  pub server_pub_key : String
  pub server_endpoint : String

pub record VpnOutcomes : Type 0 where
  pub parse_addr : String → Bool
  pub parse_key : String → Bool
  pub tun_at : ℕ → Bool
  pub ipc_at : ℕ → Bool
  pub up_at : ℕ → Bool
  pub write_at : ℕ → Bool
  pub left_at : ℕ → Option VpnConfig
  pub generate_at : ℕ → Option (String × String)

pub record VpnManager : Type 0 where
  pub vpn_config : Option VpnConfig
  pub config_file : Option VpnConfig
  pub vpn_tun : Option ℕ
  pub vpn_dev : Option ℕ
  pub vpn_running : Bool
  pub vpn_tick : ℕ
  pub devices_opened : List ℕ
  pub devices_closed : List ℕ

-- NewManager, with what its file holds.
abbrev pub new_manager : Option VpnConfig → VpnManager
new_manager on_file = record {
  vpn_config = none;
  config_file = on_file;
  vpn_tun = none;
  vpn_dev = none;
  vpn_running = false;
  vpn_tick = 0;
  devices_opened = [];
  devices_closed = [];
}

-- The errors of the methods, in place of their texts.
pub data VpnFailure : Type 0 where
  no_config bad_address no_tun bad_private_key bad_server_key not_configured not_up : VpnFailure

-- An AssignedIP that is given, without its mask.
abbrev pub given_ip : Option VpnConfig → Option String
given_ip none = none
given_ip (some cfg) = if is_blank cfg.config_ip then none else some (before_slash cfg.config_ip)

abbrev pub first_ip : Option String → Option String → String
first_ip (some ip) o = ip
first_ip none (some ip) = ip
first_ip none none = ""

unfoldable pub vpn_assigned_ip : VpnManager → String
vpn_assigned_ip m = first_ip (given_ip m.vpn_config) (given_ip m.config_file)

unfoldable pub vpn_status : VpnManager → VpnStatus
vpn_status m = record { is_running = m.vpn_running; assigned_ip = vpn_assigned_ip m }

unfoldable pub vpn_stop : VpnManager → VpnManager
vpn_stop m = record m {
  devices_closed = close_old m.vpn_dev m.devices_closed;
  vpn_dev = none;
  vpn_tun = none;
  vpn_running = false;
}

abbrev pub first_config : Option VpnConfig → Option VpnConfig → Option VpnConfig
first_config none on_file = on_file
first_config (some cfg) _ = some cfg

abbrev pub config_of : VpnManager → Option VpnConfig
config_of m = first_config m.vpn_config m.config_file

abbrev pub first_key : Option VpnConfig → Option VpnConfig → String
first_key (some cfg) _ = cfg.public_key
first_key none (some cfg) = cfg.public_key
first_key none none = ""

unfoldable pub get_public_key : VpnManager → String
get_public_key m = first_key m.vpn_config m.config_file

abbrev pub generated_pair : Option (String × String) → Option (String × String × Bool)
generated_pair none = none
generated_pair (some (priv, public)) = some (priv, public, true)

abbrev pub stored_or :
    Option (String × String × Bool) → Option VpnConfig → Option (String × String × Bool)
stored_or new none = new
stored_or new (some cfg) =
    if is_blank cfg.private_key then new else some (cfg.private_key, cfg.public_key, false)

-- The guard of DialUDP and DialContextTCP.
abbrev pub may_dial : VpnManager → Bool
may_dial m = m.vpn_running && is_some m.vpn_tun

pub data VpnCall : Type 0 where
  starts_vpn : VpnCall
  stops_vpn : VpnCall
  saves_vpn : VpnConfig → VpnCall

module _ (env : VpnOutcomes) where
  -- From the keys on, with a new device that nothing keeps yet.
  abbrev pub configure_device : VpnConfig → ℕ → VpnManager → VpnManager × Option VpnFailure
  configure_device cfg n m =
      if not (env.parse_key cfg.private_key)
      then (m, some bad_private_key)
      else if not (env.parse_key cfg.server_pub_key)
      then (m, some bad_server_key)
      else if not (env.ipc_at n)
      then (m, some not_configured)
      else if not (env.up_at n)
      then (m, some not_up)
      else (
        record m { vpn_tun = some n; vpn_dev = some n; vpn_running = true; vpn_config = some cfg },
        none,
      )

  abbrev pub start_with : Option VpnConfig → VpnManager → VpnManager × Option VpnFailure
  start_with none m = (m, some no_config)
  start_with (some cfg) m =
      let n = m.vpn_tick in
      let opened_now = record m { vpn_tick = n + 1; devices_opened = n ∷ m.devices_opened } in
      if not (env.parse_addr (before_slash cfg.config_ip))
      then (m, some bad_address)
      else if not (env.tun_at n)
      then (record m { vpn_tick = n + 1 }, some no_tun)
      else configure_device cfg n opened_now

  -- Start, and its error.
  unfoldable pub vpn_start : VpnManager → VpnManager × Option VpnFailure
  vpn_start m = if m.vpn_running then (m, none) else start_with (config_of m) m

  -- The stored keys, or new ones; the flag says that they are new.
  unfoldable pub load_or_generate_key_pair : VpnManager → Option (String × String × Bool)
  load_or_generate_key_pair m =
      stored_or (generated_pair (env.generate_at m.vpn_tick)) m.config_file

  unfoldable pub save_provisioned_config : VpnConfig → VpnManager → VpnManager × Bool
  save_provisioned_config cfg m =
      if env.write_at m.vpn_tick
      then (
        record m { vpn_tick = m.vpn_tick + 1; vpn_config = some cfg; config_file = some cfg },
        true,
      )
      else (record m { vpn_tick = m.vpn_tick + 1; config_file = env.left_at m.vpn_tick }, false)

  -- A call of a method of the manager that changes it.
  unfoldable pub apply_vpn_call : VpnCall → VpnManager → VpnManager
  apply_vpn_call starts_vpn m = (vpn_start m).0
  apply_vpn_call stops_vpn m = vpn_stop m
  apply_vpn_call (saves_vpn cfg) m = (save_provisioned_config cfg m).0

  unfoldable pub run_vpn_calls : List VpnCall → VpnManager → VpnManager
  run_vpn_calls [] m = m
  run_vpn_calls (c ∷ cs) m = run_vpn_calls cs (apply_vpn_call c m)
