-- ===== src/Config/Loading.antt =====
-- Load of config/config.go either refuses a file or returns a valid and complete configuration.
use uavlink_edge.Common.{
  All, Bool, Bool-cases, List, Option, [], arith, false, if◌then◌else◌, inl, inr, length, ltb,
  ltb→ge, lt→ltb, none, refl, some, suc, sym, true, zero, ℕ, ◌∙◌, ◌∷◌, ◌≡◌, ◌≢◌, ◌≤◌,
}
use Prim.Native.String.{String}
use uavlink_edge.Config.{
  Config, Invalid, Loaded, Stream, is_empty, is_negative, is_positive, load, loaded, negsuc,
  normalize_all, normalize_camera_config, normalize_stream, or_default, pos, refused, set_defaults,
  unless_invalid, validate, validate_auth, validate_network, ℤ,
}
use uavlink_edge.Config.Laws.{IsNamed, IsPositive, IsValid, validate_iff}

abbrev pub IsNormal : Stream → Type 0
IsNormal s =
    IsPositive s.detect_frame_skip
    × IsPositive s.overlay_frame_skip
    × (is_negative s.gate_timeout_ms ≡ false)
    × (2 ≤ length s.lores_size)

-- Nothing that has a default is missing, and every stream is normalized; `omitted` says that the file
-- has no log.show_packet_stats.
pub record IsComplete (omitted : Bool) (c : Config) : Type 0 where
  pub stats : omitted ≡ true → c.show_packet_stats ≡ true
  pub level : IsNamed c.log_level
  pub subnet : IsNamed c.subnet
  pub timeout : IsPositive c.pixhawk_connection_timeout
  pub driver : IsNamed c.cellular_driver
  pub iface : IsNamed c.cellular_iface
  pub modems : (c.sim7600 ≡ true) × (c.sim8262 ≡ true)
  pub vpn_file : IsNamed c.vpn_config_file
  pub vpn_port : c.vpn_port ≢ pos 0
  pub router : IsNamed c.router_vpn_ip
  pub normal : All IsNormal c.streams

or_default-IsNamed : (s default : String) → IsNamed default → IsNamed (or_default s default)
or_default-IsNamed s default h = elim (Bool-cases (is_empty s)) [
  | inl nothing ↦ rw nothing h
  | inr something ↦ rw something something
]

positive_or : (z : ℤ) (n : ℕ) → 1 ≤ n → IsPositive (if is_positive z then z else pos n)
positive_or (pos zero) n h = lt→ltb 0 n h
positive_or (pos (suc k)) n h = ground arith
positive_or (negsuc k) n h = lt→ltb 0 n h

not_negative : (z : ℤ) → is_negative (if is_negative z then pos 0 else z) ≡ false
not_negative (pos n) = refl
not_negative (negsuc n) = refl

vpn_port_set : (p : ℤ) → (elim p [ pos zero ↦ pos 14550 | q ↦ q ]) ≢ pos 0
vpn_port_set (pos zero) e = cc
vpn_port_set (pos (suc n)) e = cc
vpn_port_set (negsuc n) e = cc

two_sizes :
    (sizes : List ℤ) → 2 ≤ length (if ltb (length sizes) 2 then pos 320 ∷ pos 240 ∷ [] else sizes)
two_sizes sizes = elim (Bool-cases (ltb (length sizes) 2)) [
  | inl short ↦ rw short (omega arith)
  | inr long ↦ rw long (ltb→ge _ _ long)
]

normalize_stream-IsNormal : (s : Stream) → IsNormal (normalize_stream s)
unfolding normalize_stream
normalize_stream-IsNormal s = (
  positive_or s.detect_frame_skip 3 (omega arith),
  positive_or s.overlay_frame_skip 5 (omega arith),
  not_negative s.gate_timeout_ms,
  two_sizes s.lores_size,
)

normalize_all-IsNormal : (streams : List Stream) → All IsNormal (normalize_all streams)
normalize_all-IsNormal [] = tt
normalize_all-IsNormal (s ∷ streams) = (normalize_stream-IsNormal s, normalize_all-IsNormal streams)

complete :
    (omitted : Bool) (file : Config)
    → IsComplete omitted (normalize_camera_config (set_defaults omitted file))
unfolding normalize_camera_config set_defaults
complete omitted file = record {
  stats = λ e. rw e refl;
  level = or_default-IsNamed file.log_level "info" refl;
  subnet = or_default-IsNamed file.subnet "24" refl;
  timeout = positive_or file.pixhawk_connection_timeout 30 (omega arith);
  driver = or_default-IsNamed file.cellular_driver "sim7600_qmi" refl;
  iface = or_default-IsNamed file.cellular_iface "wwan0" refl;
  modems = (refl, refl);
  vpn_file = or_default-IsNamed file.vpn_config_file "vpn_config.json" refl;
  vpn_port = vpn_port_set file.vpn_port;
  router = or_default-IsNamed file.router_vpn_ip "10.8.0.1" refl;
  normal = normalize_all-IsNormal file.streams;
}

-- Validate reads no field that a default or the normalization sets.
same-IsValid : (c d : Config) → validate c ≡ validate d → IsValid c → IsValid d
same-IsValid c d same v = (validate_iff d).0 (sym same ∙ (validate_iff c).1 v)

normalize-same : (c : Config) → validate c ≡ validate (normalize_camera_config c)
unfolding validate validate_auth validate_network normalize_camera_config
normalize-same c = refl

set_defaults-same : (omitted : Bool) (c : Config) → validate c ≡ validate (set_defaults omitted c)
unfolding validate validate_auth validate_network set_defaults
set_defaults-same omitted c = refl

abbrev pub IsLoad : Bool → Config → Loaded → Type 0
IsLoad omitted file (loaded c) = IsValid file × IsValid c × IsComplete omitted c
IsLoad omitted file (refused e) = ¬ IsValid file

loads :
    (omitted : Bool) (file : Config) (x : Option Invalid)
    → validate (set_defaults omitted file) ≡ x
    → IsLoad omitted file (unless_invalid x (set_defaults omitted file))
loads omitted file none e =
    let valid = (validate_iff (set_defaults omitted file)).0 e in
    (
      same-IsValid _ file (sym (set_defaults-same omitted file)) valid,
      same-IsValid _ _ (normalize-same (set_defaults omitted file)) valid,
      complete omitted file,
    )
loads omitted file (some error) e = λ valid.
    let none_found =
      (validate_iff (set_defaults omitted file)).1
        (same-IsValid file _ (set_defaults-same omitted file) valid) in
    cc

-- Load of a file that decodes returns a configuration exactly if the file is valid: the ports are
-- ports, the target has a name, and auth, where it is enabled, has a host, a port, a positive
-- interval, a heartbeat frequency that is not negative and a model of at most 32 bytes. What it returns
-- is valid too and, but for the fields of type float64, complete: nothing that has a default is missing,
-- and the skips, the gate timeouts and the sizes of every stream are in range.
pub load-IsLoad : (omitted : Bool) (file : Config) → IsLoad omitted file (load omitted (some file))
unfolding load
load-IsLoad omitted file = loads omitted file (validate (set_defaults omitted file)) refl
