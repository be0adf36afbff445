-- ===== src/Config/Laws.antt =====
-- What Load of config/config.go promises of a configuration that it returns.
use uavlink_edge.Common.{
  Bool, Option, arith, false, if◌then◌else◌, ltb, none, not, refl, some, true, ℕ, ◌↔◌, ◌≡◌, ◌≤◌,
}
use Prim.Native.String.{String}
use uavlink_edge.Config.{
  Config, Invalid, bad_auth_port, bad_heartbeat, bad_keepalive, bad_listen_port, bad_target_port,
  bad_web_port, first_error, is_empty, is_positive, long_model, negsuc, no_auth_host, no_port,
  no_target_host, pos, validate, validate_auth, validate_network, ℤ,
}

-- A port of TCP or UDP.
abbrev pub IsPort : ℤ → Type 0
IsPort (pos n) = (1 ≤ n) × (n ≤ 65535)
IsPort (negsuc n) = ⊥

abbrev pub IsNamed : String → Type 0
IsNamed s = is_empty s ≡ false

abbrev pub IsPositive : ℤ → Type 0
IsPositive z = is_positive z ≡ true

pub record IsAuthValid (c : Config) : Type 0 where
  pub host : IsNamed c.auth_host
  pub port : IsPort c.auth_port
  pub keepalive : IsPositive c.keepalive_interval
  pub heartbeat : c.negative_heartbeat ≡ false
  pub model : c.model_length ≤ 32

pub record IsNetworkValid (c : Config) : Type 0 where
  pub listen : IsPort c.local_listen_port
  pub target : IsNamed c.target_host
  pub target_port : IsPort c.target_port
  pub web : IsPort c.web_port

abbrev pub IsValid : Config → Type 0
IsValid c = (c.auth_enabled ≡ true → IsAuthValid c) × IsNetworkValid c

no_port_iff : (p : ℤ) → (no_port p ≡ false) ↔ IsPort p
no_port_iff (pos n) = ground arith
no_port_iff (negsuc n) = (λ e. cc, absurd)

-- A test of Validate and those behind it.
module _ {P Q : Type 0} where
  guard_iff :
      (t : Bool) (e : Invalid) (rest : Option Invalid)
      → (t ≡ false) ↔ P
      → (rest ≡ none) ↔ Q
      → ((if t then some e else rest) ≡ none) ↔ (P × Q)
  guard_iff true e rest h k = (λ q. cc, λ x. let q = h.1 x.0 in cc)
  guard_iff false e rest h k = (λ q. (h.0 refl, k.0 q), λ x. k.1 x.1)

id_iff : {P : Type 0} → P ↔ P
id_iff = (λ x. x, λ x. x)

abbrev no_error : Option Invalid
no_error = none

none_iff : (no_error ≡ none) ↔ Unit {0}
none_iff = (λ e. tt, λ u. refl)

not_iff : (b : Bool) → (not b ≡ false) ↔ (b ≡ true)
not_iff true = (λ e. refl, λ e. refl)
not_iff false = (λ e. cc, λ e. cc)

short_iff : (n : ℕ) → (ltb 32 n ≡ false) ↔ (n ≤ 32)
short_iff n = ground arith

auth_iff : (c : Config) → (validate_auth c ≡ none) ↔ IsAuthValid c
unfolding validate_auth
auth_iff c =
    let all = guard_iff (is_empty c.auth_host) no_auth_host _ id_iff (
      guard_iff (no_port c.auth_port) bad_auth_port _ (no_port_iff c.auth_port) (
        guard_iff (not (is_positive c.keepalive_interval)) bad_keepalive _
          (not_iff (is_positive c.keepalive_interval))
          (guard_iff c.negative_heartbeat bad_heartbeat _ id_iff (
            guard_iff (ltb 32 c.model_length) long_model _ (short_iff c.model_length)
              none_iff)))) in
    (
      λ e.
          let (host, (port, (keepalive, (heartbeat, (model, u))))) = all.0 e in
          record {
            host = host;
            port = port;
            keepalive = keepalive;
            heartbeat = heartbeat;
            model = model;
          },
      λ v. all.1 (v.host, (v.port, (v.keepalive, (v.heartbeat, (v.model, tt))))),
    )

network_iff : (c : Config) → (validate_network c ≡ none) ↔ IsNetworkValid c
unfolding validate_network
network_iff c =
    let all =
      guard_iff (no_port c.local_listen_port) bad_listen_port _ (no_port_iff c.local_listen_port) (
        guard_iff (is_empty c.target_host) no_target_host _ id_iff (
          guard_iff (no_port c.target_port) bad_target_port _ (no_port_iff c.target_port)
            (guard_iff (no_port c.web_port) bad_web_port _ (no_port_iff c.web_port) none_iff))) in
    (
      λ e.
          let (listen, (target, (target_port, (web, u)))) = all.0 e in
          record { listen = listen; target = target; target_port = target_port; web = web },
      λ v. all.1 (v.listen, (v.target, (v.target_port, (v.web, tt)))),
    )

first_error_iff :
    (on : Bool) (here later : Option Invalid)
    → (first_error (if on then here else none) later ≡ none)
      ↔ ((on ≡ true → here ≡ none) × (later ≡ none))
first_error_iff false here later = (λ e. (λ on. cc, e), λ x. x.1)
first_error_iff true none later = (λ e. (λ on. refl, e), λ x. x.1)
first_error_iff true (some x) later = (λ e. cc, λ y. let q = y.0 refl in cc)

-- Validate returns no error exactly for the valid configurations.
pub validate_iff : (c : Config) → (validate c ≡ none) ↔ IsValid c
unfolding validate
validate_iff c =
    let both = first_error_iff c.auth_enabled (validate_auth c) (validate_network c) in
    (
      λ e. let (auth, rest) = both.0 e in (λ on. (auth_iff c).0 (auth on), (network_iff c).0 rest),
      λ v. both.1 (λ on. (auth_iff c).1 (v.0 on), (network_iff c).1 v.1),
    )
