-- ===== src/Link/Setup.antt =====
-- The devices, rates and limits of the arbiter: configurePX4Links, uartBaud and the names of the
-- links in forwarder/px4_link.go.
use uavlink_edge.Common.{
  ==_iff, Bool, Bool-cases, Option, arith, if◌then◌else◌, inl, inr, ltb, none, not, refl, some, ℕ,
  ◌%◌, ◌*◌, ◌<◌, ◌==◌, ◌^◌, ◌||◌, ◌≡◌, ◌≢◌, ◌≤◌, ◌⊎◌,
}
use Prim.Native.String.{String}
use text.Mathlib.Text.{◌==◌ as str_eq}
use uavlink_edge.Link.Arbiter.{Arbiter}
use uavlink_edge.Link.Step.{
  LinkId, LinkSnap, link_eth, link_none, link_telem2, link_telem3, millisecond, second,
}
use uavlink_edge.Session.Calls.{given}

abbrev pub link_name : LinkId → String
link_name link_eth = "ethernet"
link_name link_telem2 = "telem2"
link_name link_telem3 = "telem3"
link_name link_none = "none"

-- The fields of the configuration that are read; a number is 0 here where it is not positive in the
-- source, which tests only for that.
pub record LinkConfig : Type 0 where
  pub telem2_port : String
  pub serial_port : String
  pub telem2_baud : ℕ
  pub telem3_port : String
  pub telem3_baud : ℕ
  pub link_loss_timeout_ms : ℕ
  pub eth_recover_heartbeats : ℕ

unfoldable pub uart_baud : ℕ → ℕ
uart_baud b = if b == 0 || (b == 921600 || b == 57600) then 1500000 else b

-- What configurePX4Links returns.
pub record SerialPorts : Type 0 where
  pub telem2 : String
  pub telem2_baud : ℕ
  pub telem3 : String
  pub telem3_baud : ℕ

abbrev named : String → Bool
named port = not (str_eq port "")

unfoldable pub telem2_of : LinkConfig → String
telem2_of cfg =
    if named cfg.telem2_port
    then cfg.telem2_port
    else if named cfg.serial_port
    then cfg.serial_port
    else "/dev/ttyAMA2"

abbrev baud_of : ℕ → ℕ
baud_of b = if ltb 0 b then uart_baud b else 1500000

unfoldable pub ports_of : Option LinkConfig → SerialPorts
ports_of none = record {
  telem2 = "/dev/ttyAMA2";
  telem2_baud = 1500000;
  telem3 = "/dev/ttyAMA3";
  telem3_baud = 1500000;
}
ports_of (some cfg) = record {
  telem2 = telem2_of cfg;
  telem2_baud = baud_of cfg.telem2_baud;
  telem3 = if named cfg.telem3_port then cfg.telem3_port else "/dev/ttyAMA3";
  telem3_baud = baud_of cfg.telem3_baud;
}

-- A time.Duration, of 64 bits with a sign, from its bits; a negative one is 0 here, since stepLink and
-- evaluate treat both alike: no link is fresh, and stepLink takes its default.
abbrev pub duration : ℕ → ℕ
duration bits = if ltb (bits % 2 ^ 64) (2 ^ 63) then bits % 2 ^ 64 else 0

unfoldable pub loss_of : Option LinkConfig → ℕ
loss_of none = 2 * second
loss_of (some cfg) =
    if ltb 0 cfg.link_loss_timeout_ms
    then duration (cfg.link_loss_timeout_ms * millisecond)
    else 2 * second

unfoldable pub recover_n_of : Option LinkConfig → ℕ
recover_n_of none = 2
recover_n_of (some cfg) = if ltb 0 cfg.eth_recover_heartbeats then cfg.eth_recover_heartbeats else 2

-- The first link, and the time at which it was entered, if none was entered before.
unfoldable pub first_link : ℕ → LinkSnap → LinkSnap
first_link now s = if s.entered == 0 then record s { active = link_eth; entered = now } else s

-- The arbiter and what is returned; `now` is the time that is read.
unfoldable pub configure_px4_links :
    {Channel : Type 0} → ℕ → Option LinkConfig → Arbiter Channel → SerialPorts × Arbiter Channel
configure_px4_links now cfg a =
    let ports = ports_of cfg in
    (
      ports,
      record a {
        telem2_dev = ports.telem2;
        telem3_dev = ports.telem3;
        loss = loss_of cfg;
        recover_n = recover_n_of cfg;
        snap = first_link now a.snap;
      },
    )

-- A rate that the serial ports of the computer support for MAVLink.
abbrev pub IsRate : ℕ → Type 0
IsRate b = (1 ≤ b) × (b ≢ 921600) × (b ≢ 57600)

baud_of-IsRate : (b : ℕ) → IsRate (baud_of b)
unfolding uart_baud
baud_of-IsRate b = ground arith

default-IsRate : IsRate 1500000
default-IsRate = (omega arith, λ e. omega arith, λ e. omega arith)

-- The time after which a link is lost: the configured milliseconds where these are given and their
-- nanoseconds fit a time.Duration, and 2 seconds where none are given.
abbrev pub IsLossTime : Option LinkConfig → ℕ → Type 0
IsLossTime none loss = loss ≡ 2 * second
IsLossTime (some cfg) loss =
    ((cfg.link_loss_timeout_ms ≡ 0) × (loss ≡ 2 * second))
    ⊎ ((1 ≤ cfg.link_loss_timeout_ms) × (loss ≡ cfg.link_loss_timeout_ms * millisecond))
    ⊎ (2 ^ 63 ≤ cfg.link_loss_timeout_ms * millisecond)

small_duration : (bits : ℕ) → bits < 2 ^ 63 → duration bits ≡ bits
small_duration bits h = ground arith

set_duration :
    (ms : ℕ)
    → 1 ≤ ms
    → ((ms ≡ 0) × (duration (ms * millisecond) ≡ 2 * second))
      ⊎ ((1 ≤ ms) × (duration (ms * millisecond) ≡ ms * millisecond))
      ⊎ (2 ^ 63 ≤ ms * millisecond)
set_duration ms h = elim (Bool-cases (ltb (ms * millisecond) (2 ^ 63))) [
  | inl fits ↦ inr (inl (h, small_duration (ms * millisecond) (ground arith)))
  | inr large ↦ inr (inr (ground arith))
]

loss_of-IsLossTime : (cfg : Option LinkConfig) → IsLossTime cfg (loss_of cfg)
unfolding loss_of
loss_of-IsLossTime none = refl
loss_of-IsLossTime (some cfg) = elim (Bool-cases (ltb 0 cfg.link_loss_timeout_ms)) [
  | inl given ↦ rw given (set_duration cfg.link_loss_timeout_ms (ground arith))
  | inr absent ↦ rw absent (inl (ground arith, refl))
]

recover_n_of-positive : (cfg : Option LinkConfig) → 1 ≤ recover_n_of cfg
unfolding recover_n_of
recover_n_of-positive none = omega arith
recover_n_of-positive (some cfg) = ground arith

ports_of-IsRate :
    (cfg : Option LinkConfig)
    → IsRate (ports_of cfg).telem2_baud × IsRate (ports_of cfg).telem3_baud
unfolding ports_of
ports_of-IsRate none = (default-IsRate, default-IsRate)
ports_of-IsRate (some cfg) = (baud_of-IsRate cfg.telem2_baud, baud_of-IsRate cfg.telem3_baud)

-- The snapshot stays if a link was entered, and begins on Ethernet if not.
abbrev pub BeginsOnEth : ℕ → LinkSnap → LinkSnap → Type 0
BeginsOnEth now s t =
    ((s.entered ≢ 0) × (t ≡ s)) ⊎ ((s.entered ≡ 0) × (t.active ≡ link_eth) × (t.entered ≡ now))

first_link-BeginsOnEth : (now : ℕ) (s : LinkSnap) → BeginsOnEth now s (first_link now s)
unfolding first_link
first_link-BeginsOnEth now s = elim (Bool-cases (s.entered == 0)) [
  | inl unset ↦ rw unset (inr ((==_iff _ _).0 unset, refl, refl))
  | inr set ↦ rw set (inl (ground arith, refl))
]

-- Whatever is configured, both serial rates are positive and none of the two old ones; a link is lost
-- after the configured milliseconds, or after 2 seconds where none are given, if the nanoseconds are
-- below 2^63; Ethernet is recovered after at least one heartbeat, and if no link was entered before,
-- it is Ethernet that is active, from the time of the call; else the active link stays.
pub configure_px4_links-limits :
    {Channel : Type 0} (now : ℕ) (cfg : Option LinkConfig) (a : Arbiter Channel)
    → IsRate (configure_px4_links now cfg a).0.telem2_baud
      × IsRate (configure_px4_links now cfg a).0.telem3_baud
      × IsLossTime cfg (configure_px4_links now cfg a).1.loss
      × (1 ≤ (configure_px4_links now cfg a).1.recover_n)
      × BeginsOnEth now a.snap (configure_px4_links now cfg a).1.snap
unfolding configure_px4_links
configure_px4_links-limits now cfg a =
    let (rate2, rate3) = ports_of-IsRate cfg in
    (
      rate2,
      rate3,
      loss_of-IsLossTime cfg,
      recover_n_of-positive cfg,
      first_link-BeginsOnEth now a.snap,
    )
