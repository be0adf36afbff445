-- ===== src/Forward/Keepalive.antt =====
-- sendMavlinkKeepAlive of forwarder/forwarder.go on a tick, with hex.DecodeString as it uses it,
-- hexDecodeSessionToken of forwarder/session_token.go, and the message and the payload of
-- mavlink_custom/custom.go and mavlink_custom/session_heartbeat.go. SHA-256 is an argument, as is
-- how gomavlib writes a message out. The rate of the ticker and the log are not modelled.
pub mod Laws
use uavlink_edge.Common.{
  Bool, List, Option, [], false, get_elem?, if◌then◌else◌, leb, length, none, not, some, take, true,
  ℕ, ◌%◌, ◌&&◌, ◌*◌, ◌++◌, ◌+◌, ◌-◌, ◌/◌, ◌==◌, ◌^◌, ◌||◌, ◌∷◌,
}
use Prim.Native.String.{String}
use text.Mathlib.Text.{◌==◌ as str_eq}
use uavlink_edge.Forward.Stats.{MsgStats, PktStats, inc_msg_out, inc_pkt, out_server_generated}
use uavlink_edge.Wire.Bytes.{Bytes, put_u16}

-- A digit of hex, in either case.
abbrev pub hex_digit : ℕ → Option ℕ
hex_digit c =
    if leb 48 c && leb c 57
    then some (c - 48)
    else if leb 97 c && leb c 102
    then some (c - 87)
    else if leb 65 c && leb c 70
    then some (c - 55)
    else none

abbrev pub hex_pair : Option ℕ → Option ℕ → Option Bytes → Option Bytes
hex_pair (some a) (some b) (some rest) = some ((a * 16 + b) ∷ rest)
hex_pair _ _ _ = none

unfoldable pub decode_hex : Bytes → Option Bytes
decode_hex [] = some []
decode_hex (a ∷ []) = none
decode_hex (a ∷ b ∷ rest) = hex_pair (hex_digit a) (hex_digit b) (decode_hex rest)

abbrev pub of_size : ℕ → Bytes → Option Bytes
of_size n bs = if length bs == n then some bs else none

-- A token of 32 bytes, or an error.
abbrev pub sized_token : Option Bytes → Option Bytes
sized_token none = none
sized_token (some bs) = of_size 32 bs

unfoldable pub hex_decode_session_token : Bytes → Option Bytes
hex_decode_session_token text_of = sized_token (decode_hex text_of)

-- MessageMavlinkKeepAlive, an unsigned integer as its value.
pub record KeepAlive : Type 0 where
  pub token : Bytes
  pub expires_at_unix : ℕ
  pub sequence : ℕ
  pub pixhawk_flag : ℕ

abbrev pub keep_alive_id : ℕ
keep_alive_id = 42999

pub data HbMode : Type 0 where
  normal_mode shifted_mode : HbMode

-- DRONEBRIDGE_SESSION_HB_MODE in lower case and without space around it.
unfoldable pub hb_mode : String → HbMode
hb_mode value = if str_eq value "normal" then normal_mode else shifted_mode

abbrev pub flag_of : Bool → ℕ
flag_of connected = if connected then 1 else 0

abbrev pub byte_at : ℕ → Bytes → ℕ
byte_at n bs = elim (get_elem? bs n) [ none ↦ 0 | some b ↦ b ]

unfoldable pub build_keepalive : HbMode → Bytes → ℕ → ℕ → Bool → KeepAlive
build_keepalive normal_mode decoded expires sequence connected = record {
  token = decoded;
  expires_at_unix = expires % 2 ^ 32;
  sequence = sequence;
  pixhawk_flag = flag_of connected;
}
build_keepalive shifted_mode decoded expires sequence connected = record {
  token = 0 ∷ take 31 decoded;
  expires_at_unix = expires % 2 ^ 32;
  sequence = sequence;
  pixhawk_flag = byte_at 31 decoded;
}

-- What a tick reads: the token as text and its expiry of GetSessionInfo, whether pixhawkConnected is
-- closed, and whether the write succeeds.
pub record KeepReading : Type 0 where
  pub token_hex : Bytes
  pub expires_unix : ℕ
  pub connected : Bool
  pub write_succeeds : Bool

-- The variables of the loop, and the fields of Forwarder that it changes. heartbeat_sent says that
-- udpHeartbeatSent, of capacity 1, is full.
pub record KeepState : Type 0 where
  pub next_sequence : ℕ
  pub first_sent : Bool
  pub heartbeat_sent : Bool
  pub msg_stats : MsgStats
  pub pkt_stats : PktStats

abbrev pub note_write : Bool → KeepState → KeepState
note_write false s = s
note_write true s = record s {
  msg_stats = inc_msg_out keep_alive_id s.msg_stats;
  pkt_stats = inc_pkt out_server_generated s.pkt_stats;
  heartbeat_sent = s.heartbeat_sent || not s.first_sent;
  first_sent = true;
}

-- From the decoded token on; the answer is the message that is written.
abbrev pub tick_with :
    HbMode → KeepReading → KeepState → Option Bytes → KeepState × Option KeepAlive
tick_with mode r s none = (s, none)
tick_with mode r s (some decoded) = (
  note_write r.write_succeeds (record s { next_sequence = (s.next_sequence + 1) % 2 ^ 16 }),
  some (build_keepalive mode decoded r.expires_unix s.next_sequence r.connected),
)

unfoldable pub keepalive_tick : HbMode → KeepReading → KeepState → KeepState × Option KeepAlive
keepalive_tick mode r s =
    if length r.token_hex == 0
    then (s, none)
    else tick_with mode r s (sized_token (decode_hex r.token_hex))

unfoldable pub keepalive_ticks :
    HbMode → List KeepReading → KeepState → KeepState × List (Option KeepAlive)
keepalive_ticks mode [] s = (s, [])
keepalive_ticks mode (r ∷ rs) s =
    let (s', k) = keepalive_tick mode r s in
    let (last, ks) = keepalive_ticks mode rs s' in (last, k ∷ ks)

abbrev pub put_u32 : ℕ → Bytes
put_u32 v = v % 256 ∷ v / 2 ^ 8 % 256 ∷ v / 2 ^ 16 % 256 ∷ v / 2 ^ 24 % 256 ∷ []

unfoldable pub build_session_heartbeat_payload : (Bytes → Bytes) → Bytes → ℕ → ℕ → ℕ → Bytes
build_session_heartbeat_payload sha256 token expires sequence active =
    put_u32 expires ++ put_u16 sequence ++ active ∷ take 32 (sha256 token)
