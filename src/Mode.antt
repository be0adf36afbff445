-- ===== src/Mode.antt =====
-- px4mode/mode.go: flight modes of PX4, their names, and the names that a user may give. What
-- fmt.Sprintf prints for %d, and strings.ToLower after strings.TrimSpace, are parameters.
pub mod Laws
use uavlink_edge.Common.{
  Bool, List, Option, [], false, if◌then◌else◌, none, not, some, ℕ, ◌%◌, ◌&&◌, ◌*◌, ◌/◌, ◌==◌, ◌^◌,
  ◌||◌, ◌∷◌,
}
use Prim.Native.Nat.{bit_and, bit_or}
use Prim.Native.String.{String, ◌++◌ as str_append}
use text.Mathlib.Text.{◌==◌ as str_eq}
use uavlink_edge.Link.Arbiter.{mav_autopilot_px4}

pub record Info : Type 0 where
  pub custom_mode : ℕ
  pub main_mode : ℕ
  pub sub_mode : ℕ
  pub name_px4 : String
  pub name_qgc : String
  pub autopilot : String
  pub source : String
  pub system_status : ℕ

-- The fields of HEARTBEAT that are read.
pub record HeartbeatMode : Type 0 where
  pub autopilot : ℕ
  pub base_mode : ℕ
  pub custom_mode : ℕ
  pub system_status : ℕ

abbrev pub mav_mode_flag_custom_mode_enabled : ℕ
mav_mode_flag_custom_mode_enabled = 1

-- A shift to the left drops what leaves the 32 bits.
unfoldable pub custom_mode : ℕ → ℕ → ℕ
custom_mode main sub = bit_or (main * 2 ^ 16 % 2 ^ 32) (sub * 2 ^ 24 % 2 ^ 32)

-- x & 0xFF is x % 256.
unfoldable pub decode : ℕ → ℕ × ℕ
decode mode = (mode / 2 ^ 16 % 256, mode / 2 ^ 24 % 256)

-- A switch on a number, with its default.
abbrev pub case_of : List (ℕ × String) → String → ℕ → String
case_of [] other n = other
case_of ((k, name) ∷ cases) other n = if n == k then name else case_of cases other n

abbrev pub name_px4_auto : ℕ → String
name_px4_auto =
    case_of
      ((1, "READY")
        ∷ (2, "TAKEOFF")
        ∷ (3, "LOITER")
        ∷ (4, "MISSION")
        ∷ (5, "RTL")
        ∷ (6, "LAND")
        ∷ (7, "RTGS")
        ∷ (8, "FOLLOW")
        ∷ [])
      "AUTO"

abbrev pub name_qgc_auto : ℕ → String
name_qgc_auto =
    case_of
      ((1, "Ready")
        ∷ (2, "Takeoff")
        ∷ (3, "Hold")
        ∷ (4, "Mission")
        ∷ (5, "Return")
        ∷ (6, "Land")
        ∷ (7, "Return to Groundstation")
        ∷ (8, "Follow Me")
        ∷ [])
      "Auto"

-- The cases of namePX4 and nameQGC on the main mode.
abbrev main_px4 : ℕ → List (ℕ × String)
main_px4 sub =
    (1, "MANUAL")
    ∷ (2, "ALTCTL")
    ∷ (3, "POSCTL")
    ∷ (4, name_px4_auto sub)
    ∷ (5, "ACRO")
    ∷ (6, "OFFBOARD")
    ∷ (7, "STAB")
    ∷ (8, "RATTITUDE")
    ∷ (9, "SIMPLE")
    ∷ []

abbrev main_qgc : ℕ → List (ℕ × String)
main_qgc sub =
    (1, "Manual")
    ∷ (2, "Altitude")
    ∷ (3, "Position")
    ∷ (4, name_qgc_auto sub)
    ∷ (5, "Acro")
    ∷ (6, "Offboard")
    ∷ (7, "Stabilized")
    ∷ (8, "Rattitude")
    ∷ (9, "Simple")
    ∷ []

module _ (decimal : ℕ → String) where
  unfoldable pub name_px4 : ℕ → ℕ → String
  name_px4 main sub = case_of (main_px4 sub) (str_append "M" (decimal main)) main

  unfoldable pub name_qgc : ℕ → ℕ → String
  name_qgc main sub = case_of (main_qgc sub) (str_append "Mode " (decimal main)) main

  unfoldable pub from_custom_mode : ℕ → Info
  from_custom_mode mode =
      let (main, sub) = decode mode in
      record {
        custom_mode = mode;
        main_mode = main;
        sub_mode = sub;
        name_px4 = name_px4 main sub;
        name_qgc = name_qgc main sub;
        autopilot = "PX4";
        source = "";
        system_status = 0;
      }

  unfoldable pub from_heartbeat : Option HeartbeatMode → Option Info
  unfolding from_custom_mode
  from_heartbeat none = none
  from_heartbeat (some msg) =
      if not (msg.autopilot == mav_autopilot_px4)
      then none
      else if msg.custom_mode == 0 && (bit_and msg.base_mode mav_mode_flag_custom_mode_enabled == 0)
      then none
      else some (record (from_custom_mode msg.custom_mode) {
        system_status = msg.system_status;
        source = "HEARTBEAT";
      })

  -- CURRENT_MODE is its custom_mode.
  unfoldable pub from_current_mode : Option ℕ → Option Info
  unfolding from_custom_mode
  from_current_mode none = none
  from_current_mode (some mode) =
      if mode == 0 then none else some (record (from_custom_mode mode) { source = "CURRENT_MODE" })

-- The cases of ResolveSetMode in their order: the names of a case and its modes.
abbrev set_modes : List (List String × ℕ × ℕ)
set_modes =
    ("manual" ∷ [], 1, 0)
    ∷ ("altctl" ∷ "altitude" ∷ [], 2, 0)
    ∷ ("posctl" ∷ "position" ∷ "normal" ∷ [], 3, 0)
    ∷ ("stab" ∷ "stabilize" ∷ "stabilized" ∷ [], 7, 0)
    ∷ ("acro" ∷ [], 5, 0)
    ∷ ("offboard" ∷ [], 6, 0)
    ∷ ("loiter" ∷ "hold" ∷ [], 4, 3)
    ∷ ("mission" ∷ "auto" ∷ [], 4, 4)
    ∷ ("rtl" ∷ "return" ∷ [], 4, 5)
    ∷ ("land" ∷ [], 4, 6)
    ∷ []

abbrev is_case : List String → String → Bool
is_case [] s = false
is_case (name ∷ names) s = str_eq s name || is_case names s

abbrev pub switch_on : List (List String × ℕ × ℕ) → String → Option (ℕ × ℕ)
switch_on [] s = none
switch_on ((names, main, sub) ∷ cases) s =
    if is_case names s then some (main, sub) else switch_on cases s

-- `clean` is strings.ToLower after strings.TrimSpace.
unfoldable pub resolve_set_mode : (String → String) → String → Option (ℕ × ℕ)
resolve_set_mode clean mode = switch_on set_modes (clean mode)
