-- ===== src/Witness/Mode.antt =====
-- px4mode/mode.go at concrete modes.
use uavlink_edge.Common.{List, [], if◌then◌else◌, refl, some, ℕ, ◌∷◌, ◌≡◌}
use Prim.Native.String.{String}
use text.Mathlib.Text.{◌==◌ as str_eq}
use uavlink_edge.Mode.{
  HeartbeatMode, Info, custom_mode, from_current_mode, from_custom_mode, resolve_set_mode,
}
use uavlink_edge.Mode.Laws.{labels, resolve_set_mode_shown}

abbrev decimal : ℕ → String
decimal n = "0"

abbrev armed : HeartbeatMode
armed = record { autopilot = 12; base_mode = 129; custom_mode = custom_mode 4 3; system_status = 4 }

abbrev shown : Info
shown = record (from_custom_mode decimal (custom_mode 4 3)) {
  source = "HEARTBEAT";
  system_status = 4;
}

-- Trimming and lowering of the labels, by a table.
abbrev lower : List (String × String) → String → String
lower [] s = s
lower ((label, name) ∷ rest) s = if str_eq s label then name else lower rest s

resolve_set_mode_shown_example :
    (info : Info) × (from_current_mode decimal (some (custom_mode 4 3)) ≡ some info)
    × (info.main_mode ≡ 4)
    × (info.sub_mode ≡ 3)
    × (resolve_set_mode (lower labels) info.name_qgc ≡ some (4, 3))
    × (resolve_set_mode (lower labels) info.name_px4 ≡ some (4, 3))
unfolding resolve_set_mode
resolve_set_mode_shown_example =
    resolve_set_mode_shown (lower labels) decimal "Hold" 4 3
      (
        refl,
        (
          refl,
          (
            refl,
            (
              refl,
              (
                refl,
                (
                  refl,
                  (
                    refl,
                    (
                      refl,
                      (
                        refl,
                        (
                          refl,
                          (
                            refl,
                            (
                              refl,
                              (refl, (refl, (refl, (refl, (refl, (refl, (refl, (refl, tt)))))))),
                            ),
                          ),
                        ),
                      ),
                    ),
                  ),
                ),
              ),
            ),
          ),
        ),
      )
      refl
