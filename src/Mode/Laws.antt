-- ===== src/Mode/Laws.antt =====
-- Round trips of px4mode/mode.go: a mode packed and read again, and a mode asked for by name and
-- named again.
use uavlink_edge.Common.{
  All, Bool-cases, List, [], ap, arith, bit_or-add, false, inl, inr, refl, some, sym, ℕ, ◌%◌, ◌*◌,
  ◌+◌, ◌/◌, ◌<◌, ◌==◌, ◌^◌, ◌↔◌, ◌∷◌, ◌≡◌, ◌≢◌, ◌⊎◌,
}
use Prim.Native.Nat.{bit_and}
use Prim.Native.String.{String}
use mathlib.Core.Option.{some-injective}
use mathlib.Core.Path.{subst}
use uavlink_edge.Mode.{
  HeartbeatMode, Info, custom_mode, decode, from_current_mode, from_custom_mode, from_heartbeat,
  is_case, name_px4, name_qgc, resolve_set_mode, set_modes, switch_on,
}

pub custom_mode-sum :
    (main sub : ℕ) → main < 256 → sub < 256 → custom_mode main sub ≡ main * 2 ^ 16 + sub * 2 ^ 24
unfolding custom_mode
custom_mode-sum main sub hm hs =
    let low : main * 2 ^ 16 % 2 ^ 32 ≡ main * 2 ^ 16 = omega arith in
    let high : sub * 2 ^ 24 % 2 ^ 32 ≡ sub * 2 ^ 24 = omega arith in
    rw (low, high) (bit_or-add 24 (main * 2 ^ 16) sub (omega arith))

-- Decode gives back the main and the sub mode, of one byte each, that CustomMode packed, and
-- packing what Decode reads from 32 bits gives them back without the 16 lowest bits.
pub custom_mode_decode :
    (main sub mode : ℕ)
    → main < 256
    → sub < 256
    → mode < 2 ^ 32
    → (decode (custom_mode main sub) ≡ (main, sub))
      × (custom_mode (decode mode).0 (decode mode).1 + mode % 2 ^ 16 ≡ mode)
unfolding decode
custom_mode_decode main sub mode hm hs h =
    let there : decode (custom_mode main sub) ≡ (main, sub) =
      rw (custom_mode-sum main sub hm hs) (ground arith) in
    (
      there,
      rw (custom_mode-sum (mode / 2 ^ 16 % 256) (mode / 2 ^ 24 % 256) (omega arith) (omega arith))
          (omega arith),
    )

-- The labels that are shown and the names that ResolveSetMode knows them by.
abbrev pub labels : List (String × String)
labels =
    ("Manual", "manual")
    ∷ ("Altitude", "altitude")
    ∷ ("Position", "position")
    ∷ ("Stabilized", "stabilized")
    ∷ ("Acro", "acro")
    ∷ ("Offboard", "offboard")
    ∷ ("Hold", "hold")
    ∷ ("Mission", "mission")
    ∷ ("Return", "return")
    ∷ ("Land", "land")
    ∷ ("MANUAL", "manual")
    ∷ ("ALTCTL", "altctl")
    ∷ ("POSCTL", "posctl")
    ∷ ("STAB", "stab")
    ∷ ("ACRO", "acro")
    ∷ ("OFFBOARD", "offboard")
    ∷ ("LOITER", "loiter")
    ∷ ("MISSION", "mission")
    ∷ ("RTL", "rtl")
    ∷ ("LAND", "land")
    ∷ []

module _ (clean : String → String) where
  -- What trimming and lowering makes of the names that are shown.
  abbrev pub Cleans : Type 0
  Cleans = All (λ (p : String × String). clean p.0 ≡ p.1) labels

  abbrev Named : (ℕ → String) → ℕ × ℕ → Type 0
  Named decimal (main, sub) =
      (0 < main)
      × (main < 256)
      × (sub < 256)
      × (resolve_set_mode clean (name_qgc decimal main sub) ≡ some (main, sub))
      × (resolve_set_mode clean (name_px4 decimal main sub) ≡ some (main, sub))

  switch_on-All :
      (P : ℕ × ℕ → Type 0) (cases : List (List String × ℕ × ℕ)) (s : String) (m : ℕ × ℕ)
      → All (λ c. P (c.1, c.2)) cases
      → switch_on cases s ≡ some m
      → P m
  switch_on-All P [] s m all h = cc
  switch_on-All P ((names, main, sub) ∷ cases) s m (p, all) h =
      elim (Bool-cases (is_case names s)) [
        | inl here ↦ subst P (some-injective _ _ (rw here at h)) p
        | inr other ↦ switch_on-All P cases s m all (rw other at h)
      ]

  set_modes-Named : (decimal : ℕ → String) → Cleans → All (λ c. Named decimal (c.1, c.2)) set_modes
  unfolding resolve_set_mode name_px4 name_qgc
  set_modes-Named decimal
        (
          q1,
          (
            q2,
            (
              q3,
              (
                q4,
                (
                  q5,
                  (
                    q6,
                    (
                      q7,
                      (
                        q8,
                        (q9, (q10, (p1, (p2, (p3, (p4, (p5, (p6, (p7, (p8, (p9, (p10, _)))))))))))),
                      ),
                    ),
                  ),
                ),
              ),
            ),
          ),
        ) =
      (
        (omega arith, omega arith, omega arith, rw q1 refl, rw p1 refl),
        (
          (omega arith, omega arith, omega arith, rw q2 refl, rw p2 refl),
          (
            (omega arith, omega arith, omega arith, rw q3 refl, rw p3 refl),
            (
              (omega arith, omega arith, omega arith, rw q4 refl, rw p4 refl),
              (
                (omega arith, omega arith, omega arith, rw q5 refl, rw p5 refl),
                (
                  (omega arith, omega arith, omega arith, rw q6 refl, rw p6 refl),
                  (
                    (omega arith, omega arith, omega arith, rw q7 refl, rw p7 refl),
                    (
                      (omega arith, omega arith, omega arith, rw q8 refl, rw p8 refl),
                      (
                        (omega arith, omega arith, omega arith, rw q9 refl, rw p9 refl),
                        ((omega arith, omega arith, omega arith, rw q10 refl, rw p10 refl), tt),
                      ),
                    ),
                  ),
                ),
              ),
            ),
          ),
        ),
      )

  asked_Named :
      (decimal : ℕ → String) (asked : String) (m : ℕ × ℕ)
      → Cleans
      → resolve_set_mode clean asked ≡ some m
      → Named decimal m
  unfolding resolve_set_mode
  asked_Named decimal asked m cleans h =
      switch_on-All (Named decimal) set_modes (clean asked) m (set_modes-Named decimal cleans) h

  -- Whatever name a mode is asked for by, a CURRENT_MODE that reports this mode is shown with its
  -- main and sub mode, and under two names that ask for the same mode again.
  pub resolve_set_mode_shown :
      (decimal : ℕ → String) (asked : String) (main sub : ℕ)
      → Cleans
      → resolve_set_mode clean asked ≡ some (main, sub)
      → (info : Info) × (from_current_mode decimal (some (custom_mode main sub)) ≡ some info)
        × (info.main_mode ≡ main)
        × (info.sub_mode ≡ sub)
        × (resolve_set_mode clean info.name_qgc ≡ some (main, sub))
        × (resolve_set_mode clean info.name_px4 ≡ some (main, sub))
  unfolding from_current_mode from_custom_mode
  resolve_set_mode_shown decimal asked main sub cleans h =
      let (pos, hm, hs, qgc, px4) = asked_Named decimal asked (main, sub) cleans h in
      let back = (custom_mode_decode main sub 0 hm hs (omega arith)).0 in
      let nonzero : (custom_mode main sub == 0) ≡ false =
        rw (custom_mode-sum main sub hm hs) (ground arith) in
      (
        record (from_custom_mode decimal (custom_mode main sub)) { source = "CURRENT_MODE" },
        rw nonzero refl,
        ap (λ m. m.0) back,
        ap (λ m. m.1) back,
        subst (λ m. resolve_set_mode clean (name_qgc decimal m.0 m.1) ≡ some (main, sub)) (sym back)
            qgc,
        subst (λ m. resolve_set_mode clean (name_px4 decimal m.0 m.1) ≡ some (main, sub)) (sym back)
            px4,
      )

-- FromHeartbeat decodes a heartbeat exactly if its autopilot is PX4 and it has a custom mode, or the
-- flag that says that it uses them; main and sub mode are those of Decode and the status is kept.
pub from_heartbeat_iff :
    (decimal : ℕ → String) (msg : HeartbeatMode) (info : Info)
    → (from_heartbeat decimal (some msg) ≡ some info) ↔ (
        (msg.autopilot ≡ 12)
        × ((msg.custom_mode ≢ 0) ⊎ (bit_and msg.base_mode 1 ≢ 0))
        × (info ≡ record (from_custom_mode decimal msg.custom_mode) {
          source = "HEARTBEAT";
          system_status = msg.system_status;
        }))
unfolding from_heartbeat
from_heartbeat_iff decimal msg info = ground arith
