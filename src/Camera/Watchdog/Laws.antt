-- ===== src/Camera/Watchdog/Laws.antt =====
-- How often the watchdog of camera/streamer_watchdog.go restarts a camera.
use uavlink_edge.Common.{
  Bool, List, Option, [], ap, arith, false, if◌then◌else◌, leb, none, not, refl, some, sym, true, ℕ,
  ◌&&◌, ◌+◌, ◌<◌, ◌==◌, ◌||◌, ◌∙◌, ◌∷◌, ◌≡◌, ◌≤◌,
}
use mathlib.Core.Path.{subst}
use uavlink_edge.Camera.Watchdog.{
  CameraConfig, CameraReading, StreamStats, StreamerProc, Watchdog, WatchdogEvent,
  apply_watchdog_event, check_low, check_stats, check_stream, check_streams, exits, has_stream,
  health_checks, in_cooldown, is_streamer_running, on_streamer_exited, overlapping_restarts,
  past_cooldown, procs_change, restart_now, restart_one_stream, run_stream_health_check,
  run_watchdog, set_streak, start_streamer, stop_streamer, stream_restart_cooldown,
}

abbrev pub latest : ℕ → List (ℕ × ℕ) → Option ℕ
latest c [] = none
latest c ((d, t) ∷ rs) = if c == d then some t else latest c rs

-- Time t is 20 seconds or more after an earlier restart.
abbrev pub IsLater : Option ℕ → ℕ → Type 0
IsLater none t = Unit {0}
IsLater (some since) t = since + stream_restart_cooldown ≤ t

-- Each restart is 20 seconds or more after the one before it of the same camera.
abbrev pub IsSpaced : List (ℕ × ℕ) → Type 0
IsSpaced [] = Unit {0}
IsSpaced ((c, t) ∷ rs) = IsLater (latest c rs) t × IsSpaced rs

pub record IsPaced (w : Watchdog) : Type 0 where
  pub tracked : (c : ℕ) → w.last_restart_at c ≡ latest c w.restarts
  pub spaced : IsSpaced w.restarts

later : (o : Option ℕ) (now : ℕ) → in_cooldown o now ≡ false → IsLater o now
later none now h = tt
later (some since) now h = ground (arith, h)

IsPaced-if : (b : Bool) (u v : Watchdog) → IsPaced u → IsPaced v → IsPaced (if b then u else v)
IsPaced-if true u v p q = p
IsPaced-if false u v p q = q

-- The same restarts.
same_restarts :
    (u w : Watchdog)
    → ((c : ℕ) → u.last_restart_at c ≡ w.last_restart_at c)
    → u.restarts ≡ w.restarts
    → IsPaced w
    → IsPaced u
same_restarts u w times_same log p = record {
  tracked = λ c. times_same c ∙ p.tracked c ∙ sym (ap (latest c) log);
  spaced = rw log p.spaced;
}

tracked_now :
    (c now d : ℕ) (o : Option ℕ) (rs : List (ℕ × ℕ))
    → o ≡ latest d rs
    → (if d == c then some now else o) ≡ latest d ((c, now) ∷ rs)
tracked_now c now d o rs h = rw h refl

restart_now-IsPaced :
    (cfg : CameraConfig) (made : Bool) (now c : ℕ) (w : Watchdog)
    → IsPaced w
    → in_cooldown (w.last_restart_at c) now ≡ false
    → IsPaced (restart_now cfg made now c w)
restart_now-IsPaced cfg made now c w p cooled = record {
  tracked = λ d. tracked_now c now d (w.last_restart_at d) w.restarts (p.tracked d);
  spaced = (
    later (latest c w.restarts) now (ap (λ o. in_cooldown o now) (sym (p.tracked c)) ∙ cooled),
    p.spaced,
  );
}

decided :
    (b : Bool) (u v : Watchdog) → IsPaced u → (b ≡ false → IsPaced v) → IsPaced (if b then u else v)
decided true u v p q = p
decided false u v p q = q refl

restart_one_stream-IsPaced :
    (cfg : CameraConfig) (made : Bool) (now c : ℕ) (w : Watchdog)
    → IsPaced w
    → IsPaced (restart_one_stream cfg made now c w)
unfolding restart_one_stream
restart_one_stream-IsPaced cfg made now c w p =
    decided (in_cooldown (w.last_restart_at c) now) _ _ p (restart_now-IsPaced cfg made now c w p)

set_streak-IsPaced : (c n : ℕ) (w : Watchdog) → IsPaced w → IsPaced (set_streak c n w)
set_streak-IsPaced c n w p = record { tracked = p.tracked; spaced = p.spaced }

check_low-IsPaced :
    (cfg : CameraConfig) (r : CameraReading) (w : Watchdog)
    → IsPaced w
    → IsPaced (check_low cfg r w)
check_low-IsPaced cfg r w p =
    let streak = w.low_fps_streak r.cam_id + 1 in
    let q = set_streak-IsPaced r.cam_id streak w p in
    IsPaced-if (leb 3 streak) _ _
      (restart_one_stream-IsPaced cfg r.process_starts r.checked_at r.cam_id _ q) q

check_stats-IsPaced :
    (cfg : CameraConfig) (r : CameraReading) (o : Option StreamStats) (w : Watchdog)
    → IsPaced w
    → IsPaced (check_stats cfg r o w)
check_stats-IsPaced cfg r none w p =
    IsPaced-if (past_cooldown (w.last_restart_at r.cam_id) r.checked_at) _ _
      (restart_one_stream-IsPaced cfg r.process_starts r.checked_at r.cam_id w p) p
check_stats-IsPaced cfg r (some st) w p =
    IsPaced-if st.is_stale _ _
      (restart_one_stream-IsPaced cfg r.process_starts r.checked_at r.cam_id w p)
      (IsPaced-if st.is_low _ _ (check_low-IsPaced cfg r w p) (set_streak-IsPaced r.cam_id 0 w p))

check_stream-IsPaced :
    (cfg : CameraConfig) (r : CameraReading) (w : Watchdog)
    → IsPaced w
    → IsPaced (check_stream cfg r w)
unfolding check_stream
check_stream-IsPaced cfg r w p = IsPaced-if (cfg.skip_missing_sensors && not r.has_sensor) _ _ p (
    IsPaced-if (is_streamer_running r.cam_id w.streamer_procs) _ _
      (check_stats-IsPaced cfg r r.stats w p)
      (restart_one_stream-IsPaced cfg r.process_starts r.checked_at r.cam_id w p))

check_streams-IsPaced :
    (cfg : CameraConfig) (rs : List CameraReading) (w : Watchdog)
    → IsPaced w
    → IsPaced (check_streams cfg rs w)
check_streams-IsPaced cfg [] w p = p
check_streams-IsPaced cfg (r ∷ rs) w p =
    check_streams-IsPaced cfg rs _ (check_stream-IsPaced cfg r w p)

apply-IsPaced : (e : WatchdogEvent) (w : Watchdog) → IsPaced w → IsPaced (apply_watchdog_event e w)
unfolding apply_watchdog_event run_stream_health_check on_streamer_exited
apply-IsPaced (health_checks cfg rs) w p =
    IsPaced-if cfg.camera_enabled _ _ (check_streams-IsPaced cfg rs w p) p
apply-IsPaced (exits cfg suppressed r) w p = IsPaced-if (not cfg.camera_enabled) _ _ p (
    IsPaced-if (suppressed || is_streamer_running r.cam_id w.streamer_procs) _ _ p
      (restart_one_stream-IsPaced cfg r.process_starts r.checked_at r.cam_id w p))
apply-IsPaced (procs_change ps) w p = record { tracked = p.tracked; spaced = p.spaced }

running_after :
    (c : ℕ) (ps : List StreamerProc) → is_streamer_running c (start_streamer true c ps) ≡ true
unfolding is_streamer_running
running_after c [] = ground arith
running_after c (p ∷ ps) = rw (running_after c ps) (ground arith)

-- If no two calls of restartOneStream overlap: whatever the checks read, whatever processes end or
-- start and whenever, each restart of a camera is 20 seconds or more after the restart before it of the
-- same camera, and lastRestartAt has the latest, if this is so at the start.
pub run_watchdog-IsPaced :
    (es : List WatchdogEvent) (w : Watchdog) → IsPaced w → IsPaced (run_watchdog es w)
unfolding run_watchdog
run_watchdog-IsPaced [] w p = p
run_watchdog-IsPaced (e ∷ es) w p =
    run_watchdog-IsPaced es (apply_watchdog_event e w) (apply-IsPaced e w p)

restart_now-runs :
    (cfg : CameraConfig) (made : Bool) (now c : ℕ) (w : Watchdog)
    → has_stream c cfg.streams ≡ true
    → made ≡ true
    → is_streamer_running c (restart_now cfg made now c w).streamer_procs ≡ true
restart_now-runs cfg made now c w there made_one =
    rw (there, made_one) (running_after c (stop_streamer c w.streamer_procs))

restart_runs :
    (b : Bool) (c : ℕ) (u w : Watchdog)
    → is_streamer_running c u.streamer_procs ≡ true
    → is_streamer_running c w.streamer_procs ≡ false
    → is_streamer_running c (if b then w else u).streamer_procs ≡ not b
restart_runs true c u w runs stopped = stopped
restart_runs false c u w runs stopped = runs

-- A camera in the configuration whose sensor is not missing and whose process has ended runs after a
-- check exactly if its last restart was 20 seconds or more before it, if a process starts then.
pub check_stream-revives :
    (cfg : CameraConfig) (r : CameraReading) (w : Watchdog)
    → (cfg.skip_missing_sensors && not r.has_sensor) ≡ false
    → is_streamer_running r.cam_id w.streamer_procs ≡ false
    → has_stream r.cam_id cfg.streams ≡ true
    → r.process_starts ≡ true
    → is_streamer_running r.cam_id (check_stream cfg r w).streamer_procs
      ≡ not (in_cooldown (w.last_restart_at r.cam_id) r.checked_at)
unfolding check_stream restart_one_stream
check_stream-revives cfg r w sensed stopped there made_one =
    rw (sensed, stopped)
      (restart_runs (in_cooldown (w.last_restart_at r.cam_id) r.checked_at) r.cam_id _ w
        (restart_now-runs cfg r.process_starts r.checked_at r.cam_id w there made_one) stopped)

cooldown_grows :
    (o : Option ℕ) (s t : ℕ) → in_cooldown o s ≡ false → s ≤ t → in_cooldown o t ≡ false
cooldown_grows none s t h le = refl
cooldown_grows (some since) s t h le = ground (arith, h)

latest_same : (c s d : ℕ) (log : List (ℕ × ℕ)) → d ≡ c → latest d ((c, s) ∷ log) ≡ some s
latest_same c s d log same = ground (arith, same)

not-IsSpaced :
    (c s d t : ℕ) (log : List (ℕ × ℕ))
    → d ≡ c
    → t < s + stream_restart_cooldown
    → ¬ IsSpaced ((d, t) ∷ (c, s) ∷ log)
not-IsSpaced c s d t log same close spaced =
    let after : IsLater (some s) t = rw (latest_same c s d log same) at spaced.0 in
    omega (arith, after, close)

passes :
    (cfg : CameraConfig) (made : Bool) (now c : ℕ) (w : Watchdog)
    → in_cooldown (w.last_restart_at c) now ≡ false
    → restart_one_stream cfg made now c w ≡ restart_now cfg made now c w
unfolding restart_one_stream
passes cfg made now c w h = ap (λ b. if b then w else restart_now cfg made now c w) h

waits :
    (cfg : CameraConfig) (made : Bool) (now c : ℕ) (w : Watchdog)
    → in_cooldown (w.last_restart_at c) now ≡ true
    → restart_one_stream cfg made now c w ≡ w
unfolding restart_one_stream
waits cfg made now c w h = ap (λ b. if b then w else restart_now cfg made now c w) h

-- A restart begins a cooldown.
cools :
    (cfg : CameraConfig) (made : Bool) (now c d t : ℕ) (w : Watchdog)
    → d ≡ c
    → t < now + stream_restart_cooldown
    → in_cooldown ((restart_now cfg made now c w).last_restart_at d) t ≡ true
cools cfg made now c d t w same close = ground (arith, same, close)

module _ (cfg : CameraConfig) (r s : CameraReading) (w : Watchdog) where
  abbrev after_first : Watchdog
  after_first = restart_one_stream cfg r.process_starts r.checked_at r.cam_id w

  -- Of two calls of restartOneStream for the same camera, the later one less than 20 seconds after
  -- the other and the cooldown over at both, only the first restarts the camera if it ends before the
  -- second begins. If both read the cooldown before either writes, both restart it, and the restarts
  -- are no longer 20 seconds apart.
  pub overlapping_restarts-unspaced :
      s.cam_id ≡ r.cam_id
      → in_cooldown (w.last_restart_at r.cam_id) r.checked_at ≡ false
      → r.checked_at ≤ s.checked_at
      → s.checked_at < r.checked_at + stream_restart_cooldown
      → ((restart_one_stream cfg s.process_starts s.checked_at s.cam_id after_first).restarts
          ≡ (r.cam_id, r.checked_at) ∷ w.restarts)
        × ((overlapping_restarts cfg r s w).restarts
            ≡ (s.cam_id, s.checked_at) ∷ (r.cam_id, r.checked_at) ∷ w.restarts)
        × ¬ IsSpaced (overlapping_restarts cfg r s w).restarts
  unfolding overlapping_restarts
  overlapping_restarts-unspaced same cooled order close =
      let c = r.cam_id in
      let first = passes cfg r.process_starts r.checked_at c w cooled in
      let still : in_cooldown (w.last_restart_at s.cam_id) s.checked_at ≡ false =
        ap (λ d. in_cooldown (w.last_restart_at d) s.checked_at) same
        ∙ cooldown_grows (w.last_restart_at c) r.checked_at s.checked_at cooled order in
      let again = waits cfg s.process_starts s.checked_at s.cam_id after_first (
        ap (λ u. in_cooldown (u.last_restart_at s.cam_id) s.checked_at) first
        ∙ cools cfg r.process_starts r.checked_at c s.cam_id s.checked_at w same close) in
      let one : after_first.restarts ≡ (c, r.checked_at) ∷ w.restarts =
        ap (λ u. u.restarts) first in
      let two : (overlapping_restarts cfg r s w).restarts
          ≡ (s.cam_id, s.checked_at) ∷ (c, r.checked_at) ∷ w.restarts =
        ap
          (λ b.
            (if b
              then after_first
              else restart_now cfg s.process_starts s.checked_at s.cam_id after_first).restarts)
          still
        ∙ ap (λ log. (s.cam_id, s.checked_at) ∷ log) one in
      (
        ap (λ u. u.restarts) again ∙ one,
        two,
        λ spaced.
            not-IsSpaced c r.checked_at s.cam_id s.checked_at w.restarts same close
              (subst IsSpaced two spaced),
      )
