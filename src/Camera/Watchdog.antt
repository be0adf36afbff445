-- ===== src/Camera/Watchdog.antt =====
-- runStreamHealthCheck, restartOneStream, stopStreamerForCamera, isStreamerRunningForCamera and
-- onStreamerExited of camera/streamer_watchdog.go. What they read is an argument: the clock, once in
-- a call of restartOneStream, whether the sensor is there, the statistics, and whether
-- startStreamForConfig starts a process, which then stands in streamerProcs. The sleeps, the
-- configuration files of the streamers and the ticker are not modelled. The code holds no lock for
-- lastRestartAt, and restartOneStream is called from the loop and from a goroutine for each process
-- that exits: the events here are made one after the other, and overlapping_restarts is two calls that
-- both pass the cooldown before either writes.
pub mod Laws
use uavlink_edge.Common.{
  Bool, List, Option, [], false, if◌then◌else◌, leb, ltb, none, not, some, true, ℕ, ◌&&◌, ◌*◌, ◌++◌,
  ◌+◌, ◌==◌, ◌||◌, ◌∷◌,
}
use uavlink_edge.Link.Step.{second}

-- A streamerProc, with no ProcessState as long as it is alive.
pub record StreamerProc : Type 0 where
  pub proc_camera : ℕ
  pub alive : Bool

-- The statistics of a stream: AgeSec is above 18, and FPSWindow is above 0 and below 16.
pub record StreamStats : Type 0 where
  pub is_stale : Bool
  pub is_low : Bool

pub record StreamConfig : Type 0 where
  pub camera_id : ℕ
  pub stream_enabled : Bool

pub record CameraConfig : Type 0 where
  pub camera_enabled : Bool
  pub skip_missing_sensors : Bool
  pub streams : List StreamConfig

-- What a check finds for a camera.
pub record CameraReading : Type 0 where
  pub cam_id : ℕ
  pub has_sensor : Bool
  pub stats : Option StreamStats
  pub checked_at : ℕ
  pub process_starts : Bool

-- The variables of the file with streamerProcs, and the restarts, the latest first: the camera and
-- the time that lastRestartAt has for it.
pub record Watchdog : Type 0 where
  pub streamer_procs : List StreamerProc
  pub last_restart_at : ℕ → Option ℕ
  pub low_fps_streak : ℕ → ℕ
  pub restarts : List (ℕ × ℕ)

abbrev pub stream_restart_cooldown : ℕ
stream_restart_cooldown = 20 * second

abbrev pub set_at : {A : Type 0} → ℕ → A → (ℕ → A) → ℕ → A
set_at c v f d = if d == c then v else f d

unfoldable pub is_streamer_running : ℕ → List StreamerProc → Bool
is_streamer_running c [] = false
is_streamer_running c (p ∷ ps) = (p.proc_camera == c && p.alive) || is_streamer_running c ps

-- stopStreamerForCamera
abbrev pub stop_streamer : ℕ → List StreamerProc → List StreamerProc
stop_streamer c [] = []
stop_streamer c (p ∷ ps) = if p.proc_camera == c then stop_streamer c ps else p ∷ stop_streamer c ps

abbrev pub start_streamer : Bool → ℕ → List StreamerProc → List StreamerProc
start_streamer false c ps = ps
start_streamer true c ps = ps ++ record { proc_camera = c; alive = true } ∷ []

abbrev pub has_stream : ℕ → List StreamConfig → Bool
has_stream c [] = false
has_stream c (s ∷ ss) = (s.camera_id == c && s.stream_enabled) || has_stream c ss

abbrev pub in_cooldown : Option ℕ → ℕ → Bool
in_cooldown none now = false
in_cooldown (some since) now = ltb now (since + stream_restart_cooldown)

-- time.Since of the last restart is above the cooldown; without one it is the age of the zero time.
abbrev pub past_cooldown : Option ℕ → ℕ → Bool
past_cooldown none now = true
past_cooldown (some since) now = ltb (since + stream_restart_cooldown) now

-- restartOneStream from the cooldown on.
abbrev pub restart_now : CameraConfig → Bool → ℕ → ℕ → Watchdog → Watchdog
restart_now cfg made now c w = record {
  streamer_procs =
      if has_stream c cfg.streams
      then start_streamer made c (stop_streamer c w.streamer_procs)
      else w.streamer_procs;
  last_restart_at = set_at c (some now) w.last_restart_at;
  low_fps_streak = set_at c 0 w.low_fps_streak;
  restarts = (c, now) ∷ w.restarts;
}

unfoldable pub restart_one_stream : CameraConfig → Bool → ℕ → ℕ → Watchdog → Watchdog
restart_one_stream cfg made now c w =
    if in_cooldown (w.last_restart_at c) now then w else restart_now cfg made now c w

-- Two calls of restartOneStream that read the cooldown before either of them writes.
unfoldable pub overlapping_restarts :
    CameraConfig → CameraReading → CameraReading → Watchdog → Watchdog
overlapping_restarts cfg r s w =
    let first = restart_one_stream cfg r.process_starts r.checked_at r.cam_id w in
    if in_cooldown (w.last_restart_at s.cam_id) s.checked_at
    then first
    else restart_now cfg s.process_starts s.checked_at s.cam_id first

abbrev pub set_streak : ℕ → ℕ → Watchdog → Watchdog
set_streak c n w = record w { low_fps_streak = set_at c n w.low_fps_streak }

abbrev pub check_low : CameraConfig → CameraReading → Watchdog → Watchdog
check_low cfg r w =
    let streak = w.low_fps_streak r.cam_id + 1 in
    let counted = set_streak r.cam_id streak w in
    if leb 3 streak
    then restart_one_stream cfg r.process_starts r.checked_at r.cam_id counted
    else counted

abbrev pub check_stats : CameraConfig → CameraReading → Option StreamStats → Watchdog → Watchdog
check_stats cfg r none w =
    if past_cooldown (w.last_restart_at r.cam_id) r.checked_at
    then restart_one_stream cfg r.process_starts r.checked_at r.cam_id w
    else w
check_stats cfg r (some st) w =
    if st.is_stale
    then restart_one_stream cfg r.process_starts r.checked_at r.cam_id w
    else if st.is_low
    then check_low cfg r w
    else set_streak r.cam_id 0 w

unfoldable pub check_stream : CameraConfig → CameraReading → Watchdog → Watchdog
check_stream cfg r w =
    if cfg.skip_missing_sensors && not r.has_sensor
    then w
    else if is_streamer_running r.cam_id w.streamer_procs
    then check_stats cfg r r.stats w
    else restart_one_stream cfg r.process_starts r.checked_at r.cam_id w

abbrev pub check_streams : CameraConfig → List CameraReading → Watchdog → Watchdog
check_streams cfg [] w = w
check_streams cfg (r ∷ rs) w = check_streams cfg rs (check_stream cfg r w)

-- The readings are those of enabledStreamsSorted, in its order.
unfoldable pub run_stream_health_check : CameraConfig → List CameraReading → Watchdog → Watchdog
run_stream_health_check cfg rs w = if cfg.camera_enabled then check_streams cfg rs w else w

-- onStreamerExited, after its wait of 2 seconds.
unfoldable pub on_streamer_exited : CameraConfig → Bool → CameraReading → Watchdog → Watchdog
on_streamer_exited cfg suppressed r w =
    if not cfg.camera_enabled
    then w
    else if suppressed || is_streamer_running r.cam_id w.streamer_procs
    then w
    else restart_one_stream cfg r.process_starts r.checked_at r.cam_id w

-- A tick, the exit of a process, and any other change of streamerProcs.
pub data WatchdogEvent : Type 0 where
  health_checks : CameraConfig → List CameraReading → WatchdogEvent
  exits : CameraConfig → Bool → CameraReading → WatchdogEvent
  procs_change : List StreamerProc → WatchdogEvent

unfoldable pub apply_watchdog_event : WatchdogEvent → Watchdog → Watchdog
apply_watchdog_event (health_checks cfg rs) w = run_stream_health_check cfg rs w
apply_watchdog_event (exits cfg suppressed r) w = on_streamer_exited cfg suppressed r w
apply_watchdog_event (procs_change ps) w = record w { streamer_procs = ps }

unfoldable pub run_watchdog : List WatchdogEvent → Watchdog → Watchdog
run_watchdog [] w = w
run_watchdog (e ∷ es) w = run_watchdog es (apply_watchdog_event e w)
