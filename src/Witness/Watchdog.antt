-- ===== src/Witness/Watchdog.antt =====
-- The watchdog of camera/streamer_watchdog.go, at concrete inputs.
use uavlink_edge.Common.{List, Option, [], arith, false, none, refl, some, true, ℕ, ◌*◌, ◌∷◌, ◌≡◌}
use uavlink_edge.Camera.Watchdog.{
  CameraConfig, CameraReading, StreamStats, Watchdog, WatchdogEvent, apply_watchdog_event,
  check_stream, exits, health_checks, is_streamer_running, on_streamer_exited, overlapping_restarts,
  procs_change, restart_one_stream, run_stream_health_check, run_watchdog,
}
use uavlink_edge.Camera.Watchdog.Laws.{
  IsPaced, IsSpaced, overlapping_restarts-unspaced, run_watchdog-IsPaced,
}
use uavlink_edge.Link.Step.{second}

abbrev camera_config : CameraConfig
camera_config = record {
  camera_enabled = true;
  skip_missing_sensors = false;
  streams = record { camera_id = 1; stream_enabled = true } ∷ [];
}

abbrev read_at : ℕ → Option StreamStats → CameraReading
read_at now st = record {
  cam_id = 1;
  has_sensor = true;
  stats = st;
  checked_at = now * second;
  process_starts = true;
}

abbrev low : Option StreamStats
low = some (record { is_stale = false; is_low = true })

abbrev idle : Watchdog
idle = record {
  streamer_procs = [];
  last_restart_at = λ _. none;
  low_fps_streak = λ _. 0;
  restarts = [];
}

idle-IsPaced : IsPaced idle
idle-IsPaced = record { tracked = λ c. refl; spaced = tt }

-- Started at 12, and restarted at the third low reading; the exit at 52 comes too early.
abbrev minute : List WatchdogEvent
minute =
    health_checks camera_config (read_at 12 none ∷ [])
    ∷ health_checks camera_config (read_at 24 low ∷ [])
    ∷ health_checks camera_config (read_at 36 low ∷ [])
    ∷ health_checks camera_config (read_at 48 low ∷ [])
    ∷ procs_change []
    ∷ exits camera_config false (read_at 52 none)
    ∷ []

minute_runs : (run_watchdog minute idle).restarts ≡ (1, 48 * second) ∷ (1, 12 * second) ∷ []
unfolding run_watchdog apply_watchdog_event run_stream_health_check check_stream restart_one_stream
    on_streamer_exited is_streamer_running
minute_runs = refl

run_watchdog-IsPaced_example : IsPaced (run_watchdog minute idle)
run_watchdog-IsPaced_example = run_watchdog-IsPaced minute idle idle-IsPaced

overlapping_restarts-unspaced_example :
    ((restart_one_stream camera_config true
        (3 * second)
        1
        (restart_one_stream camera_config true (2 * second) 1 idle)).restarts
      ≡ (1, 2 * second) ∷ [])
    × ((overlapping_restarts camera_config (read_at 2 none) (read_at 3 none) idle).restarts
        ≡ (1, 3 * second) ∷ (1, 2 * second) ∷ [])
    × ¬ IsSpaced
        (overlapping_restarts camera_config (read_at 2 none) (read_at 3 none) idle).restarts
overlapping_restarts-unspaced_example =
    overlapping_restarts-unspaced camera_config (read_at 2 none) (read_at 3 none) idle refl refl
      (omega arith) (omega arith)
