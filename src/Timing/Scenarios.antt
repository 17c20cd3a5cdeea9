-- ===== src/Timing/Scenarios.antt =====
-- Runs of the timers of apps/player/src/core: signed-deadline.ts, single-flight.ts, uptime.ts.
use screen_goblin.Prelude.{◌≡◌, ◌↔◌, ◌⊎◌, true, List, [], ◌∷◌, arith}
use screen_goblin.Timing.Deadline.{
  Watcher, looks, counts, max_timer_delay, watch_signed_deadline, check_wall_clock,
  schedule_fail_safe,
}
use screen_goblin.Timing.Deadline as Deadline
use screen_goblin.Timing.Deadline.Expiry.{IsDone, IsWatching, run_once, run_fail_safe}
use screen_goblin.Timing.SingleFlight as SingleFlight
use screen_goblin.Timing.Uptime.{Rising, readings, create_monotonic_uptime, readings-Rising}

-- A deadline an hour ahead, watched while the wall clock is set back.
abbrev set_back : List Deadline.Event
set_back = looks 1000 ∷ looks 0 ∷ looks 3000000 ∷ []

run_once_example :
    IsDone (Deadline.run set_back (watch_signed_deadline 3600000 0 0))
    ⊎ IsWatching (Deadline.run set_back (watch_signed_deadline 3600000 0 0))
run_once_example = run_once 3600000 0 0 set_back

run_fail_safe_example :
    IsDone (Deadline.run (looks 0 ∷ counts ∷ []) (watch_signed_deadline 3600000 0 0))
run_fail_safe_example = run_fail_safe 3600000 0 0 (looks 0 ∷ counts ∷ []) (omega arith)

run-IsSingle_example :
    SingleFlight.IsSingle
      (SingleFlight.run (SingleFlight.invoked ∷ SingleFlight.invoked ∷ []) SingleFlight.new_flight)
    × (((SingleFlight.begin (
            SingleFlight.run
              (SingleFlight.invoked ∷ SingleFlight.invoked ∷ [])
              SingleFlight.new_flight)).1
          ≡ true)
        ↔ ((SingleFlight.run
              (SingleFlight.invoked ∷ SingleFlight.invoked ∷ [])
              SingleFlight.new_flight).pending
            ≡ 0))
run-IsSingle_example = SingleFlight.run-IsSingle (SingleFlight.invoked ∷ SingleFlight.invoked ∷ [])

readings-Rising_example :
    Rising 0 (readings (5000 ∷ 2000 ∷ 9000 ∷ []) (create_monotonic_uptime 1000))
readings-Rising_example = readings-Rising 1000 (5000 ∷ 2000 ∷ 9000 ∷ [])
