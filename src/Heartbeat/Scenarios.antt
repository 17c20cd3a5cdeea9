-- ===== src/Heartbeat/Scenarios.antt =====
-- Runs of the scheduler of apps/player/src/core/heartbeat-scheduler.ts.
use mathlib.Core.List.{Memᴰ}
use screen_goblin.Prelude.{
  ℕ, ◌+◌, ◌*◌, ◌≤◌, ◌≡◌, refl, ◌⊎◌, true, false, none, some, List, [], ◌∷◌, min, All, arith,
}
use screen_goblin.Heartbeat.Delay.{
  Sample, api_failure, jitter, failure_delay, jitter_bounds, bound_interval,
}
use screen_goblin.Heartbeat.{
  Turn, Event, starts, fires, rejects, reports, on_rejection, step, run, find_timer, find_flight,
  clear_scheduled_timer, request_run, arm_timer, schedule, start, on_timer, settle, conclude,
  rejection_delay, answer, fired, reported,
}
use screen_goblin.Heartbeat.State.{
  Scheduler, Flight, sending, new_scheduler, drop_timer, drop_flight, report_flight,
}
use screen_goblin.Heartbeat.Ownership.{IsOwned}
use screen_goblin.Heartbeat.Single.{run-new_scheduler-IsOwned}
use screen_goblin.Heartbeat.Flights.{IsSmooth}
use screen_goblin.Heartbeat.Liveness.{run_alive, run_waits, rejection-retry_after}

abbrev half : Sample
half = record { num = 1; den = 2 }

abbrev turn : ℕ → Event → Turn
turn now e = record { now = now; first = half; second = half; event = e }

-- A start, a request refused with a Retry-After of a minute, and its report.
abbrev refused : List Turn
refused =
    turn 1000 (starts true true)
    ∷ turn 2000 (rejects 0 (api_failure true (some 60000)))
    ∷ turn 3000 (reports 0 false)
    ∷ []

abbrev fresh : Scheduler
fresh = new_scheduler none none none

jitter_bounds_example :
    (min 86400000 (900 * 60) ≤ jitter half 60) × (jitter half 60 ≤ min 86400000 (1100 * 60))
jitter_bounds_example = jitter_bounds half 60 (omega arith)

run-new_scheduler-IsOwned_example : IsOwned (run refused fresh)
run-new_scheduler-IsOwned_example = run-new_scheduler-IsOwned none none none refused

refused-IsSmooth : All (λ t. IsSmooth t.event) refused
refused-IsSmooth = (tt, (tt, (tt, tt)))

refused_waits :
    ((run refused fresh).started ≡ true)
    × ((run refused fresh).suspended ≡ false)
    × ((run refused fresh).running ≡ false)
    × ((run refused fresh).not_before ≡ 62000)
unfolding run step new_scheduler start request_run answer find_flight on_rejection rejection_delay
    failure_delay jitter report_flight reported conclude settle drop_flight schedule arm_timer
    clear_scheduled_timer bound_interval
refused_waits = (refl, refl, refl, refl)

run_alive_example :
    ((run refused fresh).running ≡ true) ⊎ ((d : ℕ) × ((run refused fresh).timer_due_at ≡ some d))
run_alive_example =
    run_alive none none none refused refused-IsSmooth refused_waits.0 refused_waits.1

-- The request that the timer sends when the minute is over.
abbrev again : Flight
again = record { handle = 2; aborted = false; stage = sending }

request_leaves :
    Memᴰ again (step 70000 half half (fires 1) (run refused fresh)).flights
    × (find_flight 2 (run refused fresh).flights ≡ none)
unfolding run step new_scheduler start request_run answer find_flight on_rejection rejection_delay
    failure_delay jitter report_flight reported conclude settle drop_flight schedule arm_timer
    clear_scheduled_timer bound_interval fired find_timer on_timer drop_timer
request_leaves = (Memᴰ.head refl, refl)

run_waits_example : ((run refused fresh).running ≡ false) × ((run refused fresh).not_before ≤ 70000)
run_waits_example =
    run_waits none none none refused 70000 half half (fires 1) again refused-IsSmooth tt
      request_leaves.0 request_leaves.1

abbrev sent : Flight
sent = record { handle = 0; aborted = false; stage = sending }

rejection-retry_after_example :
    2000 + 60000
    ≤ (on_rejection 2000 half half sent (api_failure true (some 60000)) fresh).not_before
rejection-retry_after_example = rejection-retry_after 2000 0 60000 half half sent fresh refl
