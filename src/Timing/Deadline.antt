-- ===== src/Timing/Deadline.antt =====
-- apps/player/src/core/signed-deadline.ts: a signed wall-clock deadline with two timers. The wall
-- timer reads the wall clock, the fail-safe timer counts the time that was left at the start.
-- The watcher's variables and its timers are the state; a timer is kept with its delay. Wall
-- times and delays are in milliseconds, and a time that is past counts as none left.
pub mod Expiry
use screen_goblin.Prelude.{
  ℕ, zero, suc, ◌+◌, ◌-◌, ◌≤◌, ◌<◌, ◌≡◌, refl, ◌⊎◌, inl, inr, Bool, true, false, Option, none, some,
  List, [], ◌∷◌, min, leb, ltb, ◌==◌, if◌then◌else◌, arith,
}

abbrev pub max_wall_clock_check : ℕ
max_wall_clock_check = 30000

abbrev pub max_timer_delay : ℕ
max_timer_delay = 86400000

-- `elapsed` counts the calls of `onElapsed`, `listening` tells if the listeners are attached.
pub record Watcher : Type 0 where
  pub deadline : ℕ
  pub wall_timer : Option ℕ
  pub fail_safe_timer : Option ℕ
  pub fail_safe_remaining : ℕ
  pub finished : Bool
  pub listening : Bool
  pub elapsed : ℕ

unfoldable pub expire : Watcher → Watcher
expire w = if w.finished then w else record w {
  finished = true;
  wall_timer = none;
  fail_safe_timer = none;
  listening = false;
  elapsed = suc w.elapsed;
}

unfoldable pub check_wall_clock : ℕ → Watcher → Watcher
unfolding expire
check_wall_clock now w =
    if w.finished
    then w
    else if leb w.deadline now
    then expire (record w { wall_timer = none })
    else record w { wall_timer = some (min (w.deadline - now) max_wall_clock_check) }

unfoldable pub schedule_fail_safe : Watcher → Watcher
unfolding expire
schedule_fail_safe w =
    if w.finished
    then w
    else if w.fail_safe_remaining == 0
    then expire w
    else record w { fail_safe_timer = some (min w.fail_safe_remaining max_timer_delay) }

-- The callback of the fail-safe timer that was set for `delay`.
unfoldable pub on_fail_safe : ℕ → Watcher → Watcher
unfolding schedule_fail_safe
on_fail_safe delay w =
    schedule_fail_safe
      (record w { fail_safe_timer = none; fail_safe_remaining = w.fail_safe_remaining - delay })

-- `watchSignedDeadline`, with the readings of the clock at its start and at its first check.
unfoldable pub watch_signed_deadline : ℕ → ℕ → ℕ → Watcher
unfolding check_wall_clock schedule_fail_safe
watch_signed_deadline deadline start now = schedule_fail_safe (
    check_wall_clock now (record {
      deadline = deadline;
      wall_timer = none;
      fail_safe_timer = none;
      fail_safe_remaining = deadline - start;
      finished = false;
      listening = true;
      elapsed = 0;
    }))

-- The function that `watchSignedDeadline` returns.
unfoldable pub cancel : Watcher → Watcher
cancel w =
    if w.finished
    then w
    else record w { finished = true; wall_timer = none; fail_safe_timer = none; listening = false }

-- `looks` is the wall timer or a lifecycle event at a wall time, `counts` the fail-safe timer.
pub data Event : Type 0 where
  looks : ℕ → Event
  counts cancels : Event

unfoldable pub step : Event → Watcher → Watcher
unfolding check_wall_clock on_fail_safe cancel
step (looks now) w = check_wall_clock now w
step counts w = elim w.fail_safe_timer [ none ↦ w | some delay ↦ on_fail_safe delay w ]
step cancels w = cancel w

unfoldable pub run : List Event → Watcher → Watcher
run [] w = w
run (e ∷ es) w = run es (step e w)
