-- ===== src/Heartbeat.antt =====
-- apps/player/src/core/heartbeat-scheduler.ts: the heartbeat scheduler of the player.
-- The timers and requests that the browser holds for the scheduler are part of the state:
-- `armed` are the live timers, `flights` the requests that have not been settled.
use screen_goblin.Prelude.{
  ℕ, suc, ◌+◌, ◌-◌, ◌*◌, ◌/◌, ◌^◌, ◌≡◌, Bool, true, false, not, ◌||◌, ◌&&◌, Option, none, some,
  List, [], ◌∷◌, min, max, ltb, leb, ◌==◌, or_default, is_some, ◌≢◌, if◌then◌else◌,
}
mod Scenarios
pub mod Delay
pub mod State
pub mod Ownership
pub mod Single
pub mod Steady
pub mod Flights
pub mod Requests
pub mod Liveness
use Delay.{
  Sample, Reason, jitter, bound_interval, catch_up_delay, failure_delay, max_timer_delay,
  min_interval, max_interval, api_failure, other_error,
}
use screen_goblin.Heartbeat.State.{
  Config, Timer, Stage, Flight, Scheduler, new_scheduler, drop_timer, drop_flight, abort_flight,
  report_flight, sending, reporting,
}

pub clear_scheduled_timer : Scheduler → Scheduler
clear_scheduled_timer s = elim s.timer [
  | none ↦ s
  | some h ↦ record s { armed = drop_timer h s.armed; timer = none; timer_due_at = none }
]

pub request_run : Scheduler → Scheduler
request_run s = if not s.started || s.suspended || s.running then s else record s {
  running = true;
  controller = some s.fresh;
  flights = record { handle = s.fresh; aborted = false; stage = sending } ∷ s.flights;
  fresh = suc s.fresh;
}

pub cooldown_remaining : ℕ → Scheduler → ℕ
cooldown_remaining now s = s.not_before - now

pub arm_timer : ℕ → ℕ → Scheduler → Scheduler
arm_timer now due_at s = record s {
  timer = some s.fresh;
  armed =
      record {
        handle = s.fresh;
        due_at = due_at;
        fires_at = now + min max_timer_delay (due_at - now);
      }
      ∷ s.armed;
  fresh = suc s.fresh;
}

-- Whether a pull-forward request finds an earlier timer in place.
abbrev pub is_earlier : Option ℕ → ℕ → Bool
is_earlier none due_at = false
is_earlier (some d) due_at = leb d due_at

pub schedule : ℕ → ℕ → Bool → Scheduler → Scheduler
schedule now milliseconds pull_forward_only s =
    let due_at = max (now + milliseconds) s.not_before in
    if not s.started || s.suspended
    then s
    else if pull_forward_only && is_earlier s.timer_due_at due_at
    then s
    else arm_timer now due_at (record (clear_scheduled_timer s) { timer_due_at = some due_at })

pub schedule_catch_up : ℕ → Sample → Scheduler → Scheduler
schedule_catch_up now r s = schedule now (catch_up_delay r s.cadence) true s

pub start : ℕ → Sample → Bool → Bool → Scheduler → Scheduler
start now r active immediate s =
    let t = record s { started = true; suspended = not active; immediate_on_resume = immediate } in
    if s.started
    then s
    else if not active
    then t
    else if immediate
    then request_run (record t { immediate_on_resume = false })
    else schedule_catch_up now r t

pub suspend : Scheduler → Scheduler
suspend s =
    if not s.started
    then s
    else clear_scheduled_timer (record s { suspended = true; wake_pending = false })

pub trigger : ℕ → Sample → Scheduler → Scheduler
trigger now r s =
    if not s.started || s.suspended
    then s
    else if s.running
    then record s { wake_pending = true }
    else schedule_catch_up now r s

pub resume : ℕ → Sample → Scheduler → Scheduler
resume now r s =
    let t = record s { suspended = false } in
    if not s.started
    then s
    else if s.immediate_on_resume && (cooldown_remaining now t == 0)
    then request_run (record t { immediate_on_resume = false })
    else trigger now r t

abbrev pub aborting : Option ℕ → List Flight → List Flight
aborting none fs = fs
aborting (some h) fs = abort_flight h fs

pub stop : Scheduler → Scheduler
stop s =
    let t =
      clear_scheduled_timer
        (record s { started = false; suspended = true; wake_pending = false }) in
    record t {
      flights = aborting t.controller t.flights;
      controller = none;
      immediate_on_resume = false;
    }

pub find_timer : ℕ → List Timer → Option Timer
find_timer h [] = none
find_timer h (t ∷ ts) = if t.handle == h then some t else find_timer h ts

pub find_flight : ℕ → List Flight → Option Flight
find_flight h [] = none
find_flight h (f ∷ fs) = if f.handle == h then some f else find_flight h fs

abbrev pub is_opt : Option ℕ → ℕ → Bool
is_opt none n = false
is_opt (some m) n = m == n

-- The callback of `armTimer`.
pub on_timer : ℕ → Timer → Scheduler → Scheduler
on_timer now t s =
    let u = record s { armed = drop_timer t.handle s.armed; timer = none } in
    if not (is_opt u.timer_due_at t.due_at)
    then u
    else if ltb now t.due_at
    then arm_timer now t.due_at u
    else request_run (record u { timer_due_at = none })

-- The `finally` block of `run`.
pub settle : Flight → Scheduler → Scheduler
settle f s = record s {
  controller = if is_opt s.controller f.handle then none else s.controller;
  running = false;
  flights = drop_flight f.handle s.flights;
}

-- `run` from its `finally` block on.
pub conclude : ℕ → Sample → Flight → Option ℕ → Scheduler → Scheduler
conclude now r f delay s =
    let t = settle f s in
    if not t.started || t.suspended || f.aborted
    then t
    else if t.wake_pending
    then schedule_catch_up now r (record t { wake_pending = false })
    else elim delay [ none ↦ t | some d ↦ schedule now d false t ]

-- `send` resolves with `nextHeartbeatSeconds`, in thousandths.
pub on_response : ℕ → Sample → Sample → Flight → ℕ → Scheduler → Scheduler
on_response now r q f thousandths s =
    let cadence = bound_interval thousandths in
    conclude now q f (some (jitter r cadence))
      (record s { consecutive_failures = 0; not_before = 0; cadence = cadence })

-- Whether the failure is a `PlayerApiFailure` that is not retryable.
abbrev pub is_permanent : Reason → Bool
is_permanent (api_failure retryable after) = not retryable
is_permanent other_error = false

abbrev pub failures_after : Reason → Scheduler → ℕ
failures_after reason s = if is_permanent reason then 0 else suc s.consecutive_failures

-- The delay that the `catch` block chooses.
pub rejection_delay : Sample → Reason → Scheduler → ℕ
rejection_delay r reason s =
    if is_permanent reason
    then jitter r s.cadence
    else failure_delay s.config.retry_base s.config.retry_max (failures_after reason s) r reason

-- `send` rejects; the run then waits for `onError`, unless it was aborted.
pub on_rejection : ℕ → Sample → Sample → Flight → Reason → Scheduler → Scheduler
on_rejection now r q f reason s =
    let delay = rejection_delay r reason s in
    if f.aborted then conclude now q f none s else record s {
      consecutive_failures = failures_after reason s;
      not_before = now + delay;
      flights = report_flight f.handle delay s.flights;
    }

-- What happens to a scheduler: calls of its methods, timers that fire, promises that settle.
pub data Event : Type 0 where
  starts : (active immediate : Bool) → Event
  suspends resumes triggers stops : Event
  fires : (handle : ℕ) → Event
  responds : (handle thousandths : ℕ) → Event
  rejects : (handle : ℕ) (reason : Reason) → Event
  reports : (handle : ℕ) (failed : Bool) → Event

-- A promise settles once: an answer to a request that is not waiting for it changes nothing.
pub answer : Option Flight → (Flight → Scheduler) → Scheduler → Scheduler
answer none k s = s
answer (some f) k s = elim f.stage [ sending ↦ k f | reporting d ↦ s ]

pub fired : ℕ → Option Timer → Scheduler → Scheduler
fired now none s = s
fired now (some t) s = on_timer now t s

pub reported : ℕ → Sample → Bool → Option Flight → Scheduler → Scheduler
reported now r failed none s = s
reported now r failed (some f) s = elim f.stage [
  | sending ↦ s
  | reporting d ↦ if failed then settle f s else conclude now r f (some d) s
]

-- One synchronous turn, at the reading `now` of the clock, with the values that `random` returns.
unfoldable pub step : ℕ → Sample → Sample → Event → Scheduler → Scheduler
step now r q (starts active immediate) s = start now r active immediate s
step now r q suspends s = suspend s
step now r q resumes s = resume now r s
step now r q triggers s = trigger now r s
step now r q stops s = stop s
step now r q (fires h) s = fired now (find_timer h s.armed) s
step now r q (responds h thousandths) s =
    answer (find_flight h s.flights) (λ f. on_response now r q f thousandths s) s
step now r q (rejects h reason) s =
    answer (find_flight h s.flights) (λ f. on_rejection now r q f reason s) s
step now r q (reports h failed) s = reported now r failed (find_flight h s.flights) s

pub record Turn : Type 0 where
  pub now : ℕ
  pub first : Sample
  pub second : Sample
  pub event : Event

unfoldable pub run : List Turn → Scheduler → Scheduler
run [] s = s
run (t ∷ ts) s = run ts (step t.now t.first t.second t.event s)
