-- ===== src/Heartbeat/Liveness.antt =====
-- apps/player/src/core/heartbeat-scheduler.ts: a started scheduler keeps going, and no request
-- leaves before the cool-down is over, as long as it is not stopped and `onError` does not throw.
use mathlib.Core.List.{Memᴰ}
use mathlib.Core.List.Memᴰ.{not-nil}
use screen_goblin.Prelude.{
  ℕ, suc, ◌+◌, ◌≤◌, ◌≡◌, refl, ap, Bool, true, false, not, Option, none, some, List, [], ◌∷◌, All,
  arith, length, ◌⊎◌, inl, inr, Option-cases,
}
use screen_goblin.Heartbeat.Delay.{Sample, api_failure, failure_delay-retry_after}
use screen_goblin.Heartbeat.Single.{due_only, new_scheduler-IsOwned}
use screen_goblin.Heartbeat.Ownership.{IsOwned, dues, find_timer_only}
use screen_goblin.Heartbeat.{
  Event, Turn, starts, suspends, resumes, triggers, stops, fires, responds, rejects, reports,
  find_timer, find_flight, arm_timer, schedule, schedule_catch_up, start, suspend, resume, trigger,
  on_timer, on_rejection, rejection_delay, answer, fired, reported, cooldown_remaining, step, run,
}
use screen_goblin.Heartbeat.State.{Scheduler, Timer, Flight, new_scheduler}
use screen_goblin.Heartbeat.Steady.{clear_fields, IsSteady}
use screen_goblin.Heartbeat.Requests.{step-Keeps, Keeps-found}
use screen_goblin.Heartbeat.Flights.{flying, IsSmooth, step-IsSteady}

run-IsSteady :
    (ts : List Turn) (s : Scheduler)
    → All (λ t. IsSmooth t.event) ts
    → IsSteady s
    → IsSteady (run ts s)
unfolding run
run-IsSteady [] s m v = v
run-IsSteady (t ∷ ts) s m v =
    run-IsSteady ts (step t.now t.first t.second t.event s) m.1
      (step-IsSteady t.now t.first t.second t.event s m.0 v)

new_scheduler-IsSteady : (initial base cap : Option ℕ) → IsSteady (new_scheduler initial base cap)
unfolding new_scheduler
new_scheduler-IsSteady initial base cap = ground (arith, new_scheduler-IsOwned initial base cap)

-- After any events but `stop` and a throwing `onError`, a scheduler that is started and not
-- suspended has a request in flight or a timer set: it never falls silent.
pub run_alive :
    (initial base cap : Option ℕ) (ts : List Turn)
    → All (λ t. IsSmooth t.event) ts
    → (run ts (new_scheduler initial base cap)).started ≡ true
    → (run ts (new_scheduler initial base cap)).suspended ≡ false
    → ((run ts (new_scheduler initial base cap)).running ≡ true)
      ⊎ ((d : ℕ) × ((run ts (new_scheduler initial base cap)).timer_due_at ≡ some d))
run_alive initial base cap ts m a b =
    let s = run ts (new_scheduler initial base cap) in
    let v =
      run-IsSteady ts (new_scheduler initial base cap) m
        (new_scheduler-IsSteady initial base cap) in
    elim (Option-cases s.timer_due_at) [ inl e ↦ inl (ground (arith, v.alive a b)) | inr d ↦ inr d ]

schedule_catch_up_running :
    (now : ℕ) (r : Sample) (s : Scheduler) → (schedule_catch_up now r s).running ≡ s.running
unfolding schedule_catch_up schedule arm_timer
schedule_catch_up_running now r s = ground (arith, clear_fields s)

trigger_running : (now : ℕ) (r : Sample) (s : Scheduler) → (trigger now r s).running ≡ s.running
unfolding trigger
trigger_running now r s = ground (arith, schedule_catch_up_running now r s)

start_waits :
    (now : ℕ) (r : Sample) (active immediate : Bool) (s : Scheduler)
    → IsSteady s
    → s.running ≡ false
    → (start now r active immediate s).running ≡ true
    → s.not_before ≤ now
unfolding start
start_waits now r active immediate s v idle went =
    let t = record s { started = true; suspended = not active; immediate_on_resume = immediate } in
    ground (arith, schedule_catch_up_running now r t)

suspend_running : (s : Scheduler) → (suspend s).running ≡ s.running
unfolding suspend
suspend_running s =
    ground (arith, clear_fields (record s { suspended = true; wake_pending = false }))

resume_waits :
    (now : ℕ) (r : Sample) (s : Scheduler)
    → s.running ≡ false
    → (resume now r s).running ≡ true
    → s.not_before ≤ now
unfolding resume cooldown_remaining
resume_waits now r s idle went =
    ground (arith, trigger_running now r (record s { suspended = false }))

on_timer_waits :
    (now h : ℕ) (t : Timer) (s : Scheduler)
    → IsSteady s
    → find_timer h s.armed ≡ some t
    → s.running ≡ false
    → (on_timer now t s).running ≡ true
    → s.not_before ≤ now
unfolding on_timer arm_timer
on_timer_waits now h t s v e idle went =
    let only : s.armed ≡ t ∷ [] = find_timer_only h s.armed t s.timer e v.calm.owned.timer_known in
    let due : s.timer_due_at ≡ some t.due_at =
      due_only t s.timer_due_at (ap dues only) v.calm.owned.due_known in
    ground arith

fired_waits :
    (now h : ℕ) (o : Option Timer) (s : Scheduler)
    → IsSteady s
    → find_timer h s.armed ≡ o
    → s.running ≡ false
    → (fired now o s).running ≡ true
    → s.not_before ≤ now
unfolding fired
fired_waits now h none s v e idle went = cc
fired_waits now h (some t) s v e idle went = on_timer_waits now h t s v e idle went

-- No request is waiting, so an answer changes nothing.
idle_flight :
    (h : ℕ) (o : Option Flight) (s : Scheduler)
    → IsOwned s
    → s.running ≡ false
    → find_flight h s.flights ≡ o
    → o ≡ none
idle_flight h none s v idle e = refl
idle_flight h (some f) s v idle e = cc (flying h f s v e)

-- A request that leaves, by `start`, `resume` or a timer, leaves when the cool-down is over.
step_waits :
    (now : ℕ) (r q : Sample) (e : Event) (s : Scheduler)
    → IsSmooth e
    → IsSteady s
    → s.running ≡ false
    → (step now r q e s).running ≡ true
    → s.not_before ≤ now
unfolding step answer reported
step_waits now r q (starts active immediate) s m v idle went =
    start_waits now r active immediate s v idle went
step_waits now r q suspends s m v idle went = cc (suspend_running s)
step_waits now r q resumes s m v idle went = resume_waits now r s idle went
step_waits now r q triggers s m v idle went = cc (trigger_running now r s)
step_waits now r q stops s m v idle went = elim m [ ]
step_waits now r q (fires h) s m v idle went = fired_waits now h _ s v refl idle went
step_waits now r q (responds h n) s m v idle went =
    ground (arith, idle_flight h (find_flight h s.flights) s v.calm.owned idle refl)
step_waits now r q (rejects h reason) s m v idle went =
    ground (arith, idle_flight h (find_flight h s.flights) s v.calm.owned idle refl)
step_waits now r q (reports h failed) s m v idle went =
    ground (arith, idle_flight h (find_flight h s.flights) s v.calm.owned idle refl)

empty_idle : (fs : List Flight) (f : Flight) → length fs ≡ 0 → Memᴰ f fs → ⊥
empty_idle [] f e m = not-nil m
empty_idle (g ∷ fs) f e m = absurd (omega arith)

-- A request that is new after a turn has been sent by a scheduler that had none.
new_request_waits :
    (now : ℕ) (r q : Sample) (e : Event) (f : Flight) (s : Scheduler) (before after : Bool)
    → IsSmooth e
    → IsSteady s
    → s.running ≡ before
    → (step now r q e s).running ≡ after
    → Memᴰ f (step now r q e s).flights
    → find_flight f.handle s.flights ≡ none
    → (s.running ≡ false) × (s.not_before ≤ now)
new_request_waits now r q e f s true after m v b a n new =
    absurd (Keeps-found f s.flights _ (step-Keeps now r q e s m v b) n new)
new_request_waits now r q e f s false true m v b a n new = (b, step_waits now r q e s m v b a)
new_request_waits now r q e f s false false m v b a n new = absurd (
    empty_idle (step now r q e s).flights f
      (ground (arith, a, (step-IsSteady now r q e s m v).calm.owned.one_flight)) n)

-- After any events but `stop` and a throwing `onError`, a request that the next event adds to those
-- in flight is sent only when none is in flight, and at a time that has reached `notBefore`, the
-- end of the cool-down after a failure.
pub run_waits :
    (initial base cap : Option ℕ) (ts : List Turn) (now : ℕ) (r q : Sample) (e : Event) (f : Flight)
    → All (λ t. IsSmooth t.event) ts
    → IsSmooth e
    → Memᴰ f (step now r q e (run ts (new_scheduler initial base cap))).flights
    → find_flight f.handle (run ts (new_scheduler initial base cap)).flights ≡ none
    → ((run ts (new_scheduler initial base cap)).running ≡ false)
      × ((run ts (new_scheduler initial base cap)).not_before ≤ now)
run_waits initial base cap ts now r q e f m k =
    let s = run ts (new_scheduler initial base cap) in
    new_request_waits now r q e f s s.running (step now r q e s).running k
      (run-IsSteady ts (new_scheduler initial base cap) m (new_scheduler-IsSteady initial base cap))
      refl refl

-- A retryable refusal with a Retry-After, of a request that was not aborted, moves the end of the
-- cool-down at least that far from now.
pub rejection-retry_after :
    (now h ms : ℕ) (r q : Sample) (f : Flight) (s : Scheduler)
    → f.aborted ≡ false
    → now + ms ≤ (on_rejection now r q f (api_failure true (some ms)) s).not_before
unfolding on_rejection rejection_delay
rejection-retry_after now h ms r q f s a = ground (
  arith,
  failure_delay-retry_after s.config.retry_base s.config.retry_max (suc s.consecutive_failures) r
      true ms,
)
