-- ===== src/Heartbeat/Single.antt =====
-- apps/player/src/core/heartbeat-scheduler.ts: every event keeps one timer and one request.
use screen_goblin.Prelude.{
  ℕ, ◌≡◌, refl, ap, Bool, false, Option, none, some, List, [], ◌∷◌, arith, if◌then◌else◌,
}
use screen_goblin.Heartbeat.Delay.{Sample, Reason, jitter, bound_interval}
use screen_goblin.Heartbeat.{
  Event, Turn, starts, suspends, resumes, triggers, stops, fires, responds, rejects, reports,
  find_timer, find_flight, request_run, arm_timer, on_timer, settle, conclude, on_response,
  on_rejection, rejection_delay, answer, fired, reported, step, run,
}
use screen_goblin.Heartbeat.State.{
  Scheduler, Timer, Flight, sending, reporting, new_scheduler, drop_timer,
}
use screen_goblin.Heartbeat.Ownership.{
  to_list, handles, dues, IsOwned, drop_timer_only, drop_flight_only, length-report_flight,
  schedule-IsOwned, schedule_catch_up-IsOwned, trigger-IsOwned, start-IsOwned, suspend-IsOwned,
  resume-IsOwned, stop-IsOwned, find_timer_only,
}

pub due_only :
    {ds : List ℕ} (t : Timer) (o : Option ℕ)
    → ds ≡ t.due_at ∷ []
    → ds ≡ to_list o
    → o ≡ some t.due_at
due_only t none e k = cc
due_only t (some d) e k = cc

pub on_timer-IsOwned :
    (now h : ℕ) (t : Timer) (s : Scheduler)
    → IsOwned s
    → find_timer h s.armed ≡ some t
    → IsOwned (on_timer now t s)
unfolding on_timer arm_timer request_run
on_timer-IsOwned now h t s v e =
    let only : s.armed ≡ t ∷ [] = find_timer_only h s.armed t s.timer e v.timer_known in
    let gone : drop_timer t.handle s.armed ≡ [] =
      drop_timer_only t.handle s.armed (ap handles only) in
    let due : s.timer_due_at ≡ some t.due_at =
      due_only t s.timer_due_at (ap dues only) v.due_known in
    ground arith

pub settle-IsOwned :
    (h : ℕ) (f : Flight) (s : Scheduler)
    → IsOwned s
    → find_flight h s.flights ≡ some f
    → IsOwned (settle f s)
unfolding settle
settle-IsOwned h f s v e = ground (arith, drop_flight_only h s.flights f)

pub conclude-IsOwned :
    (now h : ℕ) (r : Sample) (f : Flight) (delay : Option ℕ) (s : Scheduler)
    → IsOwned s
    → find_flight h s.flights ≡ some f
    → IsOwned (conclude now r f delay s)
unfolding conclude
conclude-IsOwned now h r f delay s v e =
    let t = settle f s in
    let w : IsOwned t = settle-IsOwned h f s v e in
    let woken =
      schedule_catch_up-IsOwned now r (record t { wake_pending = false }) (ground arith) in
    elim delay as (λ o. IsOwned (conclude now r f o s)) [
      | none ↦ ground (arith, w, woken)
      | some d ↦ ground (arith, w, woken, schedule-IsOwned now d false t w)
    ]

on_response-IsOwned :
    (now h : ℕ) (r q : Sample) (f : Flight) (n : ℕ) (s : Scheduler)
    → IsOwned s
    → find_flight h s.flights ≡ some f
    → IsOwned (on_response now r q f n s)
unfolding on_response
on_response-IsOwned now h r q f n s v e =
    let t = record s { consecutive_failures = 0; not_before = 0; cadence = bound_interval n } in
    conclude-IsOwned now h q f (some (jitter r (bound_interval n))) t (ground arith) e

on_rejection-IsOwned :
    (now h : ℕ) (r q : Sample) (f : Flight) (reason : Reason) (s : Scheduler)
    → IsOwned s
    → find_flight h s.flights ≡ some f
    → IsOwned (on_rejection now r q f reason s)
unfolding on_rejection
on_rejection-IsOwned now h r q f reason s v e = ground (
  arith,
  conclude-IsOwned now h q f none s v e,
  length-report_flight f.handle (rejection_delay r reason s) s.flights,
)

fired-IsOwned :
    (now h : ℕ) (o : Option Timer) (s : Scheduler)
    → IsOwned s
    → find_timer h s.armed ≡ o
    → IsOwned (fired now o s)
unfolding fired
fired-IsOwned now h none s v e = v
fired-IsOwned now h (some t) s v e = on_timer-IsOwned now h t s v e

answer-IsOwned :
    (o : Option Flight) (k : Flight → Scheduler) (s : Scheduler)
    → IsOwned s
    → ((f : Flight) → o ≡ some f → IsOwned (k f))
    → IsOwned (answer o k s)
unfolding answer
answer-IsOwned none k s v w = v
answer-IsOwned (some f) k s v w =
    elim f.stage as (λ g. IsOwned (elim g [ sending ↦ k f | reporting d ↦ s ])) [
      | sending ↦ w f refl
      | reporting d ↦ v
    ]

reported-IsOwned :
    (now h : ℕ) (r : Sample) (failed : Bool) (o : Option Flight) (s : Scheduler)
    → IsOwned s
    → find_flight h s.flights ≡ o
    → IsOwned (reported now r failed o s)
unfolding reported
reported-IsOwned now h r failed none s v e = v
reported-IsOwned now h r failed (some f) s v e =
    elim f.stage
      as (λ g. IsOwned (elim g [
        | sending ↦ s
        | reporting d ↦ if failed then settle f s else conclude now r f (some d) s
      ])) [
        | sending ↦ v
        | reporting d ↦
            ground (arith, settle-IsOwned h f s v e, conclude-IsOwned now h r f (some d) s v e)
      ]

-- Each event keeps the timer and the request single.
pub step-IsOwned :
    (now : ℕ) (r q : Sample) (e : Event) (s : Scheduler) → IsOwned s → IsOwned (step now r q e s)
unfolding step
step-IsOwned now r q (starts active immediate) s v = start-IsOwned now r active immediate s v
step-IsOwned now r q suspends s v = suspend-IsOwned s v
step-IsOwned now r q resumes s v = resume-IsOwned now r s v
step-IsOwned now r q triggers s v = trigger-IsOwned now r s v
step-IsOwned now r q stops s v = stop-IsOwned s v
step-IsOwned now r q (fires h) s v = fired-IsOwned now h _ s v refl
step-IsOwned now r q (responds h n) s v =
    answer-IsOwned _ _ s v (λ f e. on_response-IsOwned now h r q f n s v e)
step-IsOwned now r q (rejects h reason) s v =
    answer-IsOwned _ _ s v (λ f e. on_rejection-IsOwned now h r q f reason s v e)
step-IsOwned now r q (reports h failed) s v = reported-IsOwned now h r failed _ s v refl

run-IsOwned : (ts : List Turn) (s : Scheduler) → IsOwned s → IsOwned (run ts s)
unfolding run
run-IsOwned [] s v = v
run-IsOwned (t ∷ ts) s v =
    run-IsOwned ts (step t.now t.first t.second t.event s)
      (step-IsOwned t.now t.first t.second t.event s v)

pub new_scheduler-IsOwned : (initial base cap : Option ℕ) → IsOwned (new_scheduler initial base cap)
unfolding new_scheduler
new_scheduler-IsOwned initial base cap = record {
  timer_known = refl;
  due_known = refl;
  one_flight = refl;
}

-- Whatever happens to a new scheduler, it holds at most one live timer, the one that it
-- remembers with its due time, and exactly one request while `running` and none otherwise.
pub run-new_scheduler-IsOwned :
    (initial base cap : Option ℕ) (ts : List Turn)
    → IsOwned (run ts (new_scheduler initial base cap))
run-new_scheduler-IsOwned initial base cap ts =
    run-IsOwned ts _ (new_scheduler-IsOwned initial base cap)
