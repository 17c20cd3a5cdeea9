-- ===== src/Heartbeat/Flights.antt =====
-- apps/player/src/core/heartbeat-scheduler.ts: how a request ends in a scheduler that is not stopped.
use screen_goblin.Prelude.{
  ℕ, ◌≤◌, ◌≡◌, refl, true, false, Option, none, some, List, [], ◌∷◌, arith, length,
}
use screen_goblin.Heartbeat.Delay.{Sample, Reason, jitter, bound_interval}
use screen_goblin.Heartbeat.Single.{settle-IsOwned}
use screen_goblin.Heartbeat.Ownership.{IsOwned, length-report_flight, drop_flight_only}
use screen_goblin.Heartbeat.{
  Event, starts, suspends, resumes, triggers, stops, fires, responds, rejects, reports, find_timer,
  find_flight, settle, conclude, on_response, on_rejection, rejection_delay, answer, fired,
  reported, step,
}
use screen_goblin.Heartbeat.State.{Scheduler, Timer, Flight, sending, reporting, report_flight}
use screen_goblin.Heartbeat.Steady.{
  Unaborted, IsCalm, IsSteady, schedule-IsSteady, catch_up-IsSteady, trigger-IsSteady,
  start-IsSteady, suspend-IsSteady, resume-IsSteady, on_timer-IsSteady,
}

pub find-Unaborted :
    (h : ℕ) (fs : List Flight) (f : Flight)
    → Unaborted fs
    → find_flight h fs ≡ some f
    → f.aborted ≡ false
unfolding find_flight
find-Unaborted h [] f u e = cc
find-Unaborted h (g ∷ fs) f u e = ground (arith, find-Unaborted h fs f)

pub report-Unaborted :
    (h d : ℕ) (fs : List Flight) → Unaborted fs → Unaborted (report_flight h d fs)
unfolding report_flight
report-Unaborted h d [] u = tt
report-Unaborted h d (g ∷ fs) u = ground (arith, report-Unaborted h d fs u.1)

-- The request has been settled, and the next timer is not set yet.
pub settle-IsCalm :
    (h : ℕ) (f : Flight) (s : Scheduler)
    → IsCalm s
    → find_flight h s.flights ≡ some f
    → IsCalm (settle f s)
unfolding settle
settle-IsCalm h f s c e =
    ground
      (arith, settle-IsOwned h f s c.owned e, drop_flight_only h s.flights f, c.owned.one_flight)

pub settle_fields :
    (f : Flight) (s : Scheduler)
    → ((settle f s).running ≡ false) × ((settle f s).immediate_on_resume ≡ s.immediate_on_resume)
unfolding settle
settle_fields f s = (refl, refl)

pub conclude-IsSteady :
    (now h : ℕ) (r : Sample) (f : Flight) (d : ℕ) (s : Scheduler)
    → IsCalm s
    → s.running ≡ true
    → find_flight h s.flights ≡ some f
    → IsSteady (conclude now r f (some d) s)
unfolding conclude
conclude-IsSteady now h r f d s c busy e =
    let t = settle f s in
    let u = record t { wake_pending = false } in
    let calm : IsCalm t = settle-IsCalm h f s c e in
    let calm' : IsCalm u = ground arith in
    ground (
      arith,
      settle_fields f s,
      find-Unaborted h s.flights f c.unaborted e,
      catch_up-IsSteady now r u calm',
      schedule-IsSteady now d false t calm,
    )

pub found_length :
    (h : ℕ) (fs : List Flight) (f : Flight) → find_flight h fs ≡ some f → 1 ≤ length fs
unfolding find_flight
found_length h [] f e = cc
found_length h (g ∷ fs) f e = omega arith

pub flying :
    (h : ℕ) (f : Flight) (s : Scheduler)
    → IsOwned s
    → find_flight h s.flights ≡ some f
    → s.running ≡ true
flying h f s o e = ground (arith, found_length h s.flights f e, o.one_flight)

pub on_response-IsSteady :
    (now h : ℕ) (r q : Sample) (f : Flight) (n : ℕ) (s : Scheduler)
    → IsSteady s
    → find_flight h s.flights ≡ some f
    → IsSteady (on_response now r q f n s)
unfolding on_response
on_response-IsSteady now h r q f n s v e =
    let t = record s { consecutive_failures = 0; not_before = 0; cadence = bound_interval n } in
    let busy : s.running ≡ true = flying h f s v.calm.owned e in
    let calm : IsCalm t = ground arith in
    conclude-IsSteady now h q f (jitter r (bound_interval n)) t calm busy e

pub on_rejection-IsSteady :
    (now h : ℕ) (r q : Sample) (f : Flight) (reason : Reason) (s : Scheduler)
    → IsSteady s
    → find_flight h s.flights ≡ some f
    → IsSteady (on_rejection now r q f reason s)
unfolding on_rejection
on_rejection-IsSteady now h r q f reason s v e =
    let delay = rejection_delay r reason s in
    ground (
      arith,
      find-Unaborted h s.flights f v.calm.unaborted e,
      flying h f s v.calm.owned e,
      report-Unaborted f.handle delay s.flights v.calm.unaborted,
      length-report_flight f.handle delay s.flights,
    )

-- Events of a life without `stop` and without an `onError` that throws.
abbrev pub IsSmooth : Event → Type 0
IsSmooth stops = ⊥
IsSmooth (reports h true) = ⊥
IsSmooth _ = Unit

pub fired-IsSteady :
    (now h : ℕ) (o : Option Timer) (s : Scheduler)
    → IsSteady s
    → find_timer h s.armed ≡ o
    → IsSteady (fired now o s)
unfolding fired
fired-IsSteady now h none s v e = v
fired-IsSteady now h (some t) s v e = on_timer-IsSteady now h t s v e

pub answer-IsSteady :
    (o : Option Flight) (k : Flight → Scheduler) (s : Scheduler)
    → IsSteady s
    → ((f : Flight) → o ≡ some f → IsSteady (k f))
    → IsSteady (answer o k s)
unfolding answer
answer-IsSteady none k s v w = v
answer-IsSteady (some f) k s v w =
    elim f.stage as (λ g. IsSteady (elim g [ sending ↦ k f | reporting d ↦ s ])) [
      | sending ↦ w f refl
      | reporting d ↦ v
    ]

pub reported-IsSteady :
    (now h : ℕ) (r : Sample) (o : Option Flight) (s : Scheduler)
    → IsSteady s
    → find_flight h s.flights ≡ o
    → IsSteady (reported now r false o s)
unfolding reported
reported-IsSteady now h r none s v e = v
reported-IsSteady now h r (some f) s v e =
    elim f.stage
      as (λ g. IsSteady (elim g [ sending ↦ s | reporting d ↦ conclude now r f (some d) s ])) [
        | sending ↦ v
        | reporting d ↦ conclude-IsSteady now h r f d s v.calm (flying h f s v.calm.owned e) e
      ]

pub step-IsSteady :
    (now : ℕ) (r q : Sample) (e : Event) (s : Scheduler)
    → IsSmooth e
    → IsSteady s
    → IsSteady (step now r q e s)
unfolding step
step-IsSteady now r q (starts active immediate) s m v = start-IsSteady now r active immediate s v
step-IsSteady now r q suspends s m v = suspend-IsSteady s v
step-IsSteady now r q resumes s m v = resume-IsSteady now r s v
step-IsSteady now r q triggers s m v = trigger-IsSteady now r s v.calm
step-IsSteady now r q stops s m v = elim m [ ]
step-IsSteady now r q (fires h) s m v = fired-IsSteady now h _ s v refl
step-IsSteady now r q (responds h n) s m v =
    answer-IsSteady _ _ s v (λ f e. on_response-IsSteady now h r q f n s v e)
step-IsSteady now r q (rejects h reason) s m v =
    answer-IsSteady _ _ s v (λ f e. on_rejection-IsSteady now h r q f reason s v e)
step-IsSteady now r q (reports h true) s m v = elim m [ ]
step-IsSteady now r q (reports h false) s m v = reported-IsSteady now h r _ s v refl
