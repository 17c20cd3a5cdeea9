-- ===== src/Heartbeat/Requests.antt =====
-- apps/player/src/core/heartbeat-scheduler.ts: the requests that a busy scheduler leaves in flight.
use mathlib.Core.List.{Memᴰ}
use mathlib.Core.List.Memᴰ.{cases_cons, not-nil}
use screen_goblin.Prelude.{
  ℕ, ◌≡◌, refl, ap, subst, inl, inr, Bool, true, false, Option, none, some, List, [], ◌∷◌, ◌==◌,
  ◌∙◌, if◌then◌else◌, arith,
}
use screen_goblin.Heartbeat.Delay.{Sample, Reason}
use screen_goblin.Heartbeat.Ownership.{drop_flight_only}
use screen_goblin.Heartbeat.Flights.{IsSmooth, find-Unaborted}
use screen_goblin.Heartbeat.Steady.{IsSteady, clear_fields}
use screen_goblin.Heartbeat.State.{
  Scheduler, Timer, Flight, drop_flight, report_flight, sending, reporting,
}
use screen_goblin.Heartbeat.{
  Event, starts, suspends, resumes, triggers, stops, fires, responds, rejects, reports, find_flight,
  settle, arm_timer, request_run, schedule, schedule_catch_up, start, suspend, resume, trigger,
  on_timer, conclude, on_response, on_rejection, rejection_delay, answer, fired, reported, step,
}

-- The requests are those that were in flight, or none, or one of them has moved on.
pub data Keeps (before : List Flight) : List Flight → Type 0 where
  same : {after : List Flight} → after ≡ before → Keeps before after
  gone : {after : List Flight} → after ≡ [] → Keeps before after
  moved : {after : List Flight} (h d : ℕ) → after ≡ report_flight h d before → Keeps before after

abbrev StillIn : Scheduler → Scheduler → Type 0
StillIn s t = Keeps s.flights t.flights

schedule_flights :
    (now ms : ℕ) (forward : Bool) (s : Scheduler) → (schedule now ms forward s).flights ≡ s.flights
unfolding schedule arm_timer
schedule_flights now ms forward s = ground (arith, clear_fields s)

catch_up_flights :
    (now : ℕ) (r : Sample) (s : Scheduler) → (schedule_catch_up now r s).flights ≡ s.flights
unfolding schedule_catch_up
catch_up_flights now r s = schedule_flights now _ true s

trigger_flights : (now : ℕ) (r : Sample) (s : Scheduler) → (trigger now r s).flights ≡ s.flights
unfolding trigger
trigger_flights now r s = ground (arith, catch_up_flights now r s)

start_flights :
    (now : ℕ) (r : Sample) (active immediate : Bool) (s : Scheduler)
    → IsSteady s
    → s.running ≡ true
    → (start now r active immediate s).flights ≡ s.flights
unfolding start
start_flights now r active immediate s v busy = ground arith

suspend_flights : (s : Scheduler) → (suspend s).flights ≡ s.flights
unfolding suspend
suspend_flights s =
    ground (arith, clear_fields (record s { suspended = true; wake_pending = false }))

resume_flights :
    (now : ℕ) (r : Sample) (s : Scheduler) → s.running ≡ true → (resume now r s).flights ≡ s.flights
unfolding resume request_run
resume_flights now r s busy = ground (arith, trigger_flights now r (record s { suspended = false }))

fired_flights :
    (now : ℕ) (o : Option Timer) (s : Scheduler)
    → s.running ≡ true
    → (fired now o s).flights ≡ s.flights
unfolding fired on_timer arm_timer request_run
fired_flights now none s busy = refl
fired_flights now (some t) s busy = ground arith

conclude_flights :
    (now : ℕ) (r : Sample) (f : Flight) (delay : Option ℕ) (s : Scheduler)
    → (conclude now r f delay s).flights ≡ drop_flight f.handle s.flights
unfolding conclude settle
conclude_flights now r f none s =
    ground (arith, catch_up_flights now r (record (settle f s) { wake_pending = false }))
conclude_flights now r f (some d) s = ground (
  arith,
  catch_up_flights now r (record (settle f s) { wake_pending = false }),
  schedule_flights now d false (settle f s),
)

answer-Keeps :
    (o : Option Flight) (k : Flight → Scheduler) (s : Scheduler)
    → ((f : Flight) → o ≡ some f → Keeps s.flights (k f).flights)
    → Keeps s.flights (answer o k s).flights
unfolding answer
answer-Keeps none k s w = same refl
answer-Keeps (some f) k s w =
    elim f.stage as (λ g. StillIn s (elim g [ sending ↦ k f | reporting d ↦ s ])) [
      | sending ↦ w f refl
      | reporting d ↦ same refl
    ]

conclude-Keeps :
    (now h : ℕ) (r : Sample) (f : Flight) (delay : Option ℕ) (s : Scheduler)
    → IsSteady s
    → find_flight h s.flights ≡ some f
    → Keeps s.flights (conclude now r f delay s).flights
conclude-Keeps now h r f delay s v e = gone (
    conclude_flights now r f delay s
    ∙ drop_flight_only h s.flights f (ground (arith, v.calm.owned.one_flight)) e)

rejection-Keeps :
    (now h : ℕ) (r q : Sample) (f : Flight) (reason : Reason) (s : Scheduler)
    → IsSteady s
    → find_flight h s.flights ≡ some f
    → Keeps s.flights (on_rejection now r q f reason s).flights
unfolding on_rejection
rejection-Keeps now h r q f reason s v e =
    moved f.handle (rejection_delay r reason s)
      (ground (arith, find-Unaborted h s.flights f v.calm.unaborted e))

reported-Keeps :
    (now h : ℕ) (r : Sample) (o : Option Flight) (s : Scheduler)
    → IsSteady s
    → find_flight h s.flights ≡ o
    → Keeps s.flights (reported now r false o s).flights
unfolding reported
reported-Keeps now h r none s v e = same refl
reported-Keeps now h r (some f) s v e =
    elim f.stage
      as (λ g. StillIn s (elim g [ sending ↦ s | reporting d ↦ conclude now r f (some d) s ])) [
        | sending ↦ same refl
        | reporting d ↦ conclude-Keeps now h r f (some d) s v e
      ]

-- While a request is in flight, no event adds another.
pub step-Keeps :
    (now : ℕ) (r q : Sample) (e : Event) (s : Scheduler)
    → IsSmooth e
    → IsSteady s
    → s.running ≡ true
    → Keeps s.flights (step now r q e s).flights
unfolding step on_response
step-Keeps now r q (starts active immediate) s m v busy =
    same (start_flights now r active immediate s v busy)
step-Keeps now r q suspends s m v busy = same (suspend_flights s)
step-Keeps now r q resumes s m v busy = same (resume_flights now r s busy)
step-Keeps now r q triggers s m v busy = same (trigger_flights now r s)
step-Keeps now r q stops s m v busy = elim m [ ]
step-Keeps now r q (fires h) s m v busy = same (fired_flights now _ s busy)
step-Keeps now r q (responds h n) s m v busy = answer-Keeps _ _ s (λ f e. gone (
    conclude_flights now q f _ _
    ∙ drop_flight_only h s.flights f (ground (arith, v.calm.owned.one_flight)) e))
step-Keeps now r q (rejects h reason) s m v busy =
    answer-Keeps _ _ s (λ f e. rejection-Keeps now h r q f reason s v e)
step-Keeps now r q (reports h true) s m v busy = elim m [ ]
step-Keeps now r q (reports h false) s m v busy = reported-Keeps now h r _ s v refl

mem_found : (f : Flight) (fs : List Flight) → Memᴰ f fs → find_flight f.handle fs ≡ none → ⊥
unfolding find_flight
mem_found f [] m e = not-nil m
mem_found f (g ∷ fs) m e = elim (cases_cons m) [
  | inl k ↦ ground (arith, ap (λ (x : Flight). x.handle) k, e)
  | inr n ↦ mem_found f fs n (ground arith)
]

reported_handle :
    (h d : ℕ) (g : Flight)
    → (if g.handle == h then record g { stage = reporting d } else g).handle ≡ g.handle
reported_handle h d g = ground arith

moved_found :
    (h d : ℕ) (f : Flight) (fs : List Flight)
    → Memᴰ f (report_flight h d fs)
    → find_flight f.handle fs ≡ none
    → ⊥
unfolding find_flight report_flight
moved_found h d f [] m e = not-nil m
moved_found h d f (g ∷ fs) m e = elim (cases_cons m) [
  | inl k ↦
      let handles : f.handle ≡ g.handle = ap (λ (x : Flight). x.handle) k ∙ reported_handle h d g in
      ground (arith, handles, e)
  | inr n ↦ moved_found h d f fs n (ground arith)
]

-- A request of such a turn was in flight before it.
pub Keeps-found :
    (f : Flight) (before after : List Flight)
    → Keeps before after
    → Memᴰ f after
    → find_flight f.handle before ≡ none
    → ⊥
Keeps-found f before after (same e) m n = mem_found f before (subst (Memᴰ f) e m) n
Keeps-found f before after (gone e) m n = not-nil (subst (Memᴰ f) e m)
Keeps-found f before after (moved h d e) m n = moved_found h d f before (subst (Memᴰ f) e m) n
