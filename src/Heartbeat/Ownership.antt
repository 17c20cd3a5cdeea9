-- ===== src/Heartbeat/Ownership.antt =====
-- apps/player/src/core/heartbeat-scheduler.ts: one timer and one request at a time.
use screen_goblin.Prelude.{
  ℕ, ◌≤◌, ◌≡◌, refl, sym, ap, ◌∙◌, Bool, true, false, not, Option, none, some, List, [], ◌∷◌, arith,
  length, if◌then◌else◌, inl, inr, Option-cases,
}
use screen_goblin.Heartbeat.Delay.{Sample}
use screen_goblin.Heartbeat.{
  find_timer, find_flight, aborting, clear_scheduled_timer, request_run, arm_timer, schedule,
  schedule_catch_up, start, suspend, resume, trigger, stop,
}
use screen_goblin.Heartbeat.State.{
  Scheduler, Timer, Flight, drop_timer, drop_flight, abort_flight, report_flight,
}

abbrev pub to_list {ℓ} : {A : Type ℓ} → Option A → List A
to_list none = []
to_list (some a) = a ∷ []

abbrev pub handles : List Timer → List ℕ
handles [] = []
handles (t ∷ ts) = t.handle ∷ handles ts

abbrev pub dues : List Timer → List ℕ
dues [] = []
dues (t ∷ ts) = t.due_at ∷ dues ts

-- The live timers are the one that the scheduler remembers, with the due time that it
-- remembers; a request is in flight exactly while `running`, and then only one.
pub record IsOwned (s : Scheduler) : Type 0 where
  pub timer_known : handles s.armed ≡ to_list s.timer
  pub due_known : dues s.armed ≡ to_list s.timer_due_at
  pub one_flight : length s.flights ≡ (if s.running then 1 else 0)

pub drop_timer_only : (h : ℕ) (ts : List Timer) → handles ts ≡ h ∷ [] → drop_timer h ts ≡ []
unfolding drop_timer
drop_timer_only h [] e = refl
drop_timer_only h (t ∷ []) e = ground arith
drop_timer_only h (t ∷ u ∷ ts) e = ground arith

pub handles_nil : (ts : List Timer) → handles ts ≡ [] → ts ≡ []
handles_nil [] e = refl
handles_nil (t ∷ ts) e = cc

pub drop_flight_only :
    (h : ℕ) (fs : List Flight) (f : Flight)
    → length fs ≤ 1
    → find_flight h fs ≡ some f
    → drop_flight f.handle fs ≡ []
unfolding drop_flight find_flight
drop_flight_only h [] f l e = refl
drop_flight_only h (g ∷ []) f l e = ground arith
drop_flight_only h (g ∷ k ∷ fs) f l e = absurd (omega arith)

pub length-abort_flight : (h : ℕ) (fs : List Flight) → length (abort_flight h fs) ≡ length fs
unfolding abort_flight
length-abort_flight h [] = refl
length-abort_flight h (f ∷ fs) = omega (arith, length-abort_flight h fs)

pub length-report_flight : (h d : ℕ) (fs : List Flight) → length (report_flight h d fs) ≡ length fs
unfolding report_flight
length-report_flight h d [] = refl
length-report_flight h d (f ∷ fs) = omega (arith, length-report_flight h d fs)

-- What clearing leaves of the timer.
abbrev pub Cleared : Scheduler → Type 0
Cleared s = (s.armed ≡ []) × (s.timer ≡ none) × (s.timer_due_at ≡ none)

pub to_list_nil : (o : Option ℕ) → to_list o ≡ [] → o ≡ none
to_list_nil none e = refl
to_list_nil (some n) e = cc

pub dues_of_nil : (ts : List Timer) (o : Option ℕ) → ts ≡ [] → dues ts ≡ to_list o → o ≡ none
dues_of_nil ts o e d = to_list_nil o (sym d ∙ ap dues e)

pub clear-Cleared : (s : Scheduler) → IsOwned s → Cleared (clear_scheduled_timer s)
unfolding clear_scheduled_timer
clear-Cleared s v = elim (Option-cases s.timer) [
  | inl e ↦
      let empty : s.armed ≡ [] = handles_nil s.armed (v.timer_known ∙ ap to_list e) in
      ground (arith, dues_of_nil s.armed s.timer_due_at)
  | inr (h, e) ↦ ground (arith, drop_timer_only h s.armed (v.timer_known ∙ ap to_list e))
]

pub clear-IsOwned : (s : Scheduler) → IsOwned s → IsOwned (clear_scheduled_timer s)
unfolding clear_scheduled_timer
clear-IsOwned s v = ground (arith, clear-Cleared s v)

pub request_run-IsOwned : (s : Scheduler) → IsOwned s → IsOwned (request_run s)
unfolding request_run
request_run-IsOwned s v = ground arith

pub schedule-IsOwned :
    (now ms : ℕ) (forward : Bool) (s : Scheduler) → IsOwned s → IsOwned (schedule now ms forward s)
unfolding schedule arm_timer
schedule-IsOwned now ms forward s v = ground (arith, clear-Cleared s v, clear-IsOwned s v)

pub schedule_catch_up-IsOwned :
    (now : ℕ) (r : Sample) (s : Scheduler) → IsOwned s → IsOwned (schedule_catch_up now r s)
unfolding schedule_catch_up
schedule_catch_up-IsOwned now r s v = schedule-IsOwned now _ true s v

pub trigger-IsOwned : (now : ℕ) (r : Sample) (s : Scheduler) → IsOwned s → IsOwned (trigger now r s)
unfolding trigger
trigger-IsOwned now r s v = ground (arith, schedule_catch_up-IsOwned now r s v)

pub start-IsOwned :
    (now : ℕ) (r : Sample) (active immediate : Bool) (s : Scheduler)
    → IsOwned s
    → IsOwned (start now r active immediate s)
unfolding start
start-IsOwned now r active immediate s v =
    let t = record s { started = true; suspended = not active; immediate_on_resume = immediate } in
    let w : IsOwned t = ground arith in
    ground (
      arith,
      schedule_catch_up-IsOwned now r t w,
      request_run-IsOwned (record t { immediate_on_resume = false }) (ground arith),
    )

pub suspend-IsOwned : (s : Scheduler) → IsOwned s → IsOwned (suspend s)
unfolding suspend
suspend-IsOwned s v =
    ground
      (arith, clear-IsOwned (record s { suspended = true; wake_pending = false }) (ground arith))

pub resume-IsOwned : (now : ℕ) (r : Sample) (s : Scheduler) → IsOwned s → IsOwned (resume now r s)
unfolding resume
resume-IsOwned now r s v =
    let t = record s { suspended = false } in
    ground (
      arith,
      trigger-IsOwned now r t (ground arith),
      request_run-IsOwned (record t { immediate_on_resume = false }) (ground arith),
    )

pub length-aborting : (c : Option ℕ) (fs : List Flight) → length (aborting c fs) ≡ length fs
length-aborting none fs = refl
length-aborting (some h) fs = length-abort_flight h fs

pub stop-IsOwned : (s : Scheduler) → IsOwned s → IsOwned (stop s)
unfolding stop
stop-IsOwned s v =
    let t = record s { started = false; suspended = true; wake_pending = false } in
    let w : IsOwned (clear_scheduled_timer t) = clear-IsOwned t (ground arith) in
    ground (
      arith,
      w,
      length-aborting (clear_scheduled_timer t).controller (clear_scheduled_timer t).flights,
    )

pub find_timer_only :
    (h : ℕ) (ts : List Timer) (t : Timer) (o : Option ℕ)
    → find_timer h ts ≡ some t
    → handles ts ≡ to_list o
    → ts ≡ t ∷ []
unfolding find_timer
find_timer_only h [] t o e k = cc
find_timer_only h (u ∷ []) t o e k = ground arith
find_timer_only h (u ∷ w ∷ ts) t o e k = ground arith
