-- ===== src/Heartbeat/Steady.antt =====
-- apps/player/src/core/heartbeat-scheduler.ts: what holds of a scheduler that is not stopped.
use screen_goblin.Prelude.{
  ℕ, ◌≡◌, ap, Bool, true, false, not, ◌||◌, Option, none, some, List, [], ◌∷◌, All, arith, leb,
  is_some,
}
use screen_goblin.Heartbeat.Delay.{Sample, catch_up_delay}
use screen_goblin.Heartbeat.Single.{due_only, on_timer-IsOwned}
use screen_goblin.Heartbeat.Ownership.{
  IsOwned, clear-Cleared, clear-IsOwned, schedule-IsOwned, request_run-IsOwned, trigger-IsOwned,
  drop_timer_only, handles, dues, find_timer_only,
}
use screen_goblin.Heartbeat.{
  find_timer, clear_scheduled_timer, request_run, arm_timer, schedule, schedule_catch_up, start,
  suspend, resume, trigger, on_timer, cooldown_remaining,
}
use screen_goblin.Heartbeat.State.{Scheduler, Timer, Flight, drop_timer}

-- Whether a timer waits for the end of the cool-down.
abbrev pub is_after_floor : Option ℕ → ℕ → Bool
is_after_floor none not_before = true
is_after_floor (some d) not_before = leb not_before d

abbrev pub Unaborted : List Flight → Type 0
Unaborted = All (λ f. f.aborted ≡ false)

-- What holds of a scheduler that has not been stopped, also in the middle of a turn.
pub record IsCalm (s : Scheduler) : Type 0 where
  pub owned : IsOwned s
  pub unaborted : Unaborted s.flights
  pub running_timer : s.running ≡ true → s.timer_due_at ≡ none
  pub paused_timer : s.suspended ≡ true → s.timer_due_at ≡ none
  pub unstarted_running : s.started ≡ false → s.running ≡ false
  pub unstarted_timer : s.started ≡ false → s.timer_due_at ≡ none
  pub unstarted_floor : s.started ≡ false → s.not_before ≡ 0
  pub resuming_paused : s.immediate_on_resume ≡ true → s.suspended ≡ true
  pub resuming_running : s.immediate_on_resume ≡ true → s.running ≡ false
  pub resuming_floor : s.immediate_on_resume ≡ true → s.not_before ≡ 0
  pub after_floor : is_after_floor s.timer_due_at s.not_before ≡ true

-- A started scheduler that is not suspended has a request in flight or a timer set.
abbrev pub IsAlive : Scheduler → Type 0
IsAlive s = s.started ≡ true → s.suspended ≡ false → s.running || is_some s.timer_due_at ≡ true

-- Clearing the timer leaves the other fields alone.
abbrev pub Kept : Scheduler → Scheduler → Type 0
Kept s t =
    (t.controller ≡ s.controller)
    × (t.started ≡ s.started)
    × (t.suspended ≡ s.suspended)
    × (t.running ≡ s.running)
    × (t.wake_pending ≡ s.wake_pending)
    × (t.cadence ≡ s.cadence)
    × (t.not_before ≡ s.not_before)
    × (t.immediate_on_resume ≡ s.immediate_on_resume)
    × (t.flights ≡ s.flights)

pub clear_fields : (s : Scheduler) → Kept s (clear_scheduled_timer s)
unfolding clear_scheduled_timer
clear_fields s = ground arith

pub record IsSteady (s : Scheduler) : Type 0 where
  pub calm : IsCalm s
  pub alive : IsAlive s

pub schedule-IsSteady :
    (now ms : ℕ) (forward : Bool) (s : Scheduler)
    → IsCalm s
    → s.running ≡ false
    → s.immediate_on_resume ≡ false
    → IsSteady (schedule now ms forward s)
unfolding schedule arm_timer
schedule-IsSteady now ms forward s c idle resumed =
    ground
      (arith, clear-Cleared s c.owned, clear_fields s, schedule-IsOwned now ms forward s c.owned)

pub catch_up-IsSteady :
    (now : ℕ) (r : Sample) (s : Scheduler)
    → IsCalm s
    → s.running ≡ false
    → s.immediate_on_resume ≡ false
    → IsSteady (schedule_catch_up now r s)
unfolding schedule_catch_up
catch_up-IsSteady now r s = schedule-IsSteady now (catch_up_delay r s.cadence) true s

pub request_run-IsSteady :
    (s : Scheduler)
    → IsCalm s
    → s.timer_due_at ≡ none
    → s.immediate_on_resume ≡ false
    → IsSteady (request_run s)
unfolding request_run
request_run-IsSteady s c due resumed = ground (arith, request_run-IsOwned s c.owned)

pub trigger-IsSteady :
    (now : ℕ) (r : Sample) (s : Scheduler) → IsCalm s → IsSteady (trigger now r s)
unfolding trigger
trigger-IsSteady now r s c =
    ground (arith, catch_up-IsSteady now r s, trigger-IsOwned now r s c.owned)

pub begun-IsCalm :
    (suspended immediate : Bool) (s : Scheduler)
    → IsSteady s
    → s.started ≡ false
    → (immediate ≡ true → suspended ≡ true)
    → IsCalm (record s { started = true; suspended = suspended; immediate_on_resume = immediate })
begun-IsCalm suspended immediate s v fresh paused = ground arith

pub start-IsSteady :
    (now : ℕ) (r : Sample) (active immediate : Bool) (s : Scheduler)
    → IsSteady s
    → IsSteady (start now r active immediate s)
unfolding start
start-IsSteady now r active immediate s v =
    let t = record s { started = true; suspended = not active; immediate_on_resume = immediate } in
    let u = record t { immediate_on_resume = false } in
    ground (
      arith,
      begun-IsCalm (not active) immediate s v,
      begun-IsCalm (not active) false s v,
      request_run-IsSteady u,
      catch_up-IsSteady now r t,
    )

pub suspend-IsSteady : (s : Scheduler) → IsSteady s → IsSteady (suspend s)
unfolding suspend
suspend-IsSteady s v =
    let t = record s { suspended = true; wake_pending = false } in
    let owned : IsOwned t = ground arith in
    ground (arith, clear-Cleared t owned, clear_fields t, clear-IsOwned t owned)

pub resume-IsSteady :
    (now : ℕ) (r : Sample) (s : Scheduler) → IsSteady s → IsSteady (resume now r s)
unfolding resume cooldown_remaining
resume-IsSteady now r s v =
    let t = record s { suspended = false } in
    let u = record t { immediate_on_resume = false } in
    let calm : s.immediate_on_resume ≡ false → IsCalm t = λ e. ground arith in
    let calm' : IsCalm u = ground arith in
    ground (arith, request_run-IsSteady u calm', trigger-IsSteady now r t)

pub on_timer-IsSteady :
    (now h : ℕ) (t : Timer) (s : Scheduler)
    → IsSteady s
    → find_timer h s.armed ≡ some t
    → IsSteady (on_timer now t s)
unfolding on_timer arm_timer
on_timer-IsSteady now h t s v e =
    let only : s.armed ≡ t ∷ [] = find_timer_only h s.armed t s.timer e v.calm.owned.timer_known in
    let due : s.timer_due_at ≡ some t.due_at =
      due_only t s.timer_due_at (ap dues only) v.calm.owned.due_known in
    let gone : drop_timer t.handle s.armed ≡ [] =
      drop_timer_only t.handle s.armed (ap handles only) in
    let u = record s { armed = drop_timer t.handle s.armed; timer = none; timer_due_at = none } in
    let calm : IsCalm u = ground arith in
    ground (arith, request_run-IsSteady u calm, on_timer-IsOwned now h t s v.calm.owned e)
