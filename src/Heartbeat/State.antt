-- ===== src/Heartbeat/State.antt =====
-- apps/player/src/core/heartbeat-scheduler.ts: the state of the scheduler and what the browser
-- holds for it.
use screen_goblin.Prelude.{
  ℕ, Bool, true, false, Option, none, List, [], ◌∷◌, min, max, ◌==◌, or_default, if◌then◌else◌,
}
use screen_goblin.Heartbeat.Delay.{bound_interval, min_interval, max_interval}

pub record Config : Type 0 where
  pub retry_base : ℕ
  pub retry_max : ℕ

-- A live timer: the handle, the due time its callback closed over, when the browser runs it.
pub record Timer : Type 0 where
  pub handle : ℕ
  pub due_at : ℕ
  pub fires_at : ℕ

-- Where a run waits: for the response, or for `onError` with the delay it has chosen.
pub data Stage : Type 0 where
  sending : Stage
  reporting : ℕ → Stage

pub record Flight : Type 0 where
  pub handle : ℕ
  pub aborted : Bool
  pub stage : Stage

-- The scheduler's fields, then what the browser holds for it; `fresh` numbers new handles.
pub record Scheduler : Type 0 where
  pub config : Config
  pub timer : Option ℕ
  pub timer_due_at : Option ℕ
  pub controller : Option ℕ
  pub started : Bool
  pub suspended : Bool
  pub running : Bool
  pub wake_pending : Bool
  pub consecutive_failures : ℕ
  pub cadence : ℕ
  pub not_before : ℕ
  pub immediate_on_resume : Bool
  pub armed : List Timer
  pub flights : List Flight
  pub fresh : ℕ

-- `options` gives the initial interval in thousandths, the retry bounds in seconds.
unfoldable pub new_scheduler : Option ℕ → Option ℕ → Option ℕ → Scheduler
new_scheduler initial base cap =
    let retry_base = max min_interval (or_default base min_interval) in
    record {
      config = record {
        retry_base = retry_base;
        retry_max = min max_interval (max retry_base (or_default cap 300));
      };
      timer = none;
      timer_due_at = none;
      controller = none;
      started = false;
      suspended = false;
      running = false;
      wake_pending = false;
      consecutive_failures = 0;
      cadence = bound_interval (or_default initial 60000);
      not_before = 0;
      immediate_on_resume = false;
      armed = [];
      flights = [];
      fresh = 0;
    }

unfoldable pub drop_timer : ℕ → List Timer → List Timer
drop_timer h [] = []
drop_timer h (t ∷ ts) = let rest = drop_timer h ts in if t.handle == h then rest else t ∷ rest

unfoldable pub drop_flight : ℕ → List Flight → List Flight
drop_flight h [] = []
drop_flight h (f ∷ fs) = let rest = drop_flight h fs in if f.handle == h then rest else f ∷ rest

unfoldable pub abort_flight : ℕ → List Flight → List Flight
abort_flight h [] = []
abort_flight h (f ∷ fs) =
    (if f.handle == h then record f { aborted = true } else f) ∷ abort_flight h fs

unfoldable pub report_flight : ℕ → ℕ → List Flight → List Flight
report_flight h delay [] = []
report_flight h delay (f ∷ fs) =
    (if f.handle == h then record f { stage = reporting delay } else f) ∷ report_flight h delay fs
