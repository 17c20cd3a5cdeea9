-- ===== src/Timing/Deadline/Expiry.antt =====
-- apps/player/src/core/signed-deadline.ts: the watcher reports its deadline once, and no
-- correction of the wall clock puts it off.
use screen_goblin.Prelude.{
  ℕ, suc, ◌+◌, ◌*◌, ◌-◌, ◌≤◌, ◌<◌, ◌≡◌, ◌⊎◌, inl, inr, true, false, none, some, List, [], ◌∷◌, min,
  is_some, arith,
}
use screen_goblin.Timing.Deadline.{
  Watcher, Event, looks, counts, cancels, max_timer_delay, watch_signed_deadline, step, run,
}

-- The watcher is at work: both timers run, and nothing has been reported.
pub record IsWatching (w : Watcher) : Type 0 where
  pub unfinished : w.finished ≡ false
  pub silent : w.elapsed ≡ 0
  pub heard : w.listening ≡ true
  pub left : 0 < w.fail_safe_remaining
  pub counting : w.fail_safe_timer ≡ some (min w.fail_safe_remaining max_timer_delay)
  pub looking : is_some w.wall_timer ≡ true

-- The watcher is done: nothing of it is left behind, and it has reported once at most.
pub record IsDone (w : Watcher) : Type 0 where
  pub over : w.finished ≡ true
  pub once : w.elapsed ≤ 1
  pub deaf : w.listening ≡ false
  pub uncounted : w.fail_safe_timer ≡ none
  pub unlooking : w.wall_timer ≡ none

-- How often the fail-safe timer fires.
abbrev pub fires : List Event → ℕ
fires [] = 0
fires (counts ∷ es) = suc (fires es)
fires (_ ∷ es) = fires es

-- Where the watcher stands, with `total` left in all for the fail-safe countdown.
abbrev pub Stands : ℕ → Watcher → Type 0
Stands total w = IsDone w ⊎ (IsWatching w × (w.fail_safe_remaining ≤ total))

abbrev spent : Event → ℕ
spent counts = max_timer_delay
spent _ = 0

step-Stands :
    (e : Event) (w : Watcher) (total : ℕ) → Stands (spent e + total) w → Stands total (step e w)
unfolding step
step-Stands (looks now) w total s = ground arith
step-Stands counts w total s = ground arith
step-Stands cancels w total s = ground arith

run-Stands :
    (es : List Event) (w : Watcher) (total : ℕ)
    → Stands (max_timer_delay * fires es + total) w
    → Stands total (run es w)
unfolding run
run-Stands [] w total s = ground arith
run-Stands (looks now ∷ es) w total s =
    run-Stands es (step (looks now) w) total
      (step-Stands (looks now) w (max_timer_delay * fires es + total) (ground arith))
run-Stands (counts ∷ es) w total s =
    run-Stands es (step counts w) total
      (step-Stands counts w (max_timer_delay * fires es + total) (ground arith))
run-Stands (cancels ∷ es) w total s =
    run-Stands es (step cancels w) total
      (step-Stands cancels w (max_timer_delay * fires es + total) (ground arith))

watch-Stands :
    (deadline start now : ℕ) → Stands (deadline - start) (watch_signed_deadline deadline start now)
unfolding watch_signed_deadline
watch-Stands deadline start now = ground arith

-- The watcher reports its deadline once at most, and when it is done it has no timer and no
-- listener left, whatever the wall clock shows.
pub run_once :
    (deadline start now : ℕ) (es : List Event)
    → IsDone (run es (watch_signed_deadline deadline start now))
      ⊎ IsWatching (run es (watch_signed_deadline deadline start now))
run_once deadline start now es =
    let w = watch_signed_deadline deadline start now in
    let total = max_timer_delay * fires es + (deadline - start) in
    elim (run-Stands es w total (ground (arith, watch-Stands deadline start now))) [
      | inl done ↦ inl done
      | inr (watching, _) ↦ inr watching
    ]

-- When the fail-safe timer has counted the time that was left at the start, the watcher is
-- done, however the wall clock was corrected since.
pub run_fail_safe :
    (deadline start now : ℕ) (es : List Event)
    → deadline - start ≤ max_timer_delay * fires es
    → IsDone (run es (watch_signed_deadline deadline start now))
run_fail_safe deadline start now es h =
    let w = watch_signed_deadline deadline start now in
    elim (run-Stands es w 0 (ground (arith, watch-Stands deadline start now))) [
      | inl done ↦ done
      | inr (watching, small) ↦ absurd (omega (arith, watching.left))
    ]

-- A look at a wall clock that has reached the deadline ends the watch at once.
pub look_expires :
    (now total : ℕ) (w : Watcher) → Stands total w → w.deadline ≤ now → IsDone (step (looks now) w)
unfolding step
look_expires now total w s h = ground arith
