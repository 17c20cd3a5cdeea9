-- ===== src/Timing/SingleFlight.antt =====
-- apps/player/src/core/single-flight.ts: one task at a time. `pending` counts the tasks that
-- have been called and have not settled.
use screen_goblin.Prelude.{
  ℕ, zero, suc, ◌-◌, ◌≡◌, ◌↔◌, refl, Bool, true, false, List, [], ◌∷◌, if◌then◌else◌, arith,
}

pub record SingleFlight : Type 0 where
  pub active : Bool
  pub pending : ℕ

unfoldable pub new_flight : SingleFlight
new_flight = record { active = false; pending = 0 }

-- `run` up to the call of the task: false where the invocation is dropped.
unfoldable pub begin : SingleFlight → SingleFlight × Bool
begin s = if s.active then (s, false) else (record { active = true; pending = suc s.pending }, true)

-- The `finally` block, when the task has settled either way.
unfoldable pub end : SingleFlight → SingleFlight
end s = record { active = false; pending = s.pending - 1 }

pub data Event : Type 0 where
  invoked settled : Event

-- A task settles only if one is pending.
unfoldable pub step : Event → SingleFlight → SingleFlight
step invoked s = (begin s).0
step settled s = elim s.pending [ zero ↦ s | suc n ↦ end s ]

unfoldable pub run : List Event → SingleFlight → SingleFlight
run [] s = s
run (e ∷ es) s = run es (step e s)

abbrev pub IsSingle : SingleFlight → Type 0
IsSingle s = s.pending ≡ (if s.active then 1 else 0)

step-IsSingle : (e : Event) (s : SingleFlight) → IsSingle s → IsSingle (step e s)
unfolding step begin end
step-IsSingle invoked s v = ground arith
step-IsSingle settled s v = ground arith

run-IsSingle_from : (es : List Event) (s : SingleFlight) → IsSingle s → IsSingle (run es s)
unfolding run
run-IsSingle_from [] s v = v
run-IsSingle_from (e ∷ es) s v = run-IsSingle_from es (step e s) (step-IsSingle e s v)

-- After any invocations and settlements, one task is pending while the flight is active and none
-- otherwise, and an invocation calls its task exactly when no task is pending.
pub run-IsSingle :
    (es : List Event)
    → IsSingle (run es new_flight)
      × (((begin (run es new_flight)).1 ≡ true) ↔ ((run es new_flight).pending ≡ 0))
unfolding begin new_flight
run-IsSingle es =
    let v = run-IsSingle_from es (record { active = false; pending = 0 }) refl in (v, ground arith)
