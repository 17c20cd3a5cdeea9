-- ===== src/Timing/Uptime.antt =====
-- apps/player/src/core/uptime.ts: whole elapsed seconds of a monotonic clock.
-- The clock is read in thousandths of a second; a reading before the start counts as no time.
use screen_goblin.Prelude.{ℕ, ◌-◌, ◌/◌, ◌≤◌, List, [], ◌∷◌, max, arith}

pub record Uptime : Type 0 where
  pub started_at : ℕ
  pub previous : ℕ

-- `createMonotonicUptime`, at its first reading.
unfoldable pub create_monotonic_uptime : ℕ → Uptime
create_monotonic_uptime now = record { started_at = now; previous = 0 }

-- A call of the function that it returns.
unfoldable pub uptime : ℕ → Uptime → Uptime × ℕ
uptime now u =
    let elapsed = (now - u.started_at) / 1000 in
    (record u { previous = max u.previous elapsed }, max u.previous elapsed)

unfoldable pub readings : List ℕ → Uptime → List ℕ
readings [] u = []
readings (now ∷ ns) u = let (u', seconds) = uptime now u in seconds ∷ readings ns u'

-- The list does not fall, and starts at `low` or above.
abbrev pub Rising : ℕ → List ℕ → Type 0
Rising low [] = Unit {0}
Rising low (s ∷ ss) = (low ≤ s) × Rising s ss

readings-Rising_from : (ns : List ℕ) (u : Uptime) → Rising u.previous (readings ns u)
unfolding readings uptime
readings-Rising_from [] u = tt
readings-Rising_from (now ∷ ns) u = (omega arith, readings-Rising_from ns (uptime now u).0)

-- Whatever the clock shows, also when it goes back, the reported seconds never fall.
pub readings-Rising :
    (start : ℕ) (ns : List ℕ) → Rising 0 (readings ns (create_monotonic_uptime start))
unfolding create_monotonic_uptime
readings-Rising start ns = readings-Rising_from ns (record { started_at = start; previous = 0 })
