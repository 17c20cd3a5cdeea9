-- ===== src/Schedule/Zoned.antt =====
-- apps/api/src/utils/schedule.ts: local times, and the instant of a local wall-clock minute.
-- `Calendar` is what the code takes from its runtime: the local time that `Intl` formats for a
-- time zone, `Date.UTC` and the UTC fields of a date, both with months from one. Instants and
-- wall-clock values count milliseconds from an origin at least two days before the dates in use.
use Prim.Native.String.{String}
use text.Mathlib.Text.{◌==◌ as str_eq}
use screen_goblin.Prelude.{
  ℕ, zero, suc, ◌+◌, ◌-◌, ◌*◌, ◌/◌, Bool, false, not, ◌||◌, ◌&&◌, Option, none, some, List, [], ◌∷◌,
  if◌then◌else◌, leb, ltb, ◌==◌,
}
use screen_goblin.Prelude.Sorting.{sort}

-- What `formatToParts` gives, its numbers read.
pub record LocalTime : Type 0 where
  pub year : ℕ
  pub month : ℕ
  pub day : ℕ
  pub weekday : String
  pub hour : ℕ
  pub minute : ℕ

pub record Calendar : Type 0 where
  pub local_time : String → ℕ → LocalTime
  pub utc : (year month day hour minute : ℕ) → ℕ
  pub utc_fields : ℕ → LocalTime

-- `weekdayIndex[weekday] ?? Number.NaN`.
unfoldable pub weekday_index : String → Option ℕ
weekday_index d =
    if str_eq d "Sun"
    then some 0
    else if str_eq d "Mon"
    then some 1
    else if str_eq d "Tue"
    then some 2
    else if str_eq d "Wed"
    then some 3
    else if str_eq d "Thu"
    then some 4
    else if str_eq d "Fri"
    then some 5
    else if str_eq d "Sat"
    then some 6
    else none

pub record ZonedParts : Type 0 where
  pub year : ℕ
  pub month : ℕ
  pub day : ℕ
  pub weekday : Option ℕ
  pub hour : ℕ
  pub minute : ℕ

-- Which occurrence of a repeated minute is asked for.
pub data Boundary : Type 0 where
  start end : Boundary

-- A local wall-clock minute: the arguments of `resolveZonedWallMinute`.
pub record WallMinute : Type 0 where
  pub year : ℕ
  pub month : ℕ
  pub day : ℕ
  pub minute_of_day : ℕ
  pub time_zone : String
  pub boundary : Boundary

pub record Sample : Type 0 where
  pub instant : ℕ
  pub represented : ℕ

unfoldable pub member : ℕ → List ℕ → Bool
member n [] = false
member n (m ∷ ms) = n == m || member n ms

module _ (c : Calendar) where
  unfoldable pub zoned_parts : ℕ → String → ZonedParts
  zoned_parts instant time_zone =
      let t = c.local_time time_zone instant in
      record {
        year = t.year;
        month = t.month;
        day = t.day;
        weekday = weekday_index t.weekday;
        hour = t.hour;
        minute = t.minute;
      }

  -- `wallClockValue` of the local time at an instant.
  unfoldable pub wall_clock_at : String → ℕ → ℕ
  wall_clock_at time_zone instant =
      let t = zoned_parts instant time_zone in c.utc t.year t.month t.day t.hour t.minute

  -- `desired`: the wall-clock value of the minute, normalized through the UTC fields.
  unfoldable pub desired : WallMinute → ℕ
  desired w =
      let t = c.utc_fields (c.utc w.year w.month w.day 0 w.minute_of_day) in
      c.utc t.year t.month t.day t.hour t.minute

  -- `n` samples, six hours apart.
  unfoldable pub samples_from : String → ℕ → ℕ → List Sample
  samples_from time_zone instant zero = []
  samples_from time_zone instant (suc n) =
      record { instant = instant; represented = wall_clock_at time_zone instant }
      ∷ samples_from time_zone (instant + 21600000) n

  -- From 36 hours before to 36 hours after.
  unfoldable pub samples : String → ℕ → List Sample
  samples time_zone at = samples_from time_zone (at - 129600000) 13

  -- The instants `desired - offset` that show the desired wall-clock value, each once.
  unfoldable pub exact_from : String → ℕ → List ℕ → List Sample → List ℕ
  exact_from time_zone at seen [] = []
  exact_from time_zone at seen (s ∷ ss) =
      let candidate = at + s.instant - s.represented in
      let rest = exact_from time_zone at (candidate ∷ seen) ss in
      if not (member candidate seen) && wall_clock_at time_zone candidate == at
      then candidate ∷ rest
      else rest

  -- Whether the offset at a minute is that of a sample.
  unfoldable pub has_offset : String → Sample → ℕ → Bool
  has_offset time_zone before middle =
      wall_clock_at time_zone (middle * 60000) + before.instant
      == before.represented + middle * 60000

  -- The binary search; `fuel` bounds its rounds.
  unfoldable pub search : String → Sample → ℕ → ℕ → ℕ → ℕ
  search time_zone before zero low high = high
  search time_zone before (suc fuel) low high =
      let middle = (low + high) / 2 in
      let upper = search time_zone before fuel middle high in
      let lower = search time_zone before fuel low middle in
      if ltb (low + 1) high
      then (if has_offset time_zone before middle then upper else lower)
      else high

  -- The minute after the change of offset between two samples.
  unfoldable pub transition : String → Sample → Sample → ℕ
  transition time_zone before after =
      let low = before.instant / 60000 in
      let high = (after.instant + 59999) / 60000 in search time_zone before (high - low) low high

  unfoldable pub skips : String → ℕ → ℕ → Bool
  skips time_zone at n =
      ltb (wall_clock_at time_zone ((n - 1) * 60000)) at
      && ltb at (wall_clock_at time_zone (n * 60000))

  -- The loop over neighbouring samples; `none` is the `RangeError` after it.
  unfoldable pub gap_from : String → ℕ → Sample → List Sample → Option ℕ
  gap_from time_zone at before [] = none
  gap_from time_zone at before (after ∷ ss) =
      let rest = gap_from time_zone at after ss in
      let n = transition time_zone before after in
      if before.represented + after.instant == after.represented + before.instant
      then rest
      else if skips time_zone at n
      then some (n * 60000)
      else rest

  unfoldable pub gap : String → ℕ → List Sample → Option ℕ
  gap time_zone at [] = none
  gap time_zone at (s ∷ ss) = gap_from time_zone at s ss

-- `exact.at(-1)` and `exact[0]` of a list that starts with `first`.
unfoldable pub last : ℕ → List ℕ → ℕ
last first [] = first
last first (x ∷ xs) = last x xs

unfoldable pub pick : Boundary → ℕ → List ℕ → ℕ
pick start first rest = last first rest
pick end first rest = first

-- `resolveZonedWallMinute` past its memo.
unfoldable pub resolve : Calendar → WallMinute → Option ℕ
resolve c w =
    let at = desired c w in
    let found = samples c w.time_zone at in
    elim (sort leb (exact_from c w.time_zone at [] found)) [
      | [] ↦ gap c w.time_zone at found
      | first ∷ rest ↦ some (pick w.boundary first rest)
    ]
