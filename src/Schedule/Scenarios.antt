-- ===== src/Schedule/Scenarios.antt =====
-- Windows of apps/api/src/utils/schedule.ts in a zone that goes back by an hour.
use Prim.Native.String.{String}
use screen_goblin.Prelude.{
  ℕ, ◌+◌, ◌≤◌, ◌<◌, ◌≡◌, refl, ◌⊎◌, true, false, Option, none, some, [], ◌∷◌, if◌then◌else◌, ltb,
  arith,
}
use screen_goblin.Prelude.Sorting.{sort, insert}
use screen_goblin.Schedule.Zoned.{
  LocalTime, Calendar, WallMinute, Sample, start, end, weekday_index, zoned_parts, member,
  wall_clock_at, desired, samples_from, samples, exact_from, has_offset, search, last, pick,
  resolve,
}
use screen_goblin.Schedule.Windows.{
  ScheduleWindow, IsOpen, bound, before_end, in_day, matches_schedule_window, daily_candidate,
  schedule_playback_ends_at, matches_sound, playback_end,
}
use screen_goblin.Schedule.Resolution.{
  Jumps, Changes, resolve_sound, resolve-end-start, search_transition,
}
use screen_goblin.Schedule.Memo.{resolve_zoned_wall_minute, resolve_all, memo_transparent}

abbrev midnight : ℕ
midnight = 864000000

-- A local time that is kept whole in the field of the minute, in milliseconds.
abbrev at_value : ℕ → LocalTime
at_value n = record { year = 0; month = 0; day = 0; weekday = "Mon"; hour = 0; minute = n }

-- Local time is two hours ahead of the instant until ten hours after midnight, then one.
abbrev zone : Calendar
zone = record {
  local_time = λ tz t. at_value (if ltb t (midnight + 36000000) then t + 7200000 else t + 3600000);
  utc = λ y m d h n. n;
  utc_fields = at_value;
}

-- The minute that the local clock shows twice.
abbrev repeated : WallMinute
repeated = record {
  year = 0;
  month = 0;
  day = 0;
  minute_of_day = midnight + 41400000;
  time_zone = "zone";
  boundary = end;
}

repeated-end : resolve zone (record repeated { boundary = end }) ≡ some (midnight + 34200000)
unfolding resolve desired samples samples_from wall_clock_at zoned_parts exact_from member sort
    insert pick last
repeated-end = refl

repeated-start : resolve zone (record repeated { boundary = start }) ≡ some (midnight + 37800000)
unfolding resolve desired samples samples_from wall_clock_at zoned_parts exact_from member sort
    insert pick last
repeated-start = refl

resolve_sound_example :
    (wall_clock_at zone "zone" (midnight + 34200000) ≡ desired zone repeated)
    ⊎ Jumps zone "zone" (desired zone repeated) (midnight + 34200000)
resolve_sound_example = resolve_sound zone repeated (midnight + 34200000) repeated-end

resolve-end-start_example : midnight + 34200000 ≤ midnight + 37800000
resolve-end-start_example =
    resolve-end-start zone repeated (midnight + 37800000) (midnight + 34200000) repeated-end
      repeated-start

abbrev noon_sample : Sample
noon_sample = record { instant = midnight; represented = midnight + 7200000 }

search_low : has_offset zone "zone" noon_sample 14400 ≡ true
unfolding has_offset wall_clock_at zoned_parts
search_low = refl

search_high : has_offset zone "zone" noon_sample 15120 ≡ false
unfolding has_offset wall_clock_at zoned_parts
search_high = refl

search_transition_example :
    Changes zone "zone" noon_sample 14400 15120 (search zone "zone" noon_sample 720 14400 15120)
search_transition_example =
    search_transition zone "zone" noon_sample 720 14400 15120 (omega arith) (omega arith) search_low
      search_high

-- A window that closes daily at the repeated minute.
abbrev window : ScheduleWindow
window = record {
  ends_at = none;
  timezone = "zone";
  days_of_week = 1 ∷ [];
  daily_start_minutes = none;
  daily_end_minutes = some (midnight + 41400000);
}

window_matches : matches_schedule_window zone window midnight ≡ some true
unfolding matches_schedule_window in_day before_end resolve desired samples samples_from
    wall_clock_at zoned_parts exact_from member sort insert pick last weekday_index
window_matches = refl

matches_sound_example : IsOpen zone window midnight
matches_sound_example = matches_sound zone window midnight window_matches

abbrev no_date : String → Option ℕ
no_date text = none

window_ends :
    schedule_playback_ends_at zone no_date window midnight ≡ some (some (midnight + 34200000))
unfolding schedule_playback_ends_at daily_candidate resolve desired samples samples_from
    wall_clock_at zoned_parts exact_from member sort insert pick last
window_ends = refl

no_end_date :
    (text : String) (t : ℕ) → window.ends_at ≡ some text → no_date text ≡ some t → midnight < t
no_end_date text t h k = cc

playback_end_example :
    (b e : ℕ) × (some (midnight + 34200000) ≡ some b)
    × (bound zone window end midnight (midnight + 41400000) ≡ some e)
    × (midnight < b)
    × (b ≤ e)
playback_end_example =
    playback_end zone no_date window midnight (midnight + 41400000) (some (midnight + 34200000))
      window_matches refl window_ends no_end_date

memo_transparent_example :
    (resolve_zoned_wall_minute zone repeated (resolve_all zone (repeated ∷ []) [])).1
    ≡ resolve zone repeated
memo_transparent_example = memo_transparent zone (repeated ∷ []) repeated
