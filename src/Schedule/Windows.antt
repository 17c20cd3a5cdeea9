-- ===== src/Schedule/Windows.antt =====
-- apps/api/src/utils/schedule.ts: windows of a schedule and the end of its playback. A result
-- `none` is an exception. The local time has no number missing but the weekday, and windows call
-- the resolution past its memo. `date_parse` stands for `Date.parse`, `none` for no date.
use Prim.Native.String.{String}
use screen_goblin.Prelude.{
  ℕ, ◌≤◌, ◌<◌, ◌≡◌, refl, ◌⊎◌, inl, inr, Bool, true, false, ◌||◌, Option, none, some, List,
  if◌then◌else◌, ltb, ◌==◌, length, min, arith, Option-cases, Bool-cases, subst,
}
use screen_goblin.Prelude.Texts.{is_empty}
use screen_goblin.Schedule.Zoned.{
  Calendar, ZonedParts, WallMinute, Boundary, start, end, member, zoned_parts, resolve,
}

pub record ScheduleWindow : Type 0 where
  pub ends_at : Option String
  pub timezone : String
  pub days_of_week : List ℕ
  pub daily_start_minutes : Option ℕ
  pub daily_end_minutes : Option ℕ

abbrev pub on_day : ZonedParts → String → Boundary → ℕ → WallMinute
on_day t time_zone boundary minutes = record {
  year = t.year;
  month = t.month;
  day = t.day;
  minute_of_day = minutes;
  time_zone = time_zone;
  boundary = boundary;
}

-- Whether the weekday is one of the days, of which an empty list has all.
abbrev pub is_on : List ℕ → ℕ → Bool
is_on days d = length days == 0 || member d days

module _ (c : Calendar) where
  -- The instant at which the day's window opens or closes.
  abbrev pub bound : ScheduleWindow → Boundary → ℕ → ℕ → Option ℕ
  bound w boundary instant minutes =
      resolve c (on_day (zoned_parts c instant w.timezone) w.timezone boundary minutes)

  unfoldable pub before_end : ScheduleWindow → ℕ → Option Bool
  before_end w instant = elim w.daily_end_minutes [
    | none ↦ some true
    | some minutes ↦ elim (bound w end instant minutes) [
      | none ↦ none
      | some e ↦ some (ltb instant e)
    ]
  ]

  unfoldable pub in_day : ScheduleWindow → ℕ → Option Bool
  in_day w instant = elim w.daily_start_minutes [
    | none ↦ before_end w instant
    | some minutes ↦ elim (bound w start instant minutes) [
      | none ↦ none
      | some s ↦ if ltb instant s then some false else before_end w instant
    ]
  ]

  unfoldable pub matches_schedule_window : ScheduleWindow → ℕ → Option Bool
  matches_schedule_window w instant = elim (zoned_parts c instant w.timezone).weekday [
    | none ↦ some false
    | some d ↦ if is_on w.days_of_week d then in_day w instant else some false
  ]

  -- The daily boundary, where it is still ahead.
  unfoldable pub daily_candidate : ScheduleWindow → ℕ → Option (Option ℕ)
  daily_candidate w instant = elim w.daily_end_minutes [
    | none ↦ some none
    | some minutes ↦ elim (bound w end instant minutes) [
      | none ↦ none
      | some e ↦ some (if ltb instant e then some e else none)
    ]
  ]

  -- `Math.min` of the end date, if there is one, and the daily candidate.
  unfoldable pub schedule_playback_ends_at :
      (String → Option ℕ) → ScheduleWindow → ℕ → Option (Option ℕ)
  schedule_playback_ends_at date_parse w instant = elim (daily_candidate w instant) [
    | none ↦ none
    | some daily ↦ elim w.ends_at [
      | none ↦ some daily
      | some text ↦ if is_empty text then some daily else elim (date_parse text) [
        | none ↦ none
        | some e ↦ elim daily [ none ↦ some (some e) | some d ↦ some (some (min e d)) ]
      ]
    ]
  ]

  -- What a matching window has.
  pub record IsOpen (w : ScheduleWindow) (instant : ℕ) : Type 0 where
    pub day :
        (d : ℕ) × ((zoned_parts c instant w.timezone).weekday ≡ some d)
        × (is_on w.days_of_week d ≡ true)
    pub opened :
        (w.daily_start_minutes ≡ none)
        ⊎ ((n s : ℕ) × (w.daily_start_minutes ≡ some n)
            × (bound w start instant n ≡ some s)
            × (s ≤ instant))
    pub closes :
        (w.daily_end_minutes ≡ none)
        ⊎ ((n e : ℕ) × (w.daily_end_minutes ≡ some n)
            × (bound w end instant n ≡ some e)
            × (instant < e))

before_end_sound :
    (c : Calendar) (w : ScheduleWindow) (instant : ℕ) (o : Option ℕ)
    → w.daily_end_minutes ≡ o
    → before_end c w instant ≡ some true
    → (o ≡ none) ⊎ ((n e : ℕ) × (o ≡ some n) × (bound c w end instant n ≡ some e) × (instant < e))
unfolding before_end
before_end_sound c w instant none q h = inl refl
before_end_sound c w instant (some n) q h = elim (Option-cases (bound c w end instant n)) [
  | inl e ↦ absurd (ground (arith, q, e))
  | inr (e, k) ↦ inr (n, e, refl, k, ground (arith, q, k))
]

in_day_sound :
    (c : Calendar) (w : ScheduleWindow) (instant : ℕ) (o : Option ℕ)
    → w.daily_start_minutes ≡ o
    → in_day c w instant ≡ some true
    → ((o ≡ none)
        ⊎ ((n s : ℕ) × (o ≡ some n) × (bound c w start instant n ≡ some s) × (s ≤ instant)))
      × (before_end c w instant ≡ some true)
unfolding in_day
in_day_sound c w instant none q h = (inl refl, ground (arith, q))
in_day_sound c w instant (some n) q h = elim (Option-cases (bound c w start instant n)) [
  | inl e ↦ absurd (ground (arith, q, e))
  | inr (s, k) ↦ (inr (n, s, refl, k, ground (arith, q, k)), ground (arith, q, k))
]

matches_inversion :
    (c : Calendar) (w : ScheduleWindow) (instant : ℕ)
    → matches_schedule_window c w instant ≡ some true
    → ((d : ℕ) × ((zoned_parts c instant w.timezone).weekday ≡ some d)
        × (is_on w.days_of_week d ≡ true))
      × (in_day c w instant ≡ some true)
unfolding matches_schedule_window
matches_inversion c w instant h = elim (Option-cases (zoned_parts c instant w.timezone).weekday) [
  | inl e ↦ absurd (ground (arith, e))
  | inr (d, e) ↦ ((d, e, ground (arith, e)), ground (arith, e))
]

-- A window matches only on one of its days, from its daily start on, and before its daily end,
-- each as it is resolved on the local date of the instant.
pub matches_sound :
    (c : Calendar) (w : ScheduleWindow) (instant : ℕ)
    → matches_schedule_window c w instant ≡ some true
    → IsOpen c w instant
matches_sound c w instant h =
    let (day, inside) = matches_inversion c w instant h in
    let (opened, early) = in_day_sound c w instant _ refl inside in
    record { day = day; opened = opened; closes = before_end_sound c w instant _ refl early }

daily_ahead :
    (c : Calendar) (w : ScheduleWindow) (instant minutes : ℕ)
    → matches_schedule_window c w instant ≡ some true
    → w.daily_end_minutes ≡ some minutes
    → (e : ℕ) × (bound c w end instant minutes ≡ some e)
      × (instant < e)
      × (daily_candidate c w instant ≡ some (some e))
unfolding daily_candidate
daily_ahead c w instant minutes h q = elim (matches_sound c w instant h).closes [
  | inl n ↦ absurd (ground (arith, q, n))
  | inr (n, e, k, b, early) ↦
      let same : n ≡ minutes = ground (arith, q, k) in
      let b' = subst (λ m. bound c w end instant m ≡ some e) same b in
      (e, b', early, ground (arith, q, b', early))
]

-- Where a window with a daily end matches, its playback ends after the instant by the daily
-- end, if the end date of the schedule, where there is one, is after the instant.
pub playback_end :
    (c : Calendar) (date_parse : String → Option ℕ) (w : ScheduleWindow) (instant minutes : ℕ)
    (o : Option ℕ)
    → matches_schedule_window c w instant ≡ some true
    → w.daily_end_minutes ≡ some minutes
    → schedule_playback_ends_at c date_parse w instant ≡ some o
    → ((text : String) (t : ℕ) → w.ends_at ≡ some text → date_parse text ≡ some t → instant < t)
    → (b e : ℕ) × (o ≡ some b) × (bound c w end instant minutes ≡ some e) × (instant < b) × (b ≤ e)
unfolding schedule_playback_ends_at
playback_end c date_parse w instant minutes o h q r later =
    let (e, b, early, daily) = daily_ahead c w instant minutes h q in
    elim (Option-cases w.ends_at) [
      | inl n ↦ (e, e, ground (arith, r, daily, n), b, early, omega arith)
      | inr (text, k) ↦ elim (Bool-cases (is_empty text)) [
        | inl t ↦ (e, e, ground (arith, r, daily, k, t), b, early, omega arith)
        | inr f ↦ elim (Option-cases (date_parse text)) [
          | inl n ↦ absurd (ground (arith, r, daily, k, f, n))
          | inr (t, p) ↦
              let ahead = later text t k p in
              (min t e, e, ground (arith, r, daily, k, f, p), b, omega arith, omega arith)
        ]
      ]
    ]
