-- ===== src/Schedule/Resolution.antt =====
-- apps/api/src/utils/schedule.ts: what a resolved wall-clock minute is.
use Prim.Native.String.{String}
use screen_goblin.Prelude.{
  ℕ, zero, suc, ◌+◌, ◌-◌, ◌*◌, ◌/◌, ◌≤◌, ◌<◌, ◌≡◌, refl, ◌⊎◌, inl, inr, true, false, not, ◌&&◌,
  some, List, [], ◌∷◌, All, leb, ltb, ◌==◌, arith, Bool-cases, subst,
}
use screen_goblin.Prelude.Sorting.{sort, insert}
use screen_goblin.Schedule.Zoned.{
  Calendar, WallMinute, Boundary, start, end, Sample, member, wall_clock_at, desired, samples,
  exact_from, has_offset, search, transition, skips, gap_from, gap, last, pick, resolve,
}

-- The list does not fall and starts at `low` or above.
abbrev Ascending : ℕ → List ℕ → Type 0
Ascending low [] = Unit {0}
Ascending low (x ∷ xs) = (low ≤ x) × Ascending x xs

insert-Ascending :
    (a low : ℕ) (xs : List ℕ) → low ≤ a → Ascending low xs → Ascending low (insert leb a xs)
unfolding insert
insert-Ascending a low [] h v = (h, tt)
insert-Ascending a low (x ∷ xs) h v = elim (Bool-cases (leb a x)) [
  | inl e ↦ rw e (h, (ground (arith, e), v.1))
  | inr n ↦ rw n (v.0, insert-Ascending a x xs (ground (arith, n)) v.1)
]

sort-Ascending : (xs : List ℕ) → Ascending 0 (sort leb xs)
unfolding sort
sort-Ascending [] = tt
sort-Ascending (x ∷ xs) = insert-Ascending x 0 (sort leb xs) (omega arith) (sort-Ascending xs)

last-Ascending : (low : ℕ) (xs : List ℕ) → Ascending low xs → low ≤ last low xs
unfolding last
last-Ascending low [] v = omega arith
last-Ascending low (x ∷ xs) v = let rest = last-Ascending x xs v.1 in omega (arith, rest, v.0)

insert-All : (P : ℕ → Type 0) (a : ℕ) (xs : List ℕ) → P a → All P xs → All P (insert leb a xs)
unfolding insert
insert-All P a [] p ps = (p, tt)
insert-All P a (x ∷ xs) p ps = elim (Bool-cases (leb a x)) [
  | inl e ↦ rw e (p, ps)
  | inr n ↦ rw n (ps.0, insert-All P a xs p ps.1)
]

sorted-All : (P : ℕ → Type 0) (xs : List ℕ) → All P xs → All P (sort leb xs)
unfolding sort
sorted-All P [] ps = tt
sorted-All P (x ∷ xs) ps = insert-All P x (sort leb xs) ps.0 (sorted-All P xs ps.1)

last-All : (P : ℕ → Type 0) (x : ℕ) (xs : List ℕ) → P x → All P xs → P (last x xs)
unfolding last
last-All P x [] p ps = p
last-All P x (y ∷ ys) p ps = last-All P y ys ps.0 ps.1

module _ (c : Calendar) (time_zone : String) (at : ℕ) where
  exact_from-All :
      (seen : List ℕ) (ss : List Sample)
      → All (λ i. wall_clock_at c time_zone i ≡ at) (exact_from c time_zone at seen ss)
  unfolding exact_from
  exact_from-All seen [] = tt
  exact_from-All seen (s ∷ ss) =
      let rest = exact_from-All ((at + s.instant - s.represented) ∷ seen) ss in
      elim (Bool-cases (
        not (member (at + s.instant - s.represented) seen)
        && wall_clock_at c time_zone (at + s.instant - s.represented) == at)) [
          | inl e ↦ rw e (ground (arith, e), rest)
          | inr n ↦ rw n rest
        ]

  -- The local clock jumps over the minute at the instant `i`, a whole minute.
  abbrev pub Jumps : ℕ → Type 0
  Jumps i =
      (n : ℕ) × (i ≡ n * 60000)
      × (wall_clock_at c time_zone ((n - 1) * 60000) < at)
      × (at < wall_clock_at c time_zone (n * 60000))

  gap_from_inversion :
      (before after : Sample) (ss : List Sample) (i : ℕ)
      → gap_from c time_zone at before (after ∷ ss) ≡ some i
      → (gap_from c time_zone at after ss ≡ some i)
        ⊎ ((i ≡ transition c time_zone before after * 60000)
            × (skips c time_zone at (transition c time_zone before after) ≡ true))
  unfolding gap_from
  gap_from_inversion before after ss i h = ground arith

  gap_from_sound :
      (before : Sample) (ss : List Sample) (i : ℕ)
      → gap_from c time_zone at before ss ≡ some i
      → Jumps i
  unfolding skips
  gap_from_sound before [] i h = unfold gap_from in cc
  gap_from_sound before (after ∷ ss) i h = elim (gap_from_inversion before after ss i h) [
    | inl rest ↦ gap_from_sound after ss i rest
    | inr (e, k) ↦ (transition c time_zone before after, e, ground (arith, k), ground (arith, k))
  ]

  gap_sound : (ss : List Sample) (i : ℕ) → gap c time_zone at ss ≡ some i → Jumps i
  unfolding gap
  gap_sound [] i h = cc
  gap_sound (s ∷ ss) i h = gap_from_sound s ss i h

pick-All : (P : ℕ → Type 0) (b : Boundary) (x : ℕ) (xs : List ℕ) → P x → All P xs → P (pick b x xs)
unfolding pick
pick-All P start x xs p ps = last-All P x xs p ps
pick-All P end x xs p ps = p

-- How a minute is resolved: to one of the exact instants, or in a gap.
resolve_inversion :
    (c : Calendar) (w : WallMinute) (xs : List ℕ) (i : ℕ)
    → sort leb (exact_from c w.time_zone (desired c w) [] (samples c w.time_zone (desired c w)))
      ≡ xs
    → resolve c w ≡ some i
    → ((x : ℕ) × (rest : List ℕ) × (xs ≡ x ∷ rest) × (i ≡ pick w.boundary x rest))
      ⊎ ((xs ≡ [])
          × (gap c w.time_zone (desired c w) (samples c w.time_zone (desired c w)) ≡ some i))
unfolding resolve
resolve_inversion c w [] i e h = inr (refl, ground (arith, e))
resolve_inversion c w (x ∷ xs) i e h = inl (x, xs, refl, ground (arith, e))

-- A minute that is resolved is shown by the local clock at the resolved instant, or the clock
-- jumps over it there: it shows an earlier value one minute before, and a later value then.
pub resolve_sound :
    (c : Calendar) (w : WallMinute) (i : ℕ)
    → resolve c w ≡ some i
    → (wall_clock_at c w.time_zone i ≡ desired c w) ⊎ Jumps c w.time_zone (desired c w) i
resolve_sound c w i h =
    let found = samples c w.time_zone (desired c w) in
    let shown =
      sorted-All (λ j. wall_clock_at c w.time_zone j ≡ desired c w)
        (exact_from c w.time_zone (desired c w) [] found)
        (exact_from-All c w.time_zone (desired c w) [] found) in
    elim (resolve_inversion c w _ i refl h) [
      | inl (x, rest, e, k) ↦
          let (p, ps) = subst (All (λ j. wall_clock_at c w.time_zone j ≡ desired c w)) e shown in
          inl (
            rw k
              (pick-All (λ j. wall_clock_at c w.time_zone j ≡ desired c w) w.boundary x rest p ps))
      | inr (e, k) ↦ inr (gap_sound c w.time_zone (desired c w) found i k)
    ]

resolve_both :
    (c : Calendar) (w : WallMinute) (xs : List ℕ) (s e : ℕ)
    → sort leb (exact_from c w.time_zone (desired c w) [] (samples c w.time_zone (desired c w)))
      ≡ xs
    → Ascending 0 xs
    → resolve c (record w { boundary = end }) ≡ some e
    → resolve c (record w { boundary = start }) ≡ some s
    → e ≤ s
unfolding resolve desired pick
resolve_both c w [] s e q v h k = ground (arith, q)
resolve_both c w (x ∷ xs) s e q v h k = ground (arith, q, last-Ascending x xs v.1)

-- As the end of a window a minute is resolved no later than as its start.
pub resolve-end-start :
    (c : Calendar) (w : WallMinute) (s e : ℕ)
    → resolve c (record w { boundary = end }) ≡ some e
    → resolve c (record w { boundary = start }) ≡ some s
    → e ≤ s
resolve-end-start c w s e h k = resolve_both c w _ s e refl (sort-Ascending _) h k

-- Between `low` and `high`, `n` is the first minute of another offset after one of the sample's.
abbrev pub Changes : Calendar → String → Sample → ℕ → ℕ → ℕ → Type 0
Changes c time_zone before low high n =
    (low < n)
    × (n ≤ high)
    × (has_offset c time_zone before (n - 1) ≡ true)
    × (has_offset c time_zone before n ≡ false)

Changes-widen :
    (c : Calendar) (time_zone : String) (before : Sample) (l l' h h' n : ℕ)
    → l ≤ l'
    → h' ≤ h
    → Changes c time_zone before l' h' n
    → Changes c time_zone before l h n
Changes-widen c time_zone before l l' h h' n a b (low, high, x, y) =
    (omega arith, omega arith, x, y)

-- The binary search ends, at a minute whose offset is not that of the sample though the offset
-- of the minute before it is, when it starts between two such minutes and has as much fuel as
-- there are minutes from one to the other.
pub search_transition :
    (c : Calendar) (time_zone : String) (before : Sample) (fuel low high : ℕ)
    → high ≤ low + fuel
    → low < high
    → has_offset c time_zone before low ≡ true
    → has_offset c time_zone before high ≡ false
    → Changes c time_zone before low high (search c time_zone before fuel low high)
unfolding search
search_transition c time_zone before zero low high f l a b = absurd (omega arith)
search_transition c time_zone before (suc fuel) low high f l a b =
    let middle = (low + high) / 2 in
    elim (Bool-cases (ltb (low + 1) high)) [
      | inr n ↦
          let same : low ≡ high - 1 = ground (arith, n) in
          rw n (l, omega arith, subst (λ k. has_offset c time_zone before k ≡ true) same a, b)
      | inl e ↦
          let wide : low + 1 < high = ground (arith, e) in
          elim (Bool-cases (has_offset c time_zone before middle)) [
            | inl t ↦
                let rest =
                  search_transition c time_zone before fuel middle high (omega arith) (omega arith)
                    t b in
                rw e (
                  rw t (
                    Changes-widen c time_zone before low middle high high _ (omega arith)
                      (omega arith) rest))
            | inr t ↦
                let rest =
                  search_transition c time_zone before fuel low middle (omega arith) (omega arith) a
                    t in
                rw e (
                  rw t (
                    Changes-widen c time_zone before low low high middle _ (omega arith)
                      (omega arith) rest))
          ]
    ]
