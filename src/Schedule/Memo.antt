-- ===== src/Schedule/Memo.antt =====
-- apps/api/src/utils/schedule.ts: the memo of `resolveZonedWallMinute`. A key is the tuple of
-- arguments that the text of the source's key spells.
use text.Mathlib.Text.{◌==◌ as str_eq}
use text.Mathlib.TextEquality.{eq_iff}
use screen_goblin.Prelude.{
  ℕ, ◌≡◌, ◌∙◌, ap, sym, inl, inr, Bool, true, false, ◌&&◌, Option, none, some, List, [], ◌∷◌, All,
  if◌then◌else◌, leb, ◌==◌, length, arith, Bool-cases, Option-cases, subst,
}
use screen_goblin.Schedule.Zoned.{Calendar, WallMinute, Boundary, start, end, resolve}

abbrev pub Memo : Type 0
Memo = List (WallMinute × ℕ)

abbrev pub same_boundary : Boundary → Boundary → Bool
same_boundary start start = true
same_boundary end end = true
same_boundary _ _ = false

unfoldable pub same_key : WallMinute → WallMinute → Bool
same_key k j =
    str_eq k.time_zone j.time_zone
    && k.year == j.year
    && k.month == j.month
    && k.day == j.day
    && k.minute_of_day == j.minute_of_day
    && same_boundary k.boundary j.boundary

unfoldable pub recall : WallMinute → Memo → Option ℕ
recall k [] = none
recall k ((j, i) ∷ m) = if same_key k j then some i else recall k m

abbrev pub max_entries : ℕ
max_entries = 4096

-- `remember`; the key is not there.
unfoldable pub remember : WallMinute → ℕ → Memo → Memo
remember k i m = if leb max_entries (length m) then (k, i) ∷ [] else (k, i) ∷ m

unfoldable pub resolve_zoned_wall_minute : Calendar → WallMinute → Memo → Memo × Option ℕ
resolve_zoned_wall_minute c k m = elim (recall k m) [
  | some i ↦ (m, some i)
  | none ↦ elim (resolve c k) [ none ↦ (m, none) | some i ↦ (remember k i m, some i) ]
]

unfoldable pub resolve_all : Calendar → List WallMinute → Memo → Memo
resolve_all c [] m = m
resolve_all c (k ∷ ks) m = resolve_all c ks (resolve_zoned_wall_minute c k m).0

-- What the memo holds is what the resolution gives.
abbrev pub IsFaithful : Calendar → Memo → Type 0
IsFaithful c m = All (λ (k, i). resolve c k ≡ some i) m

same_key-eq : (k j : WallMinute) → same_key k j ≡ true → k ≡ j
unfolding same_key
same_key-eq k j h = ground (arith, eq_iff k.time_zone j.time_zone)

recall_sound :
    (c : Calendar) (k : WallMinute) (i : ℕ) (m : Memo)
    → IsFaithful c m
    → recall k m ≡ some i
    → resolve c k ≡ some i
unfolding recall
recall_sound c k i [] v h = cc
recall_sound c k i ((j, l) ∷ m) v h = elim (Bool-cases (same_key k j)) [
  | inl e ↦ ap (resolve c) (same_key-eq k j e) ∙ v.0 ∙ ground (arith, e)
  | inr n ↦ recall_sound c k i m v.1 (ground (arith, n))
]

resolve-IsFaithful :
    (c : Calendar) (k : WallMinute) (m : Memo)
    → IsFaithful c m
    → IsFaithful c (resolve_zoned_wall_minute c k m).0
      × ((resolve_zoned_wall_minute c k m).1 ≡ resolve c k)
unfolding resolve_zoned_wall_minute remember
resolve-IsFaithful c k m v =
    let by : (q : Memo × Option ℕ)
        → resolve_zoned_wall_minute c k m ≡ q
        → IsFaithful c q.0 × (q.1 ≡ resolve c k)
        → IsFaithful c (resolve_zoned_wall_minute c k m).0
          × ((resolve_zoned_wall_minute c k m).1 ≡ resolve c k) =
      λ q e t. subst (λ q. IsFaithful c q.0 × (q.1 ≡ resolve c k)) (sym e) t in
    elim (Option-cases (recall k m)) [
      | inr (i, e) ↦ by (m, some i) (ground (arith, e)) (v, sym (recall_sound c k i m v e))
      | inl n ↦ elim (Option-cases (resolve c k)) [
        | inl x ↦ by (m, none) (ground (arith, n, x)) (v, sym x)
        | inr (i, x) ↦ elim (Bool-cases (leb max_entries (length m))) [
          | inl full ↦ by ((k, i) ∷ [], some i) (ground (arith, n, x, full)) ((x, tt), sym x)
          | inr room ↦ by ((k, i) ∷ m, some i) (ground (arith, n, x, room)) ((x, v), sym x)
        ]
      ]
    ]

resolve_all-IsFaithful :
    (c : Calendar) (ks : List WallMinute) (m : Memo)
    → IsFaithful c m
    → IsFaithful c (resolve_all c ks m)
unfolding resolve_all
resolve_all-IsFaithful c [] m v = v
resolve_all-IsFaithful c (k ∷ ks) m v = resolve_all-IsFaithful c ks _ (resolve-IsFaithful c k m v).0

-- After any calls from an empty memo, a call answers what the resolution without a memo gives,
-- exceptions included.
pub memo_transparent :
    (c : Calendar) (ks : List WallMinute) (k : WallMinute)
    → (resolve_zoned_wall_minute c k (resolve_all c ks [])).1 ≡ resolve c k
memo_transparent c ks k = (resolve-IsFaithful c k _ (resolve_all-IsFaithful c ks [] tt)).1
