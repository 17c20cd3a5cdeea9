-- ===== src/Store/Releases/Retention.antt =====
-- apps/api/src/store/memory.ts: what the compaction does to a command that is remembered now.
use text.Mathlib.TextEquality.{eq_iff}
use mathlib.Core.List.{Memᴰ}
use mathlib.Core.List.Memᴰ.{cases_cons}
use screen_goblin.Prelude.{
  ℕ, suc, zero, ◌≡◌, sym, ap, ◌∙◌, inl, inr, ◌<◌, Bool, true, false, none, some, List, [], ◌∷◌,
  ◌++◌, if◌then◌else◌, arith, Bool-cases,
}
use screen_goblin.Prelude.Search.{
  Mem-snoc, find, filter, update_if, any_sound, find-none_sound, filter_Mem,
}
use screen_goblin.Prelude.Sorting.{sort, sort-Mem}
use screen_goblin.Store.Releases.Types.{Remembered, Backend}
use screen_goblin.Store.Releases.Idempotency.{
  is_key, is_stale, stale_le, is_selected, take, batch_size,
}

pub find-update_if :
    (test sel : Remembered → Bool) (change : Remembered → Remembered) (xs : List Remembered)
    (r : Remembered)
    → ((x : Remembered) → test (change x) ≡ test x)
    → find test xs ≡ some r
    → sel r ≡ false
    → find test (update_if sel change xs) ≡ some r
unfolding find update_if
find-update_if test sel change [] r same f n = cc
find-update_if test sel change (x ∷ xs) r same f n = elim (Bool-cases (test x)) [
  | inl e ↦
      let at : x ≡ r = ground (arith, f, e) in
      let off : sel x ≡ false = ap sel at ∙ n in rw off (rw e (ap some at))
  | inr off ↦
      let rest = find-update_if test sel change xs r same (ground (arith, f, off)) n in
      let other : test (if sel x then change x else x) ≡ false = ground (arith, same x, off) in
      rw other rest
]

pub take-Mem {ℓ} : {A : Type ℓ} (n : ℕ) (xs : List A) (x : A) → Memᴰ x (take n xs) → Memᴰ x xs
unfolding take
take-Mem zero xs x m = elim m [ ]
take-Mem (suc n) [] x m = elim m [ ]
take-Mem (suc n) (y ∷ ys) x m = elim (cases_cons m) [
  | inl e ↦ Memᴰ.head e
  | inr r ↦ Memᴰ.tail (take-Mem n ys x r)
]

-- Keys are the same from both sides.
pub is_key-sym :
    (q r : Remembered)
    → is_key q.organization_id q.operation q.key_hash r ≡ true
    → is_key r.organization_id r.operation r.key_hash q ≡ true
is_key-sym q r h =
    let o : r.organization_id ≡ q.organization_id =
      (eq_iff r.organization_id q.organization_id).0 (ground (arith, h)) in
    let k : r.key_hash ≡ q.key_hash = (eq_iff r.key_hash q.key_hash).0 (ground (arith, h)) in
    let o' = (eq_iff q.organization_id r.organization_id).1 (sym o) in
    let k' = (eq_iff q.key_hash r.key_hash).1 (sym k) in ground (arith, h, o', k')

-- A command that is remembered now is not dropped by the compaction.
pub new_kept :
    (b : Backend) (now : ℕ) (rs : List Remembered) (r : Remembered)
    → find (is_key r.organization_id r.operation r.key_hash) rs ≡ none
    → now < r.expires_at
    → is_selected (take batch_size (sort (stale_le b) (filter (is_stale now) (rs ++ r ∷ [])))) r
      ≡ false
new_kept b now rs r absent later =
    let all = rs ++ r ∷ [] in
    let stale = sort (stale_le b) (filter (is_stale now) all) in
    elim (Bool-cases (is_selected (take batch_size stale) r)) [
      | inr n ↦ n
      | inl e ↦
          let (q, m, key) =
            any_sound (λ (q : Remembered). is_key q.organization_id q.operation q.key_hash r)
              (take batch_size stale) e in
          let in_stale =
            sort-Mem (stale_le b) q (filter (is_stale now) all) (take-Mem batch_size stale q m) in
          let (in_all, old) = filter_Mem (is_stale now) all q in_stale in
          elim (Mem-snoc rs r q in_all) [
            | inl there ↦
                let without =
                  find-none_sound (is_key r.organization_id r.operation r.key_hash) rs q absent
                    there in
                absurd (cc (sym (is_key-sym q r key) ∙ without))
            | inr at ↦
                let old' : is_stale now r ≡ true = sym (ap (is_stale now) at) ∙ old in
                absurd (ground (arith, old', later))
          ]
    ]
