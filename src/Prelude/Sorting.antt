-- ===== src/Prelude/Sorting.antt =====
-- `Array.prototype.sort`: the stable sort by a test `le`, here by insertion.
use Prim.Native.Nat.{suc}
use mathlib.Core.Path.{◌≡◌, refl}
use mathlib.Core.Bool.{Bool, true, false}
use mathlib.Core.List.{List, [], ◌∷◌, Perm, Memᴰ}
use mathlib.Core.List.Perm
use mathlib.Core.List.Memᴰ.{cases_cons}
use mathlib.Core.Logic.{inl, inr}
use native.Mathlib.Omega.{arith}
use screen_goblin.Prelude.Tests.{if◌then◌else◌, Bool-cases}
use screen_goblin.Prelude.Lists.{All, length}

module _ {ℓ} {A : Type ℓ} where
  unfoldable pub insert : (A → A → Bool) → A → List A → List A
  insert le a [] = a ∷ []
  insert le a (x ∷ xs) = if le a x then a ∷ x ∷ xs else x ∷ insert le a xs

  unfoldable pub sort : (A → A → Bool) → List A → List A
  sort le [] = []
  sort le (x ∷ xs) = insert le x (sort le xs)

  insert-perm : (le : A → A → Bool) (a : A) (xs : List A) → Perm (insert le a xs) (a ∷ xs)
  unfolding insert
  insert-perm le a [] = Perm.refl _
  insert-perm le a (x ∷ xs) = elim (Bool-cases (le a x)) [
    | inl e ↦ rw e (Perm.refl _)
    | inr n ↦ rw n (Perm.trans (Perm.cons x (insert-perm le a xs)) (Perm.swap a x xs))
  ]

  -- Sorting reorders.
  pub sort-perm : (le : A → A → Bool) (xs : List A) → Perm (sort le xs) xs
  unfolding sort
  sort-perm le [] = Perm.refl []
  sort-perm le (x ∷ xs) = Perm.trans (insert-perm le x (sort le xs)) (Perm.cons x (sort-perm le xs))

  insert-All {κ} :
      (P : A → Type κ) (le : A → A → Bool) (a : A) (xs : List A)
      → All P (insert le a xs)
      → P a × All P xs
  unfolding insert
  insert-All P le a [] h = h
  insert-All P le a (x ∷ xs) h =
      (elim (le a x)
          as (λ c. All P (if c then a ∷ x ∷ xs else x ∷ insert le a xs) → P a × (P x × All P xs)) [
            | true ↦ λ k. k
            | false ↦ λ k. let (pa, rest) = insert-All P le a xs k.1 in (pa, (k.0, rest))
          ])
        h

  pub sort-All {κ} :
      (P : A → Type κ) (le : A → A → Bool) (xs : List A) → All P (sort le xs) → All P xs
  unfolding sort
  sort-All P le [] h = h
  sort-All P le (x ∷ xs) h =
      let (a, rest) = insert-All P le x (sort le xs) h in (a, sort-All P le xs rest)

  insert-Mem :
      (le : A → A → Bool) (a b : A) (xs : List A) → Memᴰ b (insert le a xs) → Memᴰ b (a ∷ xs)
  unfolding insert
  insert-Mem le a b [] m = m
  insert-Mem le a b (x ∷ xs) m =
      (elim (le a x)
          as (λ c. Memᴰ b (if c then a ∷ x ∷ xs else x ∷ insert le a xs) → Memᴰ b (a ∷ x ∷ xs)) [
            | true ↦ λ k. k
            | false ↦ λ k. elim (cases_cons k) [
              | inl e ↦ Memᴰ.tail (Memᴰ.head e)
              | inr r ↦ elim (cases_cons (insert-Mem le a b xs r)) [
                | inl e ↦ Memᴰ.head e
                | inr q ↦ Memᴰ.tail (Memᴰ.tail q)
              ]
            ]
          ])
        m

  pub sort-Mem : (le : A → A → Bool) (b : A) (xs : List A) → Memᴰ b (sort le xs) → Memᴰ b xs
  unfolding sort
  sort-Mem le b [] m = m
  sort-Mem le b (x ∷ xs) m = elim (cases_cons (insert-Mem le x b (sort le xs) m)) [
    | inl e ↦ Memᴰ.head e
    | inr r ↦ Memᴰ.tail (sort-Mem le b xs r)
  ]

  length-insert :
      (le : A → A → Bool) (a : A) (xs : List A) → length (insert le a xs) ≡ suc (length xs)
  unfolding insert
  length-insert le a [] = refl
  length-insert le a (x ∷ xs) = ground (arith, length-insert le a xs)

  pub length-sort : (le : A → A → Bool) (xs : List A) → length (sort le xs) ≡ length xs
  unfolding sort
  length-sort le [] = refl
  length-sort le (x ∷ xs) = omega (arith, length-insert le x (sort le xs), length-sort le xs)
