-- ===== src/Prelude/Search.antt =====
-- The array methods of the program: `some`, `find`, `filter`, and a `map` that changes what
-- passes a test; with their laws over the members of a list.
use mathlib.Core.Path.{◌≡◌, refl, sym, ap, subst, ◌∙◌}
use mathlib.Core.Logic.{◌⊎◌, inl, inr}
use mathlib.Core.Bool.{Bool, true, false, ◌||◌}
use mathlib.Core.Option.{Option, none, some}
use mathlib.Core.List.{List, [], ◌∷◌, ◌++◌, Memᴰ}
use mathlib.Core.List.Memᴰ.{cases_cons}
use native.Mathlib.Omega.{arith}
use screen_goblin.Prelude.Tests.{if◌then◌else◌, Bool-cases}

module _ {ℓ} {A : Type ℓ} where
  -- `xs.some(test)`.
  unfoldable pub any : (A → Bool) → List A → Bool
  any test [] = false
  any test (x ∷ xs) = test x || any test xs

  -- `xs.find(test)`.
  unfoldable pub find : (A → Bool) → List A → Option A
  find test [] = none
  find test (x ∷ xs) = if test x then some x else find test xs

  unfoldable pub filter : (A → Bool) → List A → List A
  filter test [] = []
  filter test (x ∷ xs) = let rest = filter test xs in if test x then x ∷ rest else rest

  -- `xs.map((x) => (test(x) ? change(x) : x))`.
  unfoldable pub update_if : (A → Bool) → (A → A) → List A → List A
  update_if test change [] = []
  update_if test change (x ∷ xs) = (if test x then change x else x) ∷ update_if test change xs

  pub any_sound :
      (test : A → Bool) (xs : List A) → any test xs ≡ true → (x : A) × Memᴰ x xs × (test x ≡ true)
  unfolding any
  any_sound test [] h = cc
  any_sound test (x ∷ xs) h = elim (Bool-cases (test x)) [
    | inl e ↦ (x, Memᴰ.head refl, e)
    | inr n ↦ let (y, m, t) = any_sound test xs (ground (arith, n)) in (y, Memᴰ.tail m, t)
  ]

  pub any_complete :
      (test : A → Bool) (x : A) (xs : List A) → Memᴰ x xs → test x ≡ true → any test xs ≡ true
  unfolding any
  any_complete test x [] m h = elim m [ ]
  any_complete test x (y ∷ ys) m h = elim (cases_cons m) [
    | inl e ↦ let t : test y ≡ true = ap test (sym e) ∙ h in rw t
    | inr r ↦ ground (arith, any_complete test x ys r h)
  ]

  pub find_sound :
      (test : A → Bool) (xs : List A) (x : A) → find test xs ≡ some x → Memᴰ x xs × (test x ≡ true)
  unfolding find
  find_sound test [] x h = cc
  find_sound test (y ∷ ys) x h = elim (Bool-cases (test y)) [
    | inl e ↦ let same : x ≡ y = ground (arith, e) in (Memᴰ.head same, ap test same ∙ e)
    | inr n ↦ let (m, t) = find_sound test ys x (ground (arith, n)) in (Memᴰ.tail m, t)
  ]

  pub find-none :
      (test : A → Bool) (xs : List A) → ((x : A) → Memᴰ x xs → test x ≡ false) → find test xs ≡ none
  unfolding find
  find-none test [] h = refl
  find-none test (y ∷ ys) h =
      let n = h y (Memᴰ.head refl) in rw n (find-none test ys (λ x m. h x (Memᴰ.tail m)))

  pub find-none_sound :
      (test : A → Bool) (xs : List A) (x : A) → find test xs ≡ none → Memᴰ x xs → test x ≡ false
  unfolding find
  find-none_sound test [] x h m = elim m [ ]
  find-none_sound test (y ∷ ys) x h m = elim (Bool-cases (test y)) [
    | inl e ↦ absurd (ground (arith, e))
    | inr n ↦ elim (cases_cons m) [
      | inl e ↦ ap test e ∙ n
      | inr r ↦ find-none_sound test ys x (ground (arith, n)) r
    ]
  ]

  pub filter_Mem :
      (test : A → Bool) (xs : List A) (x : A)
      → Memᴰ x (filter test xs)
      → Memᴰ x xs × (test x ≡ true)
  unfolding filter
  filter_Mem test [] x m = elim m [ ]
  filter_Mem test (y ∷ ys) x m = elim (Bool-cases (test y)) [
    | inl e ↦
        let m' : Memᴰ x (y ∷ filter test ys) =
          subst (λ b. Memᴰ x (if b then y ∷ filter test ys else filter test ys)) e m in
        elim (cases_cons m') [
          | inl q ↦ (Memᴰ.head q, ap test q ∙ e)
          | inr r ↦ let (n, t) = filter_Mem test ys x r in (Memᴰ.tail n, t)
        ]
    | inr n ↦
        let m' : Memᴰ x (filter test ys) =
          subst (λ b. Memᴰ x (if b then y ∷ filter test ys else filter test ys)) n m in
        let (k, t) = filter_Mem test ys x m' in (Memᴰ.tail k, t)
  ]

  pub Mem_filter :
      (test : A → Bool) (xs : List A) (x : A) → Memᴰ x xs → test x ≡ true → Memᴰ x (filter test xs)
  unfolding filter
  Mem_filter test [] x m h = elim m [ ]
  Mem_filter test (y ∷ ys) x m h = elim (cases_cons m) [
    | inl e ↦ let t : test y ≡ true = ap test (sym e) ∙ h in rw t (Memᴰ.head e)
    | inr r ↦
        let rest = Mem_filter test ys x r h in
        elim (test y) as (λ b. Memᴰ x (if b then y ∷ filter test ys else filter test ys)) [
          | true ↦ Memᴰ.tail rest
          | false ↦ rest
        ]
  ]

  -- A member of a changed list was there, or is the change of a member that passed the test.
  pub update_if_Mem :
      (test : A → Bool) (change : A → A) (xs : List A) (y : A)
      → Memᴰ y (update_if test change xs)
      → (x : A) × Memᴰ x xs × (y ≡ (if test x then change x else x))
  unfolding update_if
  update_if_Mem test change [] y m = elim m [ ]
  update_if_Mem test change (x ∷ xs) y m = elim (cases_cons m) [
    | inl e ↦ (x, Memᴰ.head refl, e)
    | inr r ↦ let (z, n, e) = update_if_Mem test change xs y r in (z, Memᴰ.tail n, e)
  ]

  pub Mem_update_if :
      (test : A → Bool) (change : A → A) (xs : List A) (x : A)
      → Memᴰ x xs
      → Memᴰ (if test x then change x else x) (update_if test change xs)
  unfolding update_if
  Mem_update_if test change [] x m = elim m [ ]
  Mem_update_if test change (y ∷ ys) x m = elim (cases_cons m) [
    | inl e ↦ Memᴰ.head (ap (λ z. if test z then change z else z) e)
    | inr r ↦ Memᴰ.tail (Mem_update_if test change ys x r)
  ]

  pub any_none_sound :
      (test : A → Bool) (xs : List A) (x : A) → any test xs ≡ false → Memᴰ x xs → test x ≡ false
  unfolding any
  any_none_sound test [] x h m = elim m [ ]
  any_none_sound test (y ∷ ys) x h m = elim (cases_cons m) [
    | inl e ↦ ap test e ∙ ground (arith, h)
    | inr r ↦ any_none_sound test ys x (ground (arith, h)) r
  ]

  -- What is not changed stays.
  pub Mem_unchanged :
      (test : A → Bool) (change : A → A) (xs : List A) (x : A)
      → Memᴰ x xs
      → test x ≡ false
      → Memᴰ x (update_if test change xs)
  Mem_unchanged test change xs x m h =
      subst (λ b. Memᴰ (if b then change x else x) (update_if test change xs)) h
        (Mem_update_if test change xs x m)

  -- What is changed stands in the list as it was changed.
  pub Mem_changed :
      (test : A → Bool) (change : A → A) (xs : List A) (x : A)
      → Memᴰ x xs
      → test x ≡ true
      → Memᴰ (change x) (update_if test change xs)
  Mem_changed test change xs x m h =
      subst (λ b. Memᴰ (if b then change x else x) (update_if test change xs)) h
        (Mem_update_if test change xs x m)

  pub find-append :
      (test : A → Bool) (xs ys : List A) → find test xs ≡ none → find test (xs ++ ys) ≡ find test ys
  unfolding find
  find-append test [] ys h = refl
  find-append test (x ∷ xs) ys h = ground (arith, h, find-append test xs ys)

pub Mem-snoc {ℓ} :
    {A : Type ℓ} (xs : List A) (y x : A) → Memᴰ x (xs ++ y ∷ []) → Memᴰ x xs ⊎ (x ≡ y)
Mem-snoc [] y x m = elim (cases_cons m) [ inl e ↦ inr e | inr n ↦ elim n [ ] ]
Mem-snoc (z ∷ zs) y x m = elim (cases_cons m) [
  | inl e ↦ inl (Memᴰ.head e)
  | inr n ↦ elim (Mem-snoc zs y x n) [ inl k ↦ inl (Memᴰ.tail k) | inr e ↦ inr e ]
]
