-- ===== src/Prelude/Texts.antt =====
-- Texts as the program compares them: identity, emptiness, membership, and sets of texts.
use Prim.Native.String.{String}
use text.Mathlib.Text.{◌==◌ as str_eq}
use text.Mathlib.TextEquality.{eq_iff}
use text.Mathlib.TextPositions.{eq_refl}
use mathlib.Core.Path.{◌≡◌}
use mathlib.Core.Bool.{Bool, true, false, ◌||◌}
use mathlib.Core.List.{List, [], ◌∷◌, Memᴰ}
use mathlib.Core.List.Memᴰ.{cases_cons}
use mathlib.Core.Logic.{inl, inr}
use native.Mathlib.Omega.{arith}
use screen_goblin.Prelude.Tests.{if◌then◌else◌, Bool-cases}

-- `value.length === 0`.
abbrev pub is_empty : String → Bool
is_empty s = str_eq s ""

pub same→eq : (s t : String) → str_eq s t ≡ true → s ≡ t
same→eq s t h = (eq_iff s t).0 h

pub same_refl : (s : String) → str_eq s s ≡ true
same_refl s = eq_refl s

-- `values.includes(value)`.
unfoldable pub includes : String → List String → Bool
includes s [] = false
includes s (t ∷ ts) = str_eq s t || includes s ts

-- `[...new Set(values)]`, in the order of first appearance; `seen` is what is in the set.
unfoldable pub unique : List String → List String → List String
unique seen [] = []
unique seen (s ∷ ss) =
    let new = s ∷ unique (s ∷ seen) ss in
    let old = unique seen ss in if includes s seen then old else new

pub includes-Mem : (s : String) (ts : List String) → includes s ts ≡ true → Memᴰ s ts
unfolding includes
includes-Mem s [] h = cc
includes-Mem s (t ∷ ts) h = elim (Bool-cases (str_eq s t)) [
  | inl e ↦ Memᴰ.head (same→eq s t e)
  | inr n ↦ Memᴰ.tail (includes-Mem s ts (ground (arith, n, h)))
]

pub unique-Mem : (s : String) (seen ts : List String) → Memᴰ s (unique seen ts) → Memᴰ s ts
unfolding unique
unique-Mem s seen [] m = m
unique-Mem s seen (t ∷ ts) m =
    (elim (includes t seen)
        as (λ c.
          Memᴰ s (if c then unique seen ts else t ∷ unique (t ∷ seen) ts) → Memᴰ s (t ∷ ts)) [
            | true ↦ λ k. Memᴰ.tail (unique-Mem s seen ts k)
            | false ↦ λ k. elim (cases_cons k) [
              | inl e ↦ Memᴰ.head e
              | inr r ↦ Memᴰ.tail (unique-Mem s (t ∷ seen) ts r)
            ]
          ])
      m
