-- ===== src/Prelude/Tests.antt =====
-- Boolean tests on the native numbers, the conditional, and case lemmas.
use Prim.Native.Nat.{ℕ, ◌≤◌, ◌<◌, compare, Ordering}
use mathlib.Core.Path.{◌≡◌, refl}
use mathlib.Core.Logic.{◌↔◌, ◌⊎◌, inl, inr}
use mathlib.Core.Bool.{Bool, true, false, not, ◌&&◌, ◌||◌}
use mathlib.Core.Option.{Option, none, some}
use native.Mathlib.Omega.{arith}

abbrev pub ltb : ℕ → ℕ → Bool
ltb a b = elim (compare a b) [ Ordering.lt ↦ true | _ ↦ false ]

abbrev pub leb : ℕ → ℕ → Bool
leb a b = elim (compare a b) [ Ordering.gt ↦ false | _ ↦ true ]

infix 50 ◌==◌
abbrev pub ◌==◌ : ℕ → ℕ → Bool
a == b = elim (compare a b) [ Ordering.eq ↦ true | _ ↦ false ]

infix 1 if◌then◌else◌
abbrev pub if◌then◌else◌ {ℓ} : {A : Type ℓ} → Bool → A → A → A
if true then x else y = x
if false then x else y = y

abbrev pub is_some {ℓ} : {A : Type ℓ} → Option A → Bool
is_some none = false
is_some (some a) = true

-- `value ?? fallback`.
abbrev pub or_default {ℓ} : {A : Type ℓ} → Option A → A → A
or_default none d = d
or_default (some a) d = a

pub ltb→lt : (a b : ℕ) → ltb a b ≡ true → a < b
ltb→lt a b h = ground arith

pub leb→le : (a b : ℕ) → leb a b ≡ true → a ≤ b
leb→le a b h = ground arith

pub ==_iff : (a b : ℕ) → ((a == b) ≡ true) ↔ (a ≡ b)
==_iff a b = ground arith

pub Bool-cases : (b : Bool) → (b ≡ true) ⊎ (b ≡ false)
Bool-cases true = inl refl
Bool-cases false = inr refl

pub Option-cases {ℓ} : {A : Type ℓ} (o : Option A) → (o ≡ none) ⊎ ((a : A) × (o ≡ some a))
Option-cases none = inl refl
Option-cases (some a) = inr (a, refl)

-- An `if` that answers nothing on its first branch.
pub unless_none {ℓ} :
    {A : Type ℓ} (b : Bool) (o : Option A) {a : A}
    → (if b then none else o) ≡ some a
    → (b ≡ false) × (o ≡ some a)
unless_none true o h = cc
unless_none false o h = (refl, h)

-- An `if` that answers nothing on its second branch.
pub when_some {ℓ} :
    {A : Type ℓ} (b : Bool) (o : Option A) {a : A}
    → (if b then o else none) ≡ some a
    → (b ≡ true) × (o ≡ some a)
when_some true o h = (refl, h)
when_some false o h = cc

pub sum-cases {ℓ κ} :
    {A : Type ℓ} {B : Type κ} (s : A ⊎ B) → ((a : A) × (s ≡ inl a)) ⊎ ((b : B) × (s ≡ inr b))
sum-cases (inl a) = inl (a, refl)
sum-cases (inr b) = inr (b, refl)

-- What a test says of the tests it is made of.
pub or_left : (a b : Bool) → a || b ≡ false → a ≡ false
or_left a b h = ground arith

pub or_right : (a b : Bool) → a || b ≡ false → b ≡ false
or_right a b h = ground arith

pub or_true : (a b : Bool) → a || b ≡ true → (a ≡ true) ⊎ (b ≡ true)
or_true a b h = ground arith

pub and_true : (a b : Bool) → a && b ≡ true → (a ≡ true) × (b ≡ true)
and_true a b h = ground arith

pub and_false : (a b : Bool) → a && b ≡ false → (a ≡ false) ⊎ (b ≡ false)
and_false a b h = ground arith

pub unnot : (b : Bool) → not b ≡ false → b ≡ true
unnot b h = ground arith
