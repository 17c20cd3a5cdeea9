-- ===== src/Authorization/Context.antt =====
-- apps/api/src/authorization/scoped.ts: what a context that is not refused as invalid looks like.
use Prim.Native.String.{String}
use text.Mathlib.Text.{◌==◌ as str_eq}
use screen_goblin.Prelude.{
  unnot, ℕ, ◌≤◌, ◌≡◌, ◌≢◌, refl, sym, ◌∙◌, ap, inl, inr, Bool, true, false, ◌||◌, Option, none,
  some, List, [], ◌∷◌, All, length, arith, Bool-cases, Option-cases,
}
use screen_goblin.Prelude.Texts.{is_empty, includes, unique, same_refl}
use screen_goblin.Authorization.Records.{Target, Input, NormalizedGrant, NormalizedTarget, Platform}
use screen_goblin.Authorization.Scoped.{
  max_safe_integer, is_epoch, is_blank, has_blank, is_bad_target, is_invalid_context,
  normalize_loop, normalize_targets, grant_ids, sorted_active,
}

-- Texts that differ from each other.
abbrev pub AreApart : List String → Type 0
AreApart [] = Unit
AreApart (s ∷ ss) = All (λ t. t ≢ s) ss × AreApart ss

abbrev pub screen_ids : List Target → List String
screen_ids [] = []
screen_ids (t ∷ ts) = t.screen_id ∷ screen_ids ts

-- A target with a screen, a location that is missing or named, and groups that are named.
pub record IsNamed (t : Target) : Type 0 where
  pub screen : t.screen_id ≢ ""
  pub location : t.location_id ≢ some ""
  pub groups : All (λ s. s ≢ "") t.screen_group_ids

-- The tenant, the actor and the membership are named, the epoch is a safe integer, the targets are
-- named screens that differ, and the grants that are active at `now` have identifiers that differ.
pub record IsValidContext (p : Platform) (i : Input) (now : ℕ) : Type 0 where
  pub tenant : i.organization_id ≢ ""
  pub actor : i.actor_user_id ≢ ""
  pub membership : i.membership_id ≢ ""
  pub epoch : (n : ℕ) × (i.authorization_epoch ≡ some n) × (n ≤ max_safe_integer)
  pub targets : All IsNamed i.targets × AreApart (screen_ids i.targets)
  pub grants : AreApart (grant_ids (sorted_active p i now))

not_empty : (s : String) → is_empty s ≡ false → s ≢ ""
not_empty s h e = cc (same_refl "", ap (λ x. str_eq x "") e, h)

not_included :
    (s t : String) (seen : List String)
    → includes s (t ∷ seen) ≡ false
    → (s ≢ t) × (includes s seen ≡ false)
unfolding includes
not_included s t seen h =
    (λ e. ground (arith, same_refl t, ap (λ x. str_eq x t) e, h), ground (arith, h))

-- Texts that are none of `t` and of what has been seen.
passed_tail :
    (t : String) (seen ss : List String)
    → All (λ s. includes s (t ∷ seen) ≡ false) ss
    → All (λ s. includes s seen ≡ false) ss × All (λ s. s ≢ t) ss
passed_tail t seen [] a = (tt, tt)
passed_tail t seen (s ∷ ss) a =
    let (ne, fresh) = not_included s t seen a.0 in
    let (later, others) = passed_tail t seen ss a.1 in ((fresh, later), (ne, others))

length-unique : (seen ss : List String) → length (unique seen ss) ≤ length ss
unfolding unique
length-unique seen [] = omega arith
length-unique seen (s ∷ ss) = ground (arith, length-unique seen ss, length-unique (s ∷ seen) ss)

-- A list that loses nothing when it is made a set repeats nothing.
unique-AreApart :
    (seen ss : List String)
    → length (unique seen ss) ≡ length ss
    → All (λ s. includes s seen ≡ false) ss × AreApart ss
unfolding unique
unique-AreApart seen [] h = (tt, tt)
unique-AreApart seen (s ∷ ss) h = elim (Bool-cases (includes s seen)) [
  | inl e ↦ absurd (ground (arith, e, length-unique seen ss, h))
  | inr n ↦
      let (fresh, apart) = unique-AreApart (s ∷ seen) ss (ground (arith, n, h)) in
      let (later, others) = passed_tail s seen ss fresh in ((n, later), (others, apart))
]

has_blank_none : (ss : List String) → has_blank ss ≡ false → All (λ s. s ≢ "") ss
unfolding has_blank
has_blank_none [] h = tt
has_blank_none (s ∷ ss) h = (not_empty s (ground (arith, h)), has_blank_none ss (ground (arith, h)))

not_blank : (o : Option String) → is_blank o ≡ false → o ≢ some ""
not_blank none h e = cc
not_blank (some s) h e = not_empty s h (ground (arith, e))

none_of :
    (a b c d : Bool)
    → a || b || c || d ≡ false
    → (a ≡ false) × (b ≡ false) × (c ≡ false) × (d ≡ false)
none_of a b c d h = ground arith

last_four :
    (a b c d e : Bool)
    → a || b || c || d || e ≡ false
    → (b ≡ false) × (c ≡ false) × (d ≡ false) × (e ≡ false)
last_four a b c d e h = ground arith

-- The tests on a target.
fine_target :
    (org : String) (seen : List String) (t : Target)
    → is_bad_target org seen t ≡ false
    → IsNamed t × (includes t.screen_id seen ≡ false)
fine_target org seen t h =
    let (name, fresh, place, groups) = last_four _ _ _ _ _ h in
    (
      record {
        screen = not_empty t.screen_id name;
        location = not_blank t.location_id place;
        groups = has_blank_none t.screen_group_ids groups;
      },
      fresh,
    )

normalize_loop-AreApart :
    (p : Platform) (org : String) (seen : List String) (ts : List Target)
    (ns : List NormalizedTarget)
    → normalize_loop p org seen ts ≡ some ns
    → All IsNamed ts × All (λ s. includes s seen ≡ false) (screen_ids ts) × AreApart (screen_ids ts)
unfolding normalize_loop
normalize_loop-AreApart p org seen [] ns e = (tt, tt, tt)
normalize_loop-AreApart p org seen (t ∷ ts) ns e =
    elim (Option-cases (normalize_loop p org (t.screen_id ∷ seen) ts)) [
      | inl n ↦ absurd (ground (arith, n, e))
      | inr (ms, k) ↦
          let (named, fresh, apart) = normalize_loop-AreApart p org (t.screen_id ∷ seen) ts ms k in
          let (later, others) = passed_tail t.screen_id seen (screen_ids ts) fresh in
          let (name, new) = fine_target org seen t (ground (arith, k, e)) in
          ((name, named), (new, later), (others, apart))
    ]

targets_sound :
    (p : Platform) (org : String) (ts : List Target) (ns : List NormalizedTarget)
    → normalize_targets p org ts ≡ some ns
    → All IsNamed ts × AreApart (screen_ids ts)
unfolding normalize_targets
targets_sound p org ts ns e = elim (Option-cases (normalize_loop p org [] ts)) [
  | inl n ↦ absurd (ground (arith, n, e))
  | inr (ms, k) ↦
      let (named, fresh, apart) = normalize_loop-AreApart p org [] ts ms k in (named, apart)
]

epoch_sound : (o : Option ℕ) → is_epoch o ≡ true → (n : ℕ) × (o ≡ some n) × (n ≤ max_safe_integer)
epoch_sound none h = cc
epoch_sound (some n) h = (n, refl, ground (arith, h))

length-grant_ids : (gs : List NormalizedGrant) → length (grant_ids gs) ≡ length gs
unfolding grant_ids
length-grant_ids [] = refl
length-grant_ids (g ∷ gs) = omega (arith, length-grant_ids gs)

pub context_sound :
    (p : Platform) (i : Input) (now : ℕ) (ns : List NormalizedTarget)
    → normalize_targets p i.organization_id i.targets ≡ some ns
    → is_invalid_context i ≡ false
    → length (unique [] (grant_ids (sorted_active p i now))) ≡ length (sorted_active p i now)
    → IsValidContext p i now
context_sound p i now ns norm valid size =
    let (org, actor, membership, epoch) = none_of _ _ _ _ valid in
    record {
      tenant = not_empty _ org;
      actor = not_empty _ actor;
      membership = not_empty _ membership;
      epoch = epoch_sound i.authorization_epoch (unnot _ epoch);
      targets = targets_sound p i.organization_id i.targets ns norm;
      grants =
          (unique-AreApart [] (grant_ids (sorted_active p i now))
            (size ∙ sym (length-grant_ids (sorted_active p i now)))).1;
    }
