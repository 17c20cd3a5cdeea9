-- ===== src/Manifest/WellFormed.antt =====
-- apps/player/src/core/manifest.ts: what a manifest that passes `assertManifest` looks like.
use mathlib.Core.List.{Memᴰ}
use screen_goblin.Prelude.{
  or_left, or_right, unnot, and_false, or_true, ℕ, ◌+◌, ◌≤◌, ◌<◌, ◌≡◌, refl, ◌⊎◌, inl, inr, Bool,
  true, false, not, ◌||◌, ◌&&◌, Option, none, some, List, [], ◌∷◌, ltb, ◌==◌, length, All, arith,
}
use screen_goblin.Prelude.Js.{
  Js, undefined, string, boolean, truthy, js_eq→≡, is_string, is_boolean,
}
use screen_goblin.Manifest.Types.{
  Asset, Manifest, Runtime, ok, unsupported_protocol, incomplete_metadata, invalid_window,
  empty_window, future_generation, invalid_boundary, invalid_priority, missing_withdrawal,
  nonempty_withdrawal, no_items, too_many_items,
}
use screen_goblin.Manifest.Validation.{
  max_items, max_release_bytes, clock_skew, is, assert_manifest, is_current_protocol,
  is_legacy_protocol, is_bad_boundary, is_priority, is_nan, date_le, date_lt,
}
use screen_goblin.Manifest.SoundAsset.{IsSoundAsset, is_undefined→≡}
use screen_goblin.Manifest.Items.{Distinct, total_bytes, throw_if_ok, items-IsPassed}

abbrev pub priorities : List Js
priorities = string "normal" ∷ string "campaign" ∷ string "priority" ∷ string "emergency" ∷ []

pub record IsWellFormed (w : Runtime) (now : ℕ) (m : Manifest) : Type 0 where
  pub protocol : (is_current_protocol m ≡ true) ⊎ (is_legacy_protocol m ≡ true)
  pub named : (truthy m.version ≡ true) × (truthy m.screen_id ≡ true)
  pub dated : (truthy m.generated_at ≡ true) × (truthy m.valid_until ≡ true)
  pub boundary :
      (m.playback_ends_at ≡ undefined)
      ⊎ ((b : ℕ) × (is_string m.playback_ends_at ≡ true)
          × (w.date_parse m.playback_ends_at ≡ some b))
  pub priority : Memᴰ m.priority priorities
  pub marked : (b : Bool) × (m.withdrawn ≡ boolean b)
  pub window :
      (g u : ℕ) × (w.date_parse m.generated_at ≡ some g)
      × (w.date_parse m.valid_until ≡ some u)
      × (g < u)
      × (g ≤ now + clock_skew)
  pub emptiness :
      ((truthy m.withdrawn ≡ true) × (length m.items ≡ 0) × (is m.priority "normal" ≡ true))
      ⊎ ((truthy m.withdrawn ≡ false) × (1 ≤ length m.items) × (length m.items ≤ max_items))
  pub assets : All (IsSoundAsset w m) m.items
  pub distinct : Distinct m.items
  pub size : total_bytes m.items ≤ max_release_bytes

none_of_four :
    (a b c d : Bool)
    → a || b || c || d ≡ false
    → (a ≡ false) × (b ≡ false) × (c ≡ false) × (d ≡ false)
none_of_four a b c d h = ground arith

total_within :
    (as' : List Asset)
    → (length as' ≡ 0) ⊎ (0 + total_bytes as' ≤ max_release_bytes)
    → total_bytes as' ≤ max_release_bytes
total_within [] h = omega arith
total_within (a ∷ as') h = omega arith

-- The dates behind the tests on the window.
window_sound :
    (generated until : Option ℕ) (now : ℕ)
    → is_nan generated ≡ false
    → is_nan until ≡ false
    → date_le until generated ≡ false
    → date_lt (some (now + clock_skew)) generated ≡ false
    → (g u : ℕ) × (generated ≡ some g) × (until ≡ some u) × (g < u) × (g ≤ now + clock_skew)
window_sound none until now a b c d = cc
window_sound (some g) none now a b c d = cc
window_sound (some g) (some u) now a b c d = (g, u, refl, refl, ground arith, ground arith)

emptiness_sound :
    (withdrawn normal : Bool) (n : ℕ)
    → withdrawn && (not normal || not (n == 0)) ≡ false
    → not withdrawn && n == 0 ≡ false
    → ltb max_items n ≡ false
    → ((withdrawn ≡ true) × (n ≡ 0) × (normal ≡ true))
      ⊎ ((withdrawn ≡ false) × (1 ≤ n) × (n ≤ max_items))
emptiness_sound withdrawn normal n a b c = ground arith

protocol_sound :
    (current legacy required : Bool)
    → not current && (required || not legacy) ≡ false
    → (current ≡ true) ⊎ (legacy ≡ true)
protocol_sound current legacy required h = ground arith

required_sound :
    (current legacy required : Bool)
    → not current && (required || not legacy) ≡ false
    → (required ≡ false) ⊎ (current ≡ true)
required_sound current legacy required h = ground arith

priority_sound : (v : Js) → is_priority v ≡ true → Memᴰ v priorities
priority_sound v h = elim (or_true _ _ h) [
  | inr e ↦ Memᴰ.tail (Memᴰ.tail (Memᴰ.tail (Memᴰ.head (js_eq→≡ _ _ e))))
  | inl h1 ↦ elim (or_true _ _ h1) [
    | inr e ↦ Memᴰ.tail (Memᴰ.tail (Memᴰ.head (js_eq→≡ _ _ e)))
    | inl h2 ↦ elim (or_true _ _ h2) [
      | inr e ↦ Memᴰ.tail (Memᴰ.head (js_eq→≡ _ _ e))
      | inl e ↦ Memᴰ.head (js_eq→≡ _ _ e)
    ]
  ]
]

is_boolean→≡ : (v : Js) → is_boolean v ≡ true → (b : Bool) × (v ≡ boolean b)
is_boolean→≡ v h = ground arith

not_nan : (o : Option ℕ) → is_nan o ≡ false → (n : ℕ) × (o ≡ some n)
not_nan none h = cc
not_nan (some n) h = (n, refl)

boundary_sound :
    (w : Runtime) (m : Manifest)
    → is_bad_boundary w m ≡ false
    → (m.playback_ends_at ≡ undefined)
      ⊎ ((b : ℕ) × (is_string m.playback_ends_at ≡ true)
          × (w.date_parse m.playback_ends_at ≡ some b))
boundary_sound w m h = elim (and_false _ _ h) [
  | inl u ↦ inl (is_undefined→≡ _ (unnot _ u))
  | inr k ↦
      let (b, read) = not_nan (w.date_parse m.playback_ends_at) (or_right _ _ k) in
      inr (b, unnot _ (or_left _ _ k), read)
]

-- A manifest that passes `assertManifest` is well formed: a protocol that is supported (the
-- current one, where it is required), a version and a screen, one of the four priorities, a
-- Boolean withdrawal mark, a playback end that is missing or a date, a validity window that is
-- stated, is not empty and begins at most five minutes ahead, either withdrawn, empty and of normal priority or
-- with 1 to 500 items, with identifiers that differ, and 512 MiB of content at most. Each item is
-- a picture, a video or a template of an allowed format, its address is a URL without credentials
-- and fragment over an allowed scheme, it has a size and a duration within their limits, a SHA-256
-- checksum, an expiry that is missing or a date after the generation, and under the current
-- protocol a capability, or none for the template of an emergency.
pub assert_manifest_sound :
    (w : Runtime) (now : ℕ) (required : Bool) (m : Manifest)
    → assert_manifest w now required m ≡ ok tt
    → IsWellFormed w now m × ((required ≡ false) ⊎ (is_current_protocol m ≡ true))
unfolding assert_manifest
assert_manifest_sound w now required m h =
    let (protocol, h1) = throw_if_ok _ unsupported_protocol _ h in
    let (metadata, h2) = throw_if_ok _ incomplete_metadata _ h1 in
    let (dates, h3) = throw_if_ok _ invalid_window _ h2 in
    let (order, h4) = throw_if_ok _ empty_window _ h3 in
    let (skew, h5) = throw_if_ok _ future_generation _ h4 in
    let (boundary, h6) = throw_if_ok (is_bad_boundary w m) invalid_boundary _ h5 in
    let (priority, h7) = throw_if_ok (not (is_priority m.priority)) invalid_priority _ h6 in
    let (marked, h8) = throw_if_ok (not (is_boolean m.withdrawn)) missing_withdrawal _ h7 in
    let (tombstone, h9) = throw_if_ok _ nonempty_withdrawal _ h8 in
    let (empty, h10) = throw_if_ok _ no_items _ h9 in
    let (many, h11) = throw_if_ok _ too_many_items _ h10 in
    let (made, ends, nan_generated, nan_until) = none_of_four _ _ _ _ dates in
    let passed = items-IsPassed w m [] 0 m.items h11 nan_generated in
    (
      record {
        protocol = protocol_sound _ _ _ protocol;
        named = (unnot _ (or_left _ _ metadata), unnot _ (or_right _ _ metadata));
        dated = (unnot _ made, unnot _ ends);
        boundary = boundary_sound w m boundary;
        priority = priority_sound m.priority (unnot _ priority);
        marked = is_boolean→≡ m.withdrawn (unnot _ marked);
        window = window_sound _ _ now nan_generated nan_until order skew;
        emptiness = emptiness_sound _ _ _ tombstone empty many;
        assets = passed.assets;
        distinct = passed.distinct;
        size = total_within m.items passed.size;
      },
      required_sound _ _ _ protocol,
    )
