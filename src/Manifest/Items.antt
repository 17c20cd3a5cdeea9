-- ===== src/Manifest/Items.antt =====
-- apps/player/src/core/manifest.ts: what the loop of `assertManifest` over the items establishes.
use text.Mathlib.TextPositions.{eq_refl}
use screen_goblin.Prelude.{
  or_left, or_right, unnot, ℕ, ◌+◌, ◌≤◌, ◌≡◌, ◌≢◌, refl, ap, ◌⊎◌, inl, inr, Bool, true, false, List,
  [], ◌∷◌, ltb, length, All, arith,
}
use screen_goblin.Prelude.Js.{Js, string, js_eq}
use screen_goblin.Manifest.Types.{Asset, Manifest, Runtime, Error, Result, ok, throw_if, ◌>>◌}
use screen_goblin.Manifest.Validation.{
  max_release_bytes, bytes, js_includes, assert_items, is_current_protocol, is_legacy_protocol,
  is_nan,
}
use screen_goblin.Manifest.SoundAsset.{IsSoundAsset, asset_sound}

abbrev pub Distinct : List Asset → Type 0
Distinct [] = Unit
Distinct (a ∷ as') = All (λ b. b.id ≢ a.id) as' × Distinct as'

abbrev pub total_bytes : List Asset → ℕ
total_bytes [] = 0
total_bytes (a ∷ as') = bytes a.size_bytes + total_bytes as'

pub throw_if_ok :
    (b : Bool) (e : Error) (m : Result (Unit {0}))
    → (throw_if b e >> m) ≡ ok tt
    → (b ≡ false) × (m ≡ ok tt)
throw_if_ok true e m h = cc
throw_if_ok false e m h = (refl, h)

js_eq_refl : (v : Js) → js_eq v v ≡ true
unfolding js_eq
js_eq_refl (string s) = eq_refl s
js_eq_refl v = ground arith

js_includes_ne :
    (v x : Js) (xs : List Js)
    → js_includes v (x ∷ xs) ≡ false
    → (v ≢ x) × (js_includes v xs ≡ false)
unfolding js_includes
js_includes_ne v x xs h = (
  λ e. cc (js_eq_refl v, ap (js_eq v) e, or_left (js_eq v x) (js_includes v xs) h),
  or_right (js_eq v x) (js_includes v xs) h,
)

-- What the loop establishes of the items that follow those already passed.
pub record IsPassed (w : Runtime) (m : Manifest) (ids : List Js) (release : ℕ) (as' : List Asset)
    : Type 0 where
  pub assets : All (IsSoundAsset w m) as'
  pub fresh : All (λ a. js_includes a.id ids ≡ false) as'
  pub distinct : Distinct as'
  pub size : (length as' ≡ 0) ⊎ (release + total_bytes as' ≤ max_release_bytes)

fresh_tail :
    (x : Js) (ids : List Js) (as' : List Asset)
    → All (λ a. js_includes a.id (x ∷ ids) ≡ false) as'
    → All (λ a. js_includes a.id ids ≡ false) as' × All (λ a. a.id ≢ x) as'
fresh_tail x ids [] h = (tt, tt)
fresh_tail x ids (a ∷ as') h =
    let (ne, rest) = js_includes_ne a.id x ids h.0 in
    let (later, others) = fresh_tail x ids as' h.1 in ((rest, later), (ne, others))

size_step :
    (release n : ℕ) (as' : List Asset)
    → ltb max_release_bytes (release + n) ≡ false
    → (length as' ≡ 0) ⊎ (release + n + total_bytes as' ≤ max_release_bytes)
    → release + (n + total_bytes as') ≤ max_release_bytes
size_step release n [] h s = ground arith
size_step release n (a ∷ as') h s = omega arith

pub items-IsPassed :
    (w : Runtime) (m : Manifest) (ids : List Js) (release : ℕ) (as' : List Asset)
    → assert_items w
        (is_current_protocol m)
        (is_legacy_protocol m)
        m.priority
        m.generated_at
        ids
        release
        as'
      ≡ ok tt
    → is_nan (w.date_parse m.generated_at) ≡ false
    → IsPassed w m ids release as'
unfolding assert_items
items-IsPassed w m ids release [] h dated = record {
  assets = tt;
  fresh = tt;
  distinct = tt;
  size = inl refl;
}
items-IsPassed w m ids release (a ∷ as') h dated =
    let (id_fine, h1) = throw_if_ok _ _ _ h in
    let (asset_fine, h2) = throw_if_ok _ _ _ h1 in
    let (size_fine, h3) = throw_if_ok _ _ _ h2 in
    let (converted, h4) = throw_if_ok _ _ _ h3 in
    let (sum_fine, h5) = throw_if_ok _ _ _ h4 in
    let (expiry_fine, h6) = throw_if_ok _ _ _ h5 in
    let rest = items-IsPassed w m (a.id ∷ ids) (release + bytes a.size_bytes) as' h6 dated in
    let (fresh, others) = fresh_tail a.id ids as' rest.fresh in
    record {
      assets = (
        asset_sound w m a dated (unnot _ (or_left _ _ id_fine)) asset_fine (unnot _ sum_fine)
            expiry_fine,
        rest.assets,
      );
      fresh = (or_right _ _ id_fine, fresh);
      distinct = (others, rest.distinct);
      size = inr (size_step release (bytes a.size_bytes) as' size_fine rest.size);
    }
