-- ===== src/Manifest/SoundAsset.antt =====
-- apps/player/src/core/manifest.ts: what an item that passes `assertManifest` looks like.
use screen_goblin.Prelude.{
  or_left, or_right, unnot, and_false, ℕ, ◌≤◌, ◌<◌, ◌≡◌, refl, ◌⊎◌, inl, inr, Bool, true, false,
  not, ◌||◌, ◌&&◌, Option, none, some, arith,
}
use screen_goblin.Prelude.Js.{
  Js, is_string, undefined, string, whole, truthy, js_eq→≡, is_undefined, is_media_capability,
}
use screen_goblin.Manifest.Types.{Asset, Manifest, Runtime}
use screen_goblin.Manifest.Validation.{
  max_asset_bytes, is, is_between, is_invalid_asset, is_current_protocol, is_legacy_protocol,
  is_emergency_template, is_nan, date_le, has_sha256, is_bad_expiry,
}
use screen_goblin.Manifest.Kinds.{IsFitKind, IsFitUrl, kind_sound, url_sound}

-- The delivery of an item under the current protocol: by a capability, or by none for the template
-- of an emergency.
abbrev pub IsDelivered : Bool → Asset → Type 0
IsDelivered template a =
    ((template ≡ true) × (a.media_delivery ≡ undefined) × (a.media_capability ≡ undefined))
    ⊎ ((template ≡ false)
        × (a.media_delivery ≡ string "authorization-v1")
        × (is_media_capability a.media_capability ≡ true))

-- Within its limits: the size, the duration, the checksum, the kind, the address, the delivery,
-- and an expiry that is missing or a date after the generation.
pub record IsSoundAsset (w : Runtime) (m : Manifest) (a : Asset) : Type 0 where
  pub named : truthy a.id ≡ true
  pub size : (n : ℕ) × (a.size_bytes ≡ whole n) × (1 ≤ n) × (n ≤ max_asset_bytes)
  pub duration : (n : ℕ) × (a.duration_seconds ≡ whole n) × (1 ≤ n) × (n ≤ 86400)
  pub checksum : has_sha256 w a.checksum ≡ true
  pub kind : IsFitKind a m.priority
  pub address : IsFitUrl w a.url (is_emergency_template m.priority a) (is_legacy_protocol m)
  pub delivery :
      (is_current_protocol m ≡ false) ⊎ IsDelivered (is_emergency_template m.priority a) a
  pub expiry :
      (a.expires_at ≡ undefined)
      ⊎ ((g e : ℕ) × (is_string a.expires_at ≡ true)
          × (w.date_parse m.generated_at ≡ some g)
          × (w.date_parse a.expires_at ≡ some e)
          × (g < e))

is_between-whole :
    (low high : ℕ) (v : Js)
    → is_between low high v ≡ true
    → (n : ℕ) × (v ≡ whole n) × (low ≤ n) × (n ≤ high)
is_between-whole low high v h = ground arith

-- None of six tests that are joined by `||`.
none_of :
    (a b c d e f : Bool)
    → a || b || c || d || e || f ≡ false
    → ((a ≡ false) × (b ≡ false) × (c ≡ false)) × ((d ≡ false) × (e ≡ false) × (f ≡ false))
none_of a b c d e f h = ground arith

none_of_three : (a b c : Bool) → a || b || c ≡ false → (a ≡ false) × (b ≡ false) × (c ≡ false)
none_of_three a b c h = ground arith

pub is_undefined→≡ : (v : Js) → is_undefined v ≡ true → v ≡ undefined
is_undefined→≡ v h = ground arith

-- The tests on the delivery of an item, by the protocol and by whether it is the template.
delivery_sound :
    (current template : Bool) (a : Asset)
    → current
        && not template
        && (not (is a.media_delivery "authorization-v1")
            || not (is_media_capability a.media_capability))
      ≡ false
    → current
        && template
        && (not (is_undefined a.media_delivery) || not (is_undefined a.media_capability))
      ≡ false
    → (current ≡ false) ⊎ IsDelivered template a
delivery_sound false template a h k = inl refl
delivery_sound true true a h k = inr (
    inl (
      refl,
      is_undefined→≡ _ (unnot _ (or_left _ _ k)),
      is_undefined→≡ _ (unnot _ (or_right _ _ k)),
    ))
delivery_sound true false a h k =
    inr (inr (refl, js_eq→≡ _ _ (unnot _ (or_left _ _ h)), unnot _ (or_right _ _ h)))

-- The dates behind the test on an expiry.
expiry_dates :
    (generated expires : Option ℕ)
    → is_nan generated ≡ false
    → is_nan expires ≡ false
    → date_le expires generated ≡ false
    → (g e : ℕ) × (generated ≡ some g) × (expires ≡ some e) × (g < e)
expiry_dates none expires a b c = cc
expiry_dates (some g) none a b c = cc
expiry_dates (some g) (some e) a b c = (g, e, refl, refl, ground arith)

expiry_sound :
    (w : Runtime) (generated_at : Js) (a : Asset)
    → is_nan (w.date_parse generated_at) ≡ false
    → is_bad_expiry w generated_at a ≡ false
    → (a.expires_at ≡ undefined)
      ⊎ ((g e : ℕ) × (is_string a.expires_at ≡ true)
          × (w.date_parse generated_at ≡ some g)
          × (w.date_parse a.expires_at ≡ some e)
          × (g < e))
unfolding is_bad_expiry
expiry_sound w generated_at a dated h = elim (and_false _ _ h) [
  | inl u ↦ inl (is_undefined→≡ _ (unnot _ u))
  | inr k ↦
      let (text, read, later) = none_of_three _ _ _ k in
      let (g, e, from, to, order) =
        expiry_dates (w.date_parse generated_at) (w.date_parse a.expires_at) dated read later in
      inr (g, e, unnot _ text, from, to, order)
]

pub asset_sound :
    (w : Runtime) (m : Manifest) (a : Asset)
    → is_nan (w.date_parse m.generated_at) ≡ false
    → truthy a.id ≡ true
    → is_invalid_asset w (is_current_protocol m) (is_legacy_protocol m) m.priority a ≡ false
    → has_sha256 w a.checksum ≡ true
    → is_bad_expiry w m.generated_at a ≡ false
    → IsSoundAsset w m a
unfolding is_invalid_asset
asset_sound w m a dated named fine sum fresh =
    let ((url, signed, bare), (kind, duration, size)) = none_of _ _ _ _ _ _ fine in
    record {
      named = named;
      size = is_between-whole 1 max_asset_bytes a.size_bytes (unnot _ size);
      duration = is_between-whole 1 86400 a.duration_seconds (unnot _ duration);
      checksum = sum;
      kind = kind_sound a m.priority (unnot _ kind);
      address =
          url_sound w a.url (is_emergency_template m.priority a) (is_legacy_protocol m)
            (unnot _ url);
      delivery =
          delivery_sound (is_current_protocol m) (is_emergency_template m.priority a) a signed bare;
      expiry = expiry_sound w m.generated_at a dated fresh;
    }
