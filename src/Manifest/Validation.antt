-- ===== src/Manifest/Validation.antt =====
-- apps/player/src/core/manifest.ts: `assertManifest` and the functions that it calls.
use Prim.Native.String.{String}
use text.Mathlib.Text.{◌==◌ as str_eq}
use screen_goblin.Prelude.{
  ℕ, ◌+◌, Bool, true, false, not, ◌||◌, ◌&&◌, Option, none, some, List, [], ◌∷◌, if◌then◌else◌, leb,
  ltb, ◌==◌, length, is_some,
}
use screen_goblin.Prelude.Js.{
  Js, string, whole, object, truthy, js_eq, is_undefined, is_string, is_boolean, is_sha256,
  is_media_capability,
}
use screen_goblin.Prelude.Texts.{is_empty}
use screen_goblin.Manifest.Types.{
  Asset, Manifest, Runtime, Result, ok, throw_if, ◌>>◌, unsupported_protocol, incomplete_metadata,
  invalid_window, empty_window, future_generation, invalid_boundary, invalid_priority,
  missing_withdrawal, nonempty_withdrawal, no_items, too_many_items, duplicate_id, invalid_asset,
  oversized_release, bad_checksum, bad_expiry, unconvertible,
}

abbrev pub max_items : ℕ
max_items = 500

abbrev pub max_asset_bytes : ℕ
max_asset_bytes = 134217728

abbrev pub max_release_bytes : ℕ
max_release_bytes = 536870912

-- `value === "…"`.
abbrev pub is : Js → String → Bool
is v s = js_eq v (string s)

abbrev pub emergency_mime : String
emergency_mime = "application/vnd.screengoblin.emergency+json"

-- `emergencyTemplate`.
unfoldable pub is_emergency_template : Js → Asset → Bool
is_emergency_template priority a =
    is priority "emergency" && is a.kind "template" && is a.mime_type emergency_mime

unfoldable pub is_allowed_kind_and_mime : Asset → Js → Bool
is_allowed_kind_and_mime a priority =
    (is priority "emergency" && is a.kind "template" && is a.mime_type emergency_mime)
    || (is a.kind "image" && (is a.mime_type "image/jpeg" || is a.mime_type "image/png"))
    || (is a.kind "video" && is a.mime_type "video/mp4")
    || (is a.kind "template" && is a.mime_type "application/json")

abbrev pub is_local_host : String → Bool
is_local_host h = str_eq h "localhost" || str_eq h "127.0.0.1" || str_eq h "::1"

module _ (w : Runtime) where
  unfoldable pub is_allowed_asset_url : String → Bool → Bool → Bool
  is_allowed_asset_url url emergency_template allow_legacy_query = elim (w.parse_url url) [
    | none ↦ false
    | some u ↦
        if not (is_empty u.username)
          || not (is_empty u.password)
          || (not allow_legacy_query && not (is_empty u.search))
          || not (is_empty u.hash)
        then false
        else if str_eq u.protocol "https:"
        then true
        else if str_eq u.protocol "http:" && is_local_host u.hostname
        then true
        else emergency_template && str_eq u.protocol "data:"
  ]

-- `Number.isInteger(value) && low <= value && value <= high`, for `1 <= low` and a safe `high`.
abbrev pub is_between : ℕ → ℕ → Js → Bool
is_between low high (whole n) = leb low n && leb n high
is_between low high _ = false

abbrev pub bytes : Js → ℕ
bytes (whole n) = n
bytes _ = 0

abbrev pub is_nan : Option ℕ → Bool
is_nan none = true
is_nan (some n) = false

-- `left <= right` and `left < right` between dates; false if one is not a number.
abbrev pub date_le : Option ℕ → Option ℕ → Bool
date_le none b = false
date_le (some a) none = false
date_le (some a) (some b) = leb a b

abbrev pub date_lt : Option ℕ → Option ℕ → Bool
date_lt none b = false
date_lt (some a) none = false
date_lt (some a) (some b) = ltb a b

abbrev pub has_url : Runtime → Js → Bool → Bool → Bool
has_url w (string s) emergency legacy = is_allowed_asset_url w s emergency legacy
has_url w _ emergency legacy = false

-- Whether an item of a manifest is refused as an invalid asset.
unfoldable pub is_invalid_asset : Runtime → Bool → Bool → Js → Asset → Bool
is_invalid_asset w current legacy priority a =
    not (has_url w a.url (is_emergency_template priority a) legacy)
    || (current
        && not (is_emergency_template priority a)
        && (not (is a.media_delivery "authorization-v1")
            || not (is_media_capability a.media_capability)))
    || (current
        && is_emergency_template priority a
        && (not (is_undefined a.media_delivery) || not (is_undefined a.media_capability)))
    || not (is_allowed_kind_and_mime a priority)
    || not (is_between 1 86400 a.duration_seconds)
    || not (is_between 1 max_asset_bytes a.size_bytes)

unfoldable pub is_bad_expiry : Runtime → Js → Asset → Bool
is_bad_expiry w generated_at a =
    not (is_undefined a.expires_at)
    && (not (is_string a.expires_at)
        || is_nan (w.date_parse a.expires_at)
        || date_le (w.date_parse a.expires_at) (w.date_parse generated_at))

-- `/^[a-f\d]{64}$/i.test(value)`, which converts the value to a text. Of the values other than texts
-- and objects none has a text of 64 characters.
unfoldable pub has_sha256 : Runtime → Js → Bool
has_sha256 w (string s) = is_sha256 s
has_sha256 w (object n) = elim (w.object_text n) [ none ↦ false | some s ↦ is_sha256 s ]
has_sha256 w _ = false

unfoldable pub is_unconvertible : Runtime → Js → Bool
is_unconvertible w (object n) = not (is_some (w.object_text n))
is_unconvertible w _ = false

unfoldable pub js_includes : Js → List Js → Bool
js_includes v [] = false
js_includes v (x ∷ xs) = js_eq v x || js_includes v xs

module _ (w : Runtime) (current legacy : Bool) (priority generated_at : Js) where
  -- The loop over the items: `ids` is the set of identifiers, `release` the bytes so far.
  unfoldable pub assert_items : List Js → ℕ → List Asset → Result (Unit {0})
  assert_items ids release [] = ok tt
  assert_items ids release (a ∷ as') =
      let rest = assert_items (a.id ∷ ids) (release + bytes a.size_bytes) as' in
      do
        throw_if (not (truthy a.id) || js_includes a.id ids) duplicate_id
        throw_if (is_invalid_asset w current legacy priority a) invalid_asset
        throw_if (ltb max_release_bytes (release + bytes a.size_bytes)) oversized_release
        throw_if (is_unconvertible w a.checksum) unconvertible
        throw_if (not (has_sha256 w a.checksum)) bad_checksum
        throw_if (is_bad_expiry w generated_at a) bad_expiry
        rest

abbrev pub is_current_protocol : Manifest → Bool
is_current_protocol m = js_eq m.protocol_version (whole 2) && is m.media_delivery "authorization-v1"

abbrev pub is_legacy_protocol : Manifest → Bool
is_legacy_protocol m = is_undefined m.protocol_version && is_undefined m.media_delivery

abbrev pub is_priority : Js → Bool
is_priority v = is v "normal" || is v "campaign" || is v "priority" || is v "emergency"

-- `Date.now() + 5 * 60_000` is the latest generation time that is accepted.
abbrev pub clock_skew : ℕ
clock_skew = 300000

abbrev pub is_bad_boundary : Runtime → Manifest → Bool
is_bad_boundary w m =
    not (is_undefined m.playback_ends_at)
    && (not (is_string m.playback_ends_at) || is_nan (w.date_parse m.playback_ends_at))

unfoldable pub assert_manifest : Runtime → ℕ → Bool → Manifest → Result (Unit {0})
assert_manifest w now require_current m =
    let generated = w.date_parse m.generated_at in
    let until = w.date_parse m.valid_until in
    do
      throw_if (not (is_current_protocol m) && (require_current || not (is_legacy_protocol m)))
          unsupported_protocol
      throw_if (not (truthy m.version) || not (truthy m.screen_id)) incomplete_metadata
      throw_if
          (not (truthy m.generated_at)
            || not (truthy m.valid_until)
            || is_nan generated
            || is_nan until)
          invalid_window
      throw_if (date_le until generated) empty_window
      throw_if (date_lt (some (now + clock_skew)) generated) future_generation
      throw_if (is_bad_boundary w m) invalid_boundary
      throw_if (not (is_priority m.priority)) invalid_priority
      throw_if (not (is_boolean m.withdrawn)) missing_withdrawal
      throw_if (truthy m.withdrawn && (not (is m.priority "normal") || not (length m.items == 0)))
          nonempty_withdrawal
      throw_if (not (truthy m.withdrawn) && length m.items == 0) no_items
      throw_if (ltb max_items (length m.items)) too_many_items
      assert_items w (is_current_protocol m) (is_legacy_protocol m) m.priority m.generated_at [] 0
          m.items
