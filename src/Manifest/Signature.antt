-- ===== src/Manifest/Signature.antt =====
-- apps/player/src/core/manifest.ts: reading a signed envelope, and when a manifest may play.
use Prim.Native.String.{String}
use text.Mathlib.Text.{◌==◌ as str_eq}
use screen_goblin.Prelude.{
  ℕ, Bool, true, false, not, ◌||◌, ◌&&◌, Option, none, some, List, [], ◌∷◌, min, if◌then◌else◌, leb,
}
use screen_goblin.Prelude.Js.{
  Js, undefined, null, string, whole, boolean, truthy, js_eq, is_undefined,
}
use screen_goblin.Manifest.Types.{
  Asset, Manifest, Signed, Trust, Wire, WireItem, Runtime, Result, ok, threw, ◌>>=◌, ◌>>◌,
  invalid_items, invalid_item, invalid_item_asset,
}
use screen_goblin.Manifest.Validation.{is, assert_manifest, date_le}

-- `wire.withdrawn ?? false`.
abbrev pub or_false : Js → Js
or_false undefined = boolean false
or_false null = boolean false
or_false v = v

unfoldable pub normalize_items : List (Option WireItem) → Result (List Asset)
normalize_items [] = ok []
normalize_items (none ∷ is') = threw invalid_item
normalize_items (some i ∷ is') =
    let rest = normalize_items is' in
    elim i.asset [
      | none ↦ threw invalid_item_asset
      | some a ↦ rest >>= λ as'. ok (record a { duration_seconds = i.duration_seconds } ∷ as')
    ]

abbrev pub to_manifest : Wire → List Asset → Manifest
to_manifest v items = record {
  protocol_version = v.protocol_version;
  media_delivery = v.media_delivery;
  version = v.version;
  generated_at = v.generated_at;
  valid_until = v.valid_until;
  playback_ends_at = v.playback_ends_at;
  screen_id = v.screen_id;
  request_challenge_id = v.request_challenge_id;
  priority = v.priority;
  withdrawn = or_false v.withdrawn;
  items = items;
}

-- The payload is known to hold an array of items.
unfoldable pub normalize_listed :
    Runtime → ℕ → Bool → Wire → List (Option WireItem) → Result Manifest
normalize_listed w now require_current v is' = do
  items ← normalize_items is'
  assert_manifest w now require_current (to_manifest v items)
  ok (to_manifest v items)

unfoldable pub normalize_signed_payload : Runtime → ℕ → Bool → Wire → Result Manifest
normalize_signed_payload w now require_current v = elim v.items [
  | none ↦ threw invalid_items
  | some is' ↦ normalize_listed w now require_current v is'
]

-- The manifest is this screen's, and the one that the envelope shows.
unfoldable pub verify_normalized : Runtime → Trust → Manifest → Result Manifest → Option Manifest
verify_normalized w trust shown (threw e) = none
verify_normalized w trust shown (ok m) =
    if not (js_eq m.screen_id (string trust.screen_id))
      || not (str_eq (w.stringify m) (w.stringify shown))
    then none
    else some m

unfoldable pub verify_parsed : Runtime → ℕ → Trust → Manifest → Option Wire → Option Manifest
verify_parsed w now trust shown none = none
verify_parsed w now trust shown (some v) =
    verify_normalized w trust shown (normalize_signed_payload w now false v)

unfoldable pub verify_payload : Runtime → ℕ → Trust → String → String → Manifest → Option Manifest
verify_payload w now trust payload signature shown =
    if not (w.verify payload signature trust.manifest_verification_key)
    then none
    else verify_parsed w now trust shown (w.parse_json payload)

abbrev pub verify_texts : Runtime → ℕ → Trust → Js → Js → Option Manifest → Option Manifest
verify_texts w now trust (string payload) (string signature) (some shown) =
    verify_payload w now trust payload signature shown
verify_texts w now trust _ _ _ = none

-- `verifySignedPlayerManifest`; an envelope that is no object is `none`.
unfoldable pub verify_signed : Runtime → ℕ → Trust → Option Signed → Option Manifest
verify_signed w now trust none = none
verify_signed w now trust (some s) =
    if not (js_eq s.format_version (whole 1)) || not (is s.signature_algorithm "Ed25519")
    then none
    else verify_texts w now trust s.payload_json s.signature s.manifest

-- The least of two boundaries that may be missing.
abbrev pub min_boundary : Option ℕ → Option ℕ → Option ℕ
min_boundary none b = b
min_boundary (some a) none = some a
min_boundary (some a) (some b) = some (min a b)

-- A boundary that is set, where it is a date.
abbrev pub boundary : Runtime → Js → Option ℕ
boundary w v = if is_undefined v then none else w.date_parse v

unfoldable pub items_end_at : Runtime → List Asset → Option ℕ
items_end_at w [] = none
items_end_at w (a ∷ as') = min_boundary (boundary w a.expires_at) (items_end_at w as')

unfoldable pub manifest_playback_ends_at : Runtime → Manifest → Option ℕ
manifest_playback_ends_at w m =
    min_boundary (boundary w m.playback_ends_at) (items_end_at w m.items)

-- `boundary !== undefined && boundary <= now`.
abbrev pub has_ended : Option ℕ → ℕ → Bool
has_ended none now = false
has_ended (some b) now = leb b now

unfoldable pub is_expired_emergency : Runtime → ℕ → Manifest → Bool
is_expired_emergency w now m =
    is m.priority "emergency" && date_le (w.date_parse m.valid_until) (some now)

abbrev pub is_ok {ℓ} : {A : Type ℓ} → Result A → Bool
is_ok (ok a) = true
is_ok (threw e) = false

-- `isStoredManifestPlayable`, with the readings of the clock that it makes.
unfoldable pub is_playable : Runtime → (ℕ → ℕ) → Option Manifest → Bool
is_playable w clock none = false
is_playable w clock (some m) =
    if truthy m.withdrawn
    then false
    else if not (is_ok (assert_manifest w (clock 0) false m))
    then false
    else if is_expired_emergency w (clock 1) m
    then false
    else not (has_ended (manifest_playback_ends_at w m) (clock 2))

unfoldable pub rollback_deadline : Runtime → Manifest → Manifest → Option ℕ
rollback_deadline w active previous = min_boundary (manifest_playback_ends_at w active) (
    min_boundary (manifest_playback_ends_at w previous)
      (if is previous.priority "emergency" then w.date_parse previous.valid_until else none))
