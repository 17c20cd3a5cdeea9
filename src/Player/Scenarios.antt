-- ===== src/Player/Scenarios.antt =====
-- The releases of a player in runs of apps/player/src/core/manifest.ts and storage.ts.
use Prim.Native.String.{String}
use text.Mathlib.Text.{◌==◌ as str_eq}
use screen_goblin.Prelude.{
  ℕ, ◌<◌, ◌≡◌, refl, ap, ◌⊎◌, inl, true, false, Option, none, some, List, [], ◌∷◌, if◌then◌else◌,
}
use screen_goblin.Prelude.Js.{
  Js, undefined, string, whole, boolean, truthy, codes, are_exactly, js_eq,
}
use screen_goblin.Manifest.Types.{
  Asset, Manifest, Signed, Trust, Wire, WireItem, Runtime, ok, threw, cancelled,
}
use screen_goblin.Manifest.Validation.{
  is, is_emergency_template, is_allowed_kind_and_mime, is_allowed_asset_url, is_invalid_asset,
  is_bad_expiry, js_includes, assert_items, assert_manifest, has_sha256, is_unconvertible,
  is_current_protocol,
}
use screen_goblin.Manifest.Signature.{
  normalize_items, normalize_listed, normalize_signed_payload, verify_normalized, verify_parsed,
  verify_payload, verify_signed, items_end_at, manifest_playback_ends_at, is_expired_emergency,
  is_playable, rollback_deadline,
}
use screen_goblin.Manifest.WellFormed.{IsWellFormed, assert_manifest_sound}
use screen_goblin.Manifest.Genuine.{Genuine, verify_signed_sound}
use screen_goblin.Player.Store.{Database, activate_manifest, rollback, clear_manifests}
use screen_goblin.Player.Manager.{
  assert_not_older, activate_checked, activate_exclusive, recover_verified, recover_exclusive,
  rollback_checked, rollback_verified, rollback_exclusive,
}
use screen_goblin.Player.Recovery.{IsShowable, recover_sound, rollback_sound}
use screen_goblin.Player.Activation.{Newer, activate_sound, activate_atomic}
use screen_goblin.Player.Withdrawal.{withdrawal_blanks}
use screen_goblin.Player.Baseline.{
  HasBaseline, activates, rolls_back, apply_all, apply_all-HasBaseline,
}

abbrev no_asset : Asset
no_asset = record {
  id = undefined;
  kind = undefined;
  url = undefined;
  media_capability = undefined;
  media_delivery = undefined;
  mime_type = undefined;
  checksum = undefined;
  size_bytes = undefined;
  duration_seconds = undefined;
  expires_at = undefined;
}

-- A picture that a legacy release shows for ten seconds.
abbrev picture : Asset
picture = record no_asset {
  id = string "a";
  kind = string "image";
  url = string "picture";
  mime_type = string "image/png";
  checksum = string "0123456789abcdef0123456789abcdef0123456789abcdef0123456789abcdef";
  size_bytes = whole 4096;
  duration_seconds = whole 10;
}

abbrev release : Manifest
release = record {
  protocol_version = undefined;
  media_delivery = undefined;
  version = string "r1";
  generated_at = string "made";
  valid_until = string "until";
  playback_ends_at = undefined;
  screen_id = string "lobby";
  request_challenge_id = undefined;
  priority = string "normal";
  withdrawn = boolean false;
  items = picture ∷ [];
}

abbrev withdrawal : Manifest
withdrawal = record release { version = string "r2"; withdrawn = boolean true; items = [] }

abbrev wire : Manifest → List (Option WireItem) → Wire
wire m is' = record {
  protocol_version = m.protocol_version;
  media_delivery = m.media_delivery;
  version = m.version;
  generated_at = m.generated_at;
  valid_until = m.valid_until;
  playback_ends_at = m.playback_ends_at;
  screen_id = m.screen_id;
  request_challenge_id = m.request_challenge_id;
  priority = m.priority;
  withdrawn = m.withdrawn;
  items = some is';
}

abbrev showing : WireItem
showing = record { asset = some picture; duration_seconds = whole 10 }

abbrev read_wire : String → Option Wire
read_wire s =
    if str_eq s "release"
    then some (wire release (some showing ∷ []))
    else if str_eq s "withdrawal"
    then some (wire withdrawal [])
    else none

abbrev read_date : Js → Option ℕ
read_date v = if is v "made" then some 1000 else if is v "until" then some 9000000 else none

abbrev print : Manifest → String
print m = if truthy m.withdrawn then "withdrawal" else "release"

abbrev world : Runtime
world = record {
  date_parse = read_date;
  parse_url = λ s. some (record {
    username = "";
    password = "";
    search = "";
    hash = "";
    protocol = "https:";
    hostname = "media";
  });
  parse_json = read_wire;
  stringify = print;
  verify = λ payload signature key. true;
  object_text = λ n. none;
}

abbrev trust : Trust
trust = record { screen_id = "lobby"; manifest_verification_key = "key" }

abbrev envelope : String → Manifest → Signed
envelope payload m = record {
  format_version = whole 1;
  payload_json = string payload;
  signature_algorithm = string "Ed25519";
  signature = string "signature";
  manifest = some m;
}

abbrev holding : Option Signed → Database
holding s = record { credentials = none; pending_pairing = none; active = s; previous = none }

abbrev noon : ℕ → ℕ
noon k = 50000

abbrev steady : ℕ → ℕ
steady k = 7

-- The database that holds the release.
abbrev stored : Database
stored = holding (some (envelope "release" release))

release_verifies : verify_signed world 50000 trust stored.active ≡ some release
unfolding verify_signed verify_payload verify_parsed verify_normalized normalize_signed_payload
    normalize_listed normalize_items assert_manifest assert_items is_invalid_asset is_bad_expiry
    has_sha256 is_unconvertible js_includes is_allowed_asset_url is_allowed_kind_and_mime
    is_emergency_template js_eq truthy codes are_exactly
release_verifies = refl

withdrawal_verifies :
    verify_signed world 50000 trust (some (envelope "withdrawal" withdrawal)) ≡ some withdrawal
unfolding verify_signed verify_payload verify_parsed verify_normalized normalize_signed_payload
    normalize_listed normalize_items assert_manifest assert_items js_eq truthy
withdrawal_verifies = refl

verify_signed_sound_example : Genuine world 50000 trust (envelope "release" release) release
verify_signed_sound_example =
    verify_signed_sound world 50000 trust (envelope "release" release) release release_verifies

release_passes : assert_manifest world 50000 false release ≡ ok tt
unfolding assert_manifest assert_items is_invalid_asset is_bad_expiry has_sha256 is_unconvertible
    js_includes is_allowed_asset_url is_allowed_kind_and_mime is_emergency_template js_eq truthy
    codes are_exactly
release_passes = refl

assert_manifest_sound_example :
    IsWellFormed world 50000 release × ((false ≡ false) ⊎ (is_current_protocol release ≡ true))
assert_manifest_sound_example = assert_manifest_sound world 50000 false release release_passes

recover_answers : (recover_exclusive world trust noon stored).1 ≡ some release
unfolding recover_exclusive recover_verified truthy is_expired_emergency js_eq
    manifest_playback_ends_at items_end_at
recover_answers = ap (λ o. (recover_verified world trust noon o stored).1) release_verifies

recover_sound_example :
    IsShowable world trust noon (recover_exclusive world trust noon stored).0.active release
recover_sound_example = recover_sound world trust noon stored release recover_answers

-- The release before the active one has the same content.
abbrev rolled : Database
rolled = record stored { previous = stored.active }

rollback_answers : (rollback_exclusive world trust undefined noon rolled).1 ≡ some release
unfolding rollback_exclusive rollback_verified rollback_checked rollback rollback_deadline
    is_playable is_expired_emergency manifest_playback_ends_at items_end_at verify_signed
    verify_payload verify_parsed verify_normalized normalize_signed_payload normalize_listed
    normalize_items assert_manifest assert_items is_invalid_asset is_bad_expiry has_sha256
    is_unconvertible js_includes is_allowed_asset_url is_allowed_kind_and_mime is_emergency_template
    js_eq truthy codes are_exactly
rollback_answers = refl

rollback_sound_example :
    IsShowable world trust noon
      (rollback_exclusive world trust undefined noon rolled).0.active
      release
rollback_sound_example = rollback_sound world trust undefined noon rolled release rollback_answers

abbrev empty : Database
empty = holding none

release_activates :
    activate_exclusive world trust noon steady 7 (envelope "release" release) empty
    ≡ (stored, ok (some release))
unfolding activate_exclusive activate_checked assert_not_older activate_manifest
    manifest_playback_ends_at items_end_at verify_signed verify_payload verify_parsed
    verify_normalized normalize_signed_payload normalize_listed normalize_items assert_manifest
    assert_items is_invalid_asset is_bad_expiry has_sha256 is_unconvertible js_includes
    is_allowed_asset_url is_allowed_kind_and_mime is_emergency_template js_eq truthy codes
    are_exactly
release_activates = refl

activate_sound_example :
    (m : Manifest) × Genuine world 50000 trust (envelope "release" release) m
    × (stored.active ≡ some (envelope "release" release))
    × ((u : ℕ) × (world.date_parse m.valid_until ≡ some u) × (50000 < u))
    × Newer world m (verify_signed world 50000 trust empty.active)
    × ((steady 0 ≡ 7) × (steady 1 ≡ 7) × (steady 2 ≡ 7) × (steady 3 ≡ 7))
activate_sound_example =
    activate_sound world trust noon steady 7 (envelope "release" release) empty stored
      (some release) release_activates

is_cancelled :
    activate_exclusive world trust noon steady 8 (envelope "release" release) stored
    ≡ (stored, threw cancelled)
unfolding activate_exclusive
is_cancelled = refl

activate_atomic_example :
    (stored ≡ stored)
    ⊎ ((s : Signed) × (stored.active ≡ some s)
        × (verify_signed world 50000 trust (some s) ≡ none)
        × (stored ≡ clear_manifests stored))
activate_atomic_example =
    activate_atomic world trust noon steady 8 (envelope "release" release) stored stored cancelled
      is_cancelled

abbrev withdrawn : Database
withdrawn = record stored { active = some (envelope "withdrawal" withdrawal) }

withdrawal_is_withdrawn : truthy withdrawal.withdrawn ≡ true
unfolding truthy
withdrawal_is_withdrawn = refl

withdrawal_blanks_example :
    ((recover_exclusive world trust noon withdrawn).1 ≡ none)
    × ((rollback_exclusive world trust undefined noon withdrawn).1 ≡ none)
withdrawal_blanks_example =
    withdrawal_blanks world trust undefined 50000 noon withdrawal withdrawn withdrawal_verifies
      withdrawal_is_withdrawn

apply_all-HasBaseline_example : HasBaseline (
    apply_all
      (activates (envelope "release" release)
        ∷ activates (envelope "withdrawal" withdrawal)
        ∷ rolls_back undefined none 50000
        ∷ [])
      empty)
apply_all-HasBaseline_example =
    apply_all-HasBaseline
      (activates (envelope "release" release)
        ∷ activates (envelope "withdrawal" withdrawal)
        ∷ rolls_back undefined none 50000
        ∷ [])
      empty (inl refl)
