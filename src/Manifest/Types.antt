-- ===== src/Manifest/Types.antt =====
-- apps/player/src/core/types.ts: the manifest as it stands in memory, not narrowed yet, and
-- what the player takes from its runtime.
use Prim.Native.String.{String}
use screen_goblin.Prelude.{ℕ, ◌≡◌, refl, Bool, true, false, Option, List}
use screen_goblin.Prelude.Js.{Js}

-- `PlayerAsset`.
pub record Asset : Type 0 where
  pub id : Js
  pub kind : Js
  pub url : Js
  pub media_capability : Js
  pub media_delivery : Js
  pub mime_type : Js
  pub checksum : Js
  pub size_bytes : Js
  pub duration_seconds : Js
  pub expires_at : Js

-- `PlayerManifest`.
pub record Manifest : Type 0 where
  pub protocol_version : Js
  pub media_delivery : Js
  pub version : Js
  pub generated_at : Js
  pub valid_until : Js
  pub playback_ends_at : Js
  pub screen_id : Js
  pub request_challenge_id : Js
  pub priority : Js
  pub withdrawn : Js
  pub items : List Asset

-- `SignedPlayerManifest`; `manifest` is `none` where the field is missing.
pub record Signed : Type 0 where
  pub format_version : Js
  pub payload_json : Js
  pub signature_algorithm : Js
  pub signature : Js
  pub manifest : Option Manifest

-- `ManifestTrust`.
pub record Trust : Type 0 where
  pub screen_id : String
  pub manifest_verification_key : String

-- What `new URL(url)` reads.
pub record Url : Type 0 where
  pub username : String
  pub password : String
  pub search : String
  pub hash : String
  pub protocol : String
  pub hostname : String

-- A playlist item of the payload: `none` where the item, or its asset, is no object.
pub record WireItem : Type 0 where
  pub asset : Option Asset
  pub duration_seconds : Js

-- The payload of an envelope; `items` is `none` where the field is no array.
pub record Wire : Type 0 where
  pub protocol_version : Js
  pub media_delivery : Js
  pub version : Js
  pub generated_at : Js
  pub valid_until : Js
  pub playback_ends_at : Js
  pub screen_id : Js
  pub request_challenge_id : Js
  pub priority : Js
  pub withdrawn : Js
  pub items : Option (List (Option WireItem))

-- `Date.parse` in milliseconds from the first instant that it reads, `new URL`, `JSON.parse`
-- and `JSON.stringify`, the check of an Ed25519 signature of a text under a key, and the text that an object or an
-- array is converted to, `none` where the conversion throws.
pub record Runtime : Type 0 where
  pub date_parse : Js → Option ℕ
  pub parse_url : String → Option Url
  pub parse_json : String → Option Wire
  pub stringify : Manifest → String
  pub verify : String → String → String → Bool
  pub object_text : ℕ → Option String

-- The messages of `ManifestError`.
pub data Error : Type 0 where
  unsupported_protocol incomplete_metadata invalid_window empty_window future_generation : Error
  invalid_boundary invalid_priority missing_withdrawal nonempty_withdrawal no_items : Error
  too_many_items duplicate_id invalid_asset oversized_release bad_checksum bad_expiry
        unconvertible :
      Error
  invalid_payload invalid_items invalid_item invalid_item_asset : Error
  bad_signature expired cancelled older_release ambiguous_release storage_failed : Error

-- What a function that may throw does.
pub data Result {ℓ} (A : Type ℓ) : Type ℓ where
  threw : Error → Result A
  ok : A → Result A

-- `if (test) throw new ManifestError(…)`.
abbrev pub throw_if : Bool → Error → Result (Unit {0})
throw_if true message = threw message
throw_if false message = ok tt

infixl 5 ◌>>=◌ ◌>>◌
-- An exception skips what follows.
abbrev pub ◌>>=◌ {κ ℓ} : {X : Type κ} {Y : Type ℓ} → Result X → (X → Result Y) → Result Y
threw message >>= next = threw message
ok value >>= next = next value

abbrev pub ◌>>◌ {ℓ} : {Y : Type ℓ} → Result (Unit {0}) → Result Y → Result Y
threw message >> next = threw message
ok done >> next = next

-- The value that came first, when two steps in a row succeed.
pub >>=-ok {κ ℓ} :
    {X : Type κ} {Y : Type ℓ} {y : Y} (next : X → Result Y) (r : Result X)
    → (r >>= next) ≡ ok y
    → (x : X) × (next x ≡ ok y) × (r ≡ ok x)
>>=-ok next (threw message) e = cc
>>=-ok next (ok value) e = (value, e, refl)

pub >>-ok {ℓ} :
    {Y : Type ℓ} {y : Y} (next : Result Y) (r : Result (Unit {0}))
    → (r >> next) ≡ ok y
    → (next ≡ ok y) × (r ≡ ok tt)
>>-ok next (threw message) e = cc
>>-ok next (ok tt) e = (e, refl)
