-- ===== src/Limits/MediaPolicy.antt =====
-- apps/api/src/utils/media-policy.ts with the limits of packages/contracts/src/index.ts: what
-- may be published. `date_parse` stands for `Date.parse`, `none` for a date that is not one.
use Prim.Native.String.{String}
use screen_goblin.Prelude.{
  ℕ, ◌+◌, ◌≤◌, ◌≡◌, ◌↔◌, refl, Bool, true, false, not, ◌||◌, ◌&&◌, Option, none, some, List, [],
  ◌∷◌, All, if◌then◌else◌, leb, ltb, arith,
}
use screen_goblin.Prelude.Texts.{includes, is_empty}
use screen_goblin.Prelude.Js.{is_sha256}

pub data Kind : Type 0 where
  image video template web : Kind

-- `size_bytes` is `none` where it is no natural number in the safe range.
pub record PolicyAsset : Type 0 where
  pub kind : Kind
  pub mime_type : String
  pub checksum : String
  pub size_bytes : Option ℕ
  pub expires_at : Option String

pub data Failure : Type 0 where
  asset_unsupported asset_expired release_too_large : Failure

abbrev pub media_max_asset_bytes : ℕ
media_max_asset_bytes = 134217728

abbrev pub media_max_release_bytes : ℕ
media_max_release_bytes = 536870912

abbrev pub supported_mime_types : Kind → List String
supported_mime_types image = "image/jpeg" ∷ "image/png" ∷ []
supported_mime_types video = "video/mp4" ∷ []
supported_mime_types template = "application/json" ∷ []
supported_mime_types web = []

unfoldable pub is_supported_media : Kind → String → Bool
is_supported_media kind mime = includes mime (supported_mime_types kind)

-- `1 <= size && size <= MEDIA_MAX_ASSET_BYTES`.
abbrev pub is_sized : Option ℕ → Bool
is_sized none = false
is_sized (some n) = leb 1 n && leb n media_max_asset_bytes

abbrev pub size : Option ℕ → ℕ
size none = 0
size (some n) = n

unfoldable pub is_unsupported : PolicyAsset → Bool
is_unsupported a =
    not (is_supported_media a.kind a.mime_type)
    || not (is_sized a.size_bytes)
    || not (is_sha256 a.checksum)

-- An empty text counts as no expiry.
unfoldable pub is_expired : (String → Option ℕ) → ℕ → Option String → Bool
is_expired date_parse at none = false
is_expired date_parse at (some e) =
    not (is_empty e) && elim (date_parse e) [ none ↦ true | some t ↦ leb t at ]

-- The loop over the assets, with the bytes so far.
unfoldable pub policy_loop : (String → Option ℕ) → ℕ → ℕ → List PolicyAsset → Option Failure
policy_loop date_parse at total [] = none
policy_loop date_parse at total (a ∷ as') =
    let rest = policy_loop date_parse at (total + size a.size_bytes) as' in
    if is_unsupported a
    then some asset_unsupported
    else if is_expired date_parse at a.expires_at
    then some asset_expired
    else if ltb media_max_release_bytes (total + size a.size_bytes)
    then some release_too_large
    else rest

unfoldable pub media_publication_failure :
    (String → Option ℕ) → ℕ → List PolicyAsset → Option Failure
media_publication_failure date_parse at as' = policy_loop date_parse at 0 as'

-- An asset that may be published on its own.
abbrev pub IsFit : (String → Option ℕ) → ℕ → PolicyAsset → Type 0
IsFit date_parse at a = (is_unsupported a ≡ false) × (is_expired date_parse at a.expires_at ≡ false)

abbrev pub total_size : List PolicyAsset → ℕ
total_size [] = 0
total_size (a ∷ as') = size a.size_bytes + total_size as'

policy_loop-IsFit :
    (date_parse : String → Option ℕ) (at total : ℕ) (as' : List PolicyAsset)
    → total ≤ media_max_release_bytes
    → policy_loop date_parse at total as' ≡ none
    → All (IsFit date_parse at) as' × (total + total_size as' ≤ media_max_release_bytes)
unfolding policy_loop
policy_loop-IsFit date_parse at total [] small h = (tt, omega arith)
policy_loop-IsFit date_parse at total (a ∷ as') small h =
    let (fit, bound) =
      policy_loop-IsFit date_parse at (total + size a.size_bytes) as' (ground arith)
        (ground arith) in
    (((ground arith, ground arith), fit), omega arith)

policy_loop_passes :
    (date_parse : String → Option ℕ) (at total : ℕ) (as' : List PolicyAsset)
    → All (IsFit date_parse at) as'
    → total + total_size as' ≤ media_max_release_bytes
    → policy_loop date_parse at total as' ≡ none
unfolding policy_loop
policy_loop_passes date_parse at total [] fit small = refl
policy_loop_passes date_parse at total (a ∷ as') fit small =
    let rest =
      policy_loop_passes date_parse at (total + size a.size_bytes) as' fit.1 (omega arith) in
    ground (arith, rest, fit.0.0, fit.0.1)

-- A release may be published exactly when each asset is supported, within its limits and not
-- expired, and together they have 512 MiB at most.
pub media_publication_failure-none :
    (date_parse : String → Option ℕ) (at : ℕ) (as' : List PolicyAsset)
    → (media_publication_failure date_parse at as' ≡ none)
      ↔ (All (IsFit date_parse at) as' × (total_size as' ≤ media_max_release_bytes))
unfolding media_publication_failure
media_publication_failure-none date_parse at as' = (
  λ h.
      let (fit, bound) = policy_loop-IsFit date_parse at 0 as' (omega arith) h in
      (fit, omega arith),
  λ (fit, bound). policy_loop_passes date_parse at 0 as' fit (omega arith),
)
