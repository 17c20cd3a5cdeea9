-- ===== src/Store/Releases/Canonical.antt =====
-- apps/api/src/releases/canonical.ts and apps/api/src/utils/media-url.ts: canonical snapshots,
-- the digests that are checked, and the origins that media may come from. Instants are numbers,
-- so `canonicalUtcInstant` leaves them as they are.
use Prim.Native.String.{String}
use text.Mathlib.Text.{◌==◌ as str_eq}
use screen_goblin.Prelude.{
  ℕ, ◌⊎◌, inl, inr, Bool, false, ◌||◌, ◌&&◌, Option, none, some, List, [], ◌∷◌, if◌then◌else◌, ltb,
  leb, ◌==◌,
}
use screen_goblin.Prelude.Texts.{is_empty, includes, unique}
use screen_goblin.Prelude.Sorting.{sort}
use screen_goblin.Store.Releases.Types.{
  Asset, PlaylistItem, Playlist, Item, ReleaseSnapshot, Release, Timetable, CandidateSnapshot,
  AssignmentState, AssignmentSnapshot, Assignment, Backend, FailureReason, asset_not_found,
  no_playable_items,
}

unfoldable pub member : ℕ → List ℕ → Bool
member n [] = false
member n (m ∷ ms) = n == m || member n ms

-- `[...new Set(numbers)]`; `seen` is what is in the set.
unfoldable pub distinct : List ℕ → List ℕ → List ℕ
distinct seen [] = []
distinct seen (n ∷ ns) =
    let new = n ∷ distinct (n ∷ seen) ns in
    let old = distinct seen ns in if member n seen then old else new

-- `new Map(assets.map((asset) => [asset.id, asset])).get(id)`: the last one counts.
unfoldable pub asset_by_id : String → List Asset → Option Asset
asset_by_id id [] = none
asset_by_id id (a ∷ as') = elim (asset_by_id id as') [
  | some b ↦ some b
  | none ↦ if str_eq a.id id then some a else none
]

module _ (b : Backend) where
  -- The order of the items: by position, then by identifier.
  abbrev pub item_le : PlaylistItem → PlaylistItem → Bool
  item_le i j = ltb i.position j.position || (i.position == j.position && b.locale_le i.id j.id)

  -- The asset of an item, frozen; an empty storage key or expiry is left out.
  abbrev pub non_empty : Option String → Option String
  non_empty none = none
  non_empty (some s) = if is_empty s then none else some s

  abbrev pub freeze : Asset → Asset
  freeze a = record a {
    checksum_sha256 = b.lower a.checksum_sha256;
    storage_key = non_empty a.storage_key;
    expires_at = non_empty a.expires_at;
  }

  unfoldable pub freeze_items :
      List Asset → List ℕ → List PlaylistItem → (FailureReason ⊎ List Item)
  freeze_items assets positions [] = inr []
  freeze_items assets positions (i ∷ is') =
      let rest = freeze_items assets (i.position ∷ positions) is' in
      if member i.position positions
      then inl no_playable_items
      else elim (asset_by_id i.asset_id assets) [
        | none ↦ inl asset_not_found
        | some a ↦ elim rest [
          | inl e ↦ inl e
          | inr items ↦ inr (
              record {
                id = i.id;
                asset = freeze a;
                position = i.position;
                duration_seconds = i.duration_seconds;
              }
              ∷ items)
        ]
      ]

  unfoldable pub canonical_release_snapshot :
      Playlist → List Asset → FailureReason ⊎ ReleaseSnapshot
  canonical_release_snapshot p assets = elim (sort item_le p.items) [
    | [] ↦ inl no_playable_items
    | i ∷ is' ↦ elim (freeze_items assets [] (i ∷ is')) [
      | inl e ↦ inl e
      | inr items ↦ inr (record {
        source_playlist_id = p.id;
        source_playlist_updated_at = p.updated_at;
        playlist_name = p.name;
        playlist_description = p.description;
        items = items;
      })
    ]
  ]

  unfoldable pub canonical_timetable : Timetable → Timetable
  canonical_timetable t = record t { days_of_week = sort leb (distinct [] t.days_of_week) }

  unfoldable pub canonical_candidate_snapshot :
      String → Timetable → List String → ℕ → CandidateSnapshot
  canonical_candidate_snapshot release_digest schedule screen_ids expires_at = record {
    release_digest_sha256 = release_digest;
    schedule = canonical_timetable schedule;
    screen_ids = sort b.text_le (unique [] screen_ids);
    expires_at = expires_at;
  }

  unfoldable pub canonical_assignment_snapshot :
      String → AssignmentState → Timetable → List String → Option String → AssignmentSnapshot
  canonical_assignment_snapshot release_digest state schedule screen_ids previous = record {
    release_digest_sha256 = release_digest;
    state = state;
    schedule = canonical_timetable schedule;
    screen_ids = sort b.text_le (unique [] screen_ids);
    previous_assignment_id = non_empty previous;
  }

  unfoldable pub has_valid_release_digest : Release → Bool
  has_valid_release_digest r = str_eq r.digest_sha256 (b.release_digest r.snapshot)

  unfoldable pub has_valid_assignment_digest : Assignment → Release → Bool
  has_valid_assignment_digest a r =
      str_eq a.organization_id r.organization_id
      && str_eq a.release_id r.id
      && has_valid_release_digest r
      && str_eq a.digest_sha256 (
          b.assignment_digest (
            canonical_assignment_snapshot r.digest_sha256 a.state a.schedule a.screen_ids
              a.previous_assignment_id))

  abbrev pub is_loopback : String → Bool
  is_loopback h = str_eq h "localhost" || str_eq h "127.0.0.1" || str_eq h "[::1]"

  unfoldable pub media_url_matches_allowed_origin : String → List String → Bool
  media_url_matches_allowed_origin value origins = elim (b.parse_url value) [
    | none ↦ false
    | some u ↦
        is_empty u.username
        && is_empty u.password
        && (str_eq u.protocol "https:" || (str_eq u.protocol "http:" && is_loopback u.hostname))
        && includes u.origin origins
  ]
