-- ===== src/Store/Releases/Creation.antt =====
-- apps/api/src/store/memory.ts: `createReleaseCandidateAndAudit`.
use Prim.Native.String.{String}
use text.Mathlib.Text.{◌==◌ as str_eq}
use screen_goblin.Prelude.{
  ℕ, ◌+◌, ◌⊎◌, inl, inr, Bool, false, not, ◌||◌, ◌&&◌, Option, none, some, List, [], ◌∷◌, ◌++◌,
  if◌then◌else◌, ltb, leb, ◌==◌, length,
}
use screen_goblin.Prelude.Texts.{unique}
use screen_goblin.Prelude.Sorting.{sort}
use screen_goblin.Prelude.Search.{find, filter}
use screen_goblin.Authorization.Policy.{release_candidate_create}
use screen_goblin.Store.Records.{done, refused, failed}
use screen_goblin.Store.Identity.{event}
use screen_goblin.Store.Releases.Types.{
  Asset, Media, Playlist, PlaylistItem, Release, ReleaseSnapshot, Candidate, create, draft,
  published, ReleaseStore, FailureReason, forbidden, is_over, playlist_not_found, screen_not_found,
  release_too_large, Backend,
}
use screen_goblin.Store.Releases.Canonical.{
  canonical_release_snapshot, canonical_candidate_snapshot,
}
use screen_goblin.Store.Releases.Idempotency.{
  Reply, ReleaseAudit, Key, is_hash, is_state, candidate_actor, may, release_candidate_replay,
  remember, compact,
}
use screen_goblin.Store.Releases.Publication.{asset_fault, misses_screen}
use screen_goblin.Store.Releases.Pruning.{CandidateInput, max_candidate_life, prune_expired}

abbrev pub is_pending : String → Candidate → Bool
is_pending org c = str_eq c.organization_id org && not (is_state c.state published)

abbrev pub is_current : String → ℕ → Candidate → Bool
is_current org now c = is_pending org c && ltb now c.expires_at

-- The assets of the tenant that the items name, in their order.
unfoldable pub playlist_assets : String → List PlaylistItem → List Media → List Asset
playlist_assets org [] ms = []
playlist_assets org (i ∷ is') ms =
    let rest = playlist_assets org is' ms in
    elim (find (λ (m : Media). str_eq m.organization_id org && str_eq m.asset.id i.asset_id) ms) [
      | none ↦ rest
      | some m ↦ m.asset ∷ rest
    ]

unfoldable pub size_fault : String → ℕ → List String → List Candidate → Option FailureReason
size_fault org now ids cs =
    if length ids == 0 || ltb 1000 (length ids)
    then some screen_not_found
    else if leb 100 (length (filter (is_current org now) cs))
    then some release_too_large
    else if leb 1000 (length (filter (is_pending org) cs))
    then some release_too_large
    else none

-- The snapshot of what is to be released, or why there is none.
unfoldable pub release_to_create :
    Backend
    → List String
    → String
    → ℕ
    → List String
    → CandidateInput
    → ReleaseStore
    → FailureReason ⊎ ReleaseSnapshot
release_to_create b origins org now ids i s = elim (size_fault org now ids s.candidates) [
  | some reason ↦ inl reason
  | none ↦
      elim (find (λ (p : Playlist). str_eq p.organization_id org && str_eq p.id i.playlist_id)
        s.playlists) [
          | none ↦ inl playlist_not_found
          | some p ↦
              let assets = playlist_assets org p.items s.media in
              if misses_screen org ids s.screens
              then inl screen_not_found
              else elim (asset_fault b origins now assets) [
                | some reason ↦ inl reason
                | none ↦ canonical_release_snapshot b p assets
              ]
        ]
]

-- The release with the digest of the snapshot, or a new one under the identifier.
unfoldable pub release_of :
    Backend
    → String
    → String
    → ReleaseAudit
    → ℕ
    → ReleaseSnapshot
    → List Release
    → Release × List Release
release_of b id org audit now x rs =
    elim (find
      (λ (r : Release). str_eq r.organization_id org && str_eq r.digest_sha256 (b.release_digest x))
      rs) [
        | some r ↦ (r, rs)
        | none ↦
            let r : Release = record {
              id = id;
              organization_id = org;
              snapshot = x;
              digest_sha256 = b.release_digest x;
              created_by_id = audit.actor_user_id;
              created_at = now;
            } in
            (r, rs ++ r ∷ [])
      ]

abbrev pub new_candidate :
    Backend
    → String
    → String
    → ReleaseAudit
    → ℕ
    → List String
    → CandidateInput
    → ReleaseSnapshot
    → Release
    → Candidate
new_candidate b id org audit now ids i x r =
    let y = canonical_candidate_snapshot b (b.release_digest x) i.schedule ids i.expires_at in
    record {
      id = id;
      organization_id = org;
      release_id = r.id;
      release_digest_sha256 = b.release_digest x;
      source_playlist_id = i.playlist_id;
      state = draft;
      digest_sha256 = b.candidate_digest y;
      author_user_id = audit.actor_user_id;
      items = x.items;
      schedule = y.schedule;
      screen_ids = y.screen_ids;
      policy_version = 1;
      expires_at = y.expires_at;
      submitted_at = none;
      approved_at = none;
      published_at = none;
      schedule_id = none;
      assignment_id = none;
      approval = none;
      created_at = now;
    }

-- The identifiers that a creation draws.
pub record CreateIds : Type 0 where
  pub release_id : String
  pub candidate_id : String

unfoldable pub create_candidate :
    Backend
    → CreateIds
    → String
    → ReleaseAudit
    → Key
    → ℕ
    → List String
    → CandidateInput
    → ReleaseSnapshot
    → ReleaseStore
    → ReleaseStore × Reply
create_candidate b new org audit key now ids i x s =
    let (r, rs) = release_of b new.release_id org audit now x s.releases in
    let c = new_candidate b new.candidate_id org audit now ids i x r in
    if not audit.is_auditable then (s, failed) else (
      record s {
        releases = rs;
        candidates = s.candidates ++ c ∷ [];
        audit_records =
            s.audit_records
            ++ event org (some audit.actor_user_id) "release.candidate.created" "release_candidate"
                (some c.id)
              ∷ [];
        remembered = compact b now (remember org create audit key c now s.remembered);
      },
      done (record { candidate = c; replayed = false }),
    )

-- From the pruning on; what is pruned stays so on every branch.
unfoldable pub create_pruned :
    Backend
    → List String
    → CreateIds
    → String
    → CandidateInput
    → ReleaseAudit
    → Key
    → ℕ
    → ReleaseStore
    → ReleaseStore × Reply
create_pruned b origins new org i audit key now s =
    let ids = sort b.text_le (unique [] i.screen_ids) in
    elim (release_to_create b origins org now ids i s) [
      | inl reason ↦ (s, refused reason)
      | inr x ↦ create_candidate b new org audit key now ids i x s
    ]

unfoldable pub create_release_candidate :
    Backend
    → List String
    → CreateIds
    → String
    → CandidateInput
    → ReleaseAudit
    → Key
    → ℕ
    → ReleaseStore
    → ReleaseStore × Reply
create_release_candidate b origins new org i audit key now s =
    if not (is_hash key.key_hash && is_hash key.request_digest_sha256)
    then (s, failed)
    else if not (may (candidate_actor org audit.actor_user_id s.users) release_candidate_create)
    then (s, refused forbidden)
    else elim (release_candidate_replay b org create audit key now s) [
      | some reply ↦ (s, reply)
      | none ↦
          if leb i.expires_at now || ltb (now + max_candidate_life) i.expires_at
          then (s, refused is_over)
          else create_pruned b origins new org i audit key now (prune_expired b org now audit s)
    ]
