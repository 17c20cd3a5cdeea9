-- ===== src/Store/Releases/Publication.antt =====
-- apps/api/src/store/memory.ts: `publishReleaseCandidateAndAudit`.
use Prim.Native.String.{String}
use text.Mathlib.Text.{◌==◌ as str_eq}
use screen_goblin.Prelude.{
  ℕ, Bool, true, false, not, ◌||◌, ◌&&◌, Option, none, some, List, [], ◌∷◌, ◌++◌, if◌then◌else◌,
  ◌==◌,
}
use screen_goblin.Prelude.Search.{any, find}
use screen_goblin.Authorization.Policy.{release_approve, release_publish}
use screen_goblin.Limits.MediaPolicy.{
  PolicyAsset, Failure, asset_unsupported, asset_expired, release_too_large,
  media_publication_failure,
}
use screen_goblin.Store.Records.{User, done, refused, failed}
use screen_goblin.Store.Identity.{event}
use screen_goblin.Store.Releases.Types
use screen_goblin.Store.Releases.Types.{
  Asset, Item, Release, Screen, Candidate, Approval, Assignment, Schedule, publish, approved,
  published, assigned, ReleaseStore, FailureReason, invalid_state, approval_stale, stale_digest,
  screen_not_found, asset_not_allowed, Backend,
}
use screen_goblin.Store.Releases.Canonical.{
  canonical_assignment_snapshot, has_valid_release_digest, media_url_matches_allowed_origin,
}
use screen_goblin.Store.Releases.Idempotency.{
  Reply, ReleaseAudit, Key, is_state, is_candidate, candidate_actor, may, remember, compact,
}
use screen_goblin.Store.Releases.Candidates.{assign_first, command}

abbrev to_policy_asset : Asset → PolicyAsset
to_policy_asset a = record {
  kind = a.kind;
  mime_type = a.mime_type;
  checksum = a.checksum_sha256;
  size_bytes = some a.size_bytes;
  expires_at = a.expires_at;
}

abbrev policy_reason : Failure → FailureReason
policy_reason asset_unsupported = Types.asset_unsupported
policy_reason asset_expired = Types.asset_expired
policy_reason release_too_large = Types.release_too_large

unfoldable pub policy_assets : List Asset → List PolicyAsset
policy_assets [] = []
policy_assets (a ∷ as') = to_policy_asset a ∷ policy_assets as'

-- Why assets may not be published from the allowed origins now.
unfoldable pub asset_fault : Backend → List String → ℕ → List Asset → Option FailureReason
asset_fault b origins now as' =
    if any (λ (a : Asset). not (media_url_matches_allowed_origin b a.url origins)) as'
    then some asset_not_allowed
    else elim (media_publication_failure b.date_parse now (policy_assets as')) [
      | none ↦ none
      | some f ↦ some (policy_reason f)
    ]

unfoldable pub item_assets : List Item → List Asset
item_assets [] = []
item_assets (i ∷ is') = i.asset ∷ item_assets is'

unfoldable pub misses_screen : String → List String → List Screen → Bool
misses_screen org ids screens =
    any (λ id. not (any (λ (x : Screen). str_eq x.organization_id org && str_eq x.id id) screens))
      ids

-- The approver must still be who approved, with the same epochs and the capability.
unfoldable pub is_approver_stale : Option User → Approval → Bool
is_approver_stale none a = true
is_approver_stale (some u) a =
    not (may (some u) release_approve)
    || not (u.authentication_epoch == a.authentication_epoch)
    || not (u.authorization_epoch == a.authorization_epoch)

unfoldable pub approval_fault :
    String → Candidate → Option Approval → ReleaseStore → Option FailureReason
approval_fault org c none s = some invalid_state
approval_fault org c (some a) s =
    if not (is_state c.state approved)
    then some invalid_state
    else if not (str_eq a.candidate_digest_sha256 c.digest_sha256)
    then some approval_stale
    else if is_approver_stale (candidate_actor org a.approver_user_id s.users) a
    then some approval_stale
    else none

unfoldable pub release_fault :
    Backend → List String → String → ℕ → Candidate → Release → ReleaseStore → Option FailureReason
release_fault b origins org now c r s =
    if not (str_eq r.digest_sha256 c.release_digest_sha256) || not (has_valid_release_digest b r)
    then some stale_digest
    else elim (asset_fault b origins now (item_assets r.snapshot.items)) [
      | some reason ↦ some reason
      | none ↦ if misses_screen org c.screen_ids s.screens then some screen_not_found else none
    ]

-- The identifiers that a publication draws.
pub record NewIds : Type 0 where
  pub schedule_id : String
  pub assignment_id : String

abbrev pub published_candidate : NewIds → ℕ → Candidate → Candidate
published_candidate ids now c = record c {
  state = published;
  published_at = some now;
  schedule_id = some ids.schedule_id;
  assignment_id = some ids.assignment_id;
}

abbrev pub new_schedule : NewIds → String → ℕ → Release → Candidate → Schedule
new_schedule ids org now r c = record {
  id = ids.schedule_id;
  organization_id = org;
  playlist_id = c.source_playlist_id;
  timetable = c.schedule;
  screen_ids = c.screen_ids;
  release_id = some r.id;
  assignment_id = some ids.assignment_id;
  created_at = now;
  updated_at = now;
}

abbrev pub new_assignment :
    Backend → NewIds → String → String → ℕ → Release → Candidate → Assignment
new_assignment b ids org user_id now r c = record {
  id = ids.assignment_id;
  organization_id = org;
  release_id = r.id;
  schedule_id = ids.schedule_id;
  screen_ids = c.screen_ids;
  state = assigned;
  schedule = c.schedule;
  digest_sha256 = b.assignment_digest (
      canonical_assignment_snapshot b c.release_digest_sha256 assigned c.schedule c.screen_ids
        none);
  previous_assignment_id = none;
  created_by_id = user_id;
  created_at = now;
}

unfoldable pub publish_release :
    Backend
    → NewIds
    → String
    → ReleaseAudit
    → Key
    → ℕ
    → Release
    → Candidate
    → ReleaseStore
    → ReleaseStore × Reply
publish_release b ids org audit key now r c s =
    let user = audit.actor_user_id in
    let p = published_candidate ids now c in
    if not audit.is_auditable then (s, failed) else (
      record s {
        candidates = assign_first (is_candidate org c.id) p s.candidates;
        schedules = s.schedules ++ new_schedule ids org now r c ∷ [];
        assignments = s.assignments ++ new_assignment b ids org user now r c ∷ [];
        audit_records =
            s.audit_records
            ++ (event org (some user) "release.candidate.published" "release_candidate" (some c.id)
                ∷ event org (some user) "release.published" "published_release" (some r.id)
                ∷ []);
        remembered = compact b now (remember org publish audit key p now s.remembered);
      },
      done (record { candidate = p; replayed = false }),
    )

-- Of a candidate that may be worked on.
unfoldable pub publish_found :
    Backend
    → List String
    → NewIds
    → String
    → ReleaseAudit
    → Key
    → ℕ
    → Candidate
    → ReleaseStore
    → ReleaseStore × Reply
publish_found b origins ids org audit key now c s = elim (approval_fault org c c.approval s) [
  | some reason ↦ (s, refused reason)
  | none ↦
      elim (find (λ (r : Release). str_eq r.organization_id org && str_eq r.id c.release_id)
        s.releases) [
          | none ↦ (s, refused stale_digest)
          | some r ↦ elim (release_fault b origins org now c r s) [
            | some reason ↦ (s, refused reason)
            | none ↦ publish_release b ids org audit key now r c s
          ]
        ]
]

unfoldable pub publish_release_candidate :
    Backend
    → List String
    → NewIds
    → String
    → String
    → String
    → ReleaseAudit
    → Key
    → ℕ
    → ReleaseStore
    → ReleaseStore × Reply
publish_release_candidate b origins ids org candidate_id expected audit key now s =
    command b org publish release_publish candidate_id expected audit key now
      (λ actor c. publish_found b origins ids org audit key now c) s
