-- ===== src/Store/Releases/Types.antt =====
-- apps/api/src/domain/types.ts: releases, their assignments, and release candidates.
use Prim.Native.String.{String}
use screen_goblin.Prelude.{ℕ, Bool, Option, List}
use screen_goblin.Limits.MediaPolicy.{Kind}
use screen_goblin.Store.Records.{User, AuditRecord}

pub data Priority : Type 0 where
  normal campaign priority emergency : Priority

-- `FrozenReleaseAsset`.
pub record Asset : Type 0 where
  pub id : String
  pub name : String
  pub kind : Kind
  pub mime_type : String
  pub url : String
  pub storage_key : Option String
  pub checksum_sha256 : String
  pub size_bytes : ℕ
  pub created_at : ℕ
  pub expires_at : Option String

-- `MediaRecord`, its other fields as one.
pub record Media : Type 0 where
  pub organization_id : String
  pub asset : Asset

pub record PlaylistItem : Type 0 where
  pub id : String
  pub asset_id : String
  pub position : ℕ
  pub duration_seconds : ℕ

pub record Playlist : Type 0 where
  pub id : String
  pub organization_id : String
  pub name : String
  pub description : String
  pub items : List PlaylistItem
  pub updated_at : ℕ

-- `FrozenReleaseItem`.
pub record Item : Type 0 where
  pub id : String
  pub asset : Asset
  pub position : ℕ
  pub duration_seconds : ℕ

-- `CanonicalReleaseSnapshot`; its field `schemaVersion` is constant.
pub record ReleaseSnapshot : Type 0 where
  pub source_playlist_id : String
  pub source_playlist_updated_at : ℕ
  pub playlist_name : String
  pub playlist_description : String
  pub items : List Item

-- `PublishedReleaseRecord`, its snapshot as one field.
pub record Release : Type 0 where
  pub id : String
  pub organization_id : String
  pub snapshot : ReleaseSnapshot
  pub digest_sha256 : String
  pub created_by_id : String
  pub created_at : ℕ

-- `FrozenScheduleSnapshot`.
pub record Timetable : Type 0 where
  pub name : String
  pub priority : Priority
  pub starts_at : ℕ
  pub ends_at : Option ℕ
  pub timezone : String
  pub days_of_week : List ℕ
  pub daily_start_minutes : Option ℕ
  pub daily_end_minutes : Option ℕ
  pub enabled : Bool

pub data AssignmentState : Type 0 where
  assigned withdrawn : AssignmentState

-- `CanonicalReleaseCandidateSnapshot`, its constants left out.
pub record CandidateSnapshot : Type 0 where
  pub release_digest_sha256 : String
  pub schedule : Timetable
  pub screen_ids : List String
  pub expires_at : ℕ

-- `CanonicalAssignmentSnapshot`, likewise.
pub record AssignmentSnapshot : Type 0 where
  pub release_digest_sha256 : String
  pub state : AssignmentState
  pub schedule : Timetable
  pub screen_ids : List String
  pub previous_assignment_id : Option String

-- `ReleaseAssignmentRecord`.
pub record Assignment : Type 0 where
  pub id : String
  pub organization_id : String
  pub release_id : String
  pub schedule_id : String
  pub screen_ids : List String
  pub state : AssignmentState
  pub schedule : Timetable
  pub digest_sha256 : String
  pub previous_assignment_id : Option String
  pub created_by_id : String
  pub created_at : ℕ

-- `ScheduleRecord`.
pub record Schedule : Type 0 where
  pub id : String
  pub organization_id : String
  pub playlist_id : String
  pub timetable : Timetable
  pub screen_ids : List String
  pub release_id : Option String
  pub assignment_id : Option String
  pub created_at : ℕ
  pub updated_at : ℕ

pub data State : Type 0 where
  draft in_review approved published : State

-- `ReleaseApprovalRecord`.
pub record Approval : Type 0 where
  pub id : String
  pub organization_id : String
  pub candidate_id : String
  pub candidate_digest_sha256 : String
  pub approver_user_id : String
  pub authentication_epoch : ℕ
  pub authorization_epoch : ℕ
  pub approved_at : ℕ

-- `ReleaseCandidateRecord`.
pub record Candidate : Type 0 where
  pub id : String
  pub organization_id : String
  pub release_id : String
  pub release_digest_sha256 : String
  pub source_playlist_id : String
  pub state : State
  pub digest_sha256 : String
  pub author_user_id : String
  pub items : List Item
  pub schedule : Timetable
  pub screen_ids : List String
  pub policy_version : ℕ
  pub expires_at : ℕ
  pub submitted_at : Option ℕ
  pub approved_at : Option ℕ
  pub published_at : Option ℕ
  pub schedule_id : Option String
  pub assignment_id : Option String
  pub approval : Option Approval
  pub created_at : ℕ

pub data Operation : Type 0 where
  create submit approve publish : Operation

-- A record of `releaseCandidateIdempotencyRecords`.
pub record Remembered : Type 0 where
  pub organization_id : String
  pub operation : Operation
  pub key_hash : String
  pub actor_user_id : String
  pub request_digest_sha256 : String
  pub expires_at : ℕ
  pub response : Option Candidate

pub record Screen : Type 0 where
  pub id : String
  pub organization_id : String

-- The fields of `MemoryStore` that the release operations read or write; `users` is the field of
-- the identity operations.
pub record ReleaseStore : Type 0 where
  pub users : List User
  pub screens : List Screen
  pub media : List Media
  pub playlists : List Playlist
  pub releases : List Release
  pub assignments : List Assignment
  pub schedules : List Schedule
  pub candidates : List Candidate
  pub remembered : List Remembered
  pub audit_records : List AuditRecord

-- `ReleaseCandidateFailureReason`.
pub data FailureReason : Type 0 where
  not_found forbidden invalid_state stale_digest author_cannot_approve : FailureReason
  approval_stale is_over key_reused key_expired playlist_not_found : FailureReason
  screen_not_found asset_not_found asset_not_allowed asset_unsupported : FailureReason
  asset_expired release_too_large no_playable_items : FailureReason

-- What `new URL(value)` reads.
pub record MediaUrl : Type 0 where
  pub username : String
  pub password : String
  pub protocol : String
  pub hostname : String
  pub origin : String

-- What the code takes from its runtime: the default order of texts and `localeCompare` as tests
-- "not after", `toLowerCase`, `Date.parse`, `new URL`, and SHA-256 over the JSON text of each
-- kind of snapshot.
pub record Backend : Type 0 where
  pub text_le : String → String → Bool
  pub locale_le : String → String → Bool
  pub lower : String → String
  pub date_parse : String → Option ℕ
  pub parse_url : String → Option MediaUrl
  pub release_digest : ReleaseSnapshot → String
  pub candidate_digest : CandidateSnapshot → String
  pub assignment_digest : AssignmentSnapshot → String
