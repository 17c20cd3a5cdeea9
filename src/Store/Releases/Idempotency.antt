-- ===== src/Store/Releases/Idempotency.antt =====
-- apps/api/src/store/memory.ts: what the commands on release candidates share, and the replay of a
-- command that was seen. `now` is the reading of the clock. A response that is remembered is a copy,
-- as every record here is.
use Prim.Native.String.{String}
use text.Mathlib.Text.{◌==◌ as str_eq}
use screen_goblin.Prelude.{
  ℕ, suc, zero, ◌+◌, Bool, true, false, not, ◌||◌, ◌&&◌, Option, none, some, List, [], ◌∷◌, ◌++◌,
  if◌then◌else◌, ltb, leb, ◌==◌, is_some,
}
use screen_goblin.Prelude.Js.{codes, are_exactly, is_digit}
use screen_goblin.Prelude.Sorting.{sort}
use screen_goblin.Prelude.Search.{any, find, filter, update_if}
use screen_goblin.Authorization.Policy.{Capability, known, stray, has_capability}
use screen_goblin.Store.Records.{User, Outcome, done, refused, failed}
use screen_goblin.Store.Identity.{is_active, is_member}
use screen_goblin.Store.Releases.Types.{
  Candidate, Approval, Operation, create, submit, approve, publish, State, draft, in_review,
  approved, published, Remembered, ReleaseStore, FailureReason, key_reused, key_expired, Backend,
}
use screen_goblin.Store.Releases.Canonical.{canonical_candidate_snapshot}

-- `ReleaseCandidateResult` of a command that completed.
pub record Completed : Type 0 where
  pub candidate : Candidate
  pub replayed : Bool

abbrev pub Reply : Type 0
Reply = Outcome Completed FailureReason

-- `ReleaseAuditContext`; `is_auditable` tells if the events of the call pass the integrity check.
pub record ReleaseAudit : Type 0 where
  pub actor_user_id : String
  pub is_auditable : Bool

-- `ReleaseCandidateIdempotencyInput`.
pub record Key : Type 0 where
  pub key_hash : String
  pub request_digest_sha256 : String

abbrev pub is_lower_hex : ℕ → Bool
is_lower_hex c = is_digit c || (leb b'a' c && leb c b'f')

-- `/^[0-9a-f]{64}$/`.
abbrev pub is_hash : String → Bool
is_hash s = are_exactly is_lower_hex 64 (codes s)

abbrev pub operation_code : Operation → ℕ
operation_code create = 0
operation_code submit = 1
operation_code approve = 2
operation_code publish = 3

abbrev pub is_operation : Operation → Operation → Bool
is_operation a b = operation_code a == operation_code b

abbrev pub state_code : State → ℕ
state_code draft = 0
state_code in_review = 1
state_code approved = 2
state_code published = 3

abbrev pub is_state : State → State → Bool
is_state a b = state_code a == state_code b

abbrev pub expected_state : Operation → State
expected_state create = draft
expected_state submit = in_review
expected_state approve = approved
expected_state publish = published

abbrev pub is_candidate : String → String → Candidate → Bool
is_candidate org id c = str_eq c.organization_id org && str_eq c.id id

unfoldable pub candidate_actor : String → String → List User → Option User
candidate_actor org user_id us = find (λ (u : User). is_member user_id org u && is_active u) us

-- `hasCapability(actor?.role, capability)`.
abbrev pub may : Option User → Capability → Bool
may none c = has_capability (stray none) (known c)
may (some u) c = has_capability (known u.role) (known c)

unfoldable pub has_valid_candidate_digest : Backend → Candidate → Bool
has_valid_candidate_digest b c =
    c.policy_version == 1
    && str_eq c.digest_sha256 (
        b.candidate_digest (
          canonical_candidate_snapshot b c.release_digest_sha256 c.schedule c.screen_ids
            c.expires_at))

abbrev pub is_key : String → Operation → String → Remembered → Bool
is_key org operation key r =
    str_eq r.organization_id org && is_operation r.operation operation && str_eq r.key_hash key

-- The approval is of the digest that the candidate has.
abbrev pub approves_digest : Option Approval → String → Bool
approves_digest none digest = false
approves_digest (some a) digest = str_eq a.candidate_digest_sha256 digest

-- Whether the references of a remembered response no longer hold of the live candidate.
unfoldable pub is_invalid_reference : Backend → String → Operation → Candidate → Candidate → Bool
is_invalid_reference b org operation response live =
    not (str_eq response.organization_id org)
    || not (is_state response.state (expected_state operation))
    || not (str_eq response.digest_sha256 live.digest_sha256)
    || not (has_valid_candidate_digest b live)
    || ((is_operation operation approve || is_operation operation publish)
        && not (approves_digest live.approval live.digest_sha256))
    || (is_operation operation publish
        && (not (is_some live.schedule_id)
            || not (is_some live.assignment_id)
            || not (is_state live.state published)))

-- Of a remembered command: the caller's own within its time, with a response that still holds.
unfoldable pub replay_found :
    Backend → String → Operation → ReleaseAudit → Key → ℕ → Remembered → List Candidate → Reply
replay_found b org operation audit key now r cs =
    if not (str_eq r.actor_user_id audit.actor_user_id)
      || not (str_eq r.request_digest_sha256 key.request_digest_sha256)
    then refused key_reused
    else if leb r.expires_at now
    then refused key_expired
    else elim r.response [
      | none ↦ refused key_expired
      | some response ↦ elim (find (is_candidate org response.id) cs) [
        | none ↦ failed
        | some live ↦
            if is_invalid_reference b org operation response live
            then failed
            else done (record { candidate = response; replayed = true })
      ]
    ]

-- `none` where the command has not been seen.
unfoldable pub release_candidate_replay :
    Backend → String → Operation → ReleaseAudit → Key → ℕ → ReleaseStore → Option Reply
release_candidate_replay b org operation audit key now s =
    elim (find (is_key org operation key.key_hash) s.remembered) [
      | none ↦ none
      | some r ↦ some (replay_found b org operation audit key now r s.candidates)
    ]

-- Thirty days.
abbrev pub response_retention : ℕ
response_retention = 2592000000

abbrev pub remember :
    String → Operation → ReleaseAudit → Key → Candidate → ℕ → List Remembered → List Remembered
remember org operation audit key c now rs =
    rs
    ++ record {
      organization_id = org;
      operation = operation;
      key_hash = key.key_hash;
      actor_user_id = audit.actor_user_id;
      request_digest_sha256 = key.request_digest_sha256;
      expires_at = now + response_retention;
      response = some c;
    }
      ∷ []

-- `DATABASE_MAINTENANCE_BATCH_SIZE`.
abbrev pub batch_size : ℕ
batch_size = 100

unfoldable pub take {ℓ} : {A : Type ℓ} → ℕ → List A → List A
take zero xs = []
take (suc n) [] = []
take (suc n) (x ∷ xs) = x ∷ take n xs

abbrev pub is_stale : ℕ → Remembered → Bool
is_stale now r = is_some r.response && leb r.expires_at now

abbrev pub stale_le : Backend → Remembered → Remembered → Bool
stale_le b r q =
    ltb r.expires_at q.expires_at
    || (r.expires_at == q.expires_at && b.locale_le r.key_hash q.key_hash)

abbrev pub is_selected : List Remembered → Remembered → Bool
is_selected rs r = any (λ (q : Remembered). is_key q.organization_id q.operation q.key_hash r) rs

-- `compactExpiredIdempotencyResponses`, of the commands on candidates: the oldest expired
-- responses are dropped. A record is found by its key, which no other has.
unfoldable pub compact : Backend → ℕ → List Remembered → List Remembered
compact b now rs =
    update_if (is_selected (take batch_size (sort (stale_le b) (filter (is_stale now) rs))))
      (λ (r : Remembered). record r { response = none }) rs
