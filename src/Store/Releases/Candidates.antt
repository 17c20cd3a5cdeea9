-- ===== src/Store/Releases/Candidates.antt =====
-- apps/api/src/store/memory.ts: the transitions of release candidates to review and to approval.
-- `now` is the reading of the clock, `id` a new identifier.
use Prim.Native.String.{String}
use text.Mathlib.Text.{◌==◌ as str_eq}
use screen_goblin.Prelude.{
  ℕ, Bool, false, not, ◌||◌, ◌&&◌, Option, none, some, List, [], ◌∷◌, ◌++◌, if◌then◌else◌, leb,
}
use screen_goblin.Prelude.Search.{find}
use screen_goblin.Authorization.Policy.{Capability, release_candidate_submit, release_approve}
use screen_goblin.Store.Records.{User, done, refused, failed}
use screen_goblin.Store.Identity.{event}
use screen_goblin.Store.Releases.Types.{
  Candidate, Approval, Operation, submit, approve, draft, in_review, approved, ReleaseStore,
  FailureReason, not_found, forbidden, invalid_state, stale_digest, author_cannot_approve, is_over,
  Backend,
}
use screen_goblin.Store.Releases.Idempotency.{
  Reply, ReleaseAudit, Key, is_hash, is_state, is_candidate, candidate_actor, may,
  has_valid_candidate_digest, release_candidate_replay, remember, compact,
}

-- `Object.assign(candidate, updated)` of the first candidate that passes the test.
unfoldable pub assign_first : (Candidate → Bool) → Candidate → List Candidate → List Candidate
assign_first test c [] = []
assign_first test c (x ∷ xs) =
    let rest = assign_first test c xs in if test x then c ∷ xs else x ∷ rest

-- The candidate, the command and its event are stored.
unfoldable pub store_candidate :
    Backend
    → String
    → Operation
    → ReleaseAudit
    → Key
    → ℕ
    → String
    → Candidate
    → ReleaseStore
    → ReleaseStore × Reply
store_candidate b org operation audit key now action c s = (
  record s {
    candidates = assign_first (is_candidate org c.id) c s.candidates;
    audit_records =
        s.audit_records
        ++ event org (some audit.actor_user_id) action "release_candidate" (some c.id) ∷ [];
    remembered = compact b now (remember org operation audit key c now s.remembered);
  },
  done (record { candidate = c; replayed = false }),
)

-- Why a candidate may not be worked on.
unfoldable pub candidate_fault : Backend → String → ℕ → Candidate → Option FailureReason
candidate_fault b expected now c =
    if not (str_eq c.digest_sha256 expected) || not (has_valid_candidate_digest b c)
    then some stale_digest
    else if leb c.expires_at now
    then some is_over
    else none

-- The transition to review; the caller has the capability.
unfoldable pub submit_found :
    Backend → String → ReleaseAudit → Key → ℕ → Candidate → ReleaseStore → ReleaseStore × Reply
submit_found b org audit key now c s =
    if not (str_eq c.author_user_id audit.actor_user_id)
    then (s, refused forbidden)
    else if not (is_state c.state draft)
    then (s, refused invalid_state)
    else if not audit.is_auditable
    then (s, failed)
    else store_candidate b org submit audit key now "release.candidate.submitted"
        (record c { state = in_review; submitted_at = some now }) s

abbrev pub new_approval : String → String → String → ℕ → User → Candidate → Approval
new_approval id org user_id now actor c = record {
  id = id;
  organization_id = org;
  candidate_id = c.id;
  candidate_digest_sha256 = c.digest_sha256;
  approver_user_id = user_id;
  authentication_epoch = actor.authentication_epoch;
  authorization_epoch = actor.authorization_epoch;
  approved_at = now;
}

-- The transition to approval; the caller, who has the capability, is `actor`.
unfoldable pub approve_found :
    Backend
    → String
    → String
    → ReleaseAudit
    → Key
    → ℕ
    → User
    → Candidate
    → ReleaseStore
    → ReleaseStore × Reply
approve_found b id org audit key now actor c s =
    if str_eq c.author_user_id audit.actor_user_id
    then (s, refused author_cannot_approve)
    else if not (is_state c.state in_review)
    then (s, refused invalid_state)
    else if not audit.is_auditable
    then (s, failed)
    else store_candidate b org approve audit key now "release.candidate.approved"
        (record c {
          state = approved;
          approved_at = some now;
          approval = some (new_approval id org audit.actor_user_id now actor c);
        })
        s

abbrev pub are_hashes : String → Key → Bool
are_hashes expected key =
    is_hash expected && is_hash key.key_hash && is_hash key.request_digest_sha256

-- A command on a candidate, up to the test of its digest and its time: `work` is the rest.
unfoldable pub command :
    Backend
    → String
    → Operation
    → Capability
    → String
    → String
    → ReleaseAudit
    → Key
    → ℕ
    → (User → Candidate → ReleaseStore → ReleaseStore × Reply)
    → ReleaseStore
    → ReleaseStore × Reply
command b org operation capability candidate_id expected audit key now work s =
    if not (are_hashes expected key)
    then (s, failed)
    else elim (candidate_actor org audit.actor_user_id s.users) [
      | none ↦ (s, refused forbidden)
      | some actor ↦
          if not (may (some actor) capability)
          then (s, refused forbidden)
          else elim (release_candidate_replay b org operation audit key now s) [
            | some reply ↦ (s, reply)
            | none ↦ elim (find (is_candidate org candidate_id) s.candidates) [
              | none ↦ (s, refused not_found)
              | some c ↦ elim (candidate_fault b expected now c) [
                | some reason ↦ (s, refused reason)
                | none ↦ work actor c s
              ]
            ]
          ]
    ]

unfoldable pub submit_release_candidate :
    Backend
    → String
    → String
    → String
    → ReleaseAudit
    → Key
    → ℕ
    → ReleaseStore
    → ReleaseStore × Reply
submit_release_candidate b org candidate_id expected audit key now s =
    command b org submit release_candidate_submit candidate_id expected audit key now
      (λ actor c. submit_found b org audit key now c) s

unfoldable pub approve_release_candidate :
    Backend
    → String
    → String
    → String
    → String
    → ReleaseAudit
    → Key
    → ℕ
    → ReleaseStore
    → ReleaseStore × Reply
approve_release_candidate b id org candidate_id expected audit key now s =
    command b org approve release_approve candidate_id expected audit key now
      (λ actor. approve_found b id org audit key now actor) s
