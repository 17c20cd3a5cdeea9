-- ===== src/Store/Releases/Idempotence.antt =====
-- apps/api/src/store/memory.ts: a command on a release candidate that is sent again.
use Prim.Native.String.{String}
use text.Mathlib.Text.{◌==◌ as str_eq}
use text.Mathlib.TextEquality.{eq_iff}
use screen_goblin.Prelude.{
  ℕ, ◌+◌, ◌≡◌, refl, sym, ap, ◌∙◌, inl, inr, ◌<◌, true, false, some, List, arith, subst,
}
use screen_goblin.Prelude.Search.{find}
use screen_goblin.Store.Records.{User, done}
use screen_goblin.Store.Releases.Types.{
  Candidate, Operation, submit, approve, publish, in_review, approved, ReleaseStore, Backend,
}
use screen_goblin.Store.Releases.Idempotency.{
  Reply, ReleaseAudit, Key, is_candidate, response_retention, is_invalid_reference,
  has_valid_candidate_digest,
}
use screen_goblin.Store.Releases.Candidates.{
  submit_found, approve_found, store_candidate, assign_first, submit_release_candidate,
  approve_release_candidate, new_approval,
}
use screen_goblin.Store.Releases.Publication.{
  NewIds, publish_found, publish_release, publish_release_candidate, published_candidate,
}
use screen_goblin.Store.Releases.Guards.{is_new, approval_fault-none, publish_inversion}
use screen_goblin.Store.Releases.Publishing.{publish_new}
use screen_goblin.Store.Releases.Refinement.{found_assigned}
use screen_goblin.Store.Releases.Lifecycle.{Command, submit_of, approve_of, publish_of, run_command}
use screen_goblin.Store.Releases.Replay.{str_eq_refl, IsStored, command_again}

-- An assigned candidate is found under its identifier.
live_assigned :
    (org : String) (c d : Candidate) (cs : List Candidate)
    → find (is_candidate org c.id) cs ≡ some c
    → d.id ≡ c.id
    → str_eq d.organization_id org ≡ true
    → find (is_candidate org d.id) (assign_first (is_candidate org d.id) d cs) ≡ some d
live_assigned org c d cs f same o =
    let f' = ap (λ q. find (is_candidate org q) cs) same ∙ f in
    found_assigned (is_candidate org d.id) c d cs f' (ground (arith, o, str_eq_refl d.id))

store_IsStored :
    (b : Backend) (org : String) (operation : Operation) (audit : ReleaseAudit) (key : Key)
    (now : ℕ) (action : String) (s : ReleaseStore) (c d : Candidate)
    → find (is_candidate org c.id) s.candidates ≡ some c
    → d.id ≡ c.id
    → str_eq d.organization_id org ≡ true
    → is_invalid_reference b org operation d d ≡ false
    → IsStored b org operation audit key now s
        (store_candidate b org operation audit key now action d s).0
        d
unfolding store_candidate
store_IsStored b org operation audit key now action s c d f same o valid = record {
  same_users = refl;
  live = live_assigned org c d s.candidates f same o;
  kept = refl;
  valid = valid;
}

IsStored-at :
    (b : Backend) (org : String) (operation : Operation) (audit : ReleaseAudit) (key : Key)
    (now : ℕ) (s : ReleaseStore) (d d' : Candidate) (q q' : ReleaseStore × Reply)
    → d ≡ d'
    → q ≡ q'
    → IsStored b org operation audit key now s q'.0 d'
    → IsStored b org operation audit key now s q.0 d
IsStored-at b org operation audit key now s d d' q q' at e is =
    subst (λ (p : ReleaseStore × Reply). IsStored b org operation audit key now s p.0 d) (sym e)
      (subst (λ x. IsStored b org operation audit key now s q'.0 x) (sym at) is)

abbrev approved_candidate : String → String → ReleaseAudit → ℕ → User → Candidate → Candidate
approved_candidate id org audit now actor c = record c {
  state = approved;
  approved_at = some now;
  approval = some (new_approval id org audit.actor_user_id now actor c);
}

submit_moved :
    (b : Backend) (org : String) (audit : ReleaseAudit) (key : Key) (now : ℕ) (s : ReleaseStore)
    (d c : Candidate)
    → (submit_found b org audit key now c s).1 ≡ done (record { candidate = d; replayed = false })
    → (d ≡ record c { state = in_review; submitted_at = some now })
      × (submit_found b org audit key now c s
          ≡ store_candidate b org submit audit key now "release.candidate.submitted"
              (record c { state = in_review; submitted_at = some now })
              s)
unfolding submit_found store_candidate
submit_moved b org audit key now s d c h = (ground (arith, h), ground (arith, h))

submit_IsStored :
    (b : Backend) (org : String) (audit : ReleaseAudit) (key : Key) (now : ℕ) (s : ReleaseStore)
    (d c : Candidate)
    → find (is_candidate org c.id) s.candidates ≡ some c
    → str_eq c.organization_id org ≡ true
    → has_valid_candidate_digest b c ≡ true
    → (submit_found b org audit key now c s).1 ≡ done (record { candidate = d; replayed = false })
    → IsStored b org submit audit key now s (submit_found b org audit key now c s).0 d
unfolding is_invalid_reference has_valid_candidate_digest
submit_IsStored b org audit key now s d c f o genuine h =
    let moved : Candidate = record c { state = in_review; submitted_at = some now } in
    let (at, e) = submit_moved b org audit key now s d c h in
    let valid : is_invalid_reference b org submit moved moved ≡ false =
      ground (arith, o, genuine, str_eq_refl c.digest_sha256) in
    IsStored-at b org submit audit key now s d moved _ _ at e (
      store_IsStored b org submit audit key now "release.candidate.submitted" s c moved f refl o
        valid)

approve_moved :
    (b : Backend) (id org : String) (audit : ReleaseAudit) (key : Key) (now : ℕ) (actor : User)
    (s : ReleaseStore) (d c : Candidate)
    → (approve_found b id org audit key now actor c s).1
      ≡ done (record { candidate = d; replayed = false })
    → (d ≡ approved_candidate id org audit now actor c)
      × (approve_found b id org audit key now actor c s
          ≡ store_candidate b org approve audit key now "release.candidate.approved"
              (approved_candidate id org audit now actor c)
              s)
unfolding approve_found store_candidate
approve_moved b id org audit key now actor s d c h = (ground (arith, h), ground (arith, h))

approve_IsStored :
    (b : Backend) (id org : String) (audit : ReleaseAudit) (key : Key) (now : ℕ) (s : ReleaseStore)
    (d : Candidate) (actor : User) (c : Candidate)
    → find (is_candidate org c.id) s.candidates ≡ some c
    → str_eq c.organization_id org ≡ true
    → has_valid_candidate_digest b c ≡ true
    → (approve_found b id org audit key now actor c s).1
      ≡ done (record { candidate = d; replayed = false })
    → IsStored b org approve audit key now s (approve_found b id org audit key now actor c s).0 d
unfolding is_invalid_reference has_valid_candidate_digest
approve_IsStored b id org audit key now s d actor c f o genuine h =
    let moved = approved_candidate id org audit now actor c in
    let (at, e) = approve_moved b id org audit key now actor s d c h in
    let valid : is_invalid_reference b org approve moved moved ≡ false =
      ground (arith, o, genuine, str_eq_refl c.digest_sha256) in
    IsStored-at b org approve audit key now s d moved _ _ at e (
      store_IsStored b org approve audit key now "release.candidate.approved" s c moved f refl o
        valid)

publish_IsStored :
    (b : Backend) (origins : List String) (ids : NewIds) (org : String) (audit : ReleaseAudit)
    (key : Key) (now : ℕ) (s : ReleaseStore) (d c : Candidate)
    → find (is_candidate org c.id) s.candidates ≡ some c
    → str_eq c.organization_id org ≡ true
    → has_valid_candidate_digest b c ≡ true
    → (publish_found b origins ids org audit key now c s).1
      ≡ done (record { candidate = d; replayed = false })
    → IsStored b org publish audit key now s (publish_found b origins ids org audit key now c s).0 d
unfolding publish_release is_invalid_reference has_valid_candidate_digest
publish_IsStored b origins ids org audit key now s d c f o genuine h =
    elim (publish_inversion b origins ids org audit key now c s) [
      | inl (_, old) ↦ absurd (cc (sym old ∙ ap is_new h))
      | inr (r, safe, fr, no_fault, fine, e) ↦
          let moved = published_candidate ids now c in
          let (a, has, _, digest, _) = approval_fault-none org c c.approval s safe in
          let h' : (publish_release b ids org audit key now r c s).1
              ≡ done (record { candidate = d; replayed = false }) =
            sym (ap (λ (q : ReleaseStore × Reply). q.1) e) ∙ h in
          let approves : str_eq a.candidate_digest_sha256 c.digest_sha256 ≡ true =
            (eq_iff a.candidate_digest_sha256 c.digest_sha256).1 digest in
          let valid : is_invalid_reference b org publish moved moved ≡ false =
            ground (arith, o, genuine, str_eq_refl c.digest_sha256, has, approves) in
          IsStored-at b org publish audit key now s d moved _ _
            (publish_new b ids org audit key now r c d s h') e
            (rw fine (record {
              same_users = refl;
              live = live_assigned org c moved s.candidates f refl o;
              kept = refl;
              valid = valid;
            }))
    ]

-- A command that completed is idempotent: when it is sent again with its key before the response
-- is dropped, after thirty days, it answers with the same candidate as a replay and leaves the
-- store as it is.
pub run_command-replayed :
    (b : Backend) (org : String) (audit : ReleaseAudit) (key : Key) (now later : ℕ) (k : Command)
    (s : ReleaseStore) (d : Candidate)
    → (run_command b org audit key now k s).1 ≡ done (record { candidate = d; replayed = false })
    → later < now + response_retention
    → run_command b org audit key later k (run_command b org audit key now k s).0
      ≡ ((run_command b org audit key now k s).0, done (record { candidate = d; replayed = true }))
unfolding run_command submit_release_candidate approve_release_candidate publish_release_candidate
run_command-replayed b org audit key now later (submit_of candidate_id expected) s d h soon =
    let (t, e, again) =
      command_again b org submit _ candidate_id expected audit key now later _ s d
        (λ actor c. submit_IsStored b org audit key now s d c) soon h in
    rw e (again _)
run_command-replayed b org audit key now later (approve_of id candidate_id expected) s d h soon =
    let (t, e, again) =
      command_again b org approve _ candidate_id expected audit key now later _ s d
        (λ actor c. approve_IsStored b id org audit key now s d actor c) soon h in
    rw e (again _)
run_command-replayed b org audit key now later (publish_of origins ids candidate_id expected) s d h
      soon =
    let (t, e, again) =
      command_again b org publish _ candidate_id expected audit key now later _ s d
        (λ actor c. publish_IsStored b origins ids org audit key now s d c) soon h in
    rw e (again _)
