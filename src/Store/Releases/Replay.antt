-- ===== src/Store/Releases/Replay.antt =====
-- apps/api/src/store/memory.ts: what a command leaves when it completes, and the same command again.
use Prim.Native.String.{String}
use text.Mathlib.Text.{◌==◌ as str_eq}
use text.Mathlib.TextEquality.{eq_iff}
use screen_goblin.Prelude.{
  ℕ, ◌+◌, ◌≡◌, refl, sym, ap, ◌∙◌, inl, inr, ◌<◌, true, false, none, some, [], ◌∷◌, ◌++◌, arith,
  Option-cases, subst, leb,
}
use screen_goblin.Prelude.Search.{find, find_sound, find-append}
use screen_goblin.Authorization.Policy.{Capability}
use screen_goblin.Store.Records.{User, done}
use screen_goblin.Store.Releases.Types.{Candidate, Operation, Remembered, ReleaseStore, Backend}
use screen_goblin.Store.Releases.Idempotency.{
  Reply, ReleaseAudit, Key, is_candidate, candidate_actor, is_key, compact, remember,
  response_retention, is_invalid_reference, has_valid_candidate_digest, replay_found,
  release_candidate_replay,
}
use screen_goblin.Store.Releases.Candidates.{command}
use screen_goblin.Store.Releases.Guards.{is_new, command_inversion}
use screen_goblin.Store.Releases.Publishing.{candidate_fault-none}
use screen_goblin.Store.Releases.Retention.{find-update_if, new_kept}

-- What is remembered of a command that completed now.
abbrev pub new_record : String → Operation → ReleaseAudit → Key → Candidate → ℕ → Remembered
new_record org operation audit key d now = record {
  organization_id = org;
  operation = operation;
  key_hash = key.key_hash;
  actor_user_id = audit.actor_user_id;
  request_digest_sha256 = key.request_digest_sha256;
  expires_at = now + response_retention;
  response = some d;
}

pub str_eq_refl : (x : String) → str_eq x x ≡ true
str_eq_refl x = (eq_iff x x).1 refl

-- A command that was not seen is found once it is remembered, after the compaction too.
pub remembered_found :
    (b : Backend) (org : String) (operation : Operation) (audit : ReleaseAudit) (key : Key)
    (now : ℕ) (d : Candidate) (s : ReleaseStore)
    → release_candidate_replay b org operation audit key now s ≡ none
    → find
        (is_key org operation key.key_hash)
        (compact b now (remember org operation audit key d now s.remembered))
      ≡ some (new_record org operation audit key d now)
unfolding compact release_candidate_replay
remembered_found b org operation audit key now d s fresh =
    let test = is_key org operation key.key_hash in
    let r = new_record org operation audit key d now in
    let absent : find test s.remembered ≡ none = elim (Option-cases (find test s.remembered)) [
      | inl e ↦ e
      | inr (x, e) ↦ absurd (ground (arith, e, fresh))
    ] in
    let here : test r ≡ true = ground (arith, str_eq_refl org, str_eq_refl key.key_hash) in
    let found : find test (s.remembered ++ r ∷ []) ≡ some r =
      find-append test s.remembered (r ∷ []) absent ∙ (unfold find in rw here) in
    find-update_if test _ (λ (x : Remembered). record x { response = none })
      (s.remembered ++ r ∷ []) r (λ x. refl) found
      (new_kept b now s.remembered r absent omega arith)

-- What a command leaves when it completes now with a candidate.
pub record IsStored (b : Backend) (org : String) (operation : Operation) (audit : ReleaseAudit)
    (key : Key) (now : ℕ) (s t : ReleaseStore) (d : Candidate) : Type 0 where
  pub same_users : t.users ≡ s.users
  pub live : find (is_candidate org d.id) t.candidates ≡ some d
  pub kept : t.remembered ≡ compact b now (remember org operation audit key d now s.remembered)
  pub valid : is_invalid_reference b org operation d d ≡ false

-- The same command is answered from memory while its response is.
pub replay_stored :
    (b : Backend) (org : String) (operation : Operation) (audit : ReleaseAudit) (key : Key)
    (now later : ℕ) (s t : ReleaseStore) (d : Candidate)
    → release_candidate_replay b org operation audit key now s ≡ none
    → IsStored b org operation audit key now s t d
    → later < now + response_retention
    → release_candidate_replay b org operation audit key later t
      ≡ some (done (record { candidate = d; replayed = true }))
unfolding release_candidate_replay replay_found
replay_stored b org operation audit key now later s t d fresh is later_in =
    let found =
      ap (find (is_key org operation key.key_hash)) is.kept
      ∙ remembered_found b org operation audit key now d s fresh in
    let a = str_eq_refl audit.actor_user_id in
    let k = str_eq_refl key.request_digest_sha256 in
    let old : leb (now + response_retention) later ≡ false = ground (arith, later_in) in
    ground (arith, found, a, k, old, is.live, is.valid)

-- A command that is sent again after it completed is only replayed.
pub command_again :
    (b : Backend) (org : String) (operation : Operation) (capability : Capability)
    (candidate_id expected : String) (audit : ReleaseAudit) (key : Key) (now later : ℕ)
    (work : User → Candidate → ReleaseStore → ReleaseStore × Reply) (s : ReleaseStore)
    (d : Candidate)
    → ((actor : User) (c : Candidate)
        → find (is_candidate org c.id) s.candidates ≡ some c
        → str_eq c.organization_id org ≡ true
        → has_valid_candidate_digest b c ≡ true
        → (work actor c s).1 ≡ done (record { candidate = d; replayed = false })
        → IsStored b org operation audit key now s (work actor c s).0 d)
    → later < now + response_retention
    → (command b org operation capability candidate_id expected audit key now work s).1
      ≡ done (record { candidate = d; replayed = false })
    → (t : ReleaseStore) × ((command b org operation capability candidate_id expected audit key now
          work s).0
        ≡ t)
      × ((work' : User → Candidate → ReleaseStore → ReleaseStore × Reply)
          → command b org operation capability candidate_id expected audit key later work' t
            ≡ (t, done (record { candidate = d; replayed = true })))
unfolding command
command_again b org operation capability candidate_id expected audit key now later work s d each
      soon h =
    elim (command_inversion b org operation capability candidate_id expected audit key now work s) [
      | inl (_, old) ↦ absurd (cc (sym old ∙ ap is_new h))
      | inr (actor, c, hashes, has, able, fresh, found, fine, e) ↦
          let (m, t) = find_sound (is_candidate org candidate_id) s.candidates c found in
          let same : candidate_id ≡ c.id = sym ((eq_iff c.id candidate_id).0 (ground (arith, t))) in
          let found' = subst (λ q. find (is_candidate org q) s.candidates ≡ some c) same found in
          let (_, genuine, _) = candidate_fault-none b expected now c fine in
          let is =
            each actor c found' (ground (arith, t)) genuine
              (sym (ap (λ (q : ReleaseStore × Reply). q.1) e) ∙ h) in
          let again =
            replay_stored b org operation audit key now later s (work actor c s).0 d fresh is
              soon in
          let has' = ap (candidate_actor org audit.actor_user_id) is.same_users ∙ has in
          (
            (work actor c s).0,
            ap (λ (q : ReleaseStore × Reply). q.0) e,
            λ work'. rw hashes (rw has' (rw able (rw again refl))),
          )
    ]
