-- ===== src/Store/Releases/Guards.antt =====
-- apps/api/src/store/memory.ts: what a command on a release candidate has checked when it works.
use Prim.Native.String.{String}
use text.Mathlib.Text.{◌==◌ as str_eq}
use text.Mathlib.TextEquality.{eq_iff}
use screen_goblin.Prelude.{
  ℕ, ◌≡◌, refl, ◌⊎◌, inl, inr, Bool, true, false, not, ◌&&◌, Option, none, some, List, arith,
  Bool-cases, Option-cases,
}
use screen_goblin.Prelude.Search.{find}
use screen_goblin.Authorization.Policy.{Capability}
use screen_goblin.Store.Records.{User, done, refused, failed}
use screen_goblin.Store.Releases.Types.{
  Candidate, Approval, Operation, State, approved, Release, ReleaseStore, Backend,
}
use screen_goblin.Store.Releases.Idempotency.{
  Reply, ReleaseAudit, Key, is_state, is_candidate, may, candidate_actor, release_candidate_replay,
  replay_found,
}
use screen_goblin.Store.Releases.Candidates.{command, candidate_fault, are_hashes}
use screen_goblin.Store.Releases.Publication.{
  NewIds, publish_found, publish_release, approval_fault, release_fault, is_approver_stale,
}

-- Whether a command completed now, and is no replay.
abbrev pub is_new : Reply → Bool
is_new (done x) = not x.replayed
is_new (refused _) = false
is_new failed = false

pub is_state-eq : (a b : State) → not (is_state a b) ≡ false → a ≡ b
is_state-eq a b h = ground arith

-- An approval without a fault.
pub approval_fault-none :
    (org : String) (c : Candidate) (o : Option Approval) (s : ReleaseStore)
    → approval_fault org c o s ≡ none
    → (a : Approval) × (o ≡ some a)
      × (c.state ≡ approved)
      × (a.candidate_digest_sha256 ≡ c.digest_sha256)
      × (is_approver_stale (candidate_actor org a.approver_user_id s.users) a ≡ false)
unfolding approval_fault
approval_fault-none org c none s h = cc
approval_fault-none org c (some a) s h = (
  a,
  refl,
  is_state-eq c.state approved (ground (arith, h)),
  (eq_iff a.candidate_digest_sha256 c.digest_sha256).0 (ground (arith, h)),
  ground (arith, h),
)

-- What a publication has checked and leaves, when it goes through.
pub publish_inversion :
    (b : Backend) (origins : List String) (ids : NewIds) (org : String) (audit : ReleaseAudit)
    (key : Key) (now : ℕ) (c : Candidate) (s : ReleaseStore)
    → (((publish_found b origins ids org audit key now c s).0 ≡ s)
        × (is_new (publish_found b origins ids org audit key now c s).1 ≡ false))
      ⊎ ((r : Release) × (approval_fault org c c.approval s ≡ none)
          × (find
                (λ (q : Release). str_eq q.organization_id org && str_eq q.id c.release_id)
                s.releases
              ≡ some r)
          × (release_fault b origins org now c r s ≡ none)
          × (audit.is_auditable ≡ true)
          × (publish_found b origins ids org audit key now c s
              ≡ publish_release b ids org audit key now r c s))
unfolding publish_found
publish_inversion b origins ids org audit key now c s =
    elim (Option-cases (approval_fault org c c.approval s)) [
      | inr (x, e) ↦ inl (ground (arith, e), ground (arith, e))
      | inl e ↦
          elim (Option-cases (
            find (λ (q : Release). str_eq q.organization_id org && str_eq q.id c.release_id)
              s.releases)) [
                | inl f ↦ inl (ground (arith, e, f), ground (arith, e, f))
                | inr (r, f) ↦ elim (Option-cases (release_fault b origins org now c r s)) [
                  | inr (x, g) ↦ inl (ground (arith, e, f, g), ground (arith, e, f, g))
                  | inl g ↦ elim (Bool-cases audit.is_auditable) [
                    | inr n ↦ inl (
                        unfold publish_release in
                        (ground (arith, e, f, g, n), ground (arith, e, f, g, n)))
                    | inl fine ↦ inr (r, e, f, g, fine, ground (arith, e, f, g))
                  ]
                ]
              ]
    ]

replay-is_new :
    (b : Backend) (org : String) (operation : Operation) (audit : ReleaseAudit) (key : Key)
    (now : ℕ) (s : ReleaseStore) (x : Reply)
    → release_candidate_replay b org operation audit key now s ≡ some x
    → is_new x ≡ false
unfolding release_candidate_replay replay_found
replay-is_new b org operation audit key now s x h = ground (arith, h)

-- What a command has checked when it comes to its work.
pub command_inversion :
    (b : Backend) (org : String) (operation : Operation) (capability : Capability)
    (candidate_id expected : String) (audit : ReleaseAudit) (key : Key) (now : ℕ)
    (work : User → Candidate → ReleaseStore → ReleaseStore × Reply) (s : ReleaseStore)
    → (((command b org operation capability candidate_id expected audit key now work s).0 ≡ s)
        × (is_new (command b org operation capability candidate_id expected audit key now work s).1
            ≡ false))
      ⊎ ((actor : User) × (c : Candidate) × (are_hashes expected key ≡ true)
          × (candidate_actor org audit.actor_user_id s.users ≡ some actor)
          × (may (some actor) capability ≡ true)
          × (release_candidate_replay b org operation audit key now s ≡ none)
          × (find (is_candidate org candidate_id) s.candidates ≡ some c)
          × (candidate_fault b expected now c ≡ none)
          × (command b org operation capability candidate_id expected audit key now work s
              ≡ work actor c s))
unfolding command
command_inversion b org operation capability candidate_id expected audit key now work s =
    elim (Bool-cases (are_hashes expected key)) [
      | inr n ↦ inl (ground (arith, n), ground (arith, n))
      | inl hashes ↦ elim (Option-cases (candidate_actor org audit.actor_user_id s.users)) [
        | inl e ↦ inl (ground (arith, hashes, e), ground (arith, hashes, e))
        | inr (actor, e) ↦ elim (Bool-cases (may (some actor) capability)) [
          | inr n ↦ inl (ground (arith, hashes, e, n), ground (arith, hashes, e, n))
          | inl able ↦
              elim (Option-cases (release_candidate_replay b org operation audit key now s)) [
                | inr (x, f) ↦
                    let old = replay-is_new b org operation audit key now s x f in
                    inl
                      (ground (arith, hashes, e, able, f), ground (arith, hashes, e, able, f, old))
                | inl f ↦ elim (Option-cases (find (is_candidate org candidate_id) s.candidates)) [
                  | inl g ↦
                      inl (
                        ground (arith, hashes, e, able, f, g),
                        ground (arith, hashes, e, able, f, g),
                      )
                  | inr (c, g) ↦ elim (Option-cases (candidate_fault b expected now c)) [
                    | inr (x, h) ↦ inl (
                      ground (arith, hashes, e, able, f, g, h),
                      ground (arith, hashes, e, able, f, g, h),
                    )
                    | inl h ↦ inr (
                      actor,
                      c,
                      hashes,
                      e,
                      able,
                      f,
                      g,
                      h,
                      ground (arith, hashes, e, able, f, g, h),
                    )
                  ]
                ]
              ]
        ]
      ]
    ]
