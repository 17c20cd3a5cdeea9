-- ===== src/Store/Releases/Lifecycle.antt =====
-- apps/api/src/store/memory.ts: the life of a release candidate, apart from how it is stored,
-- and what each command does to the stored candidates.
use Prim.Native.String.{String}
use text.Mathlib.Text.{◌==◌ as str_eq}
use text.Mathlib.TextEquality.{eq_iff}
use screen_goblin.Prelude.{
  ℕ, ◌≡◌, refl, sym, ap, ◌∙◌, inl, inr, false, not, some, List, arith, Bool-cases, subst,
}
use screen_goblin.Prelude.Search.{find, find_sound}
use screen_goblin.Authorization.Policy.{Capability}
use screen_goblin.Store.Records.{User}
use screen_goblin.Store.Releases.Types.{
  Candidate, Approval, Operation, draft, in_review, approved, published, ReleaseStore, Backend,
}
use screen_goblin.Store.Releases.Idempotency.{Reply, ReleaseAudit, Key, is_state, is_candidate}
use screen_goblin.Store.Releases.Candidates.{
  assign_first, store_candidate, submit_found, approve_found, command, submit_release_candidate,
  approve_release_candidate, new_approval,
}
use screen_goblin.Store.Releases.Publication.{
  NewIds, publish_found, publish_release, publish_release_candidate, published_candidate,
}
use screen_goblin.Store.Releases.Guards.{
  is_state-eq, approval_fault-none, publish_inversion, command_inversion,
}

-- What a candidate keeps for its whole life.
pub record IsSameContent (c d : Candidate) : Type 0 where
  pub id : d.id ≡ c.id
  pub organization : d.organization_id ≡ c.organization_id
  pub digest : d.digest_sha256 ≡ c.digest_sha256
  pub release_id : d.release_id ≡ c.release_id
  pub release : d.release_digest_sha256 ≡ c.release_digest_sha256
  pub source : d.source_playlist_id ≡ c.source_playlist_id
  pub items : d.items ≡ c.items
  pub policy : d.policy_version ≡ c.policy_version
  pub creation : d.created_at ≡ c.created_at
  pub author : d.author_user_id ≡ c.author_user_id
  pub schedule : d.schedule ≡ c.schedule
  pub screens : d.screen_ids ≡ c.screen_ids
  pub expiry : d.expires_at ≡ c.expires_at

-- The life of a candidate: its author submits it, another user approves its digest, and then it
-- is published.
pub data Step (user : String) (c d : Candidate) : Type 0 where
  submits :
      c.state ≡ draft
      → c.author_user_id ≡ user
      → d.state ≡ in_review
      → d.approval ≡ c.approval
      → Step user c d
  approves :
      (a : Approval)
      → c.state ≡ in_review
      → str_eq c.author_user_id user ≡ false
      → d.state ≡ approved
      → d.approval ≡ some a
      → a.approver_user_id ≡ user
      → a.candidate_digest_sha256 ≡ c.digest_sha256
      → Step user c d
  publishes :
      (a : Approval)
      → c.state ≡ approved
      → c.approval ≡ some a
      → a.candidate_digest_sha256 ≡ c.digest_sha256
      → d.state ≡ published
      → d.approval ≡ c.approval
      → Step user c d

-- The stored candidates stay as they are, or one that is found takes a step.
pub data Effect (user org : String) (cs cs' : List Candidate) : Type 0 where
  stays : cs' ≡ cs → Effect user org cs cs'
  moves :
      (c d : Candidate)
      → find (is_candidate org c.id) cs ≡ some c
      → Step user c d
      → IsSameContent c d
      → cs' ≡ assign_first (is_candidate org c.id) d cs
      → Effect user org cs cs'

submit-Effect :
    (b : Backend) (org : String) (audit : ReleaseAudit) (key : Key) (now : ℕ) (c : Candidate)
    (s : ReleaseStore)
    → find (is_candidate org c.id) s.candidates ≡ some c
    → Effect audit.actor_user_id org s.candidates
        (submit_found b org audit key now c s).0.candidates
unfolding submit_found store_candidate
submit-Effect b org audit key now c s f =
    elim (Bool-cases (not (str_eq c.author_user_id audit.actor_user_id))) [
      | inl n ↦ stays (ground (arith, n))
      | inr mine ↦ elim (Bool-cases (not (is_state c.state draft))) [
        | inl n ↦ stays (ground (arith, mine, n))
        | inr e ↦ elim (Bool-cases audit.is_auditable) [
          | inr n ↦ stays (ground (arith, mine, e, n))
          | inl fine ↦
              moves c (record c { state = in_review; submitted_at = some now }) f
                (submits (is_state-eq c.state draft e)
                  ((eq_iff c.author_user_id audit.actor_user_id).0 (ground (arith, mine))) refl
                  refl)
                (record {
                  id = refl;
                  organization = refl;
                  digest = refl;
                  release = refl;
                  release_id = refl;
                  source = refl;
                  items = refl;
                  policy = refl;
                  creation = refl;
                  author = refl;
                  schedule = refl;
                  screens = refl;
                  expiry = refl;
                })
                (ground (arith, mine, e, fine))
        ]
      ]
    ]

approve-Effect :
    (b : Backend) (id org : String) (audit : ReleaseAudit) (key : Key) (now : ℕ) (actor : User)
    (c : Candidate) (s : ReleaseStore)
    → find (is_candidate org c.id) s.candidates ≡ some c
    → Effect audit.actor_user_id org s.candidates
        (approve_found b id org audit key now actor c s).0.candidates
unfolding approve_found store_candidate
approve-Effect b id org audit key now actor c s f =
    elim (Bool-cases (str_eq c.author_user_id audit.actor_user_id)) [
      | inl n ↦ stays (ground (arith, n))
      | inr other ↦ elim (Bool-cases (not (is_state c.state in_review))) [
        | inl n ↦ stays (ground (arith, other, n))
        | inr e ↦ elim (Bool-cases audit.is_auditable) [
          | inr n ↦ stays (ground (arith, other, e, n))
          | inl fine ↦
              let a = new_approval id org audit.actor_user_id now actor c in
              moves c (record c { state = approved; approved_at = some now; approval = some a }) f
                (approves a (is_state-eq c.state in_review e) other refl refl refl refl)
                (record {
                  id = refl;
                  organization = refl;
                  digest = refl;
                  release = refl;
                  release_id = refl;
                  source = refl;
                  items = refl;
                  policy = refl;
                  creation = refl;
                  author = refl;
                  schedule = refl;
                  screens = refl;
                  expiry = refl;
                })
                (ground (arith, other, e, fine))
        ]
      ]
    ]

publish-Effect :
    (b : Backend) (origins : List String) (ids : NewIds) (org : String) (audit : ReleaseAudit)
    (key : Key) (now : ℕ) (c : Candidate) (s : ReleaseStore)
    → find (is_candidate org c.id) s.candidates ≡ some c
    → Effect audit.actor_user_id org s.candidates
        (publish_found b origins ids org audit key now c s).0.candidates
unfolding publish_release
publish-Effect b origins ids org audit key now c s f =
    elim (publish_inversion b origins ids org audit key now c s) [
      | inl (e, _) ↦ stays (ap (λ (t : ReleaseStore). t.candidates) e)
      | inr (r, safe, fr, fine, auditable, e) ↦
          let (a, has, state, digest, fresh) = approval_fault-none org c c.approval s safe in
          moves c (published_candidate ids now c) f (publishes a state has digest refl refl)
            (record {
              id = refl;
              organization = refl;
              digest = refl;
              release = refl;
              release_id = refl;
              source = refl;
              items = refl;
              policy = refl;
              creation = refl;
              author = refl;
              schedule = refl;
              screens = refl;
              expiry = refl;
            })
            (ap (λ (q : ReleaseStore × Reply). q.0.candidates) e ∙ ground (arith, auditable))
    ]

command-Effect :
    (b : Backend) (org : String) (operation : Operation) (capability : Capability)
    (candidate_id expected : String) (audit : ReleaseAudit) (key : Key) (now : ℕ)
    (work : User → Candidate → ReleaseStore → ReleaseStore × Reply) (s : ReleaseStore)
    → ((actor : User) (c : Candidate)
        → find (is_candidate org c.id) s.candidates ≡ some c
        → Effect audit.actor_user_id org s.candidates (work actor c s).0.candidates)
    → Effect audit.actor_user_id org s.candidates
        (command b org operation capability candidate_id expected audit key now work s).0.candidates
command-Effect b org operation capability candidate_id expected audit key now work s each =
    elim (command_inversion b org operation capability candidate_id expected audit key now work s) [
      | inl (e, _) ↦ stays (ap (λ (t : ReleaseStore). t.candidates) e)
      | inr (actor, c, hashes, fa, able, seen, f, fine, e) ↦
          let (m, t) = find_sound (is_candidate org candidate_id) s.candidates c f in
          let same : candidate_id ≡ c.id = sym ((eq_iff c.id candidate_id).0 (ground (arith, t))) in
          let f' = subst (λ q. find (is_candidate org q) s.candidates ≡ some c) same f in
          subst (Effect audit.actor_user_id org s.candidates)
            (sym (ap (λ (q : ReleaseStore × Reply). q.0.candidates) e)) (each actor c f')
    ]

-- The commands on a candidate that is there.
pub data Command : Type 0 where
  submit_of : (candidate_id expected : String) → Command
  approve_of : (id candidate_id expected : String) → Command
  publish_of : (origins : List String) (ids : NewIds) (candidate_id expected : String) → Command

unfoldable pub run_command :
    Backend → String → ReleaseAudit → Key → ℕ → Command → ReleaseStore → ReleaseStore × Reply
run_command b org audit key now (submit_of candidate_id expected) s =
    submit_release_candidate b org candidate_id expected audit key now s
run_command b org audit key now (approve_of id candidate_id expected) s =
    approve_release_candidate b id org candidate_id expected audit key now s
run_command b org audit key now (publish_of origins ids candidate_id expected) s =
    publish_release_candidate b origins ids org candidate_id expected audit key now s

pub run_command-Effect :
    (b : Backend) (org : String) (audit : ReleaseAudit) (key : Key) (now : ℕ) (k : Command)
    (s : ReleaseStore)
    → Effect audit.actor_user_id org s.candidates (run_command b org audit key now k s).0.candidates
unfolding run_command submit_release_candidate approve_release_candidate publish_release_candidate
run_command-Effect b org audit key now (submit_of candidate_id expected) s =
    command-Effect b org _ _ candidate_id expected audit key now _ s
      (λ actor c. submit-Effect b org audit key now c s)
run_command-Effect b org audit key now (approve_of id candidate_id expected) s =
    command-Effect b org _ _ candidate_id expected audit key now _ s
      (λ actor c. approve-Effect b id org audit key now actor c s)
run_command-Effect b org audit key now (publish_of origins ids candidate_id expected) s =
    command-Effect b org _ _ candidate_id expected audit key now _ s
      (λ actor c. publish-Effect b origins ids org audit key now c s)
