-- ===== src/Store/Releases/Publishing.antt =====
-- apps/api/src/store/memory.ts: what a publication that goes through rests on.
use Prim.Native.String.{String}
use text.Mathlib.Text.{◌==◌ as str_eq}
use text.Mathlib.TextEquality.{eq_iff}
use screen_goblin.Prelude.{
  ℕ, ◌≡◌, refl, sym, ap, ◌∙◌, inl, inr, ◌<◌, true, false, ◌&&◌, Option, none, some, List, arith,
}
use screen_goblin.Prelude.Search.{find}
use screen_goblin.Authorization.Policy.{release_approve, release_publish}
use screen_goblin.Store.Records.{User, done}
use screen_goblin.Store.Releases.Types.{
  Candidate, Approval, approved, publish, Release, ReleaseStore, Backend,
}
use screen_goblin.Store.Releases.Canonical.{has_valid_release_digest}
use screen_goblin.Store.Releases.Idempotency.{
  Reply, ReleaseAudit, Key, is_candidate, candidate_actor, may, has_valid_candidate_digest,
}
use screen_goblin.Store.Releases.Candidates.{candidate_fault}
use screen_goblin.Store.Releases.Publication.{
  NewIds, publish_found, publish_release, publish_release_candidate, asset_fault, item_assets,
  misses_screen, release_fault, is_approver_stale, published_candidate,
}
use screen_goblin.Store.Releases.Guards.{
  is_new, approval_fault-none, publish_inversion, command_inversion,
}

-- What makes a candidate publishable: it is the one that was meant, approved by a user who may
-- still approve and has not changed since, and its release may be shown on its screens.
pub record IsPublishable (b : Backend) (origins : List String) (org candidate_id expected : String)
    (now : ℕ) (s : ReleaseStore) (c : Candidate) : Type 0 where
  pub found : find (is_candidate org candidate_id) s.candidates ≡ some c
  pub digest : c.digest_sha256 ≡ expected
  pub genuine : has_valid_candidate_digest b c ≡ true
  pub live : now < c.expires_at
  pub state : c.state ≡ approved
  pub approval : Approval
  pub has_approval : c.approval ≡ some approval
  pub approved_digest : approval.candidate_digest_sha256 ≡ c.digest_sha256
  pub approver : User
  pub is_active : candidate_actor org approval.approver_user_id s.users ≡ some approver
  pub may_approve : may (some approver) release_approve ≡ true
  pub authentication : approver.authentication_epoch ≡ approval.authentication_epoch
  pub authorization : approver.authorization_epoch ≡ approval.authorization_epoch
  pub release : Release
  pub has_release :
      find (λ (q : Release). str_eq q.organization_id org && str_eq q.id c.release_id) s.releases
      ≡ some release
  pub release_digest : release.digest_sha256 ≡ c.release_digest_sha256
  pub release_genuine : has_valid_release_digest b release ≡ true
  pub assets : asset_fault b origins now (item_assets release.snapshot.items) ≡ none
  pub screens : misses_screen org c.screen_ids s.screens ≡ false

approver_fresh :
    (o : Option User) (a : Approval)
    → is_approver_stale o a ≡ false
    → (u : User) × (o ≡ some u)
      × (may (some u) release_approve ≡ true)
      × (u.authentication_epoch ≡ a.authentication_epoch)
      × (u.authorization_epoch ≡ a.authorization_epoch)
unfolding is_approver_stale
approver_fresh none a h = cc
approver_fresh (some u) a h = (u, refl, ground (arith, h), ground (arith, h), ground (arith, h))

release_fault-none :
    (b : Backend) (origins : List String) (org : String) (now : ℕ) (c : Candidate) (r : Release)
    (s : ReleaseStore)
    → release_fault b origins org now c r s ≡ none
    → (r.digest_sha256 ≡ c.release_digest_sha256)
      × (has_valid_release_digest b r ≡ true)
      × (asset_fault b origins now (item_assets r.snapshot.items) ≡ none)
      × (misses_screen org c.screen_ids s.screens ≡ false)
unfolding release_fault
release_fault-none b origins org now c r s h = (
  (eq_iff r.digest_sha256 c.release_digest_sha256).0 (ground (arith, h)),
  ground (arith, h),
  ground (arith, h),
  ground (arith, h),
)

-- A candidate without a fault is the one that is expected, genuine and not over.
pub candidate_fault-none :
    (b : Backend) (expected : String) (now : ℕ) (c : Candidate)
    → candidate_fault b expected now c ≡ none
    → (c.digest_sha256 ≡ expected) × (has_valid_candidate_digest b c ≡ true) × (now < c.expires_at)
unfolding candidate_fault
candidate_fault-none b expected now c h =
    ((eq_iff c.digest_sha256 expected).0 (ground (arith, h)), ground (arith, h), ground (arith, h))

-- A publication that goes through answers with the candidate, published.
pub publish_new :
    (b : Backend) (ids : NewIds) (org : String) (audit : ReleaseAudit) (key : Key) (now : ℕ)
    (r : Release) (c d : Candidate) (s : ReleaseStore)
    → (publish_release b ids org audit key now r c s).1
      ≡ done (record { candidate = d; replayed = false })
    → d ≡ published_candidate ids now c
unfolding publish_release
publish_new b ids org audit key now r c d s h = ground (arith, h)

-- A publication that completes, and is no replay, answers with the candidate that was meant,
-- now published. The candidate had the expected digest, which fits its content, was not over and
-- approved in that digest; its approver is still an active user of the organization who may
-- approve, with the epochs of the approval; and its release has the digest that was approved,
-- which fits its content, without a fault of its assets now, for screens that are all there.
pub publish_sound :
    (b : Backend) (origins : List String) (ids : NewIds) (org candidate_id expected : String)
    (audit : ReleaseAudit) (key : Key) (now : ℕ) (s : ReleaseStore) (d : Candidate)
    → (publish_release_candidate b origins ids org candidate_id expected audit key now s).1
      ≡ done (record { candidate = d; replayed = false })
    → (c : Candidate) × IsPublishable b origins org candidate_id expected now s c
      × (d ≡ published_candidate ids now c)
unfolding publish_release_candidate
publish_sound b origins ids org candidate_id expected audit key now s d h =
    elim (command_inversion b org publish release_publish candidate_id expected audit key now
      (λ actor c. publish_found b origins ids org audit key now c) s) [
        | inl (_, old) ↦ cc (sym old ∙ ap is_new h)
        | inr (actor, c, _, _, _, _, found, fine, e) ↦
            elim (publish_inversion b origins ids org audit key now c s) [
              | inl (_, old) ↦
                  cc (sym old ∙ sym (ap (λ (q : ReleaseStore × Reply). is_new q.1) e) ∙ ap is_new h)
              | inr (r, safe, fr, no_fault, _, f) ↦
                  let (a, has, state, digest, fresh) =
                    approval_fault-none org c c.approval s safe in
                  let (u, at, able, e1, e2) =
                    approver_fresh (candidate_actor org a.approver_user_id s.users) a fresh in
                  let (rd, rg, ra, rs) = release_fault-none b origins org now c r s no_fault in
                  let (exp, genuine, live) = candidate_fault-none b expected now c fine in
                  (
                    c,
                    record {
                      found = found;
                      digest = exp;
                      genuine = genuine;
                      live = live;
                      state = state;
                      approval = a;
                      has_approval = has;
                      approved_digest = digest;
                      approver = u;
                      is_active = at;
                      may_approve = able;
                      authentication = e1;
                      authorization = e2;
                      release = r;
                      has_release = fr;
                      release_digest = rd;
                      release_genuine = rg;
                      assets = ra;
                      screens = rs;
                    },
                    publish_new b ids org audit key now r c d s
                        (sym (ap (λ (q : ReleaseStore × Reply). q.1) (e ∙ f)) ∙ h),
                  )
            ]
      ]
