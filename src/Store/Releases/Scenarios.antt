-- ===== src/Store/Releases/Scenarios.antt =====
-- The commands on release candidates of apps/api/src/store/memory.ts on a release with one image.
use Prim.Native.String.{String}
use mathlib.Core.List.Memᴰ.{cases_cons}
use screen_goblin.Prelude.{
  ℕ, ◌≡◌, refl, sym, inl, inr, true, false, Option, none, some, List, [], ◌∷◌, arith, subst,
}
use screen_goblin.Limits.MediaPolicy.{
  image, is_expired, is_supported_media, is_unsupported, media_publication_failure, policy_loop,
}
use screen_goblin.Store.Records.{done}
use screen_goblin.Store.Examples.{ann, bob, any_le}
use screen_goblin.Store.Releases.Types.{
  Asset, Item, Release, Timetable, Candidate, Approval, State, draft, in_review, approved,
  ReleaseStore, Backend, normal,
}
use screen_goblin.Store.Releases.Idempotency.{
  ReleaseAudit, Key, candidate_actor, release_candidate_replay, has_valid_candidate_digest,
}
use screen_goblin.Store.Releases.Publication.{
  NewIds, published_candidate, publish_release_candidate, publish_found, approval_fault,
  is_approver_stale, release_fault, asset_fault, item_assets, misses_screen, policy_assets,
  publish_release,
}
use screen_goblin.Store.Releases.Publishing.{IsPublishable, publish_sound}
use screen_goblin.Store.Releases.Lifecycle.{submit_of, approve_of, publish_of, run_command, Command}
use screen_goblin.Store.Releases.Idempotence.{run_command-replayed}
use screen_goblin.Store.Releases.Review.{AreReviewed, IsReviewed}
use screen_goblin.Store.Releases.Approvals.{Call, commands, handle_all, handle_all-AreReviewed}
use screen_goblin.Prelude.Search.{find, any}
use screen_goblin.Store.Releases.Candidates.{
  submit_release_candidate, command, candidate_fault, submit_found, store_candidate,
}
use screen_goblin.Prelude.Js.{are_exactly, codes}
use screen_goblin.Authorization.Policy.{has_capability, holds}
use screen_goblin.Store.Releases.Canonical.{
  has_valid_release_digest, media_url_matches_allowed_origin,
}
use screen_goblin.Prelude.Texts.{includes}

abbrev release_hash : String
release_hash = "aaaaaaaaaaaaaaaaaaaaaaaaaaaaaaaaaaaaaaaaaaaaaaaaaaaaaaaaaaaaaaaa"

abbrev candidate_hash : String
candidate_hash = "bbbbbbbbbbbbbbbbbbbbbbbbbbbbbbbbbbbbbbbbbbbbbbbbbbbbbbbbbbbbbbbb"

abbrev backend : Backend
backend = record {
  text_le = any_le;
  locale_le = any_le;
  lower = λ s. s;
  date_parse = λ s. none;
  parse_url = λ s. some (record {
    username = "";
    password = "";
    protocol = "https:";
    hostname = "media.acme.test";
    origin = "https://media.acme.test";
  });
  release_digest = λ x. release_hash;
  candidate_digest = λ x. candidate_hash;
  assignment_digest = λ x. release_hash;
}

abbrev poster : Asset
poster = record {
  id = "asset";
  name = "Poster";
  kind = image;
  mime_type = "image/png";
  url = "https://media.acme.test/poster.png";
  storage_key = none;
  checksum_sha256 = release_hash;
  size_bytes = 4096;
  created_at = 0;
  expires_at = none;
}

abbrev items : List Item
items = record { id = "item"; asset = poster; position = 0; duration_seconds = 10 } ∷ []

abbrev a_release : Release
a_release = record {
  id = "release";
  organization_id = "acme";
  snapshot = record {
    source_playlist_id = "playlist";
    source_playlist_updated_at = 0;
    playlist_name = "Lobby";
    playlist_description = "";
    items = items;
  };
  digest_sha256 = release_hash;
  created_by_id = "ann";
  created_at = 1000;
}

abbrev timetable : Timetable
timetable = record {
  name = "Lobby";
  priority = normal;
  starts_at = 0;
  ends_at = none;
  timezone = "UTC";
  days_of_week = 1 ∷ 2 ∷ [];
  daily_start_minutes = none;
  daily_end_minutes = none;
  enabled = true;
}

-- The candidate, which one owner wrote, in a state with an approval.
abbrev candidate_in : State → Option Approval → Candidate
candidate_in state approval = record {
  id = "candidate";
  organization_id = "acme";
  release_id = "release";
  release_digest_sha256 = release_hash;
  source_playlist_id = "playlist";
  state = state;
  digest_sha256 = candidate_hash;
  author_user_id = "ann";
  items = items;
  schedule = timetable;
  screen_ids = "screen" ∷ [];
  policy_version = 1;
  expires_at = 90000;
  submitted_at = none;
  approved_at = none;
  published_at = none;
  schedule_id = none;
  assignment_id = none;
  approval = approval;
  created_at = 1000;
}

abbrev an_approval : Approval
an_approval = record {
  id = "approval";
  organization_id = "acme";
  candidate_id = "candidate";
  candidate_digest_sha256 = candidate_hash;
  approver_user_id = "bob";
  authentication_epoch = 1;
  authorization_epoch = 1;
  approved_at = 3000;
}

abbrev store_with : Candidate → ReleaseStore
store_with c = record {
  users = ann ∷ bob ∷ [];
  screens = record { id = "screen"; organization_id = "acme" } ∷ [];
  media = [];
  playlists = [];
  releases = a_release ∷ [];
  assignments = [];
  schedules = [];
  candidates = c ∷ [];
  remembered = [];
  audit_records = [];
}

abbrev by : String → ReleaseAudit
by user = record { actor_user_id = user; is_auditable = true }

abbrev a_key : Key
a_key = record { key_hash = release_hash; request_digest_sha256 = candidate_hash }

abbrev submission : Command
submission = submit_of "candidate" candidate_hash

abbrev drafted : Candidate
drafted = candidate_in draft none

abbrev submitted : Candidate
submitted = record drafted { state = in_review; submitted_at = some 2000 }

abbrev a_call : String → ℕ → Command → Call
a_call user now k = record {
  org = "acme";
  audit = by user;
  key = a_key;
  now = now;
  request = commands k;
}

abbrev origins : List String
origins = "https://media.acme.test" ∷ []

abbrev ids : NewIds
ids = record { schedule_id = "schedule"; assignment_id = "assignment" }

-- The candidate is submitted by its author, approved by the other owner and published.
abbrev calls : List Call
calls =
    a_call "ann" 2000 submission
    ∷ a_call "bob" 3000 (approve_of "approval" "candidate" candidate_hash)
    ∷ a_call "ann" 4000 (publish_of origins ids "candidate" candidate_hash)
    ∷ []

drafted-AreReviewed : AreReviewed (store_with drafted).candidates
drafted-AreReviewed c m = elim (cases_cons m) [
  | inl e ↦ subst (λ x. IsReviewed x) (sym e) refl
  | inr n ↦ elim n [ ]
]

handle_all-AreReviewed_example :
    AreReviewed (handle_all backend calls (store_with drafted)).candidates
handle_all-AreReviewed_example =
    handle_all-AreReviewed backend calls (store_with drafted) drafted-AreReviewed

abbrev ready : Candidate
ready = candidate_in approved (some an_approval)

abbrev released : Candidate
released = published_candidate ids 4000 ready

published_now :
    (publish_release_candidate backend origins ids "acme" "candidate" candidate_hash
      (by "ann")
      a_key
      4000
      (store_with ready)).1
    ≡ done (record { candidate = released; replayed = false })
unfolding publish_release_candidate command are_exactly codes candidate_actor find has_capability
    release_candidate_replay candidate_fault has_valid_candidate_digest publish_found approval_fault
    is_approver_stale release_fault has_valid_release_digest asset_fault any item_assets holds
    is_expired is_supported_media is_unsupported media_publication_failure policy_loop includes
    media_url_matches_allowed_origin misses_screen policy_assets publish_release
published_now = refl

publish_sound_example :
    (c : Candidate) × IsPublishable backend origins "acme" "candidate" candidate_hash 4000
      (store_with ready)
      c
    × (released ≡ published_candidate ids 4000 c)
publish_sound_example =
    publish_sound backend origins ids "acme" "candidate" candidate_hash (by "ann") a_key 4000
      (store_with ready) released published_now

submitted_now :
    (run_command backend "acme" (by "ann") a_key 2000 submission (store_with drafted)).1
    ≡ done (record { candidate = submitted; replayed = false })
unfolding run_command submit_release_candidate command are_exactly codes candidate_actor find
    has_capability release_candidate_replay candidate_fault has_valid_candidate_digest submit_found
    store_candidate
submitted_now = refl

run_command-replayed_example :
    run_command backend "acme"
      (by "ann")
      a_key
      5000
      submission
      (run_command backend "acme" (by "ann") a_key 2000 submission (store_with drafted)).0
    ≡ (
      (run_command backend "acme" (by "ann") a_key 2000 submission (store_with drafted)).0,
      done (record { candidate = submitted; replayed = true }),
    )
run_command-replayed_example =
    run_command-replayed backend "acme" (by "ann") a_key 2000 5000 submission (store_with drafted)
      submitted submitted_now omega arith
