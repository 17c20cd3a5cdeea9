-- ===== src/Store/Devices/Scenarios.antt =====
-- The device challenges of apps/api/src/store/memory.ts: a proof that is sent twice at once.
use Prim.Native.String.{String}
use screen_goblin.Prelude.{◌≡◌, refl, true, false, none, some, List, [], ◌∷◌, length}
use screen_goblin.Store.Examples.{any_le}
use screen_goblin.Store.Devices.Challenges.{
  Credential, DeviceScreen, heartbeat, ChallengeInput, ProofInput, authenticate_device_credential,
  active_device_credential, issue_device_auth_challenge, is_issue_refused, prune_old_challenges,
}
use screen_goblin.Store.Devices.Proofs.{begin_proof, finish_proof, is_stale_proof}
use screen_goblin.Store.Devices.Traces.{
  World, Event, issues, begins, finishes, run, step, nth, use_of,
}
use screen_goblin.Store.Devices.SingleUse.{new_world, run_single}
use screen_goblin.Store.Devices.Freshness.{AreSingle}
use screen_goblin.Prelude.Search.{find, any, filter, update_if}
use screen_goblin.Prelude.Js.{are_exactly, codes}
use screen_goblin.Prelude.Sorting.{sort}
use screen_goblin.Store.Releases.Idempotency.{take}

abbrev hash : String
hash = "aaaaaaaaaaaaaaaaaaaaaaaaaaaaaaaaaaaaaaaaaaaaaaaaaaaaaaaaaaaaaaaa"

abbrev credential : Credential
credential = record {
  reference = 0;
  id = "credential";
  organization_id = "acme";
  screen_id = "screen";
  key_id = "key";
  detached = false;
  revoked_at = none;
  expires_at = none;
}

abbrev screen : DeviceScreen
screen = record {
  reference = 0;
  id = "screen";
  organization_id = "acme";
  credential_generation = some 1;
}

abbrev world : World
world = new_world (credential ∷ []) (screen ∷ [])

abbrev asked : ChallengeInput
asked = record {
  challenge_hash = hash;
  operation = heartbeat;
  request_digest = hash;
  expires_at = 31000;
}

abbrev proof : ProofInput
proof = record {
  credential_id = "credential";
  challenge_id = "challenge";
  challenge_hash = hash;
  operation = heartbeat;
  request_digest = hash;
}

-- Both proofs are begun before the first verification answers.
abbrev twice : List Event
twice =
    issues "challenge" 1000 asked (authenticate_device_credential "screen" "key" 1000 world.store)
    ∷ begins proof 2000 2001
    ∷ begins proof 2002 2003
    ∷ finishes 0 true 3000 3001
    ∷ finishes 1 true 3002 3003
    ∷ []

-- One of them is accepted.
used_once : length (run any_le twice world).uses ≡ 1
unfolding run step nth begin_proof active_device_credential find issue_device_auth_challenge
    authenticate_device_credential is_issue_refused are_exactly codes any filter
    prune_old_challenges finish_proof is_stale_proof update_if use_of sort take
used_once = refl

run_single_example : AreSingle (run any_le twice world).uses
run_single_example = run_single any_le twice (credential ∷ []) (screen ∷ [])
