-- ===== src/Store/Devices/Traces.antt =====
-- apps/api/src/store/memory.ts: the calls on device challenges in any interleaving, each awaited
-- verification apart from what runs before and after it.
use Prim.Native.String.{String}
use text.Mathlib.Text.{◌==◌ as str_eq}
use screen_goblin.Prelude.{ℕ, suc, zero, Bool, Option, none, some, List, [], ◌∷◌, ◌++◌}
use screen_goblin.Prelude.Search.{find}
use screen_goblin.Store.Devices.Challenges.{
  Credential, DeviceScreen, Challenge, DeviceStore, ChallengeInput, ProofInput,
  issue_device_auth_challenge,
}
use screen_goblin.Store.Devices.Proofs.{Pending, begin_proof, finish_proof, spend_challenges}

-- A challenge as it was when a proof used it up.
pub record Use : Type 0 where
  pub challenge : Challenge
  pub input : ProofInput
  pub at : ℕ

-- The store, the proofs that were begun, and the challenges that were used up.
pub record World : Type 0 where
  pub store : DeviceStore
  pub pending : List Pending
  pub uses : List Use

-- An event: a call that issues a challenge, of which the lookup has answered; a call that brings a
-- proof; the answer of the verification of one that was begun; the revocation of a credential;
-- and any other change of credentials and screens.
pub data Event : Type 0 where
  issues :
      (id : String) (now : ℕ) (i : ChallengeInput)
      (authenticated : Option (Credential × DeviceScreen))
      → Event
  begins : (i : ProofInput) (at now : ℕ) → Event
  finishes : (n : ℕ) (verified : Bool) (at now : ℕ) → Event
  spends : (credential_id : String) (now : ℕ) → Event
  replaces : (credentials : List Credential) (screens : List DeviceScreen) → Event

unfoldable pub nth : ℕ → List Pending → Option Pending
nth n [] = none
nth zero (p ∷ ps) = some p
nth (suc n) (p ∷ ps) = nth n ps

-- The challenge that a proof uses up, with the proof.
unfoldable pub use_of : Pending → ℕ → DeviceStore → List Use
use_of p now s = elim (find (λ (d : Challenge). str_eq d.id p.input.challenge_id) s.challenges) [
  | none ↦ []
  | some d ↦ record { challenge = d; input = p.input; at = now } ∷ []
]

abbrev pub finished : Pending → Bool → ℕ → ℕ → World → World
finished p verified at now w =
    let q = finish_proof p verified at now w.store in
    record w {
      store = q.0;
      uses = elim q.1 [ none ↦ w.uses | some _ ↦ use_of p now w.store ++ w.uses ];
    }

abbrev pub begun : Option Pending → World → World
begun none w = w
begun (some p) w = record w { pending = p ∷ w.pending }

module _ (locale_le : String → String → Bool) where
  unfoldable pub step : Event → World → World
  step (issues id now i authenticated) w = record w {
    store = (issue_device_auth_challenge locale_le id now i authenticated w.store).0;
  }
  step (begins i at now) w = begun (begin_proof i at now w.store) w
  step (finishes n verified at now) w = elim (nth n w.pending) [
    | none ↦ w
    | some p ↦ finished p verified at now w
  ]
  step (spends credential_id now) w =
      let s = w.store in
      record w { store = record s { challenges = spend_challenges credential_id now s.challenges } }
  step (replaces credentials screens) w =
      let s = w.store in
      record w { store = record s { credentials = credentials; screens = screens } }

  unfoldable pub run : List Event → World → World
  run [] w = w
  run (e ∷ es) w = run es (step e w)
