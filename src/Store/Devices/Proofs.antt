-- ===== src/Store/Devices/Proofs.antt =====
-- apps/api/src/store/memory.ts: the proof that uses a device challenge up. It is awaited: `begin_proof`
-- is what runs before, `finish_proof` what runs after.
use Prim.Native.String.{String}
use text.Mathlib.Text.{◌==◌ as str_eq}
use screen_goblin.Prelude.{
  ℕ, Bool, not, ◌||◌, ◌&&◌, Option, none, some, List, if◌then◌else◌, ltb, leb, ◌==◌, is_some,
}
use screen_goblin.Prelude.Search.{find, update_if}
use screen_goblin.Store.Devices.Challenges.{
  Credential, DeviceScreen, Challenge, DeviceStore, ProofInput, is_same_operation, is_past,
  active_device_credential,
}

-- What a proof in progress holds on to.
pub record Pending : Type 0 where
  pub input : ProofInput
  pub credential : Credential
  pub screen : DeviceScreen
  pub generation : ℕ
  pub challenge : Challenge

abbrev pub generation_of : DeviceScreen → ℕ
generation_of x = elim x.credential_generation [ none ↦ 0 | some n ↦ n ]

-- Whether a challenge does not serve a proof.
abbrev pub is_unfit : ProofInput → ℕ → Challenge → Bool
is_unfit i now c =
    is_some c.consumed_at
    || leb c.expires_at now
    || not (str_eq c.challenge_hash i.challenge_hash)
    || not (is_same_operation c.operation i.operation)
    || not (str_eq c.request_digest i.request_digest)

abbrev pub is_challenge_of : ProofInput → String → Challenge → Bool
is_challenge_of i org c =
    str_eq c.id i.challenge_id
    && str_eq c.credential_id i.credential_id
    && str_eq c.organization_id org

-- Up to the verification; the clock is read at the lookup and at the test.
unfoldable pub begin_proof : ProofInput → ℕ → ℕ → DeviceStore → Option Pending
begin_proof i at now s = elim (active_device_credential i.credential_id at s) [
  | none ↦ none
  | some (c, x) ↦ elim (find (is_challenge_of i c.organization_id) s.challenges) [
    | none ↦ none
    | some d ↦
        if is_unfit i now d
        then none
        else some (record {
          input = i;
          credential = c;
          screen = x;
          generation = generation_of x;
          challenge = d;
        })
  ]
]

-- Whether what was looked up again is not what the proof holds on to, or no longer serves it.
unfoldable pub is_stale_proof : Pending → ℕ → Credential → DeviceScreen → Challenge → Bool
is_stale_proof p now c x d =
    not (c.reference == p.credential.reference)
    || not (x.reference == p.screen.reference)
    || not (generation_of x == p.generation)
    || not (d.reference == p.challenge.reference)
    || is_past now c.expires_at
    || not (str_eq d.credential_id p.input.credential_id)
    || not (str_eq d.organization_id c.organization_id)
    || is_unfit p.input now d

abbrev pub consume : ℕ → Challenge → Challenge
consume now c = record c { consumed_at = some now }

-- From the answer of the verification on.
unfoldable pub finish_proof :
    Pending → Bool → ℕ → ℕ → DeviceStore → DeviceStore × Option (Credential × DeviceScreen)
finish_proof p verified at now s =
    if not verified then (s, none) else elim (active_device_credential p.input.credential_id at s) [
      | none ↦ (s, none)
      | some (c, x) ↦
          elim (find (λ (d : Challenge). str_eq d.id p.input.challenge_id) s.challenges) [
            | none ↦ (s, none)
            | some d ↦ if is_stale_proof p now c x d then (s, none) else (
              record s {
                challenges =
                    update_if (λ (e : Challenge). e.reference == d.reference) (consume now)
                      s.challenges;
              },
              some (c, x),
            )
          ]
    ]

abbrev pub is_live_of : String → ℕ → Challenge → Bool
is_live_of credential_id now c =
    str_eq c.credential_id credential_id && not (is_some c.consumed_at) && ltb now c.expires_at

-- What the revocation of a credential does to its challenges.
unfoldable pub spend_challenges : String → ℕ → List Challenge → List Challenge
spend_challenges credential_id now cs = update_if (is_live_of credential_id now) (consume now) cs
