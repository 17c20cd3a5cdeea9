-- ===== src/Store/Devices/Challenges.antt =====
-- apps/api/src/store/memory.ts: device credentials, and the challenges that they are issued. The
-- code compares objects, so a stored object has the number of its allocation as `reference`.
use Prim.Native.String.{String}
use text.Mathlib.Text.{◌==◌ as str_eq}
use screen_goblin.Prelude.{
  ℕ, suc, ◌+◌, ◌-◌, Bool, true, false, not, ◌||◌, ◌&&◌, Option, none, some, List, [], ◌∷◌, ◌++◌,
  if◌then◌else◌, ltb, leb, ◌==◌, is_some, length,
}
use screen_goblin.Prelude.Sorting.{sort}
use screen_goblin.Prelude.Search.{any, find, filter}
use screen_goblin.Store.Releases.Idempotency.{is_hash, batch_size, take}

-- `DeviceCredentialRecord`.
pub record Credential : Type 0 where
  pub reference : ℕ
  pub id : String
  pub organization_id : String
  pub screen_id : String
  pub key_id : String
  pub detached : Bool
  pub revoked_at : Option ℕ
  pub expires_at : Option ℕ

-- `ScreenRecord`, as far as a proof reads it.
pub record DeviceScreen : Type 0 where
  pub reference : ℕ
  pub id : String
  pub organization_id : String
  pub credential_generation : Option ℕ

pub data DeviceOperation : Type 0 where
  heartbeat manifest : DeviceOperation

-- `DeviceAuthChallengeRecord`.
pub record Challenge : Type 0 where
  pub reference : ℕ
  pub id : String
  pub organization_id : String
  pub credential_id : String
  pub challenge_hash : String
  pub operation : DeviceOperation
  pub request_digest : String
  pub expires_at : ℕ
  pub consumed_at : Option ℕ
  pub created_at : ℕ

-- The fields of `MemoryStore` that these operations read or write, and the reference of the next
-- challenge.
pub record DeviceStore : Type 0 where
  pub credentials : List Credential
  pub screens : List DeviceScreen
  pub challenges : List Challenge
  pub next : ℕ

pub record ChallengeInput : Type 0 where
  pub challenge_hash : String
  pub operation : DeviceOperation
  pub request_digest : String
  pub expires_at : ℕ

-- `DeviceProofInput`.
pub record ProofInput : Type 0 where
  pub credential_id : String
  pub challenge_id : String
  pub challenge_hash : String
  pub operation : DeviceOperation
  pub request_digest : String

abbrev pub is_same_operation : DeviceOperation → DeviceOperation → Bool
is_same_operation heartbeat heartbeat = true
is_same_operation manifest manifest = true
is_same_operation _ _ = false

abbrev pub is_past : ℕ → Option ℕ → Bool
is_past now none = false
is_past now (some e) = leb e now

abbrev pub is_usable : String → ℕ → Credential → Bool
is_usable id now c =
    str_eq c.id id && not c.detached && not (is_some c.revoked_at) && not (is_past now c.expires_at)

abbrev pub is_screen_of : Credential → DeviceScreen → Bool
is_screen_of c x = str_eq x.id c.screen_id && str_eq x.organization_id c.organization_id

unfoldable pub active_device_credential :
    String → ℕ → DeviceStore → Option (Credential × DeviceScreen)
active_device_credential id now s = elim (find (is_usable id now) s.credentials) [
  | none ↦ none
  | some c ↦ elim (find (is_screen_of c) s.screens) [ none ↦ none | some x ↦ some (c, x) ]
]

unfoldable pub authenticate_device_credential :
    String → String → ℕ → DeviceStore → Option (Credential × DeviceScreen)
authenticate_device_credential screen_id key_id now s =
    elim (find (λ (c : Credential). str_eq c.screen_id screen_id && str_eq c.key_id key_id)
      s.credentials) [ none ↦ none | some c ↦ active_device_credential c.id now s ]

-- A day.
abbrev pub challenge_retention : ℕ
challenge_retention = 86400000

abbrev pub challenge_le : (String → String → Bool) → Challenge → Challenge → Bool
challenge_le locale_le c d =
    ltb c.expires_at d.expires_at || (c.expires_at == d.expires_at && locale_le c.id d.id)

-- The oldest challenges that have been over for a day are dropped; `locale_le` is the order of
-- `localeCompare`.
unfoldable pub prune_old_challenges : (String → String → Bool) → ℕ → List Challenge → List Challenge
prune_old_challenges locale_le now cs =
    let removable = take batch_size (
      sort (challenge_le locale_le)
        (filter (λ (c : Challenge). leb (c.expires_at + challenge_retention) now) cs)) in
    filter (λ (c : Challenge). not (any (λ (d : Challenge). str_eq d.id c.id) removable)) cs

abbrev pub is_open_for : String → DeviceOperation → ℕ → Challenge → Bool
is_open_for credential_id operation now c =
    str_eq c.credential_id credential_id
    && is_same_operation c.operation operation
    && not (is_some c.consumed_at)
    && ltb now c.expires_at

unfoldable pub is_issue_refused : ℕ → ChallengeInput → Credential → DeviceStore → Bool
is_issue_refused now i c s =
    leb i.expires_at now
    || ltb 60000 (i.expires_at - now)
    || not (is_hash i.challenge_hash)
    || not (is_hash i.request_digest)
    || any (λ (d : Challenge). str_eq d.challenge_hash i.challenge_hash) s.challenges
    || leb 4 (length (filter (is_open_for c.id i.operation now) s.challenges))

abbrev pub new_challenge : ℕ → String → ℕ → ChallengeInput → Credential → Challenge
new_challenge reference id now i c = record {
  reference = reference;
  id = id;
  organization_id = c.organization_id;
  credential_id = c.id;
  challenge_hash = i.challenge_hash;
  operation = i.operation;
  request_digest = i.request_digest;
  expires_at = i.expires_at;
  consumed_at = none;
  created_at = now;
}

-- `authenticated` is the awaited answer of the lookup, `id` the new identifier.
unfoldable pub issue_device_auth_challenge :
    (String → String → Bool)
    → String
    → ℕ
    → ChallengeInput
    → Option (Credential × DeviceScreen)
    → DeviceStore
    → DeviceStore × Option Challenge
issue_device_auth_challenge locale_le id now i none s = (s, none)
issue_device_auth_challenge locale_le id now i (some (c, x)) s =
    let d = new_challenge s.next id now i c in
    if is_issue_refused now i c s then (s, none) else (
      record s {
        challenges = prune_old_challenges locale_le now s.challenges ++ d ∷ [];
        next = suc s.next;
      },
      some d,
    )
