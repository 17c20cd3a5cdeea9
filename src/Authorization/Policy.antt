-- ===== src/Authorization/Policy.antt =====
-- apps/api/src/authorization/policy.ts and compatibility.ts, with the capabilities of
-- packages/contracts/src/index.ts: which role has which capability.
use Prim.Native.String.{String}
use screen_goblin.Prelude.{
  ℕ, ◌≤◌, ◌≡◌, ◌↔◌, ◌==◌, Bool, true, false, ◌||◌, Option, List, [], ◌∷◌, arith,
}

-- `CAPABILITIES`.
pub data Capability : Type 0 where
  authorization_manage screen_read location_read media_read playlist_read : Capability
  schedule_read release_candidate_read release_candidate_create : Capability
  release_candidate_submit release_approve release_publish release_withdraw : Capability
  screen_credential_revoke screen_credential_reenroll : Capability
  emergency_activate emergency_clear : Capability

pub data Role : Type 0 where
  owner admin publisher viewer : Role

-- A value of type `unknown`: one of the known texts, or another text, or no text.
pub data Claimed (A : Type 0) : Type 0 where
  known : A → Claimed A
  stray : Option String → Claimed A

pub Capability-discrete : Discrete Capability
Capability-discrete = hlevel

-- The position of a capability in the table, by which two are compared.
abbrev code : Capability → ℕ
code authorization_manage = 0
code screen_read = 1
code location_read = 2
code media_read = 3
code playlist_read = 4
code schedule_read = 5
code release_candidate_read = 6
code release_candidate_create = 7
code release_candidate_submit = 8
code release_approve = 9
code release_publish = 10
code release_withdraw = 11
code screen_credential_revoke = 12
code screen_credential_reenroll = 13
code emergency_activate = 14
code emergency_clear = 15

abbrev pub same : Capability → Capability → Bool
same a b = code a == code b

-- `capabilities.includes(capability)`.
unfoldable pub holds : List Capability → Capability → Bool
holds [] c = false
holds (d ∷ ds) c = same d c || holds ds c

-- `COMPATIBILITY_GRANT_CAPABILITIES`.
abbrev pub grant_capabilities : Role → List Capability
grant_capabilities owner =
    screen_read ∷ location_read ∷ media_read ∷ playlist_read ∷ schedule_read
    ∷ release_candidate_read ∷ release_candidate_create ∷ release_candidate_submit ∷ release_approve
    ∷ release_publish ∷ release_withdraw ∷ screen_credential_revoke ∷ screen_credential_reenroll
    ∷ []
grant_capabilities admin =
    screen_read ∷ location_read ∷ media_read ∷ playlist_read ∷ schedule_read
    ∷ release_candidate_read ∷ release_candidate_create ∷ release_candidate_submit ∷ release_approve
    ∷ release_publish ∷ release_withdraw ∷ screen_credential_revoke ∷ screen_credential_reenroll
    ∷ []
grant_capabilities publisher =
    screen_read ∷ location_read ∷ media_read ∷ playlist_read ∷ schedule_read
    ∷ release_candidate_read ∷ release_candidate_create ∷ release_candidate_submit ∷ release_publish
    ∷ release_withdraw ∷ []
grant_capabilities viewer =
    screen_read ∷ location_read ∷ media_read ∷ playlist_read ∷ schedule_read
    ∷ release_candidate_read ∷ []

-- `ROLE_CAPABILITIES`.
abbrev pub role_capabilities : Role → List Capability
role_capabilities owner = authorization_manage ∷ grant_capabilities owner
role_capabilities admin = grant_capabilities admin
role_capabilities publisher = grant_capabilities publisher
role_capabilities viewer = grant_capabilities viewer

unfoldable pub has_capability : Claimed Role → Claimed Capability → Bool
unfolding holds
has_capability (known r) (known c) = holds (role_capabilities r) c
has_capability (known r) (stray v) = false
has_capability (stray v) c = false

-- How far a role reaches.
abbrev pub rank : Role → ℕ
rank viewer = 0
rank publisher = 1
rank admin = 2
rank owner = 3

-- A higher role has every capability of a lower one.
pub has_capability_mono :
    (low high : Role) (c : Claimed Capability)
    → rank low ≤ rank high
    → has_capability (known low) c ≡ true
    → has_capability (known high) c ≡ true
unfolding has_capability
has_capability_mono low high (known c) h e = ground arith
has_capability_mono low high (stray v) h e = ground arith

-- No role has an emergency capability, and the owner alone manages authorization.
pub has_capability_limits :
    (r : Role)
    → (has_capability (known r) (known emergency_activate) ≡ false)
      × (has_capability (known r) (known emergency_clear) ≡ false)
      × ((has_capability (known r) (known authorization_manage) ≡ true) ↔ (r ≡ owner))
unfolding has_capability
has_capability_limits owner = ground arith
has_capability_limits admin = ground arith
has_capability_limits publisher = ground arith
has_capability_limits viewer = ground arith
