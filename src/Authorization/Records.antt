-- ===== src/Authorization/Records.antt =====
-- apps/api/src/authorization/scoped.ts: grants, targets and decisions, and the runtime. `Platform` is
-- what the code takes from its runtime: `localeCompare` and the default order of texts as tests
-- "not after", the parser of canonical UTC instants, and SHA-256 over the JSON text of the
-- evidence. Instants count milliseconds from the first one that the format writes.
use Prim.Native.String.{String}
use screen_goblin.Prelude.{ℕ, Bool, Option, List}
use screen_goblin.Authorization.Policy.{Capability, Role, Claimed}

pub data ScopeType : Type 0 where
  organization location screen_group screen : ScopeType

pub data Reason : Type 0 where
  allowed invalid_context unknown_capability role_ceiling_denied targets_required : Reason
  organization_scope_required scope_denied : Reason

-- `scope_type` is `none` for a text that is none of the four.
pub record Grant : Type 0 where
  pub id : String
  pub organization_id : String
  pub subject_user_id : String
  pub subject_membership_id : String
  pub capability : Capability
  pub scope_type : Option ScopeType
  pub scope_id : Option String
  pub starts_at : String
  pub expires_at : Option String
  pub revoked_at : Option String

pub record Target : Type 0 where
  pub organization_id : String
  pub screen_id : String
  pub location_id : Option String
  pub screen_group_ids : List String

-- `epoch` is `none` where the number is negative or not an integer.
pub record Input : Type 0 where
  pub organization_id : String
  pub actor_user_id : String
  pub membership_id : String
  pub role : Claimed Role
  pub authorization_epoch : Option ℕ
  pub capability : Claimed Capability
  pub evaluated_at : String
  pub grants : List Grant
  pub targets : List Target

pub record NormalizedGrant : Type 0 where
  pub id : String
  pub subject_membership_id : String
  pub scope_type : ScopeType
  pub scope_id : Option String
  pub starts_at : String
  pub expires_at : Option String

pub record NormalizedTarget : Type 0 where
  pub screen_id : String
  pub location_id : Option String
  pub screen_group_ids : List String

-- What the digest is taken of; the field `policyVersion` is constant.
pub record Evidence : Type 0 where
  pub organization_id : String
  pub actor_user_id : String
  pub membership_id : String
  pub role : Claimed Role
  pub authorization_epoch : Option ℕ
  pub capability : Claimed Capability
  pub targets : List NormalizedTarget
  pub grants : List NormalizedGrant
  pub result : Reason

pub record Decision : Type 0 where
  pub is_allowed : Bool
  pub reason : Reason
  pub matching_grant_ids : List String
  pub evidence_digest : String

pub record Platform : Type 0 where
  pub locale_le : String → String → Bool
  pub text_le : String → String → Bool
  pub parse_instant : String → Option ℕ
  pub digest : Evidence → String
