-- ===== src/Authorization/Scoped.antt =====
-- apps/api/src/authorization/scoped.ts: the decision on one action over concrete screens.
use Prim.Native.String.{String}
use text.Mathlib.Text.{◌==◌ as str_eq}
use screen_goblin.Prelude.{
  ℕ, Bool, true, false, not, ◌||◌, ◌&&◌, Option, none, some, List, [], ◌∷◌, if◌then◌else◌, leb, ltb,
  length, is_some, ◌==◌,
}
use screen_goblin.Prelude.Texts.{is_empty, includes, unique}
use screen_goblin.Prelude.Sorting.{sort}
use screen_goblin.Authorization.Policy.{
  Capability, Claimed, known, stray, same, holds, has_capability, authorization_manage, screen_read,
  location_read, media_read, playlist_read, schedule_read, release_candidate_read,
  release_candidate_create, release_candidate_submit, release_approve, release_publish,
  release_withdraw, screen_credential_revoke, screen_credential_reenroll,
}
use screen_goblin.Authorization.Records.{
  ScopeType, Reason, Grant, Target, Input, NormalizedGrant, NormalizedTarget, Decision, Platform,
  organization, location, screen_group, screen, allowed, invalid_context, unknown_capability,
  role_ceiling_denied, targets_required, organization_scope_required, scope_denied,
}

abbrev pub max_safe_integer : ℕ
max_safe_integer = 9007199254740991

abbrev pub is_epoch : Option ℕ → Bool
is_epoch none = false
is_epoch (some n) = leb n max_safe_integer

abbrev pub is_allowed : Reason → Bool
is_allowed allowed = true
is_allowed _ = false

abbrev pub target_scoped : List Capability
target_scoped =
    screen_read ∷ schedule_read ∷ release_candidate_read ∷ release_candidate_create
    ∷ release_candidate_submit ∷ release_approve ∷ release_publish ∷ release_withdraw
    ∷ screen_credential_revoke ∷ screen_credential_reenroll ∷ []

abbrev pub organization_scoped : List Capability
organization_scoped = location_read ∷ media_read ∷ playlist_read ∷ []

abbrev pub is_organization : ScopeType → Bool
is_organization organization = true
is_organization _ = false

-- `value != null && value.length === 0`.
abbrev pub is_blank : Option String → Bool
is_blank none = false
is_blank (some s) = is_empty s

unfoldable pub has_blank : List String → Bool
has_blank [] = false
has_blank (s ∷ ss) = is_empty s || has_blank ss

-- `value === other` for optional texts, the first one present.
abbrev pub is_text : Option String → Option String → Bool
is_text none other = false
is_text (some s) none = false
is_text (some s) (some t) = str_eq s t

abbrev pub text_or_empty : Option String → String
text_or_empty none = ""
text_or_empty (some s) = s

unfoldable pub grant_ids : List NormalizedGrant → List String
grant_ids [] = []
grant_ids (g ∷ gs) = g.id ∷ grant_ids gs

module _ (p : Platform) where
  unfoldable pub decision : Input → List NormalizedTarget → Reason → List NormalizedGrant → Decision
  decision i targets reason grants = record {
    is_allowed = is_allowed reason;
    reason = reason;
    matching_grant_ids = sort p.text_le (unique [] (grant_ids grants));
    evidence_digest = p.digest (record {
      organization_id = i.organization_id;
      actor_user_id = i.actor_user_id;
      membership_id = i.membership_id;
      role = i.role;
      authorization_epoch = i.authorization_epoch;
      capability = i.capability;
      targets = targets;
      grants = sort (λ a b. p.locale_le a.id b.id) grants;
      result = reason;
    });
  }

abbrev pub is_bad_target : String → List String → Target → Bool
is_bad_target org seen t =
    not (str_eq t.organization_id org)
    || is_empty t.screen_id
    || includes t.screen_id seen
    || is_blank t.location_id
    || has_blank t.screen_group_ids

module _ (p : Platform) where
  abbrev pub normalize_target : Target → NormalizedTarget
  normalize_target t = record {
    screen_id = t.screen_id;
    location_id = t.location_id;
    screen_group_ids = sort p.text_le (unique [] t.screen_group_ids);
  }

  -- The loop of `normalizeTargets`; `seen` holds the screens passed.
  unfoldable pub normalize_loop :
      String → List String → List Target → Option (List NormalizedTarget)
  normalize_loop org seen [] = some []
  normalize_loop org seen (t ∷ ts) =
      let rest = normalize_loop org (t.screen_id ∷ seen) ts in
      if is_bad_target org seen t
      then none
      else elim rest [ none ↦ none | some ns ↦ some (normalize_target t ∷ ns) ]

  unfoldable pub normalize_targets : String → List Target → Option (List NormalizedTarget)
  normalize_targets org ts = elim (normalize_loop org [] ts) [
    | none ↦ none
    | some ns ↦ some (sort (λ a b. p.locale_le a.screen_id b.screen_id) ns)
  ]

-- `grant.capability === input.capability`.
abbrev pub is_claimed : Capability → Claimed Capability → Bool
is_claimed c (known d) = same c d
is_claimed c (stray v) = false

-- The tests of `activeGrant` on identity, before its dates are read.
unfoldable pub is_foreign : Grant → Input → Bool
is_foreign g i =
    is_empty g.id
    || is_empty g.subject_membership_id
    || not (str_eq g.organization_id i.organization_id)
    || not (str_eq g.subject_user_id i.actor_user_id)
    || not (str_eq g.subject_membership_id i.membership_id)
    || not (is_claimed g.capability i.capability)
    || is_some g.revoked_at

module _ (p : Platform) where
  -- Whether the grant's dates are instants with `now` between them.
  unfoldable pub is_current : Grant → ℕ → Bool
  is_current g now = elim (p.parse_instant g.starts_at) [
    | none ↦ false
    | some starts ↦ leb starts now && elim g.expires_at [
      | none ↦ true
      | some e ↦ elim (p.parse_instant e) [ none ↦ false | some expires ↦ ltb now expires ]
    ]
  ]

-- An organization grant names nothing, and any other names what it covers.
abbrev pub is_scope_form : ScopeType → Option String → Bool
is_scope_form organization none = true
is_scope_form organization (some s) = false
is_scope_form _ none = false
is_scope_form _ (some s) = not (is_empty s)

module _ (p : Platform) where
  -- A canonical instant is its own canonical text.
  unfoldable pub active_grant : Grant → Input → ℕ → Option NormalizedGrant
  active_grant g i now = elim g.scope_type [
    | none ↦ none
    | some scope ↦
        if is_foreign g i || not (is_current p g now) || not (is_scope_form scope g.scope_id)
        then none
        else some (record {
          id = g.id;
          subject_membership_id = g.subject_membership_id;
          scope_type = scope;
          scope_id = g.scope_id;
          starts_at = g.starts_at;
          expires_at = g.expires_at;
        })
  ]

  unfoldable pub active_grants : List Grant → Input → ℕ → List NormalizedGrant
  active_grants [] i now = []
  active_grants (g ∷ gs) i now =
      let rest = active_grants gs i now in
      elim (active_grant g i now) [ none ↦ rest | some n ↦ n ∷ rest ]

abbrev pub covers_scope : ScopeType → Option String → NormalizedTarget → Bool
covers_scope organization scope t = true
covers_scope location scope t = is_text t.location_id scope
covers_scope screen_group scope t = includes (text_or_empty scope) t.screen_group_ids
covers_scope screen scope t = is_text (some t.screen_id) scope

abbrev pub covers_target : NormalizedGrant → NormalizedTarget → Bool
covers_target g t = covers_scope g.scope_type g.scope_id t

-- `active.find(test)`.
unfoldable pub find_grant : (NormalizedGrant → Bool) → List NormalizedGrant → Option NormalizedGrant
find_grant test [] = none
find_grant test (g ∷ gs) = if test g then some g else find_grant test gs

-- The loop over the targets: the first covering grant of each, or `none` where one has none.
unfoldable pub select_grants :
    List NormalizedGrant → List NormalizedTarget → Option (List NormalizedGrant)
select_grants active [] = some []
select_grants active (t ∷ ts) =
    let rest = select_grants active ts in
    elim (find_grant (λ g. covers_target g t) active) [
      | none ↦ none
      | some g ↦ elim rest [ none ↦ none | some gs ↦ some (g ∷ gs) ]
    ]

abbrev pub is_invalid_context : Input → Bool
is_invalid_context i =
    is_empty i.organization_id
    || is_empty i.actor_user_id
    || is_empty i.membership_id
    || not (is_epoch i.authorization_epoch)

module _ (p : Platform) where
  -- The decision for a capability that the role has, over the grants that are active.
  unfoldable pub decide_scope :
      Input → Capability → List NormalizedTarget → List NormalizedGrant → Decision
  decide_scope i c targets active =
      if same c authorization_manage
      then decision p i targets scope_denied []
      else if holds organization_scoped c
      then (if not (length targets == 0)
          then decision p i targets organization_scope_required []
          else elim (find_grant (λ g. is_organization g.scope_type) active) [
            | none ↦ decision p i targets scope_denied []
            | some g ↦ decision p i targets allowed (g ∷ [])
          ])
      else if not (holds target_scoped c)
      then decision p i targets role_ceiling_denied []
      else if length targets == 0
      then decision p i targets targets_required []
      else elim (select_grants active targets) [
        | none ↦ decision p i targets scope_denied []
        | some gs ↦ decision p i targets allowed gs
      ]

  unfoldable pub sorted_active : Input → ℕ → List NormalizedGrant
  sorted_active i now = sort (λ a b. p.locale_le a.id b.id) (active_grants p i.grants i now)

  -- The decision from a valid context on.
  unfoldable pub evaluate_valid : Input → ℕ → List NormalizedTarget → Decision
  evaluate_valid i now targets = elim i.capability [
    | stray v ↦ decision p i targets unknown_capability []
    | known c ↦
        let active = sorted_active i now in
        if not (has_capability i.role (known c))
        then decision p i targets role_ceiling_denied []
        else if not (length (unique [] (grant_ids active)) == length active)
        then decision p i targets invalid_context []
        else decide_scope i c targets active
  ]

  unfoldable pub evaluate_scoped_authorization : Input → Decision
  evaluate_scoped_authorization i = elim (normalize_targets p i.organization_id i.targets) [
    | none ↦ decision p i [] invalid_context []
    | some targets ↦ elim (p.parse_instant i.evaluated_at) [
      | none ↦ decision p i targets invalid_context []
      | some now ↦
          if is_invalid_context i
          then decision p i targets invalid_context []
          else evaluate_valid i now targets
    ]
  ]
