-- ===== src/Authorization/Scenarios.antt =====
-- Decisions of apps/api/src/authorization on one publisher.
use text.Mathlib.Text.{◌==◌ as str_eq}
use mathlib.Core.List.{Memᴰ}
use screen_goblin.Prelude.{
  ℕ, ◌<◌, ◌≡◌, ◌↔◌, ◌⊎◌, refl, true, false, none, some, [], ◌∷◌, All, length, arith, if◌then◌else◌,
}
use screen_goblin.Prelude.Texts.{includes, unique}
use screen_goblin.Prelude.Sorting.{sort, insert}
use screen_goblin.Authorization.Policy.{
  Capability, known, owner, publisher, viewer, emergency_activate, emergency_clear,
  authorization_manage, release_publish, screen_read, holds, has_capability, has_capability_mono,
  has_capability_limits,
}
use screen_goblin.Authorization.Scoped.{
  organization_scoped, target_scoped, evaluate_scoped_authorization, normalize_targets,
  normalize_loop, evaluate_valid, sorted_active, active_grants, active_grant, is_foreign,
  is_current, decide_scope, select_grants, find_grant, decision, has_blank, grant_ids,
}
use screen_goblin.Authorization.Records.{Grant, Target, Input, Platform, organization, screen}
use screen_goblin.Authorization.Grants.{Permits}
use screen_goblin.Authorization.Context.{IsValidContext}
use screen_goblin.Authorization.Soundness.{Allows, evaluate_sound}

viewer_reads : has_capability (known viewer) (known screen_read) ≡ true
unfolding has_capability holds
viewer_reads = refl

has_capability_mono_example : has_capability (known publisher) (known screen_read) ≡ true
has_capability_mono_example =
    has_capability_mono viewer publisher (known screen_read) (omega arith) viewer_reads

has_capability_limits_example :
    (has_capability (known owner) (known emergency_activate) ≡ false)
    × (has_capability (known owner) (known emergency_clear) ≡ false)
    × ((has_capability (known owner) (known authorization_manage) ≡ true) ↔ (owner ≡ owner))
has_capability_limits_example = has_capability_limits owner

abbrev platform : Platform
platform = record {
  locale_le = λ a b. true;
  text_le = λ a b. true;
  parse_instant =
      λ s. if str_eq s "noon" then some 1000 else if str_eq s "dawn" then some 10 else none;
  digest = λ e. "digest";
}

abbrev lobby_grant : Grant
lobby_grant = record {
  id = "g1";
  organization_id = "org";
  subject_user_id = "ann";
  subject_membership_id = "m1";
  capability = release_publish;
  scope_type = some screen;
  scope_id = some "lobby";
  starts_at = "dawn";
  expires_at = none;
  revoked_at = none;
}

abbrev lobby : Target
lobby = record {
  organization_id = "org";
  screen_id = "lobby";
  location_id = none;
  screen_group_ids = [];
}

abbrev publishing : Input
publishing = record {
  organization_id = "org";
  actor_user_id = "ann";
  membership_id = "m1";
  role = known publisher;
  authorization_epoch = some 3;
  capability = known release_publish;
  evaluated_at = "noon";
  grants = lobby_grant ∷ [];
  targets = lobby ∷ [];
}

is_published : (evaluate_scoped_authorization platform publishing).is_allowed ≡ true
unfolding evaluate_scoped_authorization normalize_targets normalize_loop evaluate_valid
    sorted_active active_grants active_grant is_foreign is_current decide_scope select_grants
    find_grant decision has_blank grant_ids has_capability holds sort insert unique includes
is_published = refl

evaluate_sound_example :
    (c : Capability) × (now : ℕ) × (publishing.capability ≡ known c)
    × (platform.parse_instant publishing.evaluated_at ≡ some now)
    × IsValidContext platform publishing now
    × (has_capability publishing.role (known c) ≡ true)
    × (((holds organization_scoped c ≡ true)
          × (length publishing.targets ≡ 0)
          × ((g : Grant) × Memᴰ g publishing.grants
              × Permits platform publishing c now g
              × (g.scope_type ≡ some organization)))
        ⊎ ((holds target_scoped c ≡ true)
            × (0 < length publishing.targets)
            × All
                (λ t.
                  (t.organization_id ≡ publishing.organization_id)
                  × Allows platform publishing c now t)
                publishing.targets))
evaluate_sound_example = evaluate_sound platform publishing is_published
