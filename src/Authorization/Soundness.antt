-- ===== src/Authorization/Soundness.antt =====
-- apps/api/src/authorization/scoped.ts: an action that is allowed is covered by live grants.
use Prim.Native.String.{String}
use mathlib.Core.List.{Memᴰ}
use screen_goblin.Prelude.{
  ℕ, ◌<◌, ◌≡◌, ap, subst, ◌∙◌, ◌⊎◌, inl, inr, Bool, true, false, some, List, [], ◌∷◌, All, length,
  arith, Option-cases,
}
use screen_goblin.Prelude.Sorting.{sort, sort-All, sort-Mem, length-sort}
use screen_goblin.Authorization.Policy.{Capability, known, holds, has_capability}
use screen_goblin.Prelude.Texts.{unique}
use screen_goblin.Authorization.Context.{IsValidContext, context_sound}
use screen_goblin.Authorization.Scoped.{
  is_invalid_context, grant_ids, decision, normalize_target, normalize_loop, normalize_targets,
  find_grant, select_grants, is_organization, decide_scope, sorted_active, evaluate_valid,
  evaluate_scoped_authorization, organization_scoped, target_scoped,
}
use screen_goblin.Authorization.Records.{
  ScopeType, organization, Grant, Target, Input, NormalizedGrant, NormalizedTarget, Platform,
}
use screen_goblin.Authorization.Grants.{
  Permits, Covers, Chosen, find_grant_sound, select_grants_sound, active_grants_origin,
  active_grant_sound, Covers-sound, normalize_loop_All,
}

decide_scope_inversion :
    (p : Platform) (i : Input) (c : Capability) (ts : List NormalizedTarget)
    (active : List NormalizedGrant)
    → (decide_scope p i c ts active).is_allowed ≡ true
    → ((holds organization_scoped c ≡ true)
        × (length ts ≡ 0)
        × ((g : NormalizedGrant) × (find_grant (λ h. is_organization h.scope_type) active
              ≡ some g)))
      ⊎ ((holds target_scoped c ≡ true)
          × (0 < length ts)
          × ((gs : List NormalizedGrant) × (select_grants active ts ≡ some gs)))
unfolding decide_scope decision
decide_scope_inversion p i c ts active h = ground arith

evaluate_valid_inversion :
    (p : Platform) (i : Input) (now : ℕ) (ts : List NormalizedTarget)
    → (evaluate_valid p i now ts).is_allowed ≡ true
    → (c : Capability) × (i.capability ≡ known c)
      × (has_capability i.role (known c) ≡ true)
      × (length (unique [] (grant_ids (sorted_active p i now))) ≡ length (sorted_active p i now))
      × ((decide_scope p i c ts (sorted_active p i now)).is_allowed ≡ true)
unfolding evaluate_valid decision
evaluate_valid_inversion p i now ts h = ground arith

evaluate_inversion :
    (p : Platform) (i : Input)
    → (evaluate_scoped_authorization p i).is_allowed ≡ true
    → (ts : List NormalizedTarget) × (now : ℕ) × (normalize_targets p i.organization_id i.targets
        ≡ some ts)
      × (p.parse_instant i.evaluated_at ≡ some now)
      × (is_invalid_context i ≡ false)
      × ((evaluate_valid p i now ts).is_allowed ≡ true)
unfolding evaluate_scoped_authorization decision
evaluate_inversion p i h = ground arith

-- What allows an action on a screen: a live grant of the actor that reaches it.
abbrev pub Allows : Platform → Input → Capability → ℕ → Target → Type 0
Allows p i c now t = (g : Grant) × Memᴰ g i.grants × Permits p i c now g × Covers g t

organization_only : (s : ScopeType) → is_organization s ≡ true → s ≡ organization
organization_only s h = ground arith

-- A chosen grant comes from a live grant of the input.
Chosen-sound :
    (p : Platform) (i : Input) (c : Capability) (now : ℕ) (t : Target)
    → i.capability ≡ known c
    → Chosen (sorted_active p i now) (normalize_target p t)
    → Allows p i c now t
unfolding sorted_active
Chosen-sound p i c now t k (n, m, h) =
    let (g, from, e) =
      active_grants_origin p i.grants i now n (sort-Mem (λ a b. p.locale_le a.id b.id) n _ m) in
    let (permits, scope, id, form) = active_grant_sound p i c now g n k e in
    (g, from, permits, Covers-sound p g t n.scope_type n.scope_id scope id h form)

organization_sound :
    (p : Platform) (i : Input) (c : Capability) (now : ℕ) (n : NormalizedGrant)
    → i.capability ≡ known c
    → find_grant (λ h. is_organization h.scope_type) (sorted_active p i now) ≡ some n
    → (g : Grant) × Memᴰ g i.grants × Permits p i c now g × (g.scope_type ≡ some organization)
unfolding sorted_active
organization_sound p i c now n k e =
    let (m, h) = find_grant_sound (λ h. is_organization h.scope_type) (sorted_active p i now) n e in
    let (g, from, a) =
      active_grants_origin p i.grants i now n (sort-Mem (λ a b. p.locale_le a.id b.id) n _ m) in
    let (permits, scope, id, form) = active_grant_sound p i c now g n k a in
    (g, from, permits, scope ∙ ap some (organization_only n.scope_type h))

All-map {ℓ κ μ} :
    {A : Type ℓ} (P : A → Type κ) (Q : A → Type μ) (xs : List A)
    → ((a : A) → P a → Q a)
    → All P xs
    → All Q xs
All-map P Q [] f h = tt
All-map P Q (x ∷ xs) f h = (f x h.0, All-map P Q xs f h.1)

normalize_targets_All {κ} :
    (P : NormalizedTarget → Type κ) (p : Platform) (org : String) (ts : List Target)
    (ns : List NormalizedTarget)
    → normalize_targets p org ts ≡ some ns
    → All P ns
    → All (λ t. (t.organization_id ≡ org) × P (normalize_target p t)) ts
unfolding normalize_targets
normalize_targets_All P p org ts ns e a = elim (Option-cases (normalize_loop p org [] ts)) [
  | inl n ↦ absurd (ground arith)
  | inr (ms, k) ↦
      let le : NormalizedTarget → NormalizedTarget → Bool =
        λ x y. p.locale_le x.screen_id y.screen_id in
      let whole : ns ≡ sort le ms = ground arith in
      normalize_loop_All P p org [] ts ms k (sort-All P le ms (subst (All P) whole a))
]

normalize_loop-length :
    (p : Platform) (org : String) (seen : List String) (ts : List Target)
    (ns : List NormalizedTarget)
    → normalize_loop p org seen ts ≡ some ns
    → length ns ≡ length ts
unfolding normalize_loop
normalize_loop-length p org seen [] ns e = ground arith
normalize_loop-length p org seen (t ∷ ts) ns e =
    elim (Option-cases (normalize_loop p org (t.screen_id ∷ seen) ts)) [
      | inl n ↦ absurd (ground arith)
      | inr (ms, k) ↦ ground (arith, normalize_loop-length p org (t.screen_id ∷ seen) ts ms k)
    ]

normalize_targets-length :
    (p : Platform) (org : String) (ts : List Target) (ns : List NormalizedTarget)
    → normalize_targets p org ts ≡ some ns
    → length ns ≡ length ts
unfolding normalize_targets
normalize_targets-length p org ts ns e = elim (Option-cases (normalize_loop p org [] ts)) [
  | inl n ↦ absurd (ground arith)
  | inr (ms, k) ↦
      let le : NormalizedTarget → NormalizedTarget → Bool =
        λ x y. p.locale_le x.screen_id y.screen_id in
      ground (arith, length-sort le ms, normalize_loop-length p org [] ts ms k)
]

-- An action is allowed only for a capability that the role has, at an instant that can be read, and
-- in a valid context: the tenant, the actor and the membership are named, the epoch is a safe
-- integer, the targets are named screens that differ, and the active grants have identifiers that
-- differ. For a capability of the organization there are no target screens, and the actor holds a
-- live grant for the whole organization. For any other capability there is a target, every target
-- is the tenant's, and for each of them the actor holds a live grant of that capability that
-- reaches it.
pub evaluate_sound :
    (p : Platform) (i : Input)
    → (evaluate_scoped_authorization p i).is_allowed ≡ true
    → (c : Capability) × (now : ℕ) × (i.capability ≡ known c)
      × (p.parse_instant i.evaluated_at ≡ some now)
      × IsValidContext p i now
      × (has_capability i.role (known c) ≡ true)
      × (((holds organization_scoped c ≡ true)
            × (length i.targets ≡ 0)
            × ((g : Grant) × Memᴰ g i.grants
                × Permits p i c now g
                × (g.scope_type ≡ some organization)))
          ⊎ ((holds target_scoped c ≡ true)
              × (0 < length i.targets)
              × All (λ t. (t.organization_id ≡ i.organization_id) × Allows p i c now t) i.targets))
evaluate_sound p i h =
    let (ts, now, norm, at, fine, valid) = evaluate_inversion p i h in
    let (c, k, role, apart, scoped) = evaluate_valid_inversion p i now ts valid in
    let size = normalize_targets-length p i.organization_id i.targets ts norm in
    (
      c,
      now,
      k,
      at,
      context_sound p i now ts norm fine apart,
      role,
      elim (decide_scope_inversion p i c ts (sorted_active p i now) scoped) [
        | inl (whole, empty, (n, found)) ↦
            inl (whole, omega arith, organization_sound p i c now n k found)
        | inr (narrow, some_target, (gs, selected)) ↦ inr (
          narrow,
          omega arith,
          All-map _ _ i.targets (λ t (org, chosen). (org, Chosen-sound p i c now t k chosen))
              (normalize_targets_All (Chosen (sorted_active p i now)) p i.organization_id i.targets
                ts norm (select_grants_sound (sorted_active p i now) ts gs selected)),
        )
      ],
    )
