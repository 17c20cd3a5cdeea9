-- ===== src/Authorization/Grants.antt =====
-- apps/api/src/authorization/scoped.ts: what an active grant, a normalized target and a
-- selection come from, stated without the tests of the code.
use Prim.Native.String.{String}
use mathlib.Core.List.{Memᴰ}
use mathlib.Core.List.Memᴰ.{cases_cons, not-nil}
use screen_goblin.Prelude.{
  ℕ, ◌≤◌, ◌<◌, ◌≡◌, refl, sym, ap, subst, ◌∙◌, ◌⊎◌, inl, inr, Bool, true, false, Option, none, some,
  List, [], ◌∷◌, All, arith, Bool-cases, Option-cases,
}
use screen_goblin.Prelude.Texts.{unique, same→eq, includes-Mem, unique-Mem}
use screen_goblin.Prelude.Sorting.{sort-Mem}
use screen_goblin.Authorization.Policy.{Capability, known, same}
use screen_goblin.Authorization.Scoped.{
  normalize_target, normalize_loop, is_foreign, is_current, is_scope_form, active_grant,
  active_grants, covers_scope, covers_target, find_grant, select_grants, is_text, is_bad_target,
}
use screen_goblin.Authorization.Records.{
  ScopeType, organization, location, screen_group, screen, Grant, Target, Input, NormalizedGrant,
  NormalizedTarget, Platform,
}

-- The grant is the actor's, in the tenant, for the capability, not revoked, begun, not over.
pub record Permits (p : Platform) (i : Input) (c : Capability) (now : ℕ) (g : Grant) : Type 0 where
  pub tenant : g.organization_id ≡ i.organization_id
  pub subject : g.subject_user_id ≡ i.actor_user_id
  pub membership : g.subject_membership_id ≡ i.membership_id
  pub purpose : g.capability ≡ c
  pub unrevoked : g.revoked_at ≡ none
  pub begun : (n : ℕ) × (p.parse_instant g.starts_at ≡ some n) × (n ≤ now)
  pub unexpired :
      (g.expires_at ≡ none)
      ⊎ ((e : String) × (n : ℕ) × (g.expires_at ≡ some e)
          × (p.parse_instant e ≡ some n)
          × (now < n))

-- How a grant reaches a screen.
pub data Covers (g : Grant) (t : Target) : Type 0 where
  everywhere : g.scope_type ≡ some organization → Covers g t
  at_location :
      (l : String)
      → g.scope_type ≡ some location
      → g.scope_id ≡ some l
      → t.location_id ≡ some l
      → Covers g t
  in_group :
      (s : String)
      → g.scope_type ≡ some screen_group
      → g.scope_id ≡ some s
      → Memᴰ s t.screen_group_ids
      → Covers g t
  itself : g.scope_type ≡ some screen → g.scope_id ≡ some t.screen_id → Covers g t

pub same→≡ : (c d : Capability) → same c d ≡ true → c ≡ d
same→≡ c d h = ground arith

pub find_grant_sound :
    (test : NormalizedGrant → Bool) (gs : List NormalizedGrant) (g : NormalizedGrant)
    → find_grant test gs ≡ some g
    → Memᴰ g gs × (test g ≡ true)
unfolding find_grant
find_grant_sound test [] g e = cc
find_grant_sound test (x ∷ gs) g e = elim (Bool-cases (test x)) [
  | inl t ↦ (Memᴰ.head (ground arith), ground arith)
  | inr n ↦ let (m, h) = find_grant_sound test gs g (ground arith) in (Memᴰ.tail m, h)
]

-- An active grant that covers the screen.
abbrev pub Chosen : List NormalizedGrant → NormalizedTarget → Type 0
Chosen active t = (n : NormalizedGrant) × Memᴰ n active × (covers_target n t ≡ true)

pub select_grants_sound :
    (active : List NormalizedGrant) (ts : List NormalizedTarget) (gs : List NormalizedGrant)
    → select_grants active ts ≡ some gs
    → All (Chosen active) ts
unfolding select_grants
select_grants_sound active [] gs e = tt
select_grants_sound active (t ∷ ts) gs e =
    elim (Option-cases (find_grant (λ g. covers_target g t) active)) [
      | inl n ↦ absurd (ground arith)
      | inr (g, f) ↦ elim (Option-cases (select_grants active ts)) [
        | inl n ↦ absurd (ground arith)
        | inr (hs, k) ↦
            let (m, h) = find_grant_sound (λ g. covers_target g t) active g f in
            ((g, m, h), select_grants_sound active ts hs k)
      ]
    ]

pub active_grants_origin :
    (p : Platform) (gs : List Grant) (i : Input) (now : ℕ) (n : NormalizedGrant)
    → Memᴰ n (active_grants p gs i now)
    → (g : Grant) × Memᴰ g gs × (active_grant p g i now ≡ some n)
unfolding active_grants
active_grants_origin p [] i now n m = absurd (not-nil m)
active_grants_origin p (g ∷ gs) i now n m =
    let later : Memᴰ n (active_grants p gs i now)
        → (g' : Grant) × Memᴰ g' (g ∷ gs) × (active_grant p g' i now ≡ some n) =
      λ r. let (g', k, e) = active_grants_origin p gs i now n r in (g', Memᴰ.tail k, e) in
    (elim (active_grant p g i now)
        as (λ o.
          active_grant p g i now ≡ o
          → Memᴰ n
              (elim o [ none ↦ active_grants p gs i now | some k ↦ k ∷ active_grants p gs i now ])
          → (g' : Grant) × Memᴰ g' (g ∷ gs) × (active_grant p g' i now ≡ some n)) [
            | none ↦ λ e k. later k
            | some k ↦ λ e q. elim (cases_cons q) [
              | inl h ↦ (g, Memᴰ.head refl, e ∙ ap some (sym h))
              | inr r ↦ later r
            ]
          ])
      refl m

pub is_current_sound :
    (p : Platform) (i : Input) (g : Grant) (now : ℕ)
    → is_current p g now ≡ true
    → ((n : ℕ) × (p.parse_instant g.starts_at ≡ some n) × (n ≤ now))
      × ((g.expires_at ≡ none)
          ⊎ ((e : String) × (n : ℕ) × (g.expires_at ≡ some e)
              × (p.parse_instant e ≡ some n)
              × (now < n)))
unfolding is_current
is_current_sound p i g now h = ground arith

pub normalize_loop_All {κ} :
    (P : NormalizedTarget → Type κ) (p : Platform) (org : String) (seen : List String)
    (ts : List Target) (ns : List NormalizedTarget)
    → normalize_loop p org seen ts ≡ some ns
    → All P ns
    → All (λ t. (t.organization_id ≡ org) × P (normalize_target p t)) ts
unfolding normalize_loop
normalize_loop_All P p org seen [] ns e a = tt
normalize_loop_All P p org seen (t ∷ ts) ns e a =
    let rest = normalize_loop p org (t.screen_id ∷ seen) ts in
    elim (Bool-cases (is_bad_target org seen t)) [
      | inl bad ↦ absurd (ground arith)
      | inr fine ↦ elim (Option-cases rest) [
        | inl n ↦ absurd (ground arith)
        | inr (ms, k) ↦
            let whole : ns ≡ normalize_target p t ∷ ms = ground arith in
            let b = subst (All P) whole a in
            (
              (same→eq t.organization_id org (ground arith), b.0),
              normalize_loop_All P p org (t.screen_id ∷ seen) ts ms k b.1,
            )
      ]
    ]

-- The facts behind the tests on identity.
pub not-is_foreign :
    (g : Grant) (i : Input) (c : Capability)
    → is_foreign g i ≡ false
    → i.capability ≡ known c
    → (g.organization_id ≡ i.organization_id)
      × (g.subject_user_id ≡ i.actor_user_id)
      × (g.subject_membership_id ≡ i.membership_id)
      × (g.capability ≡ c)
      × (g.revoked_at ≡ none)
unfolding is_foreign
not-is_foreign g i c h k = (
  same→eq g.organization_id i.organization_id (ground arith),
  same→eq g.subject_user_id i.actor_user_id (ground arith),
  same→eq g.subject_membership_id i.membership_id (ground arith),
  same→≡ g.capability c (ground (arith, k)),
  ground arith,
)

active_grant_inversion :
    (p : Platform) (i : Input) (now : ℕ) (g : Grant) (n : NormalizedGrant)
    → active_grant p g i now ≡ some n
    → (is_foreign g i ≡ false)
      × (is_current p g now ≡ true)
      × (g.scope_type ≡ some n.scope_type)
      × (g.scope_id ≡ n.scope_id)
      × (is_scope_form n.scope_type n.scope_id ≡ true)
unfolding active_grant
active_grant_inversion p i now g n e = ground arith

-- An active grant permits the action, and keeps its scope.
pub active_grant_sound :
    (p : Platform) (i : Input) (c : Capability) (now : ℕ) (g : Grant) (n : NormalizedGrant)
    → i.capability ≡ known c
    → active_grant p g i now ≡ some n
    → Permits p i c now g
      × (g.scope_type ≡ some n.scope_type)
      × (g.scope_id ≡ n.scope_id)
      × (is_scope_form n.scope_type n.scope_id ≡ true)
active_grant_sound p i c now g n k e =
    let (foreign, current, scope, id, form) = active_grant_inversion p i now g n e in
    let (tenant, subject, membership, purpose, unrevoked) = not-is_foreign g i c foreign k in
    let (begun, unexpired) = is_current_sound p i g now current in
    (
      record {
        tenant = tenant;
        subject = subject;
        membership = membership;
        purpose = purpose;
        unrevoked = unrevoked;
        begun = begun;
        unexpired = unexpired;
      },
      scope,
      id,
      form,
    )

is_text_sound : (o : Option String) (s : String) → is_text o (some s) ≡ true → o ≡ some s
is_text_sound none s h = cc
is_text_sound (some t) s h = ap some (same→eq t s h)

-- A grant that covers the normalized screen reaches the screen.
pub Covers-sound :
    (p : Platform) (g : Grant) (t : Target) (scope : ScopeType) (id : Option String)
    → g.scope_type ≡ some scope
    → g.scope_id ≡ id
    → covers_scope scope id (normalize_target p t) ≡ true
    → is_scope_form scope id ≡ true
    → Covers g t
Covers-sound p g t organization id e k c f = everywhere e
Covers-sound p g t location none e k c f = cc
Covers-sound p g t location (some l) e k c f = at_location l e k (is_text_sound t.location_id l c)
Covers-sound p g t screen_group none e k c f = cc
Covers-sound p g t screen_group (some s) e k c f = in_group s e k (
    unique-Mem s [] t.screen_group_ids
      (sort-Mem p.text_le s (unique [] t.screen_group_ids) (includes-Mem s _ c)))
Covers-sound p g t screen none e k c f = cc
Covers-sound p g t screen (some s) e k c f = itself e (k ∙ ap some (sym (same→eq t.screen_id s c)))
