-- ===== src/Store/Identity/Continuity.antt =====
-- apps/api/src/store/memory.ts: calls of the identity operations, one after another.
use Prim.Native.String.{String}
use screen_goblin.Prelude.{
  ℕ, suc, ◌≡◌, refl, sym, ap, ◌∙◌, ◌⊎◌, inl, inr, Bool, true, false, not, ◌&&◌, none, some, List,
  [], ◌∷◌, if◌then◌else◌, arith, Bool-cases, Option-cases, subst,
}
use screen_goblin.Prelude.Search.{
  find, filter, update_if, any_complete, Mem_filter, filter_Mem, update_if_Mem,
}
use screen_goblin.Authorization.Policy.{Role}
use screen_goblin.Store.Records.{User, UserSession}
use screen_goblin.Store.Identity.{
  IdentityStore, SystemAudit, UserAudit, SessionInput, is_owner, is_active, is_member,
  create_user_session, open_session, revoke_user_session, is_live_session,
}
use screen_goblin.Store.Identity.Bootstrap.{
  RotationInput, rotate_bootstrap_password, rotate_found, is_rotation, is_rotation_refused,
}
use screen_goblin.Store.Identity.Mutations.{
  is_user, has_other_active_owner, disable_user, rotate_user_password, change_membership_role,
  remove_membership, revoke_pending_issuer_grants,
}
use screen_goblin.Store.Identity.Owners.{
  has_owner, is_owner_of, IsKeyed, owners_kept, survivor, stays, disable_keeps, disable_users,
  role_users, removed_users, rotated_users,
}

-- A call of the store that writes users or sessions. `key` is the entity of the audit event.
pub data Call : Type 0 where
  opens : (id org : String) (i : SessionInput) (audit : UserAudit) → Call
  closes : (user_id org token : String) (audit : UserAudit) → Call
  bootstraps : (user_id org : String) (i : RotationInput) (audit : UserAudit) → Call
  rotates : (approved : Bool) (user_id hash : String) (audit : SystemAudit) → Call
  disables : (user_id : String) (audit : SystemAudit) → Call
  changes : (org user_id key : String) (role : Role) (audit : SystemAudit) → Call
  removes : (org user_id key : String) (audit : SystemAudit) → Call

module _ (text_le : String → String → Bool) where
  -- The store after a call at a time.
  unfoldable pub apply : ℕ → Call → IdentityStore → IdentityStore
  apply now (opens id org i audit) s = (create_user_session id org now i audit s).0
  apply now (closes user_id org token audit) s =
      (revoke_user_session user_id org token now audit s).0
  apply now (bootstraps user_id org i audit) s =
      (rotate_bootstrap_password text_le user_id org now i audit s).0
  apply now (rotates approved user_id hash audit) s =
      (rotate_user_password text_le approved user_id hash now audit s).0
  apply now (disables user_id audit) s = (disable_user text_le user_id now audit s).0
  apply now (changes org user_id key role audit) s =
      (change_membership_role org user_id key role now audit s).0
  apply now (removes org user_id key audit) s = (remove_membership org user_id key now audit s).0

  unfoldable pub apply_all : List (ℕ × Call) → IdentityStore → IdentityStore
  apply_all [] s = s
  apply_all ((now, c) ∷ cs) s = apply_all cs (apply now c s)

opened_users :
    (id org : String) (now : ℕ) (i : SessionInput) (audit : UserAudit) (s : IdentityStore)
    → (create_user_session id org now i audit s).0.users ≡ s.users
unfolding create_user_session open_session
opened_users id org now i audit s = ground arith

closed_users :
    (user_id org token : String) (now : ℕ) (audit : UserAudit) (s : IdentityStore)
    → (revoke_user_session user_id org token now audit s).0.users ≡ s.users
unfolding revoke_user_session
closed_users user_id org token now audit s = ground arith

bootstrapped_users :
    (text_le : String → String → Bool) (user_id org : String) (now : ℕ) (i : RotationInput)
    (audit : UserAudit) (s : IdentityStore)
    → ((rotate_bootstrap_password text_le user_id org now i audit s).0.users ≡ s.users)
      ⊎ ((epoch : ℕ) × ((rotate_bootstrap_password text_le user_id org now i audit s).0.users
            ≡ update_if
                (is_user user_id)
                (λ (v : User). record v {
                  bootstrap_password_expires_at = none;
                  password_hash = i.password_hash;
                  authentication_epoch = epoch;
                })
                s.users))
unfolding rotate_bootstrap_password rotate_found revoke_pending_issuer_grants
bootstrapped_users text_le user_id org now i audit s = elim (Bool-cases i.approved) [
  | inr n ↦ inl (ground (arith, n))
  | inl a ↦ elim (Option-cases (find (is_member user_id org) s.users)) [
    | inl e ↦ inl (ground (arith, a, e))
    | inr (current, e) ↦
        elim (Option-cases (
          find
            (λ (c : UserSession).
              is_live_session user_id org i.token_hash now c && is_rotation c.purpose)
            s.user_sessions)) [
              | inl f ↦ inl (ground (arith, a, e, f))
              | inr (session, f) ↦
                  elim (Bool-cases (
                    is_rotation_refused user_id now i audit (filter (is_user user_id) s.users)
                      current session)) [
                        | inl r ↦ inl (ground (arith, a, e, f, r))
                        | inr g ↦ inr (suc current.authentication_epoch, ground (arith, a, e, f, g))
                      ]
            ]
  ]
]

changed-IsKeyed :
    (us : List User) (test : User → Bool) (change : User → User)
    → ((u : User) → ((change u).id ≡ u.id) × ((change u).organization_id ≡ u.organization_id))
    → IsKeyed us
    → IsKeyed (update_if test change us)
changed-IsKeyed us test change same keyed u v mu mv i o =
    let after : User → User = λ x. if test x then change x else x in
    let (x, mx, ex) = update_if_Mem test change us u mu in
    let (y, my, ey) = update_if_Mem test change us v mv in
    let ids : (z : User) → ((after z).id ≡ z.id) × ((after z).organization_id ≡ z.organization_id) =
      λ z. elim (Bool-cases (test z)) [ inl t ↦ rw t (same z) | inr n ↦ rw n (refl, refl) ] in
    let xy : x ≡ y =
      keyed x y mx my
        (sym (ids x).0
          ∙ sym (ap (λ (w : User). w.id) ex)
          ∙ i
          ∙ ap (λ (w : User). w.id) ey
          ∙ (ids y).0)
        (sym (ids x).1
          ∙ sym (ap (λ (w : User). w.organization_id) ex)
          ∙ o
          ∙ ap (λ (w : User). w.organization_id) ey
          ∙ (ids y).1) in
    ex ∙ ap after xy ∙ sym ey

-- Users with unique keys, of which an organization keeps its owner.
abbrev Carries : String → List User → List User → Type 0
Carries org us us' = IsKeyed us → has_owner org us ≡ true → IsKeyed us' × (has_owner org us' ≡ true)

role_carries :
    (org at user_id : String) (role : Role) (us : List User) (m : User)
    → find (is_member user_id at) us ≡ some m
    → (is_owner m.role
        && not (is_owner role)
        && is_active m
        && not (has_other_active_owner at user_id us))
      ≡ false
    → Carries org us (
        update_if
          (is_member user_id at)
          (λ (u : User). record u { role = role; authorization_epoch = suc u.authorization_epoch })
          us)
role_carries org at user_id role us m f safe keyed h =
    let change : User → User =
      λ u. record u { role = role; authorization_epoch = suc u.authorization_epoch } in
    (
      changed-IsKeyed us (is_member user_id at) change (λ u. (refl, refl)) keyed,
      elim (Bool-cases (is_owner role)) [
        | inl o ↦ owners_kept org us (is_member user_id at) change (λ u k. ground (arith, k, o)) h
        | inr n ↦
            let (v, mv, ov, nv) =
              survivor org at user_id us m keyed f (ground (arith, safe, n)) h in
            stays org us (is_member user_id at) change v mv ov nv
      ],
    )

removal_carries :
    (org at user_id : String) (us : List User) (m : User)
    → find (is_member user_id at) us ≡ some m
    → (is_owner m.role && is_active m && not (has_other_active_owner at user_id us)) ≡ false
    → Carries org us (filter (λ (u : User). not (is_member user_id at u)) us)
removal_carries org at user_id us m f safe keyed h =
    let others : User → Bool = λ u. not (is_member user_id at u) in
    let (v, mv, ov, nv) = survivor org at user_id us m keyed f safe h in
    (
      λ u w mu mw. keyed u w (filter_Mem others us u mu).0 (filter_Mem others us w mw).0,
      any_complete (is_owner_of org) v (filter others us)
          (Mem_filter others us v mv (ground (arith, nv))) ov,
    )

by : (org : String) (us us' vs : List User) → us' ≡ vs → Carries org us vs → Carries org us us'
by org us us' vs e c = subst (Carries org us) (sym e) c

apply_carries :
    (text_le : String → String → Bool) (org : String) (now : ℕ) (c : Call) (s : IdentityStore)
    → Carries org s.users (apply text_le now c s).users
unfolding apply
apply_carries text_le org now (opens id at i audit) s =
    by org s.users _ _ (opened_users id at now i audit s) (λ k h. (k, h))
apply_carries text_le org now (closes user_id at token audit) s =
    by org s.users _ _ (closed_users user_id at token now audit s) (λ k h. (k, h))
apply_carries text_le org now (bootstraps user_id at i audit) s =
    elim (bootstrapped_users text_le user_id at now i audit s) [
      | inl e ↦ by org s.users _ _ e (λ k h. (k, h))
      | inr (epoch, e) ↦ by org s.users _ _ e (λ k h. (
        changed-IsKeyed s.users (is_user user_id) _ (λ u. (refl, refl)) k,
        owners_kept org s.users (is_user user_id) _ (λ u o. o) h,
      ))
    ]
apply_carries text_le org now (rotates approved user_id hash audit) s =
    elim (rotated_users text_le approved user_id hash now audit s) [
      | inl e ↦ by org s.users _ _ e (λ k h. (k, h))
      | inr (epoch, e) ↦ by org s.users _ _ e (λ k h. (
        changed-IsKeyed s.users (is_user user_id) _ (λ u. (refl, refl)) k,
        owners_kept org s.users (is_user user_id) _ (λ u o. o) h,
      ))
    ]
apply_carries text_le org now (disables user_id audit) s =
    elim (disable_users text_le user_id now audit s) [
      | inl e ↦ by org s.users _ _ e (λ k h. (k, h))
      | inr (safe, (epoch, e)) ↦ by org s.users _ _ e (λ k h. (
        changed-IsKeyed s.users (is_user user_id) _ (λ u. (refl, refl)) k,
        disable_keeps org user_id s.users _ safe h,
      ))
    ]
apply_carries text_le org now (changes at user_id key role audit) s =
    elim (role_users at user_id key role now audit s) [
      | inl e ↦ by org s.users _ _ e (λ k h. (k, h))
      | inr (m, f, safe, e) ↦
          by org s.users _ _ e (role_carries org at user_id role s.users m f safe)
    ]
apply_carries text_le org now (removes at user_id key audit) s =
    elim (removed_users at user_id key now audit s) [
      | inl e ↦ by org s.users _ _ e (λ k h. (k, h))
      | inr (m, f, safe, e) ↦ by org s.users _ _ e (removal_carries org at user_id s.users m f safe)
    ]

-- Where no two memberships share user and organization, an organization with an active owner
-- keeps one through any calls of the identity and session operations.
pub apply_all_owner :
    (text_le : String → String → Bool) (org : String) (cs : List (ℕ × Call)) (s : IdentityStore)
    → IsKeyed s.users
    → has_owner org s.users ≡ true
    → has_owner org (apply_all text_le cs s).users ≡ true
unfolding apply_all
apply_all_owner text_le org [] s k h = h
apply_all_owner text_le org ((now, c) ∷ cs) s k h =
    let (k', h') = apply_carries text_le org now c s k h in
    apply_all_owner text_le org cs (apply text_le now c s) k' h'
