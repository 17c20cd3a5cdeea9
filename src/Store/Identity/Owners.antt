-- ===== src/Store/Identity/Owners.antt =====
-- apps/api/src/store/memory.ts: the active owners of an organization under the identity operations.
use Prim.Native.String.{String}
use text.Mathlib.Text.{◌==◌ as str_eq}
use text.Mathlib.TextEquality.{eq_iff}
use mathlib.Core.List.{Memᴰ}
use screen_goblin.Prelude.{
  ℕ, suc, ◌≡◌, sym, ◌∙◌, ◌⊎◌, inl, inr, Bool, true, false, not, ◌&&◌, some, List, arith, Bool-cases,
  Option-cases, subst,
}
use screen_goblin.Prelude.Search.{
  any, find, filter, update_if, any_sound, any_complete, any_none_sound, find_sound, Mem_filter,
  Mem_unchanged, Mem_changed,
}
use screen_goblin.Authorization.Policy.{Role}
use screen_goblin.Store.Records.{User}
use screen_goblin.Store.Identity.{IdentityStore, SystemAudit, is_owner, is_active, is_member}
use screen_goblin.Store.Identity.Mutations.{
  is_user, common_epoch, has_other_active_owner, is_last_owner, reauthenticate,
  revoke_pending_issuer_grants, disable_user, rotate_user_password, change_membership_role,
  remove_membership,
}

-- An active owner of the organization.
abbrev pub is_owner_of : String → User → Bool
is_owner_of org u = str_eq u.organization_id org && is_owner u.role && is_active u

abbrev pub has_owner : String → List User → Bool
has_owner org us = any (is_owner_of org) us

-- There is another active owner, so the organization keeps one through a change of the user.
other_stays :
    (org user_id : String) (us : List User) (test : User → Bool)
    → has_other_active_owner org user_id us ≡ true
    → ((u : User) → test u ≡ true → is_user user_id u ≡ true)
    → (v : User) × Memᴰ v us × (is_owner_of org v ≡ true) × (test v ≡ false)
unfolding has_other_active_owner
other_stays org user_id us test h only =
    let (v, m, t) = any_sound _ us h in
    (
      v,
      m,
      ground (arith, t),
      elim (Bool-cases (test v)) [ inl e ↦ absurd (ground (arith, t, only v e)) | inr n ↦ n ],
    )

pub stays :
    (org : String) (us : List User) (test : User → Bool) (change : User → User) (v : User)
    → Memᴰ v us
    → is_owner_of org v ≡ true
    → test v ≡ false
    → has_owner org (update_if test change us) ≡ true
stays org us test change v m o n =
    any_complete (is_owner_of org) v (update_if test change us) (Mem_unchanged test change us v m n)
      o

pub disable_keeps :
    (org user_id : String) (us : List User) (change : User → User)
    → any (is_last_owner user_id us) (filter (is_user user_id) us) ≡ false
    → has_owner org us ≡ true
    → has_owner org (update_if (is_user user_id) change us) ≡ true
disable_keeps org user_id us change safe h =
    let (x, m, o) = any_sound (is_owner_of org) us h in
    elim (Bool-cases (is_user user_id x)) [
      | inr n ↦ stays org us (is_user user_id) change x m o n
      | inl e ↦
          let last =
            any_none_sound (is_last_owner user_id us) _ x safe
              (Mem_filter (is_user user_id) us x m e) in
          let same : x.organization_id ≡ org =
            (eq_iff x.organization_id org).0 (ground (arith, o)) in
          let other : has_other_active_owner x.organization_id user_id us ≡ true =
            ground (arith, last, o) in
          let (v, mv, ov, n) =
            other_stays x.organization_id user_id us (is_user user_id) other (λ u k. k) in
          stays org us (is_user user_id) change v mv (subst (λ q. is_owner_of q v ≡ true) same ov) n
    ]

pub disable_users :
    (text_le : String → String → Bool) (user_id : String) (now : ℕ) (audit : SystemAudit)
    (s : IdentityStore)
    → ((disable_user text_le user_id now audit s).0.users ≡ s.users)
      ⊎ ((any (is_last_owner user_id s.users) (filter (is_user user_id) s.users) ≡ false)
          × ((epoch : ℕ) × ((disable_user text_le user_id now audit s).0.users
                ≡ update_if
                    (is_user user_id)
                    (λ (u : User). record u {
                      authentication_epoch = suc epoch;
                      disabled_at = some now;
                    })
                    s.users)))
unfolding disable_user reauthenticate revoke_pending_issuer_grants
disable_users text_le user_id now audit s =
    elim (Bool-cases (audit.has_reason && audit.is_auditable)) [
      | inr n ↦ inl (ground (arith, n))
      | inl fine ↦ elim (Option-cases (common_epoch (filter (is_user user_id) s.users))) [
        | inl e ↦ inl (ground (arith, e))
        | inr (epoch, e) ↦
            elim (Bool-cases
              (any (is_last_owner user_id s.users) (filter (is_user user_id) s.users))) [
                | inl last ↦ inl (ground (arith, e, last))
                | inr safe ↦ inr (safe, (epoch, ground (arith, e, safe, fine)))
              ]
      ]
    ]

-- A membership is found by its user and its organization.
abbrev pub IsKeyed : List User → Type 0
IsKeyed us =
    (u v : User)
    → Memᴰ u us
    → Memᴰ v us
    → u.id ≡ v.id
    → u.organization_id ≡ v.organization_id
    → u ≡ v

-- The membership that is found is any one with its key.
found_is :
    (org user_id : String) (us : List User) (m x : User)
    → IsKeyed us
    → find (is_member user_id org) us ≡ some m
    → Memᴰ x us
    → is_member user_id org x ≡ true
    → x ≡ m
found_is org user_id us m x keyed f mx t =
    let (mm, tm) = find_sound (is_member user_id org) us m f in
    keyed x m mx mm
      ((eq_iff x.id user_id).0 (ground (arith, t))
        ∙ sym ((eq_iff m.id user_id).0 (ground (arith, tm))))
      ((eq_iff x.organization_id org).0 (ground (arith, t))
        ∙ sym ((eq_iff m.organization_id org).0 (ground (arith, tm))))

-- Of what is to be a change of a list of users that keeps the owners of an organization.
abbrev pub Keeps : String → List User → List User → Type 0
Keeps org us us' = has_owner org us ≡ true → has_owner org us' ≡ true

-- A change that leaves the owners what they are.
pub owners_kept :
    (org : String) (us : List User) (test : User → Bool) (change : User → User)
    → ((u : User) → is_owner_of org u ≡ true → is_owner_of org (change u) ≡ true)
    → Keeps org us (update_if test change us)
owners_kept org us test change keep h =
    let (x, m, o) = any_sound (is_owner_of org) us h in
    elim (Bool-cases (test x)) [
      | inr n ↦ stays org us test change x m o n
      | inl e ↦
          any_complete (is_owner_of org) (change x) (update_if test change us)
            (Mem_changed test change us x m e) (keep x o)
    ]

-- When one membership goes, and its organization has another active owner if it was one, an
-- owner of any organization is left that is not that membership.
pub survivor :
    (org at user_id : String) (us : List User) (m : User)
    → IsKeyed us
    → find (is_member user_id at) us ≡ some m
    → (is_owner m.role && is_active m && not (has_other_active_owner at user_id us)) ≡ false
    → has_owner org us ≡ true
    → (v : User) × Memᴰ v us × (is_owner_of org v ≡ true) × (is_member user_id at v ≡ false)
survivor org at user_id us m keyed f safe h =
    let (x, mx, o) = any_sound (is_owner_of org) us h in
    elim (Bool-cases (is_member user_id at x)) [
      | inr n ↦ (x, mx, o, n)
      | inl e ↦
          let xm : x ≡ m = found_is at user_id us m x keyed f mx e in
          let om : is_owner_of org m ≡ true = subst (λ u. is_owner_of org u ≡ true) xm o in
          let here : org ≡ at =
            sym ((eq_iff x.organization_id org).0 (ground (arith, o)))
            ∙ (eq_iff x.organization_id at).0 (ground (arith, e)) in
          let other : has_other_active_owner at user_id us ≡ true = ground (arith, safe, om) in
          let (v, mv, ov, n) =
            other_stays at user_id us (is_member user_id at) other (λ u k. ground (arith, k)) in
          (v, mv, subst (λ q. is_owner_of q v ≡ true) (sym here) ov, n)
    ]

pub role_users :
    (org user_id key : String) (role : Role) (now : ℕ) (audit : SystemAudit) (s : IdentityStore)
    → ((change_membership_role org user_id key role now audit s).0.users ≡ s.users)
      ⊎ ((m : User) × (find (is_member user_id org) s.users ≡ some m)
          × ((is_owner m.role
                && not (is_owner role)
                && is_active m
                && not (has_other_active_owner org user_id s.users))
              ≡ false)
          × ((change_membership_role org user_id key role now audit s).0.users
              ≡ update_if
                  (is_member user_id org)
                  (λ (u : User). record u {
                    role = role;
                    authorization_epoch = suc u.authorization_epoch;
                  })
                  s.users))
unfolding change_membership_role
role_users org user_id key role now audit s =
    elim (Option-cases (find (is_member user_id org) s.users)) [
      | inl e ↦ inl (ground (arith, e))
      | inr (m, e) ↦
          elim (Bool-cases (
            is_owner m.role
            && not (is_owner role)
            && is_active m
            && not (has_other_active_owner org user_id s.users))) [
              | inl last ↦ inl (ground (arith, e, last))
              | inr safe ↦ elim (Bool-cases (audit.has_reason && audit.is_auditable)) [
                | inr n ↦ inl (ground (arith, e, safe, n))
                | inl fine ↦ inr (m, e, safe, ground (arith, e, safe, fine))
              ]
            ]
    ]

pub removed_users :
    (org user_id key : String) (now : ℕ) (audit : SystemAudit) (s : IdentityStore)
    → ((remove_membership org user_id key now audit s).0.users ≡ s.users)
      ⊎ ((m : User) × (find (is_member user_id org) s.users ≡ some m)
          × ((is_owner m.role && is_active m && not (has_other_active_owner org user_id s.users))
              ≡ false)
          × ((remove_membership org user_id key now audit s).0.users
              ≡ filter (λ (u : User). not (is_member user_id org u)) s.users))
unfolding remove_membership
removed_users org user_id key now audit s =
    elim (Option-cases (find (is_member user_id org) s.users)) [
      | inl e ↦ inl (ground (arith, e))
      | inr (m, e) ↦
          elim (Bool-cases
            (is_owner m.role && is_active m && not (has_other_active_owner org user_id s.users))) [
              | inl last ↦ inl (ground (arith, e, last))
              | inr safe ↦ elim (Bool-cases (audit.has_reason && audit.is_auditable)) [
                | inr n ↦ inl (ground (arith, e, safe, n))
                | inl fine ↦ inr (m, e, safe, ground (arith, e, safe, fine))
              ]
            ]
    ]

pub rotated_users :
    (text_le : String → String → Bool) (approved : Bool) (user_id hash : String) (now : ℕ)
    (audit : SystemAudit) (s : IdentityStore)
    → ((rotate_user_password text_le approved user_id hash now audit s).0.users ≡ s.users)
      ⊎ ((epoch : ℕ) × ((rotate_user_password text_le approved user_id hash now audit s).0.users
            ≡ update_if
                (is_user user_id)
                (λ (u : User). record u { password_hash = hash; authentication_epoch = suc epoch })
                s.users))
unfolding rotate_user_password reauthenticate revoke_pending_issuer_grants
rotated_users text_le approved user_id hash now audit s =
    elim (Bool-cases (approved && audit.has_reason && audit.is_auditable)) [
      | inr n ↦ inl (ground (arith, n))
      | inl fine ↦ elim (Option-cases (common_epoch (filter (is_user user_id) s.users))) [
        | inl e ↦ inl (ground (arith, e))
        | inr (epoch, e) ↦ inr (epoch, ground (arith, e, fine))
      ]
    ]
