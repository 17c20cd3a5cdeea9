-- ===== src/Store/Identity/Sessions.antt =====
-- apps/api/src/store/memory.ts: which sessions are active.
use Prim.Native.String.{String}
use text.Mathlib.Text.{◌==◌ as str_eq}
use text.Mathlib.TextEquality.{eq_iff}
use mathlib.Core.List.{Memᴰ}
use screen_goblin.Prelude.{
  ℕ, ◌<◌, ◌≡◌, sym, ap, ◌∙◌, inl, inr, Bool, true, false, none, some, List, [], ◌∷◌, ◌++◌,
  if◌then◌else◌, arith, Bool-cases, Option-cases, subst, ltb, ◌==◌,
}
use screen_goblin.Prelude.Search.{
  any, find, filter, update_if, find_sound, find-none, filter_Mem, update_if_Mem, any_none_sound,
  find-append,
}
use screen_goblin.Authorization.Policy.{Role}
use screen_goblin.Store.Records.{User, UserSession, done}
use screen_goblin.Store.Identity.{
  IdentityStore, SystemAudit, UserAudit, SessionInput, is_member, is_open_of, is_open_in,
  is_live_session, revoke, active_user, fits_purpose, find_active_user_session, find_session_user,
  create_user_session, open_session, is_session_refused, is_wrong_purpose, new_session,
}
use screen_goblin.Store.Identity.Mutations.{
  rotate_user_password, reauthenticate, revoke_pending_issuer_grants, change_membership_role,
  reauthorize,
}

-- Without a live session there is no active user.
signed_out :
    (user_id org token : String) (now : ℕ) (s : IdentityStore)
    → ((c : UserSession) → Memᴰ c s.user_sessions → is_live_session user_id org token now c ≡ false)
    → find_active_user_session user_id org token now s ≡ none
unfolding find_active_user_session active_user
signed_out user_id org token now s h = rw (find-none _ s.user_sessions h)

-- What is revoked is not live; what is not revoked was not of the kind that is revoked.
revoked_dead :
    (user_id org token : String) (now later : ℕ) (test : UserSession → Bool) (c : UserSession)
    → (is_live_session user_id org token later c ≡ true → test c ≡ true)
    → is_live_session user_id org token later (if test c then revoke now c else c) ≡ false
revoked_dead user_id org token now later test c covers = elim (Bool-cases (test c)) [
  | inl e ↦ rw e (ground arith)
  | inr n ↦ elim (Bool-cases (is_live_session user_id org token later c)) [
    | inl l ↦ absurd (ground (arith, n, covers l))
    | inr d ↦ rw n d
  ]
]

rotated_sessions :
    (text_le : String → String → Bool) (approved : Bool) (user_id hash : String) (now : ℕ)
    (audit : SystemAudit) (s : IdentityStore) (orgs : List String)
    → (rotate_user_password text_le approved user_id hash now audit s).1 ≡ done orgs
    → (rotate_user_password text_le approved user_id hash now audit s).0.user_sessions
      ≡ update_if (is_open_of user_id) (revoke now) s.user_sessions
unfolding rotate_user_password reauthenticate revoke_pending_issuer_grants
rotated_sessions text_le approved user_id hash now audit s orgs h = ground arith

-- After a password rotation that succeeds, no session of the user is active, whatever the
-- organization, the token and the time.
pub rotate_signs_out :
    (text_le : String → String → Bool) (approved : Bool) (user_id hash : String) (now : ℕ)
    (audit : SystemAudit) (s : IdentityStore) (orgs : List String) (org token : String) (later : ℕ)
    → (rotate_user_password text_le approved user_id hash now audit s).1 ≡ done orgs
    → find_active_user_session user_id org token later
        (rotate_user_password text_le approved user_id hash now audit s).0
      ≡ none
rotate_signs_out text_le approved user_id hash now audit s orgs org token later h =
    signed_out user_id org token later _ (λ c m.
      let m' : Memᴰ c (update_if (is_open_of user_id) (revoke now) s.user_sessions) =
        subst (Memᴰ c) (rotated_sessions text_le approved user_id hash now audit s orgs h) m in
      let (d, n, e) = update_if_Mem (is_open_of user_id) (revoke now) s.user_sessions c m' in
      ap (is_live_session user_id org token later) e
      ∙ revoked_dead user_id org token now later (is_open_of user_id) d (λ l. ground (arith, l)))

changed_sessions :
    (org user_id key : String) (role : Role) (now : ℕ) (audit : SystemAudit) (s : IdentityStore)
    → (change_membership_role org user_id key role now audit s).1 ≡ done tt
    → (change_membership_role org user_id key role now audit s).0.user_sessions
      ≡ update_if (is_open_in user_id org) (revoke now) s.user_sessions
unfolding change_membership_role reauthorize revoke_pending_issuer_grants
changed_sessions org user_id key role now audit s h = ground arith

-- After a change of role that succeeds, no session of the user in the organization is active.
pub change_signs_out :
    (org user_id key : String) (role : Role) (now : ℕ) (audit : SystemAudit) (s : IdentityStore)
    (token : String) (later : ℕ)
    → (change_membership_role org user_id key role now audit s).1 ≡ done tt
    → find_active_user_session user_id org token later
        (change_membership_role org user_id key role now audit s).0
      ≡ none
change_signs_out org user_id key role now audit s token later h =
    signed_out user_id org token later _ (λ c m.
      let m' : Memᴰ c (update_if (is_open_in user_id org) (revoke now) s.user_sessions) =
        subst (Memᴰ c) (changed_sessions org user_id key role now audit s h) m in
      let (d, n, e) = update_if_Mem (is_open_in user_id org) (revoke now) s.user_sessions c m' in
      ap (is_live_session user_id org token later) e
      ∙ revoked_dead user_id org token now later (is_open_in user_id org) d
          (λ l. ground (arith, l)))

-- What a session that was opened was opened for, and what the store then holds.
opened_inversion :
    (id org : String) (now : ℕ) (i : SessionInput) (audit : UserAudit) (s : IdentityStore)
    (session : UserSession)
    → (create_user_session id org now i audit s).1 ≡ done session
    → (u : User) × (expires : ℕ) × (find_session_user audit.actor_user_id org s.users ≡ some u)
      × (is_session_refused now expires i u ≡ false)
      × (session ≡ new_session id org now expires i u)
      × ((create_user_session id org now i audit s).0.users ≡ s.users)
      × ((create_user_session id org now i audit s).0.user_sessions
          ≡ filter (λ (c : UserSession). ltb now c.expires_at) s.user_sessions ++ session ∷ [])
unfolding create_user_session open_session
opened_inversion id org now i audit s session h = elim (Option-cases i.expires_at) [
  | inl e ↦ absurd (ground (arith, e, h))
  | inr (expires, e) ↦ elim (Option-cases (find_session_user audit.actor_user_id org s.users)) [
    | inl f ↦ absurd (ground (arith, e, f, h))
    | inr (u, f) ↦ elim (Bool-cases (is_session_refused now expires i u)) [
      | inl r ↦ absurd (ground (arith, e, f, r, h))
      | inr g ↦ (
        u,
        expires,
        f,
        g,
        ground (arith, e, f, g, h),
        ground (arith, e, f, g, h),
        ground (arith, e, f, g, h),
      )
    ]
  ]
]

-- A session that was opened fits the purpose until it is over.
new_session_fits :
    (id org : String) (now later expires : ℕ) (i : SessionInput) (u : User)
    → is_session_refused now expires i u ≡ false
    → later < expires
    → fits_purpose later (new_session id org now expires i u) u ≡ true
unfolding is_session_refused is_wrong_purpose fits_purpose
new_session_fits id org now later expires i u h l = ground arith

abbrev pub has_token : String → UserSession → Bool
has_token token c = str_eq c.token_hash token

new_session_active :
    (id org : String) (now later expires : ℕ) (i : SessionInput) (u : User)
    → is_session_refused now expires i u ≡ false
    → later < expires
    → active_user later (some (new_session id org now expires i u)) (some u) ≡ some u
unfolding active_user
new_session_active id org now later expires i u h l =
    ground (arith, new_session_fits id org now later expires i u h l)

session_member :
    (user_id org : String) (us : List User) (u : User)
    → find_session_user user_id org us ≡ some u
    → is_member user_id org u ≡ true
unfolding find_session_user
session_member user_id org us u h = ground (arith, (find_sound _ us u h).1)

-- A session that was opened under a token that no session has is active until it is over: it
-- finds the membership that it was opened for, as long as no other operation comes between.
pub create_find :
    (id org : String) (now later : ℕ) (i : SessionInput) (audit : UserAudit) (s : IdentityStore)
    (session : UserSession)
    → (create_user_session id org now i audit s).1 ≡ done session
    → any (has_token i.token_hash) s.user_sessions ≡ false
    → later < session.expires_at
    → find_active_user_session audit.actor_user_id org i.token_hash later
        (create_user_session id org now i audit s).0
      ≡ find_session_user audit.actor_user_id org s.users
unfolding find_active_user_session
create_find id org now later i audit s session h fresh early =
    let (u, expires, f, g, e, us, ss) = opened_inversion id org now i audit s session h in
    let live : UserSession → Bool =
      λ c. is_live_session audit.actor_user_id org i.token_hash later c in
    let old : find live (filter (λ (c : UserSession). ltb now c.expires_at) s.user_sessions)
        ≡ none =
      find-none live _ (λ c m.
        let n =
          any_none_sound (has_token i.token_hash) s.user_sessions c fresh
            (filter_Mem (λ (d : UserSession). ltb now d.expires_at) s.user_sessions c m).0 in
        ground (arith, n)) in
    let member = session_member audit.actor_user_id org s.users u f in
    let until : later < expires = subst (λ (c : UserSession). later < c.expires_at) e early in
    let here : live session ≡ true =
      ap live e ∙ ground (arith, member, eq_iff org org, eq_iff i.token_hash i.token_hash) in
    let found : find live ((create_user_session id org now i audit s).0.user_sessions)
        ≡ some session =
      ap (find live) ss ∙ find-append live _ (session ∷ []) old ∙ unfold find in rw here in
    ap
      (λ o. active_user later o (
        find_session_user audit.actor_user_id org
          (create_user_session id org now i audit s).0.users))
      found
    ∙ ap
        (λ (us' : List User).
          active_user later (some session) (find_session_user audit.actor_user_id org us'))
        us
    ∙ ap (active_user later (some session)) f
    ∙ ap (λ c. active_user later (some c) (some u)) e
    ∙ new_session_active id org now later expires i u g until
    ∙ sym f
