-- ===== src/Store/Identity/Scenarios.antt =====
-- The identity operations of apps/api/src/store/memory.ts on an organization with two owners.
use text.Mathlib.TextEquality.{eq_iff}
use mathlib.Core.List.{Memᴰ}
use mathlib.Core.List.Memᴰ.{cases_cons}
use screen_goblin.Prelude.{
  ℕ, ◌≡◌, ◌≢◌, refl, sym, ap, ◌∙◌, inl, inr, true, false, none, some, List, [], ◌∷◌, arith,
}
use screen_goblin.Authorization.Policy.{owner, viewer}
use screen_goblin.Store.Records.{User, UserSession, full, done}
use screen_goblin.Store.Examples.{ann, bob, any_le}
use screen_goblin.Store.Identity.{
  IdentityStore, SystemAudit, UserAudit, SessionInput, find_active_user_session, find_session_user,
  create_user_session, open_session, is_session_refused, is_wrong_purpose, new_session,
}
use screen_goblin.Store.Identity.Mutations.{
  rotate_user_password, change_membership_role, common_epoch, reauthenticate,
  has_other_active_owner, organization_ids, organizations_of,
}
use screen_goblin.Store.Identity.Owners.{has_owner, IsKeyed}
use screen_goblin.Store.Identity.Continuity.{apply_all, disables, changes, Call, apply_all_owner}
use screen_goblin.Store.Identity.Sessions.{
  rotate_signs_out, change_signs_out, create_find, has_token,
}
use screen_goblin.Prelude.Search.{any, find, filter}
use screen_goblin.Prelude.Sorting.{sort, insert}
use screen_goblin.Prelude.Texts.{unique, includes}

abbrev a_session : UserSession
a_session = record {
  id = "s1";
  organization_id = "acme";
  user_id = "ann";
  token_hash = "token";
  authentication_epoch = 1;
  authorization_epoch = 1;
  purpose = some full;
  expires_at = 5000;
  revoked_at = none;
  created_at = 1000;
}

abbrev store : IdentityStore
store = record {
  users = ann ∷ bob ∷ [];
  user_sessions = a_session ∷ [];
  pairings = [];
  pairing_attempts = [];
  audit_records = [];
}

abbrev by_operator : SystemAudit
by_operator = record { has_reason = true; is_auditable = true }

apart : ann.id ≢ bob.id
apart e = let f : false ≡ true = (eq_iff "ann" "bob").1 e in cc

store-IsKeyed : IsKeyed store.users
store-IsKeyed u v mu mv i o = elim (cases_cons mu) [
  | inl e ↦ elim (cases_cons mv) [
    | inl f ↦ e ∙ sym f
    | inr f ↦ elim (cases_cons f) [
      | inl g ↦ absurd (apart (sym (ap (λ (x : User). x.id) e) ∙ i ∙ ap (λ (x : User). x.id) g))
      | inr n ↦ elim n [ ]
    ]
  ]
  | inr e' ↦ elim (cases_cons e') [
    | inl e ↦ elim (cases_cons mv) [
      | inl f ↦ absurd (apart (sym (ap (λ (x : User). x.id) f) ∙ sym i ∙ ap (λ (x : User). x.id) e))
      | inr f ↦ elim (cases_cons f) [ inl g ↦ e ∙ sym g | inr n ↦ elim n [ ] ]
    ]
    | inr n ↦ elim n [ ]
  ]
]

store_owner : has_owner "acme" store.users ≡ true
unfolding any
store_owner = refl

-- The first owner is disabled; the other may not become a viewer.
abbrev calls : List (ℕ × Call)
calls =
    (10, disables "ann" by_operator) ∷ (20, changes "acme" "bob" "acme:bob" viewer by_operator) ∷ []

apply_all_owner_example : has_owner "acme" (apply_all any_le calls store).users ≡ true
apply_all_owner_example = apply_all_owner any_le "acme" calls store store-IsKeyed store_owner

rotated :
    (rotate_user_password any_le true "ann" "new" 2000 by_operator store).1 ≡ done ("acme" ∷ [])
unfolding rotate_user_password common_epoch filter any reauthenticate organization_ids sort unique
    organizations_of includes insert
rotated = refl

rotate_signs_out_example :
    find_active_user_session "ann" "acme" "token" 2001
      (rotate_user_password any_le true "ann" "new" 2000 by_operator store).0
    ≡ none
rotate_signs_out_example =
    rotate_signs_out any_le true "ann" "new" 2000 by_operator store ("acme" ∷ []) "acme" "token"
      2001 rotated

changed : (change_membership_role "acme" "ann" "acme:ann" viewer 2000 by_operator store).1 ≡ done tt
unfolding change_membership_role find has_other_active_owner any
changed = refl

change_signs_out_example :
    find_active_user_session "ann" "acme" "token" 2001
      (change_membership_role "acme" "ann" "acme:ann" viewer 2000 by_operator store).0
    ≡ none
change_signs_out_example =
    change_signs_out "acme" "ann" "acme:ann" viewer 2000 by_operator store "token" 2001 changed

abbrev input : SessionInput
input = record {
  token_hash = "second";
  expires_at = some 9000;
  expected_password_hash = "hash";
  expected_role = owner;
  expected_authentication_epoch = 1;
  expected_authorization_epoch = 1;
  purpose = none;
  expected_bootstrap_password_expires_at = none;
}

abbrev by_bob : UserAudit
by_bob = record { actor_user_id = "bob"; is_auditable = true }

created :
    (create_user_session "s2" "acme" 2000 input by_bob store).1
    ≡ done (new_session "s2" "acme" 2000 9000 input bob)
unfolding create_user_session find_session_user find open_session is_session_refused
    is_wrong_purpose
created = refl

fresh : any (has_token "second") store.user_sessions ≡ false
unfolding any
fresh = refl

create_find_example :
    find_active_user_session "bob" "acme" "second" 8999
      (create_user_session "s2" "acme" 2000 input by_bob store).0
    ≡ find_session_user "bob" "acme" store.users
create_find_example =
    create_find "s2" "acme" 2000 8999 input by_bob store
      (new_session "s2" "acme" 2000 9000 input bob) created fresh omega arith
