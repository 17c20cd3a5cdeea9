-- ===== src/Player/Baseline.antt =====
-- apps/player/src/core/storage.ts: what the rollback slot of the store may hold.
use screen_goblin.Prelude.{
  ℕ, ◌≡◌, refl, ◌⊎◌, inl, true, Option, none, some, List, [], ◌∷◌, arith, or_default,
}
use screen_goblin.Prelude.Js.{Js}
use screen_goblin.Manifest.Types.{Manifest, Signed}
use screen_goblin.Player.Store.{
  Database, Credentials, PendingPairing, put_credentials, put_pending_pairing,
  delete_pending_pairing, clear_provisioned_state, complete_pairing, activate_manifest,
  clear_previous_manifest, rollback, clear_manifests, clear, shown, is_baseline,
}

-- The calls of the store that write.
pub data Call : Type 0 where
  credits completes : Credentials → Call
  pends : PendingPairing → Call
  unpends deprovisions clears_manifests clears : Call
  activates : Signed → Call
  clears_previous : Js → Call
  rolls_back : Js → Option ℕ → ℕ → Call

-- The store after a call; a transaction that aborts changes nothing.
unfoldable pub apply : Call → Database → Database
apply (credits c) db = put_credentials c db
apply (completes c) db = complete_pairing c db
apply (pends v) db = put_pending_pairing v db
apply unpends db = delete_pending_pairing db
apply deprovisions db = clear_provisioned_state db
apply clears_manifests db = clear_manifests db
apply clears db = clear db
apply (activates s) db = or_default (activate_manifest s db) db
apply (clears_previous v) db = clear_previous_manifest v db
apply (rolls_back v deadline now) db = (rollback v deadline now db).0

unfoldable pub apply_all : List Call → Database → Database
apply_all [] db = db
apply_all (c ∷ cs) db = apply_all cs (apply c db)

-- The rollback slot is empty, or holds a release that is no emergency and no withdrawal.
abbrev pub HasBaseline : Database → Type 0
HasBaseline db = (db.previous ≡ none) ⊎ (is_baseline (shown db.previous) ≡ true)

activate-HasBaseline :
    (s : Signed) (o : Option Manifest) (db : Database)
    → s.manifest ≡ o
    → HasBaseline db
    → HasBaseline (or_default (activate_manifest s db) db)
unfolding activate_manifest
activate-HasBaseline s none db e v = ground arith
activate-HasBaseline s (some m) db e v = ground arith

apply-HasBaseline : (c : Call) (db : Database) → HasBaseline db → HasBaseline (apply c db)
unfolding apply
apply-HasBaseline (credits c) db v = unfold put_credentials in v
apply-HasBaseline (completes c) db v = unfold complete_pairing in v
apply-HasBaseline (pends p) db v = unfold put_pending_pairing in v
apply-HasBaseline unpends db v = unfold delete_pending_pairing in v
apply-HasBaseline deprovisions db v = unfold clear_provisioned_state in inl refl
apply-HasBaseline clears_manifests db v = unfold clear_manifests in inl refl
apply-HasBaseline clears db v = unfold clear in inl refl
apply-HasBaseline (activates s) db v = activate-HasBaseline s s.manifest db refl v
apply-HasBaseline (clears_previous x) db v = unfold clear_previous_manifest in ground arith
apply-HasBaseline (rolls_back x deadline now) db v = unfold rollback in ground arith

-- Whatever is written to the store, in any order, its rollback slot stays empty or holds a
-- release that is no emergency and no withdrawal, if it was so at first.
pub apply_all-HasBaseline :
    (cs : List Call) (db : Database) → HasBaseline db → HasBaseline (apply_all cs db)
unfolding apply_all
apply_all-HasBaseline [] db v = v
apply_all-HasBaseline (c ∷ cs) db v =
    apply_all-HasBaseline cs (apply c db) (apply-HasBaseline c db v)
