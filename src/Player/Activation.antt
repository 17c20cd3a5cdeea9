-- ===== src/Player/Activation.antt =====
-- apps/player/src/core/manifest.ts: what an activation has checked, and what it leaves in the
-- store when it succeeds and when it fails.
use screen_goblin.Prelude.{
  ℕ, ◌≤◌, ◌<◌, ◌≡◌, refl, ◌⊎◌, inl, inr, Bool, true, false, Option, none, some, if◌then◌else◌,
  arith,
}
use screen_goblin.Manifest.Types.{Manifest, Signed, Trust, Runtime, Error, ok, threw}
use screen_goblin.Manifest.Validation.{date_le}
use screen_goblin.Manifest.Signature.{verify_signed, manifest_playback_ends_at, has_ended}
use screen_goblin.Manifest.Genuine.{Genuine, verify_signed_sound}
use screen_goblin.Player.Store.{Database, activate_manifest, clear_manifests}
use screen_goblin.Player.Manager.{
  assert_not_older, is_rejected, playing, activate_checked, activate_exclusive,
}

activate_inversion :
    (w : Runtime) (t : Trust) (clock generation : ℕ → ℕ) (expected : ℕ) (signed : Signed)
    (db db' : Database) (r : Option Manifest)
    → activate_exclusive w t clock generation expected signed db ≡ (db', ok r)
    → (m : Manifest) × (verify_signed w (clock 0) t (some signed) ≡ some m)
      × (date_le (w.date_parse m.valid_until) (some (clock 1)) ≡ false)
      × (generation 0 ≡ expected)
      × (generation 1 ≡ expected)
      × (activate_checked w t clock generation expected signed m
            (has_ended (manifest_playback_ends_at w m) (clock 2))
            db
          ≡ (db', ok r))
unfolding activate_exclusive
activate_inversion w t clock generation expected signed db db' r h = ground arith

checked_inversion :
    (w : Runtime) (t : Trust) (clock generation : ℕ → ℕ) (expected : ℕ) (signed : Signed)
    (m : Manifest) (ended : Bool) (db db' : Database) (r : Option Manifest)
    → activate_checked w t clock generation expected signed m ended db ≡ (db', ok r)
    → (assert_not_older w m (verify_signed w (clock 3) t db.active) ≡ ok tt)
      × (generation 2 ≡ expected)
      × (generation 3 ≡ expected)
      × (activate_manifest signed (
            if is_rejected db.active (verify_signed w (clock 3) t db.active)
            then clear_manifests db
            else db)
          ≡ some db')
      × (r ≡ playing m ended)
unfolding activate_checked
checked_inversion w t clock generation expected signed m ended db db' r h = ground arith

activate_failure :
    (w : Runtime) (t : Trust) (clock generation : ℕ → ℕ) (expected : ℕ) (signed : Signed)
    (db db' : Database) (e : Error)
    → activate_exclusive w t clock generation expected signed db ≡ (db', threw e)
    → (db' ≡ db)
      ⊎ ((db' ≡ clear_manifests db)
          × (is_rejected db.active (verify_signed w (clock 3) t db.active) ≡ true))
unfolding activate_exclusive activate_checked
activate_failure w t clock generation expected signed db db' e h = ground arith

no_envelope :
    (w : Runtime) (t : Trust) (now : ℕ) {a : Manifest} → verify_signed w now t none ≡ some a → ⊥
unfolding verify_signed
no_envelope w t now h = cc

rejected_sound :
    (w : Runtime) (t : Trust) (now : ℕ) (slot : Option Signed) (o : Option Manifest)
    → verify_signed w now t slot ≡ o
    → is_rejected slot o ≡ true
    → (s : Signed) × (slot ≡ some s) × (verify_signed w now t (some s) ≡ none)
rejected_sound w t now none o v h = cc
rejected_sound w t now (some s) none v h = (s, refl, v)
rejected_sound w t now (some s) (some m) v h = cc

activate_manifest-active :
    (value : Signed) (db db' : Database)
    → activate_manifest value db ≡ some db'
    → db'.active ≡ some value
unfolding activate_manifest
activate_manifest-active value db db' h = ground arith

-- The verified release that is in place, if any, was generated no later than `m`.
pub data Newer (w : Runtime) (m : Manifest) : Option Manifest → Type 0 where
  first : Newer w m none
  newer :
      (a : Manifest) (c g : ℕ)
      → w.date_parse a.generated_at ≡ some c
      → w.date_parse m.generated_at ≡ some g
      → c ≤ g
      → Newer w m (some a)

not_older_sound :
    (w : Runtime) (t : Trust) (now past : ℕ) (signed : Signed) (m : Manifest) (slot : Option Signed)
    (o : Option Manifest)
    → Genuine w now t signed m
    → verify_signed w past t slot ≡ o
    → assert_not_older w m o ≡ ok tt
    → Newer w m o
unfolding assert_not_older
not_older_sound w t now past signed m slot none g v h = first
not_older_sound w t now past signed m none (some a) g v h = absurd (no_envelope w t past v)
not_older_sound w t now past signed m (some s) (some a) g v h =
    let (gm, um, generated, until, lt, skew) = g.well_formed.window in
    let (ga, ua, generated', until', lt', skew') =
      (verify_signed_sound w past t s a v).well_formed.window in
    newer a ga gm generated' generated (ground (arith, generated, generated', h))

valid_sound : (o : Option ℕ) (u now : ℕ) → o ≡ some u → date_le o (some now) ≡ false → now < u
valid_sound o u now e h = ground arith

-- An activation that answers has put the envelope into the active slot. The payload of the envelope
-- is signed under the trusted key and says, field by field, a well-formed manifest for the trusted
-- screen, which was still valid and was generated no earlier than the verified release that it replaces; and no
-- staging was cancelled at any of the four readings of the generation.
pub activate_sound :
    (w : Runtime) (t : Trust) (clock generation : ℕ → ℕ) (expected : ℕ) (signed : Signed)
    (db db' : Database) (r : Option Manifest)
    → activate_exclusive w t clock generation expected signed db ≡ (db', ok r)
    → (m : Manifest) × Genuine w (clock 0) t signed m
      × (db'.active ≡ some signed)
      × ((u : ℕ) × (w.date_parse m.valid_until ≡ some u) × (clock 1 < u))
      × Newer w m (verify_signed w (clock 3) t db.active)
      × ((generation 0 ≡ expected)
          × (generation 1 ≡ expected)
          × (generation 2 ≡ expected)
          × (generation 3 ≡ expected))
activate_sound w t clock generation expected signed db db' r h =
    let (m, verified, valid, g0, g1, rest) =
      activate_inversion w t clock generation expected signed db db' r h in
    let (newer', g2, g3, stored, answer) =
      checked_inversion w t clock generation expected signed m _ db db' r rest in
    let genuine = verify_signed_sound w (clock 0) t signed m verified in
    let (g, u, generated, until, lt, skew) = genuine.well_formed.window in
    (
      m,
      genuine,
      activate_manifest-active signed _ db' stored,
      (u, until, valid_sound _ u (clock 1) until valid),
      not_older_sound w t (clock 0) (clock 3) signed m db.active _ genuine refl newer',
      (g0, g1, g2, g3),
    )

-- An activation that throws leaves the store as it was, but for a stored active envelope that
-- does not verify: then both releases may have been cleared.
pub activate_atomic :
    (w : Runtime) (t : Trust) (clock generation : ℕ → ℕ) (expected : ℕ) (signed : Signed)
    (db db' : Database) (e : Error)
    → activate_exclusive w t clock generation expected signed db ≡ (db', threw e)
    → (db' ≡ db)
      ⊎ ((s : Signed) × (db.active ≡ some s)
          × (verify_signed w (clock 3) t (some s) ≡ none)
          × (db' ≡ clear_manifests db))
activate_atomic w t clock generation expected signed db db' e h =
    elim (activate_failure w t clock generation expected signed db db' e h) [
      | inl same ↦ inl same
      | inr (cleared, rejected) ↦
          let (s, held, unverified) = rejected_sound w t (clock 3) db.active _ refl rejected in
          inr (s, held, unverified, cleared)
    ]
