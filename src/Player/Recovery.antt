-- ===== src/Player/Recovery.antt =====
-- apps/player/src/core/manifest.ts: what `recover` and `rollback` may put back on the screen.
use screen_goblin.Prelude.{
  ℕ, ◌+◌, ◌≡◌, refl, sym, ◌⊎◌, inl, inr, Bool, true, false, not, ◌||◌, ◌&&◌, Option, none, some,
  if◌then◌else◌, arith, when_some, subst,
}
use screen_goblin.Prelude.Js.{Js, truthy, js_eq, is_undefined}
use screen_goblin.Manifest.Types.{Manifest, Signed, Trust, Runtime}
use screen_goblin.Manifest.Signature.{
  verify_signed, manifest_playback_ends_at, has_ended, is_expired_emergency, is_playable,
  rollback_deadline,
}
use screen_goblin.Manifest.Genuine.{Genuine, verify_signed_sound}
use screen_goblin.Player.Store.{Database, clear_previous_manifest, rollback, clear_manifests}
use screen_goblin.Player.Manager.{
  is_rejected, is_over, from, if_playable, recover_emergency, recover_verified, recover_exclusive,
  rollback_checked, rollback_verified, rollback_exclusive,
}

-- `m` may be shown: it is what the signed payload of the envelope in the active slot says, for this
-- screen and well formed, it is no withdrawal, and at the readings of the clock neither its playback has ended nor is it an
-- emergency whose validity is over.
pub record IsShowable (w : Runtime) (t : Trust) (clock : ℕ → ℕ) (active : Option Signed)
    (m : Manifest) : Type 0 where
  pub stored : (s : Signed) × (k : ℕ) × (active ≡ some s) × Genuine w (clock k) t s m
  pub kept : truthy m.withdrawn ≡ false
  pub running : (k : ℕ) × (has_ended (manifest_playback_ends_at w m) (clock k) ≡ false)
  pub current : (k : ℕ) × (is_expired_emergency w (clock k) m ≡ false)

stored_sound :
    (w : Runtime) (t : Trust) (clock : ℕ → ℕ) (k : ℕ) (active : Option Signed) (m : Manifest)
    → verify_signed w (clock k) t active ≡ some m
    → (s : Signed) × (j : ℕ) × (active ≡ some s) × Genuine w (clock j) t s m
unfolding verify_signed
stored_sound w t clock k none m h = cc
stored_sound w t clock k (some s) m h = (s, k, refl, verify_signed_sound w (clock k) t s m h)

playable_sound :
    (w : Runtime) (clock : ℕ → ℕ) (m : Manifest)
    → is_playable w clock (some m) ≡ true
    → (truthy m.withdrawn ≡ false)
      × (is_expired_emergency w (clock 1) m ≡ false)
      × (has_ended (manifest_playback_ends_at w m) (clock 2) ≡ false)
unfolding is_playable
playable_sound w clock m h = ground arith

some_inj : (k m : Manifest) → some k ≡ some m → k ≡ m
some_inj k m e = cc

none_playable : (w : Runtime) (clock : ℕ → ℕ) {m : Manifest} → if_playable w clock none ≡ some m → ⊥
unfolding is_playable
none_playable w clock h = cc

-- A verified release that passes the test of playability is showable.
showable :
    (w : Runtime) (t : Trust) (clock : ℕ → ℕ) (k n : ℕ) (active : Option Signed)
    (o : Option Manifest) (m : Manifest)
    → verify_signed w (clock k) t active ≡ o
    → if_playable w (from n clock) o ≡ some m
    → IsShowable w t clock active m
showable w t clock k n active none m v h = absurd (none_playable w (from n clock) h)
showable w t clock k n active (some q) m v h =
    let (playable, same) = when_some (is_playable w (from n clock) (some q)) (some q) h in
    let (kept, current, running) = playable_sound w (from n clock) q playable in
    subst (IsShowable w t clock active) (some_inj q m same) (record {
      stored = stored_sound w t clock k active q v;
      kept = kept;
      running = (n + 2, running);
      current = (n + 1, current);
    })

-- The store answers nothing, or what it has made active.
rollback-active :
    (expected : Js) (deadline : Option ℕ) (now : ℕ) (db : Database)
    → ((rollback expected deadline now db).1 ≡ none)
      ⊎ ((rollback expected deadline now db).0.active ≡ (rollback expected deadline now db).1)
unfolding rollback
rollback-active expected deadline now db = ground arith

-- The release that a rollback answers with is the one that it has made active.
rolled_back :
    (w : Runtime) (t : Trust) (clock : ℕ → ℕ) (expected : Js) (deadline : Option ℕ) (k n now : ℕ)
    (db : Database) (m : Manifest)
    → if_playable w
        (from n clock)
        (verify_signed w (clock k) t (rollback expected deadline now db).1)
      ≡ some m
    → IsShowable w t clock (rollback expected deadline now db).0.active m
rolled_back w t clock expected deadline k n now db m h =
    let r = rollback expected deadline now db in
    let shows : IsShowable w t clock r.1 m =
      showable w t clock k n r.1 (verify_signed w (clock k) t r.1) m refl h in
    elim (rollback-active expected deadline now db) [
      | inl empty ↦ let (s, j, held, genuine) = shows.stored in absurd (ground (arith, empty, held))
      | inr same ↦ subst (λ a. IsShowable w t clock a m) (sym same) shows
    ]

-- Whatever the operation answers is showable, and is what it leaves active.
pub record IsSound (w : Runtime) (t : Trust) (clock : ℕ → ℕ) (r : Database × Option Manifest)
    : Type 0 where
  pub shows : (m : Manifest) → r.1 ≡ some m → IsShowable w t clock r.0.active m

module _ (w : Runtime) (t : Trust) (clock : ℕ → ℕ) where
  blank-IsSound : (db : Database) → IsSound w t clock (db, none)
  blank-IsSound db = record { shows = λ m h. cc }

  if-IsSound :
      (b : Bool) (r q : Database × Option Manifest)
      → (b ≡ true → IsSound w t clock r)
      → (b ≡ false → IsSound w t clock q)
      → IsSound w t clock (if b then r else q)
  if-IsSound true r q f g = f refl
  if-IsSound false r q f g = g refl

  playable-IsSound :
      (k n : ℕ) (db : Database)
      → IsSound w t clock (db, if_playable w (from n clock) (verify_signed w (clock k) t db.active))
  playable-IsSound k n db = record {
    shows =
        λ m h. showable w t clock k n db.active (verify_signed w (clock k) t db.active) m refl h;
  }

  emergency-IsSound :
      (active : Manifest) (db : Database)
      → IsSound w t clock (recover_emergency w t clock active db)
  unfolding recover_emergency
  emergency-IsSound active db =
      let candidate = verify_signed w (clock 0) t db.previous in
      let dropped = clear_previous_manifest active.version db in
      if-IsSound (is_rejected db.previous candidate) (clear_manifests db, none) _
        (λ e. blank-IsSound _)
        (λ e.
          if-IsSound (is_over w (clock 1) candidate) (dropped, none) _ (λ f. blank-IsSound _)
            (λ f.
              if-IsSound (not (is_playable w (from 2 clock) candidate)) (dropped, none) _
                (λ g. blank-IsSound _)
                (λ g. record {
                  shows = λ m h. rolled_back w t clock active.version none 6 7 (clock 5) db m h;
                })))

  rollback_checked-IsSound :
      (expected : Js) (active : Manifest) (o : Option Manifest) (db : Database)
      → IsSound w t clock (rollback_checked w t expected clock active o db)
  unfolding rollback_checked
  rollback_checked-IsSound expected active none db = blank-IsSound _
  rollback_checked-IsSound expected active (some previous) db =
      let deadline = rollback_deadline w active previous in
      let r = rollback expected deadline (clock 3) db in
      if-IsSound (not (is_playable w clock (some previous))) (clear_manifests db, none) _
        (λ e. blank-IsSound _)
        (λ e.
          if-IsSound (is_rejected r.1 (verify_signed w (clock 4) t r.1)) (clear_manifests r.0, none)
            _ (λ f. blank-IsSound _)
            (λ f. record {
              shows = λ m h. rolled_back w t clock expected deadline 4 5 (clock 3) db m h;
            }))

-- A later reading of the clock is a reading of it.
lift-IsSound :
    (w : Runtime) (t : Trust) (n : ℕ) (clock : ℕ → ℕ) (r : Database × Option Manifest)
    → IsSound w t (from n clock) r
    → IsSound w t clock r
lift-IsSound w t n clock r v = record {
  shows = λ m h.
      let x = v.shows m h in
      let (s, k, held, genuine) = x.stored in
      let (a, running) = x.running in
      let (b, current) = x.current in
      record {
        stored = (s, n + k, held, genuine);
        kept = x.kept;
        running = (n + a, running);
        current = (n + b, current);
      };
}

module _ (w : Runtime) (t : Trust) (clock : ℕ → ℕ) where
  verified-IsSound :
      (o : Option Manifest) (db : Database)
      → verify_signed w (clock 0) t db.active ≡ o
      → IsSound w t clock (recover_verified w t clock o db)
  unfolding recover_verified
  verified-IsSound none db v = blank-IsSound w t clock _
  verified-IsSound (some active) db v =
      let dropped = clear_previous_manifest active.version db in
      if-IsSound w t clock (truthy active.withdrawn) (dropped, none) _
        (λ e. blank-IsSound w t clock _)
        (λ kept.
          if-IsSound w t clock (is_expired_emergency w (clock 1) active)
            (recover_emergency w t (from 2 clock) active db) _
            (λ f. lift-IsSound w t 2 clock _ (emergency-IsSound w t (from 2 clock) active db))
            (λ current.
              if-IsSound w t clock (has_ended (manifest_playback_ends_at w active) (clock 2))
                (dropped, none) (db, some active) (λ g. blank-IsSound w t clock _)
                (λ running. record {
                  shows = λ m h.
                      subst (IsShowable w t clock db.active) (some_inj active m h) (record {
                        stored = stored_sound w t clock 0 db.active active v;
                        kept = kept;
                        running = (2, running);
                        current = (1, current);
                      });
                })))

  rollback_verified-IsSound :
      (expected : Js) (o : Option Manifest) (db : Database)
      → verify_signed w (clock 0) t db.active ≡ o
      → IsSound w t clock (rollback_verified w t expected clock o db)
  unfolding rollback_verified
  rollback_verified-IsSound expected none db v = blank-IsSound w t clock _
  rollback_verified-IsSound expected (some active) db v =
      if-IsSound w t clock
        (truthy active.withdrawn || has_ended (manifest_playback_ends_at w active) (clock 1))
        (clear_previous_manifest active.version db, none) _ (λ e. blank-IsSound w t clock _)
        (λ e.
          if-IsSound w t clock (not (is_undefined expected) && not (js_eq active.version expected))
            (db, if_playable w (from 2 clock) (some active)) _
            (λ f. record { shows = λ m h. showable w t clock 0 2 db.active (some active) m v h })
            (λ f.
              lift-IsSound w t 6 clock _
                (rollback_checked-IsSound w t (from 6 clock) expected active _ db)))

-- What `recover` answers may be shown: the operation leaves an envelope in the active slot, and the
-- manifest is what the payload of that envelope, signed under the trusted key, says field by field,
-- a well-formed manifest for the trusted screen, not withdrawn, and not over at its readings of the clock, neither by a playback boundary nor as an
-- emergency.
pub recover_sound :
    (w : Runtime) (t : Trust) (clock : ℕ → ℕ) (db : Database) (m : Manifest)
    → (recover_exclusive w t clock db).1 ≡ some m
    → IsShowable w t clock (recover_exclusive w t clock db).0.active m
unfolding recover_exclusive
recover_sound w t clock db = (verified-IsSound w t clock _ db refl).shows

-- What `rollback` answers may be shown in the same sense, whatever version the caller expects: it
-- is what the signed payload of the envelope that it leaves in the active slot says.
pub rollback_sound :
    (w : Runtime) (t : Trust) (expected : Js) (clock : ℕ → ℕ) (db : Database) (m : Manifest)
    → (rollback_exclusive w t expected clock db).1 ≡ some m
    → IsShowable w t clock (rollback_exclusive w t expected clock db).0.active m
unfolding rollback_exclusive
rollback_sound w t expected clock db =
    (rollback_verified-IsSound w t clock expected _ db refl).shows
