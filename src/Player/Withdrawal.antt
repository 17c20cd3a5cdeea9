-- ===== src/Player/Withdrawal.antt =====
-- apps/player/src/core/manifest.ts: a signed withdrawal blanks the screen for good.
use screen_goblin.Prelude.{
  ℕ, ◌≡◌, refl, true, false, Option, none, some, arith, unless_none, subst, List,
}
use screen_goblin.Prelude.Js.{Js, string, truthy}
use screen_goblin.Manifest.Types.{Manifest, Signed, Trust, Wire, WireItem, Runtime, ok}
use screen_goblin.Manifest.Signature.{
  verify_signed, verify_texts, verify_payload, verify_parsed, normalize_listed,
  normalize_signed_payload,
}
use screen_goblin.Manifest.Genuine.{normalized_sound}
use screen_goblin.Player.Store.{Database}
use screen_goblin.Player.Manager.{
  recover_verified, recover_exclusive, rollback_verified, rollback_exclusive,
}

-- The manifest that a payload normalizes to does not depend on the time.
listed_same :
    (w : Runtime) (a b : ℕ) (v : Wire) (is' : List (Option WireItem)) (m n : Manifest)
    → normalize_listed w a false v is' ≡ ok m
    → normalize_listed w b false v is' ≡ ok n
    → m ≡ n
unfolding normalize_listed
listed_same w a b v is' m n h k = ground arith

payload_same :
    (w : Runtime) (a b : ℕ) (v : Wire) (o : Option (List (Option WireItem))) (m n : Manifest)
    → v.items ≡ o
    → normalize_signed_payload w a false v ≡ ok m
    → normalize_signed_payload w b false v ≡ ok n
    → m ≡ n
unfolding normalize_signed_payload
payload_same w a b v none m n e h k = absurd (ground arith)
payload_same w a b v (some is') m n e h k =
    listed_same w a b v is' m n (ground arith) (ground arith)

parsed_same :
    (w : Runtime) (t : Trust) (a b : ℕ) (shown m n : Manifest) (o : Option Wire)
    → verify_parsed w a t shown o ≡ some m
    → verify_parsed w b t shown o ≡ some n
    → m ≡ n
unfolding verify_parsed
parsed_same w t a b shown m n none h k = cc
parsed_same w t a b shown m n (some v) h k =
    payload_same w a b v v.items m n refl (normalized_sound w t shown m _ h).0
      (normalized_sound w t shown n _ k).0

texts_same :
    (w : Runtime) (t : Trust) (a b : ℕ) (x y : Js) (o : Option Manifest) (m n : Manifest)
    → verify_texts w a t x y o ≡ some m
    → verify_texts w b t x y o ≡ some n
    → m ≡ n
unfolding verify_payload
texts_same w t a b (string x) (string y) (some shown) m n h k =
    let (fine, h') = unless_none _ _ h in
    let (fine', k') = unless_none _ _ k in parsed_same w t a b shown m n (w.parse_json x) h' k'
texts_same w t a b _ _ _ m n h k = absurd (ground arith)

-- The manifest that an envelope verifies to does not depend on the time.
pub verify_same :
    (w : Runtime) (t : Trust) (a b : ℕ) (o : Option Signed) (m n : Manifest)
    → verify_signed w a t o ≡ some m
    → verify_signed w b t o ≡ some n
    → m ≡ n
unfolding verify_signed
verify_same w t a b none m n h k = cc
verify_same w t a b (some s) m n h k =
    let (fine, h') = unless_none _ _ h in
    let (fine', k') = unless_none _ _ k in
    texts_same w t a b s.payload_json s.signature s.manifest m n h' k'

recover_withdrawn :
    (w : Runtime) (t : Trust) (clock : ℕ → ℕ) (o : Option Manifest) (db : Database)
    → ((m : Manifest) → o ≡ some m → truthy m.withdrawn ≡ true)
    → (recover_verified w t clock o db).1 ≡ none
unfolding recover_verified
recover_withdrawn w t clock none db h = refl
recover_withdrawn w t clock (some m) db h = ground (arith, h m refl)

rollback_withdrawn :
    (w : Runtime) (t : Trust) (expected : Js) (clock : ℕ → ℕ) (o : Option Manifest) (db : Database)
    → ((m : Manifest) → o ≡ some m → truthy m.withdrawn ≡ true)
    → (rollback_verified w t expected clock o db).1 ≡ none
unfolding rollback_verified
rollback_withdrawn w t expected clock none db h = refl
rollback_withdrawn w t expected clock (some m) db h = ground (arith, h m refl)

-- While the active slot holds an envelope that once verified as a withdrawal, neither `recover`
-- nor `rollback` answers with anything to play, at any readings of the clock.
pub withdrawal_blanks :
    (w : Runtime) (t : Trust) (expected : Js) (now : ℕ) (clock : ℕ → ℕ) (m : Manifest)
    (db : Database)
    → verify_signed w now t db.active ≡ some m
    → truthy m.withdrawn ≡ true
    → ((recover_exclusive w t clock db).1 ≡ none)
      × ((rollback_exclusive w t expected clock db).1 ≡ none)
unfolding recover_exclusive rollback_exclusive
withdrawal_blanks w t expected now clock m db v gone =
    let again : (n : Manifest)
        → verify_signed w (clock 0) t db.active ≡ some n
        → truthy n.withdrawn ≡ true =
      λ n k.
        subst (λ q. truthy q.withdrawn ≡ true) (verify_same w t now (clock 0) db.active m n v k)
          gone in
    (recover_withdrawn w t clock _ db again, rollback_withdrawn w t expected clock _ db again)
