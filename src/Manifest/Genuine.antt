-- ===== src/Manifest/Genuine.antt =====
-- apps/player/src/core/manifest.ts: what `verifySignedPlayerManifest` establishes.
use Prim.Native.String.{String}
use text.Mathlib.TextEquality.{eq_iff}
use screen_goblin.Prelude.{
  or_left, or_right, unnot, ℕ, ◌≡◌, refl, sym, ap, ◌∙◌, Bool, true, false, Option, none, some, List,
  [], ◌∷◌, arith, unless_none, subst, Option-cases, inl, inr,
}
use screen_goblin.Prelude.Js.{Js, string, whole, js_eq→≡}
use screen_goblin.Manifest.Types.{
  Asset, Manifest, Signed, Trust, Wire, WireItem, Runtime, Result, ok, threw, >>=-ok, >>-ok,
}
use screen_goblin.Manifest.Validation.{assert_manifest}
use screen_goblin.Manifest.Signature.{
  or_false, to_manifest, normalize_items, normalize_listed, normalize_signed_payload,
  verify_normalized, verify_parsed, verify_payload, verify_texts, verify_signed,
}
use screen_goblin.Manifest.WellFormed.{IsWellFormed, assert_manifest_sound}

-- The assets that the items of a payload hold, each with the duration of its item.
abbrev pub AreRead : List (Option WireItem) → List Asset → Type 0
AreRead [] [] = Unit
AreRead (some i ∷ is') (a ∷ as') =
    ((b : Asset) × (i.asset ≡ some b) × (a ≡ record b { duration_seconds = i.duration_seconds }))
    × AreRead is' as'
AreRead _ _ = ⊥

-- `m` is what the payload `v` says, field by field, with a missing mark of withdrawal as `false`.
pub record IsRead (v : Wire) (m : Manifest) : Type 0 where
  pub protocol_version : m.protocol_version ≡ v.protocol_version
  pub media_delivery : m.media_delivery ≡ v.media_delivery
  pub version : m.version ≡ v.version
  pub generated_at : m.generated_at ≡ v.generated_at
  pub valid_until : m.valid_until ≡ v.valid_until
  pub playback_ends_at : m.playback_ends_at ≡ v.playback_ends_at
  pub screen_id : m.screen_id ≡ v.screen_id
  pub request_challenge_id : m.request_challenge_id ≡ v.request_challenge_id
  pub priority : m.priority ≡ v.priority
  pub withdrawn : m.withdrawn ≡ or_false v.withdrawn
  pub items : (is' : List (Option WireItem)) × (v.items ≡ some is') × AreRead is' m.items

-- The envelope carries a payload signed under the trusted key, and `m` is what that payload says,
-- a well-formed manifest for the trusted screen, with the text of the manifest beside it.
pub record Genuine (w : Runtime) (now : ℕ) (t : Trust) (s : Signed) (m : Manifest) : Type 0 where
  pub format : s.format_version ≡ whole 1
  pub algorithm : s.signature_algorithm ≡ string "Ed25519"
  pub signed_text :
      (payload signature : String) × (v : Wire) × (s.payload_json ≡ string payload)
      × (s.signature ≡ string signature)
      × (w.verify payload signature t.manifest_verification_key ≡ true)
      × (w.parse_json payload ≡ some v)
      × IsRead v m
  pub shown : (k : Manifest) × (s.manifest ≡ some k) × (w.stringify m ≡ w.stringify k)
  pub bound : m.screen_id ≡ string t.screen_id
  pub well_formed : IsWellFormed w now m

normalize_items-AreRead :
    (is' : List (Option WireItem)) (as' : List Asset)
    → normalize_items is' ≡ ok as'
    → AreRead is' as'
unfolding normalize_items
normalize_items-AreRead [] [] h = tt
normalize_items-AreRead [] (a ∷ as') h = cc
normalize_items-AreRead (none ∷ is') as' h = cc
normalize_items-AreRead (some i ∷ is') as' h = elim (Option-cases i.asset) [
  | inl n ↦ absurd (ground (arith, n, h))
  | inr (b, e) ↦
      let first = record b { duration_seconds = i.duration_seconds } in
      let (rest, same, read) =
        >>=-ok {y = as'} (λ xs. ok (first ∷ xs)) (normalize_items is') (ground (arith, e, h)) in
      let whole : first ∷ rest ≡ as' = cc in
      subst (AreRead (some i ∷ is')) whole ((b, e, refl), normalize_items-AreRead is' rest read)
]

listed_sound :
    (w : Runtime) (now : ℕ) (required : Bool) (v : Wire) (is' : List (Option WireItem))
    (m : Manifest)
    → v.items ≡ some is'
    → normalize_listed w now required v is' ≡ ok m
    → IsRead v m × IsWellFormed w now m
unfolding normalize_listed
listed_sound w now required v is' m listed h =
    let (items, rest, read) = >>=-ok _ (normalize_items is') h in
    let (done, passed) = >>-ok _ (assert_manifest w now required (to_manifest v items)) rest in
    let same : to_manifest v items ≡ m = ground arith in
    subst (λ k. IsRead v k × IsWellFormed w now k) same
      (
        record {
          protocol_version = refl;
          media_delivery = refl;
          version = refl;
          generated_at = refl;
          valid_until = refl;
          playback_ends_at = refl;
          screen_id = refl;
          request_challenge_id = refl;
          priority = refl;
          withdrawn = refl;
          items = (is', listed, normalize_items-AreRead is' items read);
        },
        (assert_manifest_sound w now required (to_manifest v items) passed).0,
      )

normalize_sound :
    (w : Runtime) (now : ℕ) (required : Bool) (v : Wire) (o : Option (List (Option WireItem)))
    (m : Manifest)
    → v.items ≡ o
    → normalize_signed_payload w now required v ≡ ok m
    → IsRead v m × IsWellFormed w now m
unfolding normalize_signed_payload
normalize_sound w now required v none m e h = absurd (ground arith)
normalize_sound w now required v (some is') m e h =
    listed_sound w now required v is' m e (ground arith)

some_inj : (k m : Manifest) → some k ≡ some m → k ≡ m
some_inj k m e = cc

pub normalized_sound :
    (w : Runtime) (t : Trust) (shown m : Manifest) (r : Result Manifest)
    → verify_normalized w t shown r ≡ some m
    → (r ≡ ok m) × (m.screen_id ≡ string t.screen_id) × (w.stringify m ≡ w.stringify shown)
unfolding verify_normalized
normalized_sound w t shown m (threw e) h = cc
normalized_sound w t shown m (ok k) h =
    let (fine, same) = unless_none _ _ h in
    let bound : k.screen_id ≡ string t.screen_id = js_eq→≡ _ _ (unnot _ (or_left _ _ fine)) in
    let agrees : w.stringify k ≡ w.stringify shown =
      (eq_iff (w.stringify k) (w.stringify shown)).0 (unnot _ (or_right _ _ fine)) in
    let eq : k ≡ m = some_inj k m same in
    (
      ap ok eq,
      sym (ap (λ (q : Manifest). q.screen_id) eq) ∙ bound,
      sym (ap w.stringify eq) ∙ agrees,
    )

parsed_sound :
    (w : Runtime) (now : ℕ) (t : Trust) (shown m : Manifest) (o : Option Wire)
    → verify_parsed w now t shown o ≡ some m
    → ((v : Wire) × (o ≡ some v) × IsRead v m)
      × IsWellFormed w now m
      × (m.screen_id ≡ string t.screen_id)
      × (w.stringify m ≡ w.stringify shown)
unfolding verify_parsed
parsed_sound w now t shown m none h = cc
parsed_sound w now t shown m (some v) h =
    let (e, bound, agrees) = normalized_sound w t shown m _ h in
    let (read, formed) = normalize_sound w now false v v.items m refl e in
    ((v, refl, read), formed, bound, agrees)

texts_sound :
    (w : Runtime) (now : ℕ) (t : Trust) (s : Signed) (a b : Js) (shown : Option Manifest)
    (m : Manifest)
    → s.format_version ≡ whole 1
    → s.signature_algorithm ≡ string "Ed25519"
    → s.payload_json ≡ a
    → s.signature ≡ b
    → s.manifest ≡ shown
    → verify_texts w now t a b shown ≡ some m
    → Genuine w now t s m
unfolding verify_payload
texts_sound w now t s (string payload) (string signature) (some shown) m f g p q o h =
    let (verified, rest) = unless_none _ _ h in
    let ((v, parsed, read), formed, bound, agrees) = parsed_sound w now t shown m _ rest in
    record {
      format = f;
      algorithm = g;
      signed_text = (payload, signature, v, p, q, unnot _ verified, parsed, read);
      shown = (shown, o, agrees);
      bound = bound;
      well_formed = formed;
    }
texts_sound w now t s _ _ _ m f g p q o h = absurd (ground arith)

-- An envelope that verifies has format 1 and a signature of its payload under the trusted key, and
-- the manifest that it verifies to is the one that the payload says, field by field: well formed,
-- made for the trusted screen, and with the same text as the manifest that the envelope shows.
pub verify_signed_sound :
    (w : Runtime) (now : ℕ) (t : Trust) (s : Signed) (m : Manifest)
    → verify_signed w now t (some s) ≡ some m
    → Genuine w now t s m
unfolding verify_signed
verify_signed_sound w now t s m h =
    let (fine, rest) = unless_none _ _ h in
    texts_sound w now t s s.payload_json s.signature s.manifest m
      (js_eq→≡ _ _ (unnot _ (or_left _ _ fine))) (js_eq→≡ _ _ (unnot _ (or_right _ _ fine))) refl
      refl refl rest
