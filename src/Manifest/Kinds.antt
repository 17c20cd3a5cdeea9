-- ===== src/Manifest/Kinds.antt =====
-- apps/player/src/core/manifest.ts: the kinds and addresses that an item may have, stated without
-- the tests of the code.
use Prim.Native.String.{String}
use text.Mathlib.Text.{◌==◌ as str_eq}
use mathlib.Core.List.{Memᴰ}
use screen_goblin.Prelude.{
  or_true, and_true, ◌≡◌, refl, ◌⊎◌, inl, inr, Bool, true, false, not, ◌||◌, ◌&&◌, Option, none,
  some, List, [], ◌∷◌, arith, if◌then◌else◌,
}
use screen_goblin.Prelude.Texts.{is_empty, same→eq}
use screen_goblin.Prelude.Js.{Js, string, js_eq→≡}
use screen_goblin.Manifest.Types.{Asset, Runtime, Url}
use screen_goblin.Manifest.Validation.{
  is, emergency_mime, is_allowed_kind_and_mime, is_local_host, is_allowed_asset_url, has_url,
}

-- A picture, a video or a template of its format, or in an emergency the template of emergencies.
pub data IsFitKind (a : Asset) (priority : Js) : Type 0 where
  emergency_template :
      priority ≡ string "emergency"
      → a.kind ≡ string "template"
      → a.mime_type ≡ string emergency_mime
      → IsFitKind a priority
  jpeg : a.kind ≡ string "image" → a.mime_type ≡ string "image/jpeg" → IsFitKind a priority
  png : a.kind ≡ string "image" → a.mime_type ≡ string "image/png" → IsFitKind a priority
  mp4 : a.kind ≡ string "video" → a.mime_type ≡ string "video/mp4" → IsFitKind a priority
  json : a.kind ≡ string "template" → a.mime_type ≡ string "application/json" → IsFitKind a priority

abbrev pub local_hosts : List String
local_hosts = "localhost" ∷ "127.0.0.1" ∷ "::1" ∷ []

-- The address is a URL without credentials and fragment, and without a query unless it is of the
-- legacy protocol, over HTTPS, over HTTP to this host, or a data URL for the template of an emergency.
pub record IsFitUrl (w : Runtime) (v : Js) (template legacy : Bool) : Type 0 where
  pub text : String
  pub is_text : v ≡ string text
  pub url : Url
  pub parsed : w.parse_url text ≡ some url
  pub bare : (url.username ≡ "") × (url.password ≡ "") × (url.hash ≡ "")
  pub query : (legacy ≡ true) ⊎ (url.search ≡ "")
  pub scheme :
      (url.protocol ≡ "https:")
      ⊎ (((url.protocol ≡ "http:") × Memᴰ url.hostname local_hosts)
          ⊎ ((template ≡ true) × (url.protocol ≡ "data:")))

is→≡ : (v : Js) (s : String) → is v s ≡ true → v ≡ string s
is→≡ v s h = js_eq→≡ v (string s) h

pub kind_sound :
    (a : Asset) (priority : Js) → is_allowed_kind_and_mime a priority ≡ true → IsFitKind a priority
unfolding is_allowed_kind_and_mime
kind_sound a priority h = elim (or_true _ _ h) [
  | inr t ↦ let (k, m) = and_true _ _ t in json (is→≡ _ _ k) (is→≡ _ _ m)
  | inl h1 ↦ elim (or_true _ _ h1) [
    | inr t ↦ let (k, m) = and_true _ _ t in mp4 (is→≡ _ _ k) (is→≡ _ _ m)
    | inl h2 ↦ elim (or_true _ _ h2) [
      | inr t ↦
          let (k, mime) = and_true _ _ t in
          elim (or_true _ _ mime) [
            | inl m ↦ jpeg (is→≡ _ _ k) (is→≡ _ _ m)
            | inr m ↦ png (is→≡ _ _ k) (is→≡ _ _ m)
          ]
      | inl t ↦
          let (u, m) = and_true _ _ t in
          let (p, k) = and_true _ _ u in emergency_template (is→≡ _ _ p) (is→≡ _ _ k) (is→≡ _ _ m)
    ]
  ]
]

local_host_sound : (h : String) → is_local_host h ≡ true → Memᴰ h local_hosts
local_host_sound h e = elim (or_true _ _ e) [
  | inr c ↦ Memᴰ.tail (Memᴰ.tail (Memᴰ.head (same→eq _ _ c)))
  | inl f ↦ elim (or_true _ _ f) [
    | inr b ↦ Memᴰ.tail (Memᴰ.head (same→eq _ _ b))
    | inl a ↦ Memᴰ.head (same→eq _ _ a)
  ]
]

-- The tests on a URL, by their values.
url_tests :
    (name pass search hash legacy https http local template inline : Bool)
    → (if not name || not pass || (not legacy && not search) || not hash
        then false
        else if https
        then true
        else if http && local
        then true
        else template && inline)
      ≡ true
    → ((name ≡ true) × (pass ≡ true) × (hash ≡ true))
      × ((legacy ≡ true) ⊎ (search ≡ true))
      × ((https ≡ true)
          ⊎ (((http ≡ true) × (local ≡ true)) ⊎ ((template ≡ true) × (inline ≡ true))))
url_tests name pass search hash legacy https http local template inline h = ground arith

allowed_sound :
    (w : Runtime) (s : String) (template legacy : Bool) (o : Option Url)
    → w.parse_url s ≡ o
    → is_allowed_asset_url w s template legacy ≡ true
    → IsFitUrl w (string s) template legacy
unfolding is_allowed_asset_url
allowed_sound w s template legacy none e h = absurd (ground (arith, e, h))
allowed_sound w s template legacy (some u) e h =
    let ((name, pass, hash), query, scheme) =
      url_tests (is_empty u.username) (is_empty u.password) (is_empty u.search) (is_empty u.hash)
        legacy (str_eq u.protocol "https:") (str_eq u.protocol "http:") (is_local_host u.hostname)
        template (str_eq u.protocol "data:") (ground (arith, e, h)) in
    record {
      text = s;
      is_text = refl;
      url = u;
      parsed = e;
      bare = (same→eq _ _ name, same→eq _ _ pass, same→eq _ _ hash);
      query = elim query [ inl l ↦ inl l | inr q ↦ inr (same→eq _ _ q) ];
      scheme = elim scheme [
        | inl a ↦ inl (same→eq _ _ a)
        | inr r ↦ elim r [
          | inl (b, l) ↦ inr (inl (same→eq _ _ b, local_host_sound u.hostname l))
          | inr (t, d) ↦ inr (inr (t, same→eq _ _ d))
        ]
      ];
    }

pub url_sound :
    (w : Runtime) (v : Js) (template legacy : Bool)
    → has_url w v template legacy ≡ true
    → IsFitUrl w v template legacy
url_sound w (string s) template legacy h = allowed_sound w s template legacy _ refl h
url_sound w _ template legacy h = absurd (ground arith)
