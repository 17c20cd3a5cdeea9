-- ===== src/Prelude/Js.antt =====
-- A JavaScript value that the program has not narrowed yet, and its own tests on it.
use Prim.Native.Char.{code}
use Prim.Native.String.{String}
use text.Mathlib.Text.{◌==◌ as str_eq}
use text.Mathlib.TextEquality.{eq_iff}
use mathlib.Core.Path.{◌≡◌, ap}
use mathlib.Core.Bool.{Bool, true, false, not, ◌&&◌, ◌||◌}
use mathlib.Core.List.{List, [], ◌∷◌}
use native.Mathlib.Omega.{arith}
use Prim.Native.Nat.{ℕ, suc, ◌-◌}
use screen_goblin.Prelude.Tests.{if◌then◌else◌, ◌==◌, leb, ltb}

-- `whole` is a number that is a natural one, `fraction` numbers all others; `object` numbers
-- the objects and arrays.
pub data Js : Type 0 where
  undefined null : Js
  boolean : Bool → Js
  whole fraction object : ℕ → Js
  string : String → Js

unfoldable pub truthy : Js → Bool
truthy undefined = false
truthy null = false
truthy (boolean b) = b
truthy (whole n) = not (n == 0)
truthy (fraction n) = true
truthy (object n) = true
truthy (string s) = not (str_eq s "")

abbrev pub bool_eq : Bool → Bool → Bool
bool_eq true b = b
bool_eq false b = not b

-- `a === b`.
unfoldable pub js_eq : Js → Js → Bool
js_eq undefined undefined = true
js_eq null null = true
js_eq (boolean a) (boolean b) = bool_eq a b
js_eq (whole a) (whole b) = a == b
js_eq (fraction a) (fraction b) = a == b
js_eq (object a) (object b) = a == b
js_eq (string a) (string b) = str_eq a b
js_eq _ _ = false

pub js_eq→≡ : (a b : Js) → js_eq a b ≡ true → a ≡ b
unfolding js_eq
js_eq→≡ (string a) (string b) h = ap string ((eq_iff a b).0 h)
js_eq→≡ a b h = ground arith

abbrev pub is_undefined : Js → Bool
is_undefined undefined = true
is_undefined _ = false

abbrev pub is_string : Js → Bool
is_string (string s) = true
is_string _ = false

abbrev pub is_boolean : Js → Bool
is_boolean (boolean b) = true
is_boolean _ = false

-- The code points of a text.
unfoldable pub codes : String → List ℕ
codes String.[] = []
codes (String.◌∷◌ c s) = code c ∷ codes s

abbrev pub is_digit : ℕ → Bool
is_digit c = leb b'0' c && leb c b'9'

abbrev pub is_hex : ℕ → Bool
is_hex c = is_digit c || (leb b'a' c && leb c b'f') || (leb b'A' c && leb c b'F')

-- `[A-Za-z0-9_-]`.
abbrev pub is_base64url : ℕ → Bool
is_base64url c =
    is_digit c || (leb b'a' c && leb c b'z') || (leb b'A' c && leb c b'Z') || c == b'_' || c == b'-'

-- All characters pass and there are `n` of them.
unfoldable pub are_exactly : (ℕ → Bool) → ℕ → List ℕ → Bool
are_exactly test n [] = n == 0
are_exactly test n (c ∷ cs) = ltb 0 n && test c && are_exactly test (n - 1) cs

-- `/^[a-f\d]{64}$/i`.
abbrev pub is_sha256 : String → Bool
is_sha256 s = are_exactly is_hex 64 (codes s)

-- After `n` characters of the first part: at most 4052 of them, a dot, and 43 more.
unfoldable pub is_capability_from : ℕ → List ℕ → Bool
is_capability_from n [] = false
is_capability_from n (c ∷ cs) =
    let rest = is_capability_from (suc n) cs in
    if c == b'.'
    then leb 1 n && leb n 4052 && are_exactly is_base64url 43 cs
    else is_base64url c && rest

-- `MEDIA_CAPABILITY`.
abbrev pub is_media_capability : Js → Bool
is_media_capability (string s) = is_capability_from 0 (codes s)
is_media_capability _ = false
