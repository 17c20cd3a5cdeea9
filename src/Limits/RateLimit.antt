-- ===== src/Limits/RateLimit.antt =====
-- apps/api/src/utils/rate-limit.ts: the budget kept in memory, and its enforcement. The counters
-- are an association list; `now` is the reading of `Date.now()`.
use Prim.Native.String.{String}
use text.Mathlib.Text.{◌==◌ as str_eq}
use text.Mathlib.TextEquality.{eq_iff}
use screen_goblin.Prelude.{
  ℕ, suc, ◌+◌, ◌-◌, ◌/◌, ◌<◌, ◌≡◌, refl, ap, ◌∙◌, Bool, true, false, Option, none, some, List, [],
  ◌∷◌, All, length, if◌then◌else◌, leb, ltb, min, max, arith,
}

pub record Counter : Type 0 where
  pub count : ℕ
  pub expires_at : ℕ

abbrev pub Counters : Type 0
Counters = List (String × Counter)

unfoldable pub get : String → Counters → Option Counter
get k [] = none
get k ((j, c) ∷ cs) = if str_eq j k then some c else get k cs

unfoldable pub put : String → Counter → Counters → Counters
put k c [] = (k, c) ∷ []
put k c ((j, d) ∷ cs) = if str_eq j k then (k, c) ∷ cs else (j, d) ∷ put k c cs

pub get-put :
    (k j : String) (c : Counter) (cs : Counters)
    → get j (put k c cs) ≡ (if str_eq k j then some c else get j cs)
unfolding get put
get-put k j c [] = refl
get-put k j c ((i, d) ∷ cs) = ground (arith, eq_iff k j, eq_iff i k, eq_iff i j, get-put k j c cs)

pub record Answer : Type 0 where
  pub allowed : Bool
  pub retry_after_seconds : ℕ

-- Whether there is a counter whose window is open.
abbrev pub is_live : Option Counter → ℕ → Bool
is_live none now = false
is_live (some c) now = ltb now c.expires_at

-- The counter that a call starts from.
abbrev pub current : ℕ → ℕ → Option Counter → Counter
current now window none = record { count = 0; expires_at = now + window }
current now window (some c) =
    if ltb now c.expires_at then c else record { count = 0; expires_at = now + window }

-- The counter after a call.
unfoldable pub counted : ℕ → ℕ → Option Counter → Counter
counted now window o =
    let c = current now window o in record { count = suc c.count; expires_at = c.expires_at }

-- `MemoryRateLimitBudget.consume`.
unfoldable pub consume : ℕ → String → ℕ → ℕ → Counters → Counters × Answer
consume now key maximum window cs =
    let c = counted now window (get key cs) in
    (
      put key c cs,
      record {
        allowed = leb c.count maximum;
        retry_after_seconds = max 1 ((c.expires_at - now + 999) / 1000);
      },
    )

pub data ApiError : Type 0 where
  rate_limit_unavailable rate_limited : ApiError

-- `enforceRateLimitBudget` on what `consume` answers, `none` where it throws.
unfoldable pub enforce : Option Answer → Option ApiError
enforce none = some rate_limit_unavailable
enforce (some a) = if a.allowed then none else some rate_limited

-- How many of the calls with one key at these times are let through.
unfoldable pub passed : String → ℕ → ℕ → List ℕ → Counters → ℕ
passed key maximum window [] cs = 0
passed key maximum window (now ∷ ns) cs =
    let rest = passed key maximum window ns (consume now key maximum window cs).0 in
    if (consume now key maximum window cs).1.allowed then suc rest else rest

same_key : (k : String) → str_eq k k ≡ true
same_key k = (eq_iff k k).1 refl

get-consume :
    (now : ℕ) (k : String) (maximum window : ℕ) (cs : Counters)
    → get k (consume now k maximum window cs).0 ≡ some (counted now window (get k cs))
unfolding consume
get-consume now k maximum window cs = rw (get-put, same_key k)

allowed-consume :
    (now : ℕ) (k : String) (maximum window : ℕ) (cs : Counters)
    → (consume now k maximum window cs).1.allowed
      ≡ leb (counted now window (get k cs)).count maximum
unfolding consume
allowed-consume now k maximum window cs = refl

counted_live :
    (now window count expires : ℕ)
    → now < expires
    → counted now window (some (record { count = count; expires_at = expires }))
      ≡ record { count = suc count; expires_at = expires }
unfolding counted
counted_live now window count expires h = ground arith

passed_within :
    (k : String) (maximum window expires count : ℕ) (ns : List ℕ) (cs : Counters)
    → get k cs ≡ some (record { count = count; expires_at = expires })
    → All (λ now. now < expires) ns
    → passed k maximum window ns cs ≡ min (maximum - count) (length ns)
unfolding passed
passed_within k maximum window expires count [] cs g early = omega arith
passed_within k maximum window expires count (now ∷ ns) cs g early =
    let live = ap (counted now window) g ∙ counted_live now window count expires early.0 in
    let next = get-consume now k maximum window cs ∙ ap some live in
    let tally =
      allowed-consume now k maximum window cs ∙ ap (λ (c : Counter). leb c.count maximum) live in
    let rest =
      passed_within k maximum window expires (suc count) ns (consume now k maximum window cs).0 next
        early.1 in
    ground (arith, tally, rest)

counted_fresh :
    (now window : ℕ) (o : Option Counter)
    → is_live o now ≡ false
    → counted now window o ≡ record { count = 1; expires_at = now + window }
unfolding counted
counted_fresh now window o h = ground arith

-- From a call that finds no live counter for its key, of that call and the calls with the key
-- until the window has passed exactly the first `maximum` are let through.
pub passed_window :
    (k : String) (maximum window now : ℕ) (ns : List ℕ) (cs : Counters)
    → is_live (get k cs) now ≡ false
    → All (λ later. later < now + window) ns
    → passed k maximum window (now ∷ ns) cs ≡ min maximum (suc (length ns))
unfolding passed
passed_window k maximum window now ns cs fresh early =
    let first = counted_fresh now window (get k cs) fresh in
    let next = get-consume now k maximum window cs ∙ ap some first in
    let tally =
      allowed-consume now k maximum window cs ∙ ap (λ (c : Counter). leb c.count maximum) first in
    let rest =
      passed_within k maximum window (now + window) 1 ns (consume now k maximum window cs).0 next
        early in
    ground (arith, tally, rest)
