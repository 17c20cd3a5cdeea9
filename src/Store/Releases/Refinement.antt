-- ===== src/Store/Releases/Refinement.antt =====
-- apps/api/src/store/memory.ts: the stored candidates against the life of a candidate.
use Prim.Native.String.{String}
use text.Mathlib.Text.{◌==◌ as str_eq}
use screen_goblin.Prelude.{
  ◌≡◌, inl, inr, Bool, true, Option, some, List, [], ◌∷◌, arith, Bool-cases,
}
use screen_goblin.Prelude.Search.{find}
use screen_goblin.Store.Releases.Types.{Candidate}
use screen_goblin.Store.Releases.Idempotency.{is_candidate}
use screen_goblin.Store.Releases.Candidates.{assign_first}

-- `getReleaseCandidate`.
unfoldable pub get_candidate : String → String → List Candidate → Option Candidate
get_candidate org id cs = find (is_candidate org id) cs

pub found_assigned :
    (test : Candidate → Bool) (c d : Candidate) (cs : List Candidate)
    → find test cs ≡ some c
    → test d ≡ true
    → find test (assign_first test d cs) ≡ some d
unfolding find assign_first
found_assigned test c d [] h t = cc
found_assigned test c d (x ∷ xs) h t = elim (Bool-cases (test x)) [
  | inl e ↦ rw e (rw t)
  | inr n ↦ rw n (rw n (found_assigned test c d xs (ground (arith, h, n)) t))
]
