-- ===== src/Store/Releases/Approvals.antt =====
-- apps/api/src/store/memory.ts: creations, commands and the approvals of candidates.
use Prim.Native.String.{String}
use mathlib.Core.List.{Memᴰ}
use mathlib.Core.List.Memᴰ.{cases_cons}
use screen_goblin.Prelude.{
  ℕ, ◌≡◌, refl, sym, ◌⊎◌, inl, inr, not, List, [], ◌∷◌, ◌++◌, arith, Bool-cases, sum-cases, subst,
}
use screen_goblin.Prelude.Texts.{unique}
use screen_goblin.Prelude.Sorting.{sort}
use screen_goblin.Prelude.Search.{filter, filter_Mem}
use screen_goblin.Store.Releases.Types.{Candidate, ReleaseStore, Backend}
use screen_goblin.Store.Releases.Idempotency.{ReleaseAudit, Key, take}
use screen_goblin.Store.Releases.Pruning.{
  CandidateInput, prune_expired, prune, prune_le, is_prunable, has_id,
}
use screen_goblin.Store.Releases.Creation.{
  CreateIds, create_pruned, create_candidate, create_release_candidate, release_to_create,
  release_of, new_candidate,
}
use screen_goblin.Store.Releases.Lifecycle.{Command, run_command, run_command-Effect}
use screen_goblin.Store.Releases.Review.{IsReviewed, AreReviewed, Effect-AreReviewed}

pruned-AreReviewed :
    (b : Backend) (org : String) (now : ℕ) (audit : ReleaseAudit) (s : ReleaseStore)
    → AreReviewed s.candidates
    → AreReviewed (prune_expired b org now audit s).candidates
unfolding prune_expired prune
pruned-AreReviewed b org now audit s all =
    elim (take 20 (sort (prune_le b) (filter (is_prunable org now) s.candidates)))
      as (λ cs.
        AreReviewed
          (elim cs as (λ x. ReleaseStore) [
            | [] ↦ s
            | c ∷ cs' ↦ prune (c ∷ cs') org audit s
          ]).candidates) [
            | [] ↦ all
            | c ∷ cs ↦ λ x m.
                all x
                  (filter_Mem (λ (d : Candidate). not (has_id (c ∷ cs) d.id)) s.candidates x m).0
          ]

-- What a creation leaves among the candidates: those that were not pruned, and perhaps a draft.
created_candidates :
    (b : Backend) (origins : List String) (new : CreateIds) (org : String) (i : CandidateInput)
    (audit : ReleaseAudit) (key : Key) (now : ℕ) (s : ReleaseStore)
    → ((create_pruned b origins new org i audit key now s).0.candidates ≡ s.candidates)
      ⊎ ((c : Candidate) × IsReviewed c
          × ((create_pruned b origins new org i audit key now s).0.candidates
              ≡ s.candidates ++ c ∷ []))
unfolding create_pruned create_candidate
created_candidates b origins new org i audit key now s =
    let ids = sort b.text_le (unique [] i.screen_ids) in
    elim (sum-cases (release_to_create b origins org now ids i s)) [
      | inl (reason, e) ↦ inl (ground (arith, e))
      | inr (x, e) ↦ elim (Bool-cases audit.is_auditable) [
        | inr n ↦ inl (ground (arith, e, n))
        | inl fine ↦ inr (
          new_candidate b new.candidate_id org audit now ids i x
              (release_of b new.release_id org audit now x s.releases).0,
          refl,
          ground (arith, e, fine),
        )
      ]
    ]

appended-AreReviewed :
    (cs : List Candidate) (c : Candidate)
    → AreReviewed cs
    → IsReviewed c
    → AreReviewed (cs ++ c ∷ [])
appended-AreReviewed [] c all r x m = elim (cases_cons m) [
  | inl e ↦ subst IsReviewed (sym e) r
  | inr n ↦ elim n [ ]
]
appended-AreReviewed (y ∷ ys) c all r x m = elim (cases_cons m) [
  | inl e ↦ subst IsReviewed (sym e) (all y (Memᴰ.head refl))
  | inr n ↦ appended-AreReviewed ys c (λ z k. all z (Memᴰ.tail k)) r x n
]

-- A creation keeps the candidates as they are, or has pruned them before its work.
creation_inversion :
    (b : Backend) (origins : List String) (new : CreateIds) (org : String) (i : CandidateInput)
    (audit : ReleaseAudit) (key : Key) (now : ℕ) (s : ReleaseStore)
    → ((create_release_candidate b origins new org i audit key now s).0 ≡ s)
      ⊎ (create_release_candidate b origins new org i audit key now s
          ≡ create_pruned b origins new org i audit key now (prune_expired b org now audit s))
unfolding create_release_candidate
creation_inversion b origins new org i audit key now s = ground arith

create-AreReviewed :
    (b : Backend) (origins : List String) (new : CreateIds) (org : String) (i : CandidateInput)
    (audit : ReleaseAudit) (key : Key) (now : ℕ) (s : ReleaseStore)
    → AreReviewed s.candidates
    → AreReviewed (create_release_candidate b origins new org i audit key now s).0.candidates
create-AreReviewed b origins new org i audit key now s all =
    elim (creation_inversion b origins new org i audit key now s) [
      | inl e ↦ subst (λ (t : ReleaseStore). AreReviewed t.candidates) (sym e) all
      | inr e ↦
          let p = prune_expired b org now audit s in
          let kept = pruned-AreReviewed b org now audit s all in
          let done' : AreReviewed (create_pruned b origins new org i audit key now p).0.candidates =
            elim (created_candidates b origins new org i audit key now p) [
              | inl k ↦ subst AreReviewed (sym k) kept
              | inr (c, r, k) ↦
                  subst AreReviewed (sym k) (appended-AreReviewed p.candidates c kept r)
            ] in
          subst (λ q. AreReviewed q.0.candidates) (sym e) done'
    ]

-- A command on the candidates of an organization at a time.
pub data Request : Type 0 where
  creates : (origins : List String) (new : CreateIds) (i : CandidateInput) → Request
  commands : Command → Request

pub record Call : Type 0 where
  pub org : String
  pub audit : ReleaseAudit
  pub key : Key
  pub now : ℕ
  pub request : Request

unfoldable pub handle : Backend → Call → Request → ReleaseStore → ReleaseStore
handle b k (creates origins new i) s =
    (create_release_candidate b origins new k.org i k.audit k.key k.now s).0
handle b k (commands x) s = (run_command b k.org k.audit k.key k.now x s).0

unfoldable pub handle_all : Backend → List Call → ReleaseStore → ReleaseStore
handle_all b [] s = s
handle_all b (k ∷ ks) s = handle_all b ks (handle b k k.request s)

handle-AreReviewed :
    (b : Backend) (k : Call) (x : Request) (s : ReleaseStore)
    → AreReviewed s.candidates
    → AreReviewed (handle b k x s).candidates
unfolding handle
handle-AreReviewed b k (creates origins new i) s all =
    create-AreReviewed b origins new k.org i k.audit k.key k.now s all
handle-AreReviewed b k (commands x) s all =
    Effect-AreReviewed k.audit.actor_user_id k.org s.candidates _
      (run_command-Effect b k.org k.audit k.key k.now x s) all

-- Through any creations, submissions, approvals and publications, every candidate that is
-- approved or published has an approval of the very digest that it has by a user other than its
-- author, and every other candidate has none, if it was so at first.
pub handle_all-AreReviewed :
    (b : Backend) (ks : List Call) (s : ReleaseStore)
    → AreReviewed s.candidates
    → AreReviewed (handle_all b ks s).candidates
unfolding handle_all
handle_all-AreReviewed b [] s all = all
handle_all-AreReviewed b (k ∷ ks) s all =
    handle_all-AreReviewed b ks (handle b k k.request s) (handle-AreReviewed b k k.request s all)
