-- ===== src/Store/Releases/Review.antt =====
-- apps/api/src/store/memory.ts: the approvals that candidates have.
use Prim.Native.String.{String}
use text.Mathlib.Text.{◌==◌ as str_eq}
use mathlib.Core.List.{Memᴰ}
use mathlib.Core.List.Memᴰ.{cases_cons}
use screen_goblin.Prelude.{
  ◌≡◌, sym, ap, ◌∙◌, ◌⊎◌, inl, inr, Bool, true, false, Option, none, some, List, [], ◌∷◌,
  if◌then◌else◌, subst,
}
use screen_goblin.Prelude.Search.{find_sound}
use screen_goblin.Store.Releases.Types.{
  Candidate, Approval, State, draft, in_review, approved, published,
}
use screen_goblin.Store.Releases.Idempotency.{is_candidate}
use screen_goblin.Store.Releases.Candidates.{assign_first}
use screen_goblin.Store.Releases.Lifecycle.{
  Step, submits, approves, publishes, IsSameContent, Effect, stays, moves,
}

-- The approval is another user's, and of the digest that the candidate has.
pub record IsIndependent (c : Candidate) (a : Approval) : Type 0 where
  pub other : str_eq c.author_user_id a.approver_user_id ≡ false
  pub digest : a.candidate_digest_sha256 ≡ c.digest_sha256

-- What a candidate has in a state, given its approval.
abbrev pub HasApproval : Candidate → State → Option Approval → Type 0
HasApproval c draft a = a ≡ none
HasApproval c in_review a = a ≡ none
HasApproval c approved a = (x : Approval) × (a ≡ some x) × IsIndependent c x
HasApproval c published a = (x : Approval) × (a ≡ some x) × IsIndependent c x

-- A candidate that was approved or published has an approval of its digest by a user other than
-- its author; one that was not has none.
abbrev pub IsReviewed : Candidate → Type 0
IsReviewed c = HasApproval c c.state c.approval

abbrev pub AreReviewed : List Candidate → Type 0
AreReviewed cs = (c : Candidate) → Memᴰ c cs → IsReviewed c

pub assign_first_Mem :
    (test : Candidate → Bool) (c : Candidate) (cs : List Candidate) (x : Candidate)
    → Memᴰ x (assign_first test c cs)
    → (x ≡ c) ⊎ Memᴰ x cs
unfolding assign_first
assign_first_Mem test c [] x m = elim m [ ]
assign_first_Mem test c (y ∷ ys) x m =
    (elim (test y)
        as (λ b.
          Memᴰ x (if b then c ∷ ys else y ∷ assign_first test c ys) → (x ≡ c) ⊎ Memᴰ x (y ∷ ys)) [
            | true ↦ λ k. elim (cases_cons k) [ inl e ↦ inl e | inr r ↦ inr (Memᴰ.tail r) ]
            | false ↦ λ k. elim (cases_cons k) [
              | inl e ↦ inr (Memᴰ.head e)
              | inr r ↦ elim (assign_first_Mem test c ys x r) [
                | inl e ↦ inl e
                | inr q ↦ inr (Memᴰ.tail q)
              ]
            ]
          ])
      m

pub assigned-AreReviewed :
    (test : Candidate → Bool) (c : Candidate) (cs : List Candidate)
    → AreReviewed cs
    → IsReviewed c
    → AreReviewed (assign_first test c cs)
assigned-AreReviewed test c cs all r x m = elim (assign_first_Mem test c cs x m) [
  | inl e ↦ subst IsReviewed (sym e) r
  | inr n ↦ all x n
]

pub Step-IsReviewed :
    (user : String) (c d : Candidate)
    → Step user c d
    → IsSameContent c d
    → IsReviewed c
    → IsReviewed d
Step-IsReviewed user c d (submits e mine f g) same r =
    let none' : c.approval ≡ none = subst (λ st. HasApproval c st c.approval) e r in
    subst (λ st. HasApproval d st d.approval) (sym f) (g ∙ none')
Step-IsReviewed user c d (approves a e other f g by digest) same r =
    subst (λ st. HasApproval d st d.approval) (sym f)
      (
        a,
        g,
        record {
          other =
              ap (λ q. str_eq q a.approver_user_id) same.author
              ∙ ap (str_eq c.author_user_id) by
              ∙ other;
          digest = digest ∙ sym same.digest;
        },
      )
Step-IsReviewed user c d (publishes a e f digest g h) same r =
    let (x, has, free) = subst (λ st. HasApproval c st c.approval) e r in
    subst (λ st. HasApproval d st d.approval) (sym g)
      (
        x,
        h ∙ has,
        record {
          other = ap (λ q. str_eq q x.approver_user_id) same.author ∙ free.other;
          digest = free.digest ∙ sym same.digest;
        },
      )

pub Effect-AreReviewed :
    (user org : String) (cs cs' : List Candidate)
    → Effect user org cs cs'
    → AreReviewed cs
    → AreReviewed cs'
Effect-AreReviewed user org cs cs' (stays e) all = subst AreReviewed (sym e) all
Effect-AreReviewed user org cs cs' (moves c d f step same e) all = subst AreReviewed (sym e) (
    assigned-AreReviewed (is_candidate org c.id) d cs all
      (Step-IsReviewed user c d step same (all c (find_sound (is_candidate org c.id) cs c f).0)))
