-- ===== src/Store/Releases/Pruning.antt =====
-- apps/api/src/store/memory.ts: the pruning of candidates that a creation begins with.
use Prim.Native.String.{String}
use text.Mathlib.Text.{◌==◌ as str_eq}
use screen_goblin.Prelude.{
  ℕ, ◌+◌, Bool, not, ◌||◌, ◌&&◌, none, some, List, [], ◌∷◌, ◌++◌, ltb, leb, ◌==◌,
}
use screen_goblin.Prelude.Sorting.{sort}
use screen_goblin.Prelude.Search.{any, filter}
use screen_goblin.Store.Identity.{event}
use screen_goblin.Store.Releases.Types.{
  Release, Timetable, Candidate, Assignment, published, ReleaseStore, Backend,
}
use screen_goblin.Store.Releases.Idempotency.{ReleaseAudit, is_state, response_retention, take}

-- `SchedulePublicationInput & { expiresAt }`.
pub record CandidateInput : Type 0 where
  pub playlist_id : String
  pub schedule : Timetable
  pub screen_ids : List String
  pub expires_at : ℕ

-- Seven days.
abbrev pub max_candidate_life : ℕ
max_candidate_life = 604800000

-- A candidate that was not published and expired long ago.
abbrev pub is_prunable : String → ℕ → Candidate → Bool
is_prunable org now c =
    str_eq c.organization_id org
    && not (is_state c.state published)
    && leb (c.expires_at + response_retention) now

abbrev pub prune_le : Backend → Candidate → Candidate → Bool
prune_le b c d =
    ltb c.expires_at d.expires_at || (c.expires_at == d.expires_at && b.locale_le c.id d.id)

abbrev pub has_id : List Candidate → String → Bool
has_id cs id = any (λ (c : Candidate). str_eq c.id id) cs

abbrev pub has_release : List Candidate → String → Bool
has_release cs id = any (λ (c : Candidate). str_eq c.release_id id) cs

-- A release that a pruned candidate had stays while a candidate or an assignment has it.
abbrev pub is_release_kept : List Candidate → List Candidate → List Assignment → Release → Bool
is_release_kept pruned kept assignments r =
    not (has_release pruned r.id)
    || has_release kept r.id
    || any (λ (a : Assignment). str_eq a.release_id r.id) assignments

unfoldable pub prune : List Candidate → String → ReleaseAudit → ReleaseStore → ReleaseStore
prune pruned org audit s =
    let kept = filter (λ (c : Candidate). not (has_id pruned c.id)) s.candidates in
    record s {
      candidates = kept;
      releases = filter (is_release_kept pruned kept s.assignments) s.releases;
      audit_records =
          s.audit_records
          ++ event org (some audit.actor_user_id) "release.candidate.expired_pruned"
              "release_candidate" none
            ∷ [];
    }

-- The oldest twenty of the prunable candidates are dropped.
unfoldable pub prune_expired : Backend → String → ℕ → ReleaseAudit → ReleaseStore → ReleaseStore
prune_expired b org now audit s =
    elim (take 20 (sort (prune_le b) (filter (is_prunable org now) s.candidates))) [
      | [] ↦ s
      | c ∷ cs ↦ prune (c ∷ cs) org audit s
    ]
