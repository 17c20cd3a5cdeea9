-- ===== src/Limits/Scenarios.antt =====
-- The budget of apps/api/src/utils/rate-limit.ts and the policy of media-policy.ts on examples.
use screen_goblin.Prelude.{
  ℕ, suc, ◌≤◌, ◌≡◌, ◌↔◌, refl, none, some, List, [], ◌∷◌, All, length, min, arith,
}
use screen_goblin.Limits.RateLimit.{get, passed, passed_window}
use screen_goblin.Limits.MediaPolicy.{
  PolicyAsset, image, IsFit, total_size, media_publication_failure, media_max_release_bytes,
  media_publication_failure-none,
}

abbrev later : List ℕ
later = 2000 ∷ 3000 ∷ 4000 ∷ []

passed_window_example : passed "10.0.0.1" 2 60000 (1000 ∷ later) [] ≡ min 2 (suc (length later))
unfolding get
passed_window_example =
    passed_window "10.0.0.1" 2 60000 1000 later [] refl
      (omega arith, (omega arith, (omega arith, tt)))

abbrev poster : PolicyAsset
poster = record {
  kind = image;
  mime_type = "image/png";
  checksum = "0123456789abcdef0123456789abcdef0123456789abcdef0123456789abcdef";
  size_bytes = some 4096;
  expires_at = none;
}

media_publication_failure-none_example :
    (media_publication_failure (λ s. none) 0 (poster ∷ []) ≡ none) ↔ (
      All (IsFit (λ s. none) 0) (poster ∷ [])
      × (total_size (poster ∷ []) ≤ media_max_release_bytes))
media_publication_failure-none_example = media_publication_failure-none (λ s. none) 0 (poster ∷ [])
