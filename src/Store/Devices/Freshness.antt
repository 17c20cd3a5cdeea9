-- ===== src/Store/Devices/Freshness.antt =====
-- apps/api/src/store/memory.ts: the references of device challenges, and those that are used.
use Prim.Native.String.{String}
use mathlib.Core.List.{Memᴰ}
use screen_goblin.Prelude.{
  ℕ, ◌≤◌, ◌<◌, ◌≡◌, ◌≢◌, refl, ap, ◌∙◌, ◌⊎◌, inl, inr, Bool, true, Option, none, some, List, [],
  ◌∷◌, arith, Bool-cases, is_some,
}
use screen_goblin.Prelude.Search.{update_if, filter_Mem, update_if_Mem, Mem-snoc}
use screen_goblin.Store.Devices.Challenges.{
  Credential, DeviceScreen, Challenge, DeviceStore, ChallengeInput, issue_device_auth_challenge,
  is_issue_refused, new_challenge, prune_old_challenges,
}
use screen_goblin.Store.Devices.Proofs.{consume}
use screen_goblin.Store.Devices.Traces.{Use, World}

-- The challenge of a use served its proof: it was not used up, not over, and for the hash, the
-- operation and the request of the proof.
pub record IsServed (u : Use) : Type 0 where
  pub unused : u.challenge.consumed_at ≡ none
  pub live : u.at < u.challenge.expires_at
  pub id : u.challenge.id ≡ u.input.challenge_id
  pub credential : u.challenge.credential_id ≡ u.input.credential_id
  pub hash : u.challenge.challenge_hash ≡ u.input.challenge_hash
  pub operation : u.challenge.operation ≡ u.input.operation
  pub request : u.challenge.request_digest ≡ u.input.request_digest

-- No two uses are of the same challenge, and each challenge served its proof.
abbrev pub AreSingle : List Use → Type 0
AreSingle [] = Unit
AreSingle (u ∷ us) =
    ((v : Use) → Memᴰ v us → v.challenge.reference ≢ u.challenge.reference)
    × IsServed u
    × AreSingle us

-- Every challenge and every use has a reference below the next one, and a challenge that was used
-- is consumed.
pub record IsFresh (w : World) : Type 0 where
  pub challenges : (c : Challenge) → Memᴰ c w.store.challenges → c.reference < w.store.next
  pub uses : (u : Use) → Memᴰ u w.uses → u.challenge.reference < w.store.next
  pub consumed :
      (c : Challenge) (u : Use)
      → Memᴰ c w.store.challenges
      → Memᴰ u w.uses
      → u.challenge.reference ≡ c.reference
      → is_some c.consumed_at ≡ true
  pub single : AreSingle w.uses

-- What a change of the store leaves of the challenges: old ones, perhaps consumed, and new ones.
abbrev pub IsAfter : DeviceStore → DeviceStore → Challenge → Type 0
IsAfter s t c =
    ((d : Challenge) × Memᴰ d s.challenges
      × (c.reference ≡ d.reference)
      × (is_some d.consumed_at ≡ true → is_some c.consumed_at ≡ true))
    ⊎ ((s.next ≤ c.reference) × (c.reference < t.next))

pub IsFresh-after :
    (w : World) (t : DeviceStore)
    → IsFresh w
    → w.store.next ≤ t.next
    → ((c : Challenge) → Memᴰ c t.challenges → IsAfter w.store t c)
    → IsFresh (record w { store = t })
IsFresh-after w t is grows after = record {
  challenges = λ c m. elim (after c m) [
    | inl (d, k, e, _) ↦ ground (arith, is.challenges d k, e, grows)
    | inr (_, b) ↦ b
  ];
  uses = λ u m. ground (arith, is.uses u m, grows);
  consumed = λ c u m n e. elim (after c m) [
    | inl (d, k, f, g) ↦ g (is.consumed d u k n (e ∙ f))
    | inr (b, _) ↦ absurd (ground (arith, is.uses u n, e, b))
  ];
  single = is.single;
}

pub issue-IsAfter :
    (locale_le : String → String → Bool) (id : String) (now : ℕ) (i : ChallengeInput)
    (o : Option (Credential × DeviceScreen)) (s : DeviceStore)
    → (s.next ≤ (issue_device_auth_challenge locale_le id now i o s).0.next)
      × ((c : Challenge)
          → Memᴰ c (issue_device_auth_challenge locale_le id now i o s).0.challenges
          → IsAfter s (issue_device_auth_challenge locale_le id now i o s).0 c)
unfolding issue_device_auth_challenge prune_old_challenges
issue-IsAfter locale_le id now i none s = (omega arith, λ c m. inl (c, m, refl, λ k. k))
issue-IsAfter locale_le id now i (some (a, x)) s = elim (Bool-cases (is_issue_refused now i a s)) [
  | inl r ↦ rw r (omega arith, λ c m. inl (c, m, refl, λ k. k))
  | inr r ↦ rw r (
    omega arith,
    λ c m. elim (Mem-snoc _ (new_challenge s.next id now i a) c m) [
      | inl k ↦ inl (c, (filter_Mem _ s.challenges c k).0, refl, λ q. q)
      | inr e ↦
          let at : c.reference ≡ s.next = ap (λ (d : Challenge). d.reference) e in
          inr (ground (arith, at), ground (arith, at))
    ],
  )
]

-- What is consumed is consumed; what is not stays as it is.
pub consumed-IsAfter :
    (test : Challenge → Bool) (now : ℕ) (s t : DeviceStore) (c : Challenge)
    → Memᴰ c (update_if test (consume now) s.challenges)
    → IsAfter s t c
consumed-IsAfter test now s t c m =
    let (d, k, e) = update_if_Mem test (consume now) s.challenges c m in
    elim (Bool-cases (test d)) [
      | inl y ↦
          let at : c ≡ consume now d = e ∙ (rw y refl) in
          inl (
            d,
            k,
            ap (λ (q : Challenge). q.reference) at,
            λ _. ap (λ (q : Challenge). is_some q.consumed_at) at,
          )
      | inr n ↦
          let at : c ≡ d = e ∙ (rw n refl) in
          inl (
            d,
            k,
            ap (λ (q : Challenge). q.reference) at,
            λ z. ap (λ (q : Challenge). is_some q.consumed_at) at ∙ z,
          )
    ]
