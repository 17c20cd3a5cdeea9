-- ===== src/Store/Devices/SingleUse.antt =====
-- apps/api/src/store/memory.ts: the uses of device challenges.
use Prim.Native.String.{String}
use text.Mathlib.Text.{◌==◌ as str_eq}
use text.Mathlib.TextEquality.{eq_iff}
use mathlib.Core.List.{Memᴰ}
use mathlib.Core.List.Memᴰ.{cases_cons}
use screen_goblin.Prelude.{
  ℕ, ◌≡◌, refl, sym, ap, ◌∙◌, ◌⊎◌, inl, inr, Bool, true, false, Option, none, some, List, [], ◌∷◌,
  arith, Bool-cases, Option-cases, is_some, ◌==◌,
}
use screen_goblin.Prelude.Search.{find, update_if, find_sound, update_if_Mem}
use screen_goblin.Store.Devices.Challenges.{
  Credential, DeviceScreen, Challenge, DeviceStore, DeviceOperation, heartbeat, manifest,
  is_same_operation, active_device_credential, issue_device_auth_challenge,
}
use screen_goblin.Store.Devices.Proofs.{
  Pending, consume, is_live_of, begin_proof, finish_proof, is_stale_proof, spend_challenges,
}
use screen_goblin.Store.Devices.Traces.{
  Use, World, Event, issues, begins, finishes, spends, replaces, nth, use_of, finished, begun, step,
  run,
}
use screen_goblin.Store.Devices.Freshness.{
  IsServed, AreSingle, IsFresh, IsFresh-after, issue-IsAfter, consumed-IsAfter,
}

-- A proof that is accepted uses up the challenge that it holds on to; any other changes nothing.
finish_inversion :
    (p : Pending) (verified : Bool) (at now : ℕ) (s : DeviceStore)
    → (finish_proof p verified at now s ≡ (s, none))
      ⊎ ((c : Credential) × (x : DeviceScreen) × (d : Challenge) × (find
              (λ (e : Challenge). str_eq e.id p.input.challenge_id)
              s.challenges
            ≡ some d)
          × (is_stale_proof p now c x d ≡ false)
          × (finish_proof p verified at now s ≡ (
            record s {
              challenges =
                  update_if
                    (λ (e : Challenge). e.reference == d.reference)
                    (consume now)
                    s.challenges;
            },
            some (c, x),
          )))
unfolding finish_proof
finish_inversion p verified at now s = elim (Bool-cases verified) [
  | inr n ↦ inl (ground (arith, n))
  | inl v ↦ elim (Option-cases (active_device_credential p.input.credential_id at s)) [
    | inl e ↦ inl (ground (arith, v, e))
    | inr ((c, x), e) ↦
        elim (Option-cases
          (find (λ (d : Challenge). str_eq d.id p.input.challenge_id) s.challenges)) [
            | inl f ↦ inl (ground (arith, v, e, f))
            | inr (d, f) ↦ elim (Bool-cases (is_stale_proof p now c x d)) [
              | inl g ↦ inl (ground (arith, v, e, f, g))
              | inr g ↦ inr (c, x, d, f, g, ground (arith, v, e, f, g))
            ]
          ]
  ]
]

same_operation : (a b : DeviceOperation) → is_same_operation a b ≡ true → a ≡ b
same_operation heartbeat heartbeat h = refl
same_operation heartbeat manifest h = cc
same_operation manifest heartbeat h = cc
same_operation manifest manifest h = refl

not_consumed : (o : Option ℕ) → is_some o ≡ false → o ≡ none
not_consumed none h = refl
not_consumed (some n) h = cc

served :
    (p : Pending) (now : ℕ) (c : Credential) (x : DeviceScreen) (d : Challenge) (s : DeviceStore)
    → find (λ (e : Challenge). str_eq e.id p.input.challenge_id) s.challenges ≡ some d
    → is_stale_proof p now c x d ≡ false
    → IsServed (record { challenge = d; input = p.input; at = now })
unfolding is_stale_proof
served p now c x d s f h =
    let (_, k) =
      find_sound (λ (e : Challenge). str_eq e.id p.input.challenge_id) s.challenges d f in
    record {
      unused = not_consumed d.consumed_at (ground (arith, h));
      live = ground (arith, h);
      id = (eq_iff d.id p.input.challenge_id).0 k;
      credential = (eq_iff d.credential_id p.input.credential_id).0 (ground (arith, h));
      hash = (eq_iff d.challenge_hash p.input.challenge_hash).0 (ground (arith, h));
      operation = same_operation d.operation p.input.operation (ground (arith, h));
      request = (eq_iff d.request_digest p.input.request_digest).0 (ground (arith, h));
    }

-- A challenge that passes the test is consumed.
hit_consumed :
    (test : Challenge → Bool) (now : ℕ) (s : DeviceStore) (c : Challenge)
    → Memᴰ c (update_if test (consume now) s.challenges)
    → ((d : Challenge) → d.reference ≡ c.reference → test d ≡ true)
    → is_some c.consumed_at ≡ true
hit_consumed test now s c m hits =
    let (d, k, e) = update_if_Mem test (consume now) s.challenges c m in
    elim (Bool-cases (test d)) [
      | inl y ↦
          let at : c ≡ consume now d = e ∙ (rw y refl) in
          ap (λ (q : Challenge). is_some q.consumed_at) at
      | inr n ↦
          let at : c ≡ d = e ∙ (rw n refl) in
          absurd (cc (sym (hits d (sym (ap (λ (q : Challenge). q.reference) at))) ∙ n))
    ]

-- A use is recorded after its challenge is consumed.
IsFresh-used :
    (w : World) (u : Use) (now : ℕ)
    → IsFresh w
    → Memᴰ u.challenge w.store.challenges
    → IsServed u
    → IsFresh (record w {
      store = record w.store {
        challenges =
            update_if
              (λ (e : Challenge). e.reference == u.challenge.reference)
              (consume now)
              w.store.challenges;
      };
      uses = u ∷ w.uses;
    })
IsFresh-used w u now is m serves =
    let test : Challenge → Bool = λ e. e.reference == u.challenge.reference in
    let t : DeviceStore = record w.store {
      challenges = update_if test (consume now) w.store.challenges;
    } in
    let kept = IsFresh-after w t is omega arith (λ c k. consumed-IsAfter test now w.store t c k) in
    record {
      challenges = kept.challenges;
      uses = λ v n. elim (cases_cons n) [
        | inl e ↦
            let at : v.challenge.reference ≡ u.challenge.reference =
              ap (λ (q : Use). q.challenge.reference) e in
            ground (arith, at, is.challenges u.challenge m)
        | inr r ↦ kept.uses v r
      ];
      consumed = λ c v k n e. elim (cases_cons n) [
        | inl f ↦
            let at : u.challenge.reference ≡ c.reference =
              sym (ap (λ (q : Use). q.challenge.reference) f) ∙ e in
            hit_consumed test now w.store c k (λ d q. ground (arith, at, q))
        | inr r ↦ kept.consumed c v k r e
      ];
      single = (
        λ v n e. absurd (cc (sym (is.consumed u.challenge v m n e) ∙ ap is_some serves.unused)),
        serves,
        is.single,
      );
    }

use_found :
    (p : Pending) (now : ℕ) (d : Challenge) (s : DeviceStore)
    → find (λ (e : Challenge). str_eq e.id p.input.challenge_id) s.challenges ≡ some d
    → use_of p now s ≡ record { challenge = d; input = p.input; at = now } ∷ []
unfolding use_of
use_found p now d s f = ground (arith, f)

finished-IsFresh :
    (w : World) (p : Pending) (verified : Bool) (at now : ℕ)
    → IsFresh w
    → IsFresh (finished p verified at now w)
finished-IsFresh w p verified at now is = elim (finish_inversion p verified at now w.store) [
  | inl e ↦ rw e is
  | inr (c, x, d, f, g, e) ↦ rw e (
      rw (use_found p now d w.store f) (
        IsFresh-used w (record { challenge = d; input = p.input; at = now }) now is
          (find_sound (λ (q : Challenge). str_eq q.id p.input.challenge_id) w.store.challenges d
            f).0
          (served p now c x d w.store f g)))
]

step-IsFresh :
    (locale_le : String → String → Bool) (e : Event) (w : World)
    → IsFresh w
    → IsFresh (step locale_le e w)
unfolding step spend_challenges
step-IsFresh locale_le (issues id now i o) w is =
    let (grows, after) = issue-IsAfter locale_le id now i o w.store in
    IsFresh-after w (issue_device_auth_challenge locale_le id now i o w.store).0 is grows after
step-IsFresh locale_le (begins i at now) w is =
    elim (begin_proof i at now w.store) as (λ o. IsFresh (begun o w)) [
      | none ↦ is
      | some p ↦ record {
        challenges = is.challenges;
        uses = is.uses;
        consumed = is.consumed;
        single = is.single;
      }
    ]
step-IsFresh locale_le (finishes n verified at now) w is =
    elim (nth n w.pending)
      as (λ o.
        IsFresh (elim o as (λ q. World) [ none ↦ w | some p ↦ finished p verified at now w ])) [
          | none ↦ is
          | some p ↦ finished-IsFresh w p verified at now is
        ]
step-IsFresh locale_le (spends credential_id now) w is =
    let s = w.store in
    let t : DeviceStore = record s {
      challenges = update_if (is_live_of credential_id now) (consume now) s.challenges;
    } in
    IsFresh-after w t is omega arith
      (λ c m. consumed-IsAfter (is_live_of credential_id now) now s t c m)
step-IsFresh locale_le (replaces credentials screens) w is =
    IsFresh-after w (record w.store { credentials = credentials; screens = screens }) is omega arith
      (λ c m. inl (c, m, refl, λ k. k))

run-IsFresh :
    (locale_le : String → String → Bool) (es : List Event) (w : World)
    → IsFresh w
    → IsFresh (run locale_le es w)
unfolding run
run-IsFresh locale_le [] w is = is
run-IsFresh locale_le (e ∷ es) w is =
    run-IsFresh locale_le es (step locale_le e w) (step-IsFresh locale_le e w is)

-- A store without challenges, no proof begun.
abbrev pub new_world : List Credential → List DeviceScreen → World
new_world credentials screens = record {
  store = record { credentials = credentials; screens = screens; challenges = []; next = 0 };
  pending = [];
  uses = [];
}

-- In any interleaving of the calls on challenges that begins without one, no challenge is used up
-- by two proofs, and each that is used up served its proof: it was not consumed and not over, and
-- has the identifier, the credential, the hash, the operation and the request of the proof.
pub run_single :
    (locale_le : String → String → Bool) (es : List Event) (credentials : List Credential)
    (screens : List DeviceScreen)
    → AreSingle (run locale_le es (new_world credentials screens)).uses
run_single locale_le es credentials screens =
    let start : IsFresh (new_world credentials screens) = record {
      challenges = λ c m. elim m [ ];
      uses = λ u m. elim m [ ];
      consumed = λ c u m n e. elim m [ ];
      single = tt;
    } in
    (run-IsFresh locale_le es (new_world credentials screens) start).single
