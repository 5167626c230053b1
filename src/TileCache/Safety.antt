-- ===== src/TileCache/Safety.antt =====
-- What holds in every state that threads can reach by the claim protocol.
use opencodecs.Common.{ℕ, ◌≤◌, ◌<◌, ◌≡◌, ◌≢◌, refl, ◌∙◌, sym, arith, inl, inr, ◌⊎◌}
use opencodecs.Common.{true, false, none, some, Option-cases, some_pair}
use opencodecs.Common.Dict
use opencodecs.TileCache.{Array, Cache, Outcome, claim_round, release, clear, hit, miss, wait}
use opencodecs.TileCache.Accounting.{IsValid, total, Frozen-get}
use opencodecs.TileCache.Invariant.{stored, store-stored, stored-IsValid, claim_round-IsValid}
use opencodecs.TileCache.Invariant.{release-IsValid, clear-IsValid}
use opencodecs.TileCache.Threads.{running, waiting, setting, System}
use opencodecs.TileCache.Threads.{after_round, Step, Reach, start, next}
use opencodecs.TileCache.Threads.{claims, wakes, stores, releases, signals, clears}
use opencodecs.TileCache.Protocol.{Covered, in_flight, already_set, being_set, Inv, quiet, takes}
use opencodecs.TileCache.Protocol.{pops, signal}

module _ {K A : Type 0} (dec : Discrete K) where
  -- The three ways in which a round of `claim` ends, by what it does to the claims in flight.
  data Round (c : Cache K A) (key : K) : Cache K A × Outcome A → Type 0 where
    saw_hit : (c' : Cache K A) (a : Array A) → c'.inflight ≡ c.inflight → Round c key (c', hit a)
    saw_miss :
        (c' : Cache K A) (e : ℕ)
        → Dict.get dec key c.inflight ≡ none
        → c'.inflight ≡ Dict.put dec key e c.inflight
        → Round c key (c', miss)
    saw_wait :
        (c' : Cache K A) (e : ℕ)
        → Dict.get dec key c.inflight ≡ some e
        → c'.inflight ≡ c.inflight
        → Round c key (c', wait e)

  claim_round-Round : (c : Cache K A) (key : K) → Round c key (claim_round dec c key)
  unfolding claim_round
  claim_round-Round c key = elim (Option-cases (Dict.get dec key c.entries)) [
    | inl e ↦ elim (Option-cases (Dict.get dec key c.inflight)) [
      | inl f ↦ rw (e, claim_round) (rw (f, claim_round) (saw_miss _ c.next_event f refl))
      | inr (event, f) ↦ rw (e, claim_round) (rw (f, claim_round) (saw_wait _ event f refl))
    ]
    | inr (entry, e) ↦ rw (e, claim_round) (saw_hit _ entry.0 refl)
  ]

  after_round-Inv :
      (s : System K A) (t : ℕ) (key : K) {r : Cache K A × Outcome A}
      → Round s.cache key r
      → IsValid dec r.0
      → Inv dec s
      → ((e : ℕ) → s.doing t ≢ setting e)
      → Inv dec (after_round dec s t key r)
  after_round-Inv s t key (saw_hit c a same) v inv nt =
      quiet dec s t c running inv v same nt (λ k e p. absurd (cc))
  after_round-Inv s t key (saw_miss c e free added) v inv nt =
      takes dec s t key c e inv v free added nt
  after_round-Inv s t key (saw_wait c e found same) v inv nt =
      quiet dec s t c (waiting key e) inv v same nt (λ k f p. ground (arith, found))

  clear-Inv : (s : System K A) → Inv dec s → Inv dec (record s { cache = clear s.cache })
  unfolding clear
  clear-Inv s inv = record {
    valid = unfold clear in clear-IsValid dec inv.valid;
    claimed = inv.claimed;
    alone = inv.alone;
    held = inv.held;
    covered = λ t k e p. move (inv.covered t k e p);
  }
    where
      move :
          {k : K} {e : ℕ} → Covered dec s k e → Covered dec (record s { cache = clear s.cache }) k e
      move (in_flight p) = in_flight p
      move (already_set p) = already_set p
      move (being_set u p) = being_set u p

  stored-inflight :
      (c : Cache K A) (key : K) (a : Array A)
      → (stored dec c key a).inflight ≡ Dict.drop_key dec key c.inflight
  unfolding stored
  stored-inflight c key a = ground arith

  Step-Inv : {s s' : System K A} → Step dec s s' → Inv dec s → Inv dec s'
  Step-Inv {s} (claims t key idle) inv =
      after_round-Inv s t key (claim_round-Round s.cache key)
        (claim_round-IsValid dec key inv.valid) inv (λ e p. cc)
  Step-Inv {s} (wakes t key event w ready) inv =
      after_round-Inv s t key (claim_round-Round s.cache key)
        (claim_round-IsValid dec key inv.valid) inv (λ e p. cc)
  Step-Inv {s} (stores t key a cache event idle mine done) inv =
      let (e₀, e₁) = some_pair (sym (store-stored dec key a inv.valid) ∙ done) in
      rw (← e₁, ← e₀)
        (pops dec s t key (stored dec s.cache key a) inv (stored-IsValid dec key a inv.valid)
          (stored-inflight s.cache key a) idle mine)
  Step-Inv {s} (releases t key idle mine) inv =
      unfold release in
      pops dec s t key (release dec s.cache key).0 inv (release-IsValid dec key inv.valid) refl idle
        mine
  Step-Inv {s} (signals t event d) inv = signal dec s t event inv d
  Step-Inv {s} (clears t idle) inv = clear-Inv s inv

  Reach-Inv : {limit : ℕ} {s : System K A} → 0 < limit → Reach dec limit s → Inv dec s
  unfolding Dict.get
  Reach-Inv {limit} h start = record {
    valid = record {
      positive = h;
      counted = refl;
      within = omega arith;
      frozen = tt;
      distinct = tt;
      claims_distinct = tt;
    };
    claimed = λ t k p. absurd (cc);
    alone = λ t u k p q. absurd (cc);
    held = λ k e p. absurd (cc);
    covered = λ t k e p. absurd (cc);
  }
  Reach-Inv h (next r st) = Step-Inv st (Reach-Inv h r)

  -- In every state that threads can reach, at most one thread holds the claim of a tile: no tile is
  -- decoded by two threads at once.
  pub one_decoder :
      {limit : ℕ} {s : System K A} (t u : ℕ) (key : K)
      → 0 < limit
      → Reach dec limit s
      → s.holds t key ≡ true
      → s.holds u key ≡ true
      → t ≡ u
  one_decoder t u key h r = (Reach-Inv h r).alone t u key

  -- No wake-up is lost: a thread that waits for a tile in a reachable state has its event set, or
  -- some thread is about to set it, or some thread still holds the claim under which that event is
  -- registered.
  pub no_lost_wakeup :
      {limit : ℕ} {s : System K A} (t : ℕ) (key : K) (event : ℕ)
      → 0 < limit
      → Reach dec limit s
      → s.doing t ≡ waiting key event
      → (s.is_set event ≡ true)
        ⊎ ((u : ℕ) × (s.doing u ≡ setting event))
        ⊎ ((u : ℕ) × (s.holds u key ≡ true) × (Dict.get dec key s.cache.inflight ≡ some event))
  no_lost_wakeup {s = s} t key event h r w = cases (inv.covered t key event w)
    where
      inv : Inv dec s
      inv = Reach-Inv h r

      cases :
          Covered dec s key event
          → (s.is_set event ≡ true)
            ⊎ ((u : ℕ) × (s.doing u ≡ setting event))
            ⊎ ((u : ℕ) × (s.holds u key ≡ true) × (Dict.get dec key s.cache.inflight ≡ some event))
      cases (in_flight p) = let (u, q) = inv.held key event p in inr (inr (u, q, p))
      cases (already_set p) = inl p
      cases (being_set u p) = inr (inl (u, p))

  -- In every reachable state the byte counter is the sum of the sizes of the entries and within the
  -- budget, and whatever a `claim` would hand out is read-only and counted at its own size.
  pub budget_kept :
      {limit : ℕ} {s : System K A}
      → 0 < limit
      → Reach dec limit s
      → (s.cache.bytes ≡ total s.cache.entries)
        × (s.cache.bytes ≤ s.cache.max_bytes)
        × ((key : K) (entry : Array A × ℕ)
            → Dict.get dec key s.cache.entries ≡ some entry
            → (entry.0.writeable ≡ false) × (entry.1 ≡ entry.0.nbytes))
  budget_kept {s = s} h r =
      let v = (Reach-Inv h r).valid in
      (v.counted, v.within, λ key entry e. Frozen-get dec key s.cache.entries entry e v.frozen)
