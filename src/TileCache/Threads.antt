-- ===== src/TileCache/Threads.antt =====
-- The claim protocol between threads: who may decode a tile, and who is woken. Each step is one
-- critical section of the lock, or the `event.set()` that `store` and `release` make after it.
use opencodecs.Common.{ℕ, ◌≡◌}
use opencodecs.Common.{true, false, none, some, Option, Bool}
use opencodecs.Common.{ℕ_discrete}
use mathlib.Core.Logic.{ite}
use opencodecs.TileCache.{
  Array, Cache, Outcome, claim_round, store, release, clear, hit, miss, wait,
}
use opencodecs.TileCache.{empty_cache}

-- What a thread does: its own code, `event.wait()` inside `claim(key)`, or it is about to call
-- `event.set()` at the end of `store` or `release`.
pub data Doing (K : Type 0) : Type 0 where
  running : Doing K
  waiting : K → ℕ → Doing K
  setting : ℕ → Doing K

-- The cache, the events that are set, and for each thread what it does and the claims it holds.
pub record System (K A : Type 0) : Type 0 where
  pub cache : Cache K A
  pub is_set : ℕ → Bool
  pub doing : ℕ → Doing K
  pub holds : ℕ → K → Bool

abbrev pub update : {B : Type 0} → (ℕ → B) → ℕ → B → ℕ → B
update f t b u = ite (ℕ_discrete t u) b (f u)

-- `holds`, with the claim of thread `t` on `key` set to `b`.
abbrev pub hold : {K : Type 0} → Discrete K → (ℕ → K → Bool) → ℕ → K → Bool → ℕ → K → Bool
hold dec f t key b u k = ite (ℕ_discrete t u) (ite (dec key k) b (f u k)) (f u k)

-- `if event is not None: event.set()`
abbrev pub after_pop : {K : Type 0} → Option ℕ → Doing K
after_pop none = running
after_pop (some event) = setting event

module _ {K A : Type 0} (dec : Discrete K) where
  -- What a thread does with the outcome of a round of `claim`.
  abbrev pub after_round : System K A → ℕ → K → Cache K A × Outcome A → System K A
  after_round s t key (cache, hit a) = record s { cache = cache; doing = update s.doing t running }
  after_round s t key (cache, miss) = record s {
    cache = cache;
    doing = update s.doing t running;
    holds = hold dec s.holds t key true;
  }
  after_round s t key (cache, wait event) = record s {
    cache = cache;
    doing = update s.doing t (waiting key event);
  }

  -- One round of `claim(key)` by thread `t`.
  abbrev pub claim_by : System K A → ℕ → K → System K A
  claim_by s t key = after_round s t key (claim_round dec s.cache key)

  abbrev pub give_up : System K A → ℕ → K → Cache K A → Option ℕ → System K A
  give_up s t key cache event = record s {
    cache = cache;
    doing = update s.doing t (after_pop event);
    holds = hold dec s.holds t key false;
  }

  -- A thread stores or releases a key only if it holds the claim, as the contract of `claim` says.
  pub data Step (s : System K A) : System K A → Type 0 where
    claims : (t : ℕ) (key : K) → s.doing t ≡ running → Step s (claim_by s t key)
    wakes :
        (t : ℕ) (key : K) (event : ℕ)
        → s.doing t ≡ waiting key event
        → s.is_set event ≡ true
        → Step s (claim_by s t key)
    stores :
        (t : ℕ) (key : K) (a : Array A) (cache : Cache K A) (event : Option ℕ)
        → s.doing t ≡ running
        → s.holds t key ≡ true
        → store dec s.cache key a ≡ some (cache, event)
        → Step s (give_up s t key cache event)
    releases :
        (t : ℕ) (key : K)
        → s.doing t ≡ running
        → s.holds t key ≡ true
        → Step s (give_up s t key (release dec s.cache key).0 (release dec s.cache key).1)
    signals :
        (t event : ℕ)
        → s.doing t ≡ setting event
        → Step s
            (record s { is_set = update s.is_set event true; doing = update s.doing t running })
    clears : (t : ℕ) → s.doing t ≡ running → Step s (record s { cache = clear s.cache })

  -- Any sequence of steps from a cache that no thread has used.
  pub data Reach (limit : ℕ) : System K A → Type 0 where
    start : Reach limit (record {
      cache = empty_cache limit;
      is_set = λ e. false;
      doing = λ t. running;
      holds = λ t k. false;
    })
    next : {s s' : System K A} → Reach limit s → Step s s' → Reach limit s'
