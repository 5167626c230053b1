-- ===== src/TileCache/Protocol.antt =====
-- The invariant of the claim protocol, kept by every step of every thread.
use opencodecs.Common.{ℕ, ◌≡◌, ◌≢◌, arith}
use opencodecs.Common.{true, none, some, Option}
use opencodecs.Common.{ℕ_discrete}
use opencodecs.Common.Dict
use mathlib.Core.Logic.{ite}
use opencodecs.TileCache.{Cache}
use opencodecs.TileCache.Accounting.{IsValid}
use opencodecs.TileCache.Threads.{Doing, running, waiting, setting, System, update, hold, after_pop}
use opencodecs.TileCache.Threads.{give_up}

module _ {K A : Type 0} (dec : Discrete K) where
  -- What wakes a thread that waits for `event` under `key`: the claim is still held, the event is
  -- set, or a thread is about to set it.
  pub data Covered (s : System K A) (key : K) (event : ℕ) : Type 0 where
    in_flight : Dict.get dec key s.cache.inflight ≡ some event → Covered s key event
    already_set : s.is_set event ≡ true → Covered s key event
    being_set : (u : ℕ) → s.doing u ≡ setting event → Covered s key event

  pub record Inv (s : System K A) : Type 0 where
    pub valid : IsValid dec s.cache
    pub claimed :
        (t : ℕ) (k : K) → s.holds t k ≡ true → (e : ℕ) × (Dict.get dec k s.cache.inflight ≡ some e)
    pub alone : (t u : ℕ) (k : K) → s.holds t k ≡ true → s.holds u k ≡ true → t ≡ u
    pub held :
        (k : K) (e : ℕ) → Dict.get dec k s.cache.inflight ≡ some e → (t : ℕ) × (s.holds t k ≡ true)
    pub covered : (t : ℕ) (k : K) (e : ℕ) → s.doing t ≡ waiting k e → Covered s k e

  -- A step of thread `t` that leaves claims and events alone, and does not forget to set one.
  pub quiet :
      (s : System K A) (t : ℕ) (cache : Cache K A) (d : Doing K)
      → Inv s
      → IsValid dec cache
      → cache.inflight ≡ s.cache.inflight
      → ((e : ℕ) → s.doing t ≢ setting e)
      → ((k : K) (e : ℕ) → d ≡ waiting k e → Dict.get dec k s.cache.inflight ≡ some e)
      → Inv (record s { cache = cache; doing = update s.doing t d })
  quiet s t cache d inv v same nt ok = record {
    valid = v;
    claimed = λ u k h. rw same (inv.claimed u k h);
    alone = inv.alone;
    held = λ k e h. inv.held k e (rw same at h);
    covered = λ u k e p. elim (ℕ_discrete t u) [
      | yes q ↦ in_flight (rw same (ok k e (ground arith)))
      | no q ↦ move (inv.covered u k e (ground arith))
    ];
  }
    where
      move :
          {k : K} {e : ℕ}
          → Covered s k e
          → Covered (record s { cache = cache; doing = update s.doing t d }) k e
      move (in_flight p) = in_flight (rw same p)
      move (already_set p) = already_set p
      move {k} {e} (being_set u p) = being_set u (ground (arith, nt e))

  -- A thread becomes the decoder of `key`.
  pub takes :
      (s : System K A) (t : ℕ) (key : K) (cache : Cache K A) (event : ℕ)
      → Inv s
      → IsValid dec cache
      → Dict.get dec key s.cache.inflight ≡ none
      → cache.inflight ≡ Dict.put dec key event s.cache.inflight
      → ((e : ℕ) → s.doing t ≢ setting e)
      → Inv (record s {
        cache = cache;
        doing = update s.doing t running;
        holds = hold dec s.holds t key true;
      })
  takes s t key cache event inv v free added nt = record {
    valid = v;
    claimed = λ u k h. elim (dec key k) [
      | yes q ↦ (event, ground (arith, look k))
      | no q ↦ let (e, f) = inv.claimed u k (ground arith) in (e, ground (arith, look k))
    ];
    alone = λ u w k p q. elim (dec key k) [
      | yes same ↦ ground (arith, nobody u k same, nobody w k same)
      | no other ↦ inv.alone u w k (ground arith) (ground arith)
    ];
    held = λ k e h. elim (dec key k) [
      | yes q ↦ (t, ground arith)
      | no q ↦ let (u, f) = inv.held k e (ground (arith, look k)) in (u, ground arith)
    ];
    covered = λ u k e p. elim (ℕ_discrete t u) [
      | yes q ↦ absurd (ground arith)
      | no q ↦ move (inv.covered u k e (ground arith))
    ];
  }
    where
      look :
          (k : K)
          → Dict.get dec k cache.inflight
            ≡ ite (dec key k) (some event) (Dict.get dec k s.cache.inflight)
      look k = rw added (Dict.get-put dec k key event s.cache.inflight)

      nobody : (u : ℕ) (k : K) → key ≡ k → s.holds u k ≢ true
      nobody u k same h = let (e, f) = inv.claimed u k h in ground arith

      move :
          {k : K} {e : ℕ}
          → Covered s k e
          → Covered
              (record s {
                cache = cache;
                doing = update s.doing t running;
                holds = hold dec s.holds t key true;
              })
              k
              e
      move {k} {e} (in_flight p) = in_flight (ground (arith, look k))
      move (already_set p) = already_set p
      move {k} {e} (being_set u p) = being_set u (ground (arith, nt e))

  -- A thread gives up the claim on `key` and takes its event out.
  pub pops :
      (s : System K A) (t : ℕ) (key : K) (cache : Cache K A)
      → Inv s
      → IsValid dec cache
      → cache.inflight ≡ Dict.drop_key dec key s.cache.inflight
      → s.doing t ≡ running
      → s.holds t key ≡ true
      → Inv (give_up dec s t key cache (Dict.get dec key s.cache.inflight))
  pops s t key cache inv v dropped idle mine = record {
    valid = v;
    claimed = λ u k h. elim (dec key k) [
      | yes q ↦ absurd (ground (arith, inv.alone t u k))
      | no q ↦ let (e, f) = inv.claimed u k (ground arith) in (e, ground (arith, look k))
    ];
    alone = λ u w k p q. inv.alone u w k (ground arith) (ground arith);
    held = λ k e h. elim (dec key k) [
      | yes q ↦ absurd (ground (arith, look k))
      | no q ↦ let (u, f) = inv.held k e (ground (arith, look k)) in (u, ground arith)
    ];
    covered = λ u k e p. elim (ℕ_discrete t u) [
      | yes q ↦ absurd (not_waiting (Dict.get dec key s.cache.inflight) k e (ground arith))
      | no q ↦ move (inv.covered u k e (ground arith))
    ];
  }
    where
      look :
          (k : K)
          → Dict.get dec k cache.inflight ≡ ite (dec key k) none (Dict.get dec k s.cache.inflight)
      look k = rw dropped (Dict.get-drop_key dec k key s.cache.inflight inv.valid.claims_distinct)

      not_waiting : (o : Option ℕ) (k : K) (e : ℕ) → after_pop o ≢ waiting k e
      not_waiting none k e h = cc
      not_waiting (some f) k e h = cc

      move :
          {k : K} {e : ℕ}
          → Covered s k e
          → Covered (give_up dec s t key cache (Dict.get dec key s.cache.inflight)) k e
      move {k} {e} (in_flight p) = elim (dec key k) [
        | yes q ↦ being_set t (ground arith)
        | no q ↦ in_flight (ground (arith, look k))
      ]
      move (already_set p) = already_set p
      move {k} {e} (being_set u p) = being_set u (ground arith)

  pub signal :
      (s : System K A) (t event : ℕ)
      → Inv s
      → s.doing t ≡ setting event
      → Inv (record s { is_set = update s.is_set event true; doing = update s.doing t running })
  signal s t event inv d = record {
    valid = inv.valid;
    claimed = inv.claimed;
    alone = inv.alone;
    held = inv.held;
    covered = λ u k e p. elim (ℕ_discrete t u) [
      | yes q ↦ absurd (ground arith)
      | no q ↦ move (inv.covered u k e (ground arith))
    ];
  }
    where
      move :
          {k : K} {e : ℕ}
          → Covered s k e
          → Covered
              (record s { is_set = update s.is_set event true; doing = update s.doing t running })
              k
              e
      move (in_flight p) = in_flight p
      move (already_set p) = already_set (ground arith)
      move {k} {e} (being_set u p) = elim (ℕ_discrete event e) [
        | yes q ↦ already_set (ground arith)
        | no q ↦ being_set u (ground arith)
      ]
