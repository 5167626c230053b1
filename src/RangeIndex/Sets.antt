-- ===== src/RangeIndex/Sets.antt =====
-- `RangeIndex` against a plain set of ranges, over any sequence of calls.
use opencodecs.Common.{ℕ, zero, suc, ◌+◌, ◌≤◌, ◌≡◌, refl, arith, List, [], ◌∷◌}
use opencodecs.Common.{Bool, true, false, some}
use opencodecs.Common.{◌∙◌}
use opencodecs.Common.Dict
use mathlib.Core.Logic.{ite}
use opencodecs.RangeIndex.{Key, key_discrete, Groups, add, discard, clear, covering}
use opencodecs.RangeIndex.Filed.{IsFiled}
use opencodecs.RangeIndex.Filing.{add-IsFiled, discard-IsFiled}
use opencodecs.RangeIndex.Membership.{contains, contains-add, contains-discard}
use opencodecs.RangeIndex.Covering.{covering_sound, covering_complete}

pub data Call : Type 0 where
  adds : Key → Call
  discards : Key → Call
  clears : Call

unfoldable pub apply : Call → Groups → Groups
apply (adds key) groups = add key groups
apply (discards key) groups = discard key groups
apply clears groups = clear groups

-- The index after calls, the latest of them first in the list.
unfoldable pub run : List Call → Groups
unfolding apply
run [] = []
run (call ∷ earlier) = apply call (run earlier)

-- The set of ranges after the same calls: whether a key is in it.
unfoldable pub in_set : List Call → Key → Bool
in_set [] k = false
in_set (adds (offset, zero) ∷ earlier) k = in_set earlier k
in_set (adds (offset, suc n) ∷ earlier) k =
    ite (key_discrete (offset, suc n) k) true (in_set earlier k)
in_set (discards key ∷ earlier) k = ite (key_discrete key k) false (in_set earlier k)
in_set (clears ∷ earlier) k = false

-- After any sequence of calls every key stands in the group of its length and the bucket of its
-- offset, no key, bucket or group is there twice, and none of the buckets and groups is empty.
pub run-IsFiled : (calls : List Call) → IsFiled (run calls)
unfolding run clear
run-IsFiled [] = record { filed = tt; distinct = tt }
run-IsFiled (adds key ∷ earlier) = add-IsFiled key (run earlier) (run-IsFiled earlier)
run-IsFiled (discards key ∷ earlier) = discard-IsFiled key (run earlier) (run-IsFiled earlier)
run-IsFiled (clears ∷ earlier) = record { filed = tt; distinct = tt }

contains-run : (calls : List Call) (k : Key) → contains (run calls) k ≡ in_set calls k
unfolding run in_set
contains-run [] k = unfold contains Dict.get in refl
contains-run (adds (offset, zero) ∷ earlier) k =
    rw ((contains-add (offset, 0) k (run earlier)).1 refl) (contains-run earlier k)
contains-run (adds (offset, suc n) ∷ earlier) k =
    (contains-add (offset, suc n) k (run earlier)).0 (omega arith) ∙ rw (contains-run earlier k)
contains-run (discards key ∷ earlier) k =
    contains-discard key k (run earlier) (run-IsFiled earlier) ∙ rw (contains-run earlier k)
contains-run (clears ∷ earlier) k = unfold clear contains Dict.get in refl

-- After any sequence of calls `covering` answers as a scan of the set of ranges that were added and
-- not discarded since: what it returns is in the set and holds the request, and it returns a range
-- whenever one in the set holds the request.
pub covering-in_set :
    (calls : List Call) (offset length : ℕ) (key : Key)
    → (covering (run calls) offset length ≡ some key
        → (in_set calls key ≡ true) × (key.0 ≤ offset) × (offset + length ≤ key.0 + key.1))
      × (in_set calls key ≡ true
          → key.0 ≤ offset
          → offset + length ≤ key.0 + key.1
          → (found : Key) × (covering (run calls) offset length ≡ some found))
covering-in_set calls offset length key = (
  λ e.
      rw (← contains-run calls key)
        (covering_sound (run calls) offset length key (run-IsFiled calls) e),
  λ m lo hi. covering_complete (run calls) offset length key (contains-run calls key ∙ m) lo hi,
)
