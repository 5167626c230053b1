-- ===== src/Pipeline/Tests.antt =====
-- Runs of src/opencodecs/core/pipeline.py, and the theorems at concrete inputs.
use opencodecs.Common.{◌+◌, ◌*◌, map}
use opencodecs.Common.Result.{ok}
use opencodecs.Pipeline.Filling.{total}
use opencodecs.Common.{
  ℕ, List, [], ◌∷◌, ◌≡◌, refl, none, some, Option, arith, false, true, ◌==◌, if◌then◌else◌,
}
use opencodecs.Common.Int.{pos, negsuc}
use opencodecs.Pipeline.{
  range_batches, batches_from, add_item, map_bounded, run_from, follow, round, collect, fill_with,
  fill_from, offer, submit, account, run_inline, task_failed, prepare_failed, Scheduler, start,
  fill,
}
use opencodecs.Pipeline.Batches.{IsSplit, range_batches-IsSplit}
use opencodecs.Pipeline.Order.{run_through, map_bounded-run_through}
use opencodecs.Pipeline.Bounds.{IsWithin, filled-IsWithin, starts}

abbrev itself : ℕ → ℕ
itself n = n

-- The preparation of an item, which cannot fail.
abbrev tenfold : ℕ → ℕ
tenfold n = 10 * n

-- One that raises for the item 1.
abbrev picky : ℕ → Option ℕ
picky n = if n == 1 then none else some n

abbrev five_items : List ℕ
five_items = 3 ∷ 4 ∷ 20 ∷ 1 ∷ 2 ∷ []

five_batches :
    range_batches five_items (λ n. pos n) 8 2
    ≡ ((3 ∷ 4 ∷ []) ∷ (20 ∷ []) ∷ (1 ∷ 2 ∷ []) ∷ [], false)
unfolding range_batches batches_from add_item
five_batches = refl

negative_item :
    range_batches (1 ∷ 2 ∷ []) (λ n. if n == 2 then negsuc 0 else pos n) 8 2 ≡ ([], true)
unfolding range_batches batches_from add_item
negative_item = refl

-- The task of the prepared item 200 raises.
abbrev task : ℕ → Option ℕ
task n = if n == 200 then none else some (n + n)

five_tasks :
    map_bounded 4 3 8 (λ n. pos n) (total tenfold) task five_items ≡ (60 ∷ 80 ∷ [], task_failed)
unfolding map_bounded run_from follow round collect fill_with fill_from offer submit account
    run_inline
five_tasks = refl

-- Where `prepare` raises for the second item, the first is pending, and its result is lost; one
-- worker yields it first.
prepare_raises : map_bounded 4 3 8 (λ n. pos n) picky task (2 ∷ 1 ∷ []) ≡ ([], prepare_failed)
unfolding map_bounded run_from follow round collect fill_with fill_from offer submit account
    run_inline
prepare_raises = refl

prepare_raises_inline :
    map_bounded 1 3 8 (λ n. pos n) picky task (2 ∷ 1 ∷ []) ≡ (4 ∷ [], prepare_failed)
unfolding map_bounded run_from follow round collect fill_with fill_from offer submit account
    run_inline
prepare_raises_inline = refl

-- The first two tasks are pending, and the third waits in `lookahead`.
abbrev waiting_state : Scheduler ℕ ℕ
waiting_state = record {
  pending = (30, 3) ∷ (40, 4) ∷ [];
  lookahead = some (20, 20);
  source = 1 ∷ 2 ∷ [];
  exhausted = false;
  reserved = 7;
  stats = record {
    submitted = 2;
    completed = 0;
    peak_pending = 2;
    peak_reserved_bytes = 7;
    oversized_items = 0;
  };
}

first_fill : fill 3 8 (λ n. pos n) (total tenfold) (start five_items) ≡ ok waiting_state
unfolding fill_with fill_from offer submit account
first_fill = refl

range_batches-IsSplit_example :
    IsSplit itself 8 2 five_items (range_batches five_items (λ n. pos (itself n)) 8 2)
range_batches-IsSplit_example =
    range_batches-IsSplit itself 8 2 five_items (omega arith) (omega arith)

map_bounded-run_through_example :
    map_bounded 4 3 8 (λ n. pos (itself n)) (total tenfold) task five_items
    ≡ run_through task (map tenfold five_items)
map_bounded-run_through_example =
    map_bounded-run_through 3 8 itself tenfold task (omega arith) 4 five_items (omega arith)

filled-IsWithin_example : IsWithin 3 8 waiting_state
filled-IsWithin_example =
    filled-IsWithin 3 8 (λ n. pos n) (total tenfold) task five_items (start five_items)
      waiting_state starts first_fill
