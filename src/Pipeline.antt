-- ===== src/Pipeline.antt =====
-- src/opencodecs/core/pipeline.py: `map_bounded`, which runs tasks in order under a limit of pending
-- tasks and reserved bytes, and `range_batches`. A pool runs a task as its function says; a function
-- that raises, `prepare` or `fn`, is `none`. A call without `prepare` is one whose `prepare` gives the
-- item itself.
pub mod Batches
pub mod Bounds
pub mod Filling
pub mod Order
mod Tests
use opencodecs.Common.{
  ℕ, zero, suc, ◌+◌, ◌-◌, max, List, [], ◌∷◌, ◌++◌, Bool, true, false, ◌&&◌, ◌||◌,
}
use opencodecs.Common.{Option, none, some, ltb, leb, if◌then◌else◌, length}
use opencodecs.Common.Int.{ℤ, pos, negsuc}
use opencodecs.Common.Result.{Result, ok, raise}

abbrev pub non_empty {ℓ} : {A : Type ℓ} → List A → Bool
non_empty [] = false
non_empty (a ∷ l) = true

-- The group that `range_batches` collects, and its size.
pub record Batch (A : Type 0) : Type 0 where
  pub items : List A
  pub count : ℕ

-- One item: the batches that are yielded, none or one, and the batch afterwards.
pub add_item : {A : Type 0} → ℕ → ℕ → Batch A → A → ℕ → List (List A) × Batch A
add_item max_bytes max_items b item amount =
    if non_empty b.items && (ltb max_bytes (b.count + amount) || leb max_items (length b.items))
    then (b.items ∷ [], record { items = item ∷ []; count = 0 + amount })
    else ([], record { items = b.items ++ (item ∷ []); count = b.count + amount })

-- The loop: the batches that are yielded, and whether it raised.
pub batches_from : {A : Type 0} → ℕ → ℕ → (A → ℤ) → Batch A → List A → List (List A) × Bool
batches_from max_bytes max_items size b [] = (if non_empty b.items then b.items ∷ [] else [], false)
batches_from max_bytes max_items size b (item ∷ items) = elim (size item) [
  | negsuc n ↦ ([], true)
  | pos amount ↦
      let added = add_item max_bytes max_items b item amount in
      let rest = batches_from max_bytes max_items size added.1 items in (added.0 ++ rest.0, rest.1)
]

pub range_batches : {A : Type 0} → List A → (A → ℤ) → ℕ → ℕ → List (List A) × Bool
range_batches items size max_bytes max_items =
    if ltb max_bytes 1 || ltb max_items 1
    then ([], true)
    else batches_from max_bytes max_items size (record { items = []; count = 0 }) items

pub record PipelineStats : Type 0 where
  pub submitted : ℕ
  pub completed : ℕ
  pub peak_pending : ℕ
  pub peak_reserved_bytes : ℕ
  pub oversized_items : ℕ

abbrev pub new_stats : PipelineStats
new_stats = record {
  submitted = 0;
  completed = 0;
  peak_pending = 0;
  peak_reserved_bytes = 0;
  oversized_items = 0;
}

pub account : ℕ → PipelineStats → ℕ → ℕ → ℕ → PipelineStats
account max_bytes s count reserved amount = record s {
  submitted = s.submitted + 1;
  peak_pending = max s.peak_pending count;
  peak_reserved_bytes = max s.peak_reserved_bytes reserved;
  oversized_items = if ltb max_bytes amount then s.oversized_items + 1 else s.oversized_items;
}

-- The variables of the loop of `map_bounded`: the pending tasks, each with its prepared input and its
-- amount, and what is left of the source. The item of `lookahead` has been taken from the source.
pub record Scheduler (A P : Type 0) : Type 0 where
  pub pending : List (P × ℕ)
  pub lookahead : Option (A × ℕ)
  pub source : List A
  pub exhausted : Bool
  pub reserved : ℕ
  pub stats : PipelineStats

-- `pending and reserved + amount > max_bytes`
abbrev pub blocked : {A P : Type 0} → ℕ → Scheduler A P → ℕ → Bool
blocked max_bytes s amount = non_empty s.pending && ltb max_bytes (s.reserved + amount)

-- How the generator ends: it returned, or it raised, or the fuel was short.
pub data Ending : Type 0 where
  returned bad_limits bad_size prepare_failed task_failed no_fuel : Ending

-- A task is submitted and accounted for.
pub submit : {A P : Type 0} → ℕ → Scheduler A P → P → ℕ → Scheduler A P
submit max_bytes s owned amount = record s {
  pending = s.pending ++ ((owned, amount) ∷ []);
  lookahead = none;
  reserved = s.reserved + amount;
  stats = account max_bytes s.stats (length s.pending + 1) (s.reserved + amount) amount;
}

-- The inner loop once an item is in `lookahead`: the state, and whether the loop goes on. An item is
-- prepared here, before any pending task is waited for.
pub offer :
    {A P : Type 0}
    → ℕ
    → (A → Option P)
    → Scheduler A P
    → A
    → ℕ
    → Result Ending (Scheduler A P × Bool)
offer max_bytes prepare s item amount =
    if blocked max_bytes s amount
    then ok (record s { lookahead = some (item, amount) }, false)
    else elim (prepare item) [
      | none ↦ raise prepare_failed
      | some owned ↦ ok (submit max_bytes s owned amount, leb amount max_bytes)
    ]

-- The inner loop over what the source still has; it raises for a negative size, and where `prepare`
-- does.
pub fill_from :
    {A P : Type 0}
    → ℕ
    → ℕ
    → (A → ℤ)
    → (A → Option P)
    → List A
    → Scheduler A P
    → Result Ending (Scheduler A P)
fill_from max_pending max_bytes size prepare [] s =
    if ltb (length s.pending) max_pending
    then ok (record s { source = []; exhausted = true })
    else ok (record s { source = [] })
fill_from max_pending max_bytes size prepare (item ∷ items) s =
    if ltb (length s.pending) max_pending
    then elim (size item) [
      | negsuc n ↦ raise bad_size
      | pos amount ↦ elim (offer max_bytes prepare (record s { source = items }) item amount) [
        | raise e ↦ raise e
        | ok offered ↦
            let rest = fill_from max_pending max_bytes size prepare items offered.0 in
            if offered.1 then rest else ok offered.0
      ]
    ]
    else ok (record s { source = item ∷ items })

-- The whole inner loop, by what is in `lookahead`.
pub fill_with :
    {A P : Type 0}
    → ℕ
    → ℕ
    → (A → ℤ)
    → (A → Option P)
    → Option (A × ℕ)
    → Scheduler A P
    → Result Ending (Scheduler A P)
fill_with max_pending max_bytes size prepare none s =
    if s.exhausted then ok s else fill_from max_pending max_bytes size prepare s.source s
fill_with max_pending max_bytes size prepare (some (item, amount)) s =
    if ltb (length s.pending) max_pending
    then elim (offer max_bytes prepare s item amount) [
      | raise e ↦ raise e
      | ok offered ↦
          let rest = fill_from max_pending max_bytes size prepare s.source offered.0 in
          if offered.1 then rest else ok offered.0
    ]
    else ok s

abbrev pub fill :
    {A P : Type 0}
    → ℕ
    → ℕ
    → (A → ℤ)
    → (A → Option P)
    → Scheduler A P
    → Result Ending (Scheduler A P)
fill max_pending max_bytes size prepare s =
    fill_with max_pending max_bytes size prepare s.lookahead s

-- After `pending.popleft()` and the `yield`, when the caller resumes.
abbrev pub popped : {A P : Type 0} → Scheduler A P → List (P × ℕ) → ℕ → Scheduler A P
popped s pending amount = record s {
  pending = pending;
  reserved = s.reserved - amount;
  stats = record s.stats { completed = s.stats.completed + 1 };
}

-- `pending or not exhausted`
abbrev pub goes_on : {A P : Type 0} → Scheduler A P → Bool
goes_on s = non_empty s.pending || (if s.exhausted then false else true)

-- One round of the outer loop.
pub data Round (A P B : Type 0) : Type 0 where
  ends : Ending → Round A P B
  continues : Scheduler A P → Round A P B
  yields : B → Scheduler A P → Round A P B

-- The head of the pending tasks is waited for.
pub collect : {A P B : Type 0} → (P → Option B) → Scheduler A P → List (P × ℕ) → Round A P B
collect fn s [] = continues s
collect fn s ((owned, amount) ∷ pending) = elim (fn owned) [
  | none ↦ ends task_failed
  | some result ↦ yields result (popped s pending amount)
]

pub round :
    {A P B : Type 0}
    → ℕ
    → ℕ
    → (A → ℤ)
    → (A → Option P)
    → (P → Option B)
    → Scheduler A P
    → Round A P B
round max_pending max_bytes size prepare fn s =
    if goes_on s
    then elim (fill max_pending max_bytes size prepare s) [
      | raise e ↦ ends e
      | ok filled ↦ collect fn filled filled.pending
    ]
    else ends returned

-- The loop after a round; `run` is what comes of a state.
pub follow : {A P B : Type 0} → (Scheduler A P → List B × Ending) → Round A P B → List B × Ending
follow run (ends ending) = ([], ending)
follow run (continues s) = run s
follow run (yields result s) = let rest = run s in (result ∷ rest.0, rest.1)

-- The outer loop, on fuel: what it yields and how it ends.
pub run_from :
    {A P B : Type 0}
    → ℕ
    → ℕ
    → ℕ
    → (A → ℤ)
    → (A → Option P)
    → (P → Option B)
    → Scheduler A P
    → List B × Ending
run_from zero max_pending max_bytes size prepare fn s = ([], no_fuel)
run_from (suc fuel) max_pending max_bytes size prepare fn s =
    follow (run_from fuel max_pending max_bytes size prepare fn)
      (round max_pending max_bytes size prepare fn s)

abbrev pub start : {A P : Type 0} → List A → Scheduler A P
start items = record {
  pending = [];
  lookahead = none;
  source = items;
  exhausted = false;
  reserved = 0;
  stats = new_stats;
}

-- The branch for one worker, which prepares and runs each item as it comes; its counters are left out.
pub run_inline :
    {A P B : Type 0} → (A → ℤ) → (A → Option P) → (P → Option B) → List A → List B × Ending
run_inline size prepare fn [] = ([], returned)
run_inline size prepare fn (item ∷ items) =
    let rest = run_inline size prepare fn items in
    elim (size item) [
      | negsuc n ↦ ([], bad_size)
      | pos amount ↦ elim (prepare item) [
        | none ↦ ([], prepare_failed)
        | some owned ↦ elim (fn owned) [
          | none ↦ ([], task_failed)
          | some result ↦ (result ∷ rest.0, rest.1)
        ]
      ]
    ]

-- `map_bounded`, once `workers` is known, the least of what was asked for and of the budget. Each
-- round but two takes a task.
pub map_bounded :
    {A P B : Type 0}
    → ℕ
    → ℕ
    → ℕ
    → (A → ℤ)
    → (A → Option P)
    → (P → Option B)
    → List A
    → List B × Ending
map_bounded workers max_pending max_bytes size prepare fn items =
    if ltb max_bytes 1 || ltb max_pending 1
    then ([], bad_limits)
    else if leb workers 1
    then run_inline size prepare fn items
    else run_from (length items + 2) max_pending max_bytes size prepare fn (start items)
