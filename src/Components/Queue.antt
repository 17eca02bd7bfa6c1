-- ===== src/Components/Queue.antt =====
-- des-components/src/queue.rs: the queues of requests. A `VecDeque` is the list from front to back;
-- a capacity is a usize, a counter a u64.
pub mod Priority
pub mod Waiting
pub mod Refinement
pub mod ByPriority
pub mod Contents
unfoldable pub use Priority.*
use des_cartes.Prelude.{
  ℕ, ◌-◌, Bool, true, false, Option, none, some, List, [], ◌∷◌, ◌++◌, leb, if◌then◌else◌, length,
  add_u64,
}
use des_cartes.Core.Time.{SimTime, Duration, duration_since}
use des_cartes.Core.Ids.{Uuid}
use des_cartes.Core.Request.{RequestAttempt}
use des_cartes.Core.Heap

pub data QueueError : Type 0 where
  full : (capacity : ℕ) → QueueError

-- What `enqueue` returns; `panicked` is the `unwrap` of a capacity that is missing.
pub data Enqueued : Type 0 where
  ok panicked : Enqueued
  err : QueueError → Enqueued

-- The trait `Queue`.
pub record Queue {ℓ} (Q : Type ℓ) : Type ℓ where
  pub enqueue : QueueItem → Q → Enqueued × Q
  pub dequeue : Q → Option QueueItem × Q
  pub len : Q → ℕ
  pub capacity : Q → Option ℕ
  pub peek : Q → Option QueueItem

-- The default of the trait's `is_full`, with the capacity and the length of a queue.
abbrev pub is_full : Option ℕ → ℕ → Bool
is_full none len = false
is_full (some cap) len = leb cap len

-- The error of a queue that is full.
abbrev pub refused : Option ℕ → Enqueued
refused none = panicked
refused (some cap) = err (full cap)

pub record FifoQueue : Type 0 where
  pub items : List QueueItem
  pub capacity : Option ℕ
  pub total_enqueued : ℕ
  pub total_dequeued : ℕ

unfoldable pub new_fifo : Option ℕ → FifoQueue
new_fifo capacity = record {
  items = [];
  capacity = capacity;
  total_enqueued = 0;
  total_dequeued = 0;
}

unfoldable pub fifo_enqueue : QueueItem → FifoQueue → Enqueued × FifoQueue
fifo_enqueue item q = if is_full q.capacity (length q.items) then (refused q.capacity, q) else (
  ok,
  record q { items = q.items ++ item ∷ []; total_enqueued = add_u64 q.total_enqueued 1 },
)

unfoldable pub fifo_dequeue : FifoQueue → Option QueueItem × FifoQueue
fifo_dequeue q = elim q.items [
  | [] ↦ (none, q)
  | item ∷ items ↦
      (some item, record q { items = items; total_dequeued = add_u64 q.total_dequeued 1 })
]

abbrev front : List QueueItem → Option QueueItem
front [] = none
front (item ∷ items) = some item

abbrev pub fifo_peek : FifoQueue → Option QueueItem
fifo_peek q = front q.items

abbrev pub fifo : Queue FifoQueue
fifo = record {
  enqueue = fifo_enqueue;
  dequeue = fifo_dequeue;
  len = λ q. length q.items;
  capacity = λ q. q.capacity;
  peek = fifo_peek;
}

pub record PriorityQueue : Type 0 where
  pub items : List PrioritizedItem
  pub capacity : Option ℕ
  pub next_sequence : ℕ
  pub total_enqueued : ℕ
  pub total_dequeued : ℕ

unfoldable pub new_priority : Option ℕ → PriorityQueue
new_priority capacity = record {
  items = [];
  capacity = capacity;
  next_sequence = 0;
  total_enqueued = 0;
  total_dequeued = 0;
}

unfoldable pub priority_enqueue : QueueItem → PriorityQueue → Enqueued × PriorityQueue
priority_enqueue item q = if is_full q.capacity (length q.items) then (refused q.capacity, q) else (
  ok,
  record q {
    items = Heap.push (record { item = item; sequence = q.next_sequence }) q.items;
    next_sequence = add_u64 q.next_sequence 1;
    total_enqueued = add_u64 q.total_enqueued 1;
  },
)

unfoldable pub priority_dequeue : PriorityQueue → Option QueueItem × PriorityQueue
unfolding Heap.pop
priority_dequeue q = elim (Heap.pop q.items) [
  | none ↦ (none, q)
  | some (p, items) ↦
      (some p.item, record q { items = items; total_dequeued = add_u64 q.total_dequeued 1 })
]

unfoldable pub priority_peek : PriorityQueue → Option QueueItem
unfolding Heap.peek
priority_peek q = elim (Heap.peek q.items) [ none ↦ none | some p ↦ some p.item ]

abbrev pub priority : Queue PriorityQueue
priority = record {
  enqueue = priority_enqueue;
  dequeue = priority_dequeue;
  len = λ q. length q.items;
  capacity = λ q. q.capacity;
  peek = priority_peek;
}
