-- ===== src/Components/Queue/Contents.antt =====
-- What the users of a queue of des-components/src/queue.rs rely on: it holds each item that it took
-- until it gives it back, in an order of its own.
use des_cartes.Prelude.{
  ℕ, ◌+◌, ◌≡◌, ◌≢◌, refl, Option, none, some, List, [], ◌∷◌, map, if_ind, if◌then◌else◌, sym,
  Option-cases, inl, inr, add_u64, arith, length, length-map, sum, sum-append, sum-map, sum-Perm,
  OnSome,
}
use des_cartes.Core.Heap
use des_cartes.Core.Heap.{Splits, pop-Splits, pop-eq_none}
use des_cartes.Components.Queue.{
  QueueItem, PrioritizedItem, prioritized_ord, Queue, Enqueued, ok, panicked, err, is_full, refused,
  FifoQueue, fifo, fifo_enqueue, fifo_dequeue, PriorityQueue, priority, priority_enqueue,
  priority_dequeue,
}

-- What an answer adds to a weight of the queue, and what it takes.
abbrev pub gain : ℕ → Enqueued → ℕ
gain n ok = n
gain n panicked = 0
gain n (err e) = 0

abbrev pub loss : (QueueItem → ℕ) → Option QueueItem → ℕ
loss f none = 0
loss f (some item) = f item

pub record Holds {Q : Type 0} (impl : Queue Q) : Type 0 where
  pub contents : Q → List QueueItem
  pub len_contents : (q : Q) → impl.len q ≡ length (contents q)
  pub enqueue_sum :
      (f : QueueItem → ℕ) (item : QueueItem) (q : Q)
      → sum f (contents (impl.enqueue item q).1)
        ≡ sum f (contents q) + gain (f item) (impl.enqueue item q).0
  pub dequeue_sum :
      (f : QueueItem → ℕ) (q : Q)
      → sum f (contents q) ≡ sum f (contents (impl.dequeue q).1) + loss f (impl.dequeue q).0
  pub dequeue_none : (q : Q) → (impl.dequeue q).0 ≡ none → contents q ≡ []
  pub never_panics : (item : QueueItem) (q : Q) → (impl.enqueue item q).0 ≢ panicked

-- What both implementations of `enqueue` return.
abbrev entered {ℓ} : {Q : Type ℓ} → Option ℕ → ℕ → Q → Q → Enqueued × Q
entered capacity n q q' = if is_full capacity n then (refused capacity, q) else (ok, q')

entered-ne_panicked {ℓ} :
    {Q : Type ℓ} (capacity : Option ℕ) (n : ℕ) (q q' : Q) → (entered capacity n q q').0 ≢ panicked
entered-ne_panicked none n q q' h = cc
entered-ne_panicked (some cap) n q q' h = ground (arith, h)

entered-gain {ℓ} :
    {Q : Type ℓ} (capacity : Option ℕ) (n w : ℕ) (weigh : Q → ℕ) (q q' : Q)
    → weigh q' ≡ weigh q + w
    → weigh (entered capacity n q q').1 ≡ weigh q + gain w (entered capacity n q q').0
entered-gain none n w weigh q q' h = h
entered-gain (some cap) n w weigh q q' h =
    if_ind (λ (r : Enqueued × _). weigh r.1 ≡ weigh q + gain w r.0) (is_full (some cap) n)
      (λ _. omega arith) (λ _. h)

fifo-dequeue_sum :
    (f : QueueItem → ℕ) (q : FifoQueue)
    → sum f q.items ≡ sum f (fifo_dequeue q).1.items + loss f (fifo_dequeue q).0
unfolding fifo_dequeue
fifo-dequeue_sum f q = go q.items refl
  where
    go :
        (items : List QueueItem)
        → q.items ≡ items
        → let r = fifo_dequeue q in sum f q.items ≡ sum f r.1.items + loss f r.0
    go [] e = rw e (omega arith)
    go (item ∷ items) e = rw e (omega arith)

fifo-dequeue_none : (q : FifoQueue) → (fifo_dequeue q).0 ≡ none → q.items ≡ []
unfolding fifo_dequeue
fifo-dequeue_none q h = ground arith

pub fifo-Holds : Holds fifo
unfolding fifo_enqueue fifo_dequeue
fifo-Holds = record {
  contents = λ q. q.items;
  len_contents = λ q. refl;
  enqueue_sum = λ f item q.
      entered-gain q.capacity (length q.items) (f item) (λ (q : FifoQueue). sum f q.items) q _
        (omega (arith, sum-append f q.items (item ∷ [])));
  dequeue_sum = fifo-dequeue_sum;
  dequeue_none = fifo-dequeue_none;
  never_panics = λ item q. entered-ne_panicked q.capacity (length q.items) q _;
}

abbrev view : PriorityQueue → List QueueItem
view q = map (λ (p : PrioritizedItem). p.item) q.items

priority-dequeue_sum :
    (f : QueueItem → ℕ) (q : PriorityQueue)
    → sum f (view q) ≡ sum f (view (priority_dequeue q).1) + loss f (priority_dequeue q).0
unfolding priority_dequeue
priority-dequeue_sum f q = go (Heap.pop q.items) (pop-Splits q.items)
  where
    go :
        (o : Option (PrioritizedItem × List PrioritizedItem))
        → OnSome (Splits q.items) o
        → let r : Option QueueItem × PriorityQueue = elim o [
          | none ↦ (none, q)
          | some (p, items) ↦
              (some p.item, record q { items = items; total_dequeued = add_u64 q.total_dequeued 1 })
        ] in
          sum f (view q) ≡ sum f (view r.1) + loss f r.0
    go none h = omega arith
    go (some (p, items)) h =
        let e = sum-Perm (λ (x : PrioritizedItem). f x.item) h.perm in
        omega (
          arith,
          e,
          sum-map f (λ (p : PrioritizedItem). p.item) q.items,
          sum-map f (λ (p : PrioritizedItem). p.item) items,
        )

priority-dequeue_none : (q : PriorityQueue) → (priority_dequeue q).0 ≡ none → view q ≡ []
unfolding priority_dequeue
priority-dequeue_none q h = elim (Option-cases (Heap.pop q.items)) [
  | inl e ↦ rw (pop-eq_none q.items e) refl
  | inr (r, e) ↦ absurd (grind (arith, h, e))
]

pub priority-Holds : Holds priority
unfolding priority_enqueue
priority-Holds = record {
  contents = view;
  len_contents = λ q. sym (length-map (λ (p : PrioritizedItem). p.item) q.items);
  enqueue_sum = λ f item q.
      entered-gain q.capacity (length q.items) (f item) (λ (q : PriorityQueue). sum f (view q)) q _
        (omega arith);
  dequeue_sum = priority-dequeue_sum;
  dequeue_none = priority-dequeue_none;
  never_panics = λ item q. entered-ne_panicked q.capacity (length q.items) q _;
}
