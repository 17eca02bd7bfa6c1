-- ===== src/Components/Queue/ByPriority.antt =====
-- The priority queue of des-components/src/queue.rs stands for a line by priority.
use des_cartes.Prelude.{
  ℕ, suc, ◌+◌, ◌<◌, ◌≤◌, ◌≡◌, refl, sym, ap, ◌∙◌, inl, inr, true, false, Option, none, some, List,
  [], ◌∷◌, map, leb, if◌then◌else◌, if_ind, Bool-cases, length, length-map, add_u64, u64_max, arith,
  All, All-mono, OnSome,
}
use des_cartes.Core.Heap
use des_cartes.Core.Heap.{is_gt, pop-All}
use des_cartes.Components.Queue.{
  QueueItem, PrioritizedItem, prioritized_ord, cmp, Enqueued, is_full, front, PriorityQueue,
  new_priority, priority_enqueue, priority_dequeue, priority_peek, priority,
}
use des_cartes.Components.Queue.Waiting.{
  Line, by_priority, line_enqueue, line_dequeue, line, QueueCall, answers, Implements,
  answers-Implements,
}

-- The items in the order in which the heap gives them.
insert_first : PrioritizedItem → List PrioritizedItem → List PrioritizedItem
insert_first x [] = x ∷ []
insert_first x (y ∷ ys) =
    let behind = y ∷ insert_first x ys in if is_gt (cmp y x) then behind else x ∷ y ∷ ys

in_order : List PrioritizedItem → List PrioritizedItem
unfolding insert_first
in_order [] = []
in_order (x ∷ xs) = insert_first x (in_order xs)

length-insert_first :
    (x : PrioritizedItem) (ys : List PrioritizedItem) → length (insert_first x ys) ≡ suc (length ys)
unfolding insert_first
length-insert_first x [] = refl
length-insert_first x (y ∷ ys) =
    let rest = length-insert_first x ys in
    if_ind (λ (r : List PrioritizedItem). length r ≡ suc (suc (length ys))) (is_gt (cmp y x))
      (λ _. ap suc rest) (λ _. refl)

length-in_order : (xs : List PrioritizedItem) → length (in_order xs) ≡ length xs
unfolding in_order
length-in_order [] = refl
length-in_order (x ∷ xs) = length-insert_first x (in_order xs) ∙ ap suc (length-in_order xs)

insert_first-All {κ} :
    (P : PrioritizedItem → Type κ) (x : PrioritizedItem) (ys : List PrioritizedItem)
    → P x
    → All P ys
    → All P (insert_first x ys)
unfolding insert_first
insert_first-All P x [] p h = (p, tt)
insert_first-All P x (y ∷ ys) p h =
    let rest = insert_first-All P x ys p h.1 in
    if_ind (All P) (is_gt (cmp y x)) (λ _. (h.0, rest)) (λ _. (p, h))

in_order-All {κ} :
    (P : PrioritizedItem → Type κ) (xs : List PrioritizedItem) → All P xs → All P (in_order xs)
unfolding in_order
in_order-All P [] h = tt
in_order-All P (x ∷ xs) h = insert_first-All P x (in_order xs) h.0 (in_order-All P xs h.1)

-- What the heap gives is the first in this order, and leaves the others.
FirstOf : List PrioritizedItem → Option (PrioritizedItem × List PrioritizedItem) → Type 0
FirstOf xs none = in_order xs ≡ []
FirstOf xs (some (m, rest)) = in_order xs ≡ m ∷ in_order rest

pop-FirstOf : (xs : List PrioritizedItem) → FirstOf xs (Heap.pop xs)
unfolding Heap.pop FirstOf in_order insert_first
pop-FirstOf [] = refl
pop-FirstOf (x ∷ xs) = go (Heap.pop xs) (pop-FirstOf xs)
  where
    go :
        (r : Option (PrioritizedItem × List PrioritizedItem))
        → FirstOf xs r
        → FirstOf (x ∷ xs) (Heap.pop_cons x xs r)
    go none h = rw h refl
    go (some (m, rest)) h =
        if_ind (FirstOf (x ∷ xs)) (is_gt (cmp m x)) (λ g. ap (insert_first x) h ∙ rw g refl)
          (λ g. ap (insert_first x) h ∙ rw g (ap (λ t. x ∷ t) (sym h)))

item_of : PrioritizedItem → QueueItem
item_of p = p.item

items_of : List PrioritizedItem → List QueueItem
unfolding item_of
items_of = map item_of

-- An item with the greatest number goes behind all that are not after it by priority alone.
insert_first-by_priority :
    (x : PrioritizedItem) (ys : List PrioritizedItem)
    → All (λ y. y.sequence < x.sequence) ys
    → items_of (insert_first x ys) ≡ by_priority x.item (items_of ys)
unfolding insert_first items_of
insert_first-by_priority x [] h = refl
insert_first-by_priority x (y ∷ ys) h =
    let rest = insert_first-by_priority x ys h.1 in
    elim (Bool-cases (leb y.item.priority x.item.priority)) [
      | inl e ↦
          let before : is_gt (cmp y x) ≡ true = ground (arith, e, h.0) in
          rw e (rw before (ap (λ r. y.item ∷ r) rest))
      | inr e ↦ let after : is_gt (cmp y x) ≡ false = ground (arith, e) in rw e (rw after refl)
    ]

view : PriorityQueue → Line
unfolding items_of in_order
view q = record { waiting = items_of (in_order q.items); capacity = q.capacity }

-- The numbers in use are below the next one, and there are numbers for some more items.
Numbered : ℕ → PriorityQueue → Type 0
Numbered n q = All (λ p. p.sequence < q.next_sequence) q.items × (q.next_sequence + n ≤ u64_max)

length-view : (q : PriorityQueue) → length q.items ≡ length (view q).waiting
unfolding view items_of
length-view q = sym (length-map item_of (in_order q.items) ∙ length-in_order q.items)

priority_enqueue-Numbered :
    (n : ℕ) (item : QueueItem) (q : PriorityQueue)
    → Numbered (suc n) q
    → Numbered n (priority_enqueue item q).1
unfolding Numbered priority_enqueue
priority_enqueue-Numbered n item q v =
    let next : add_u64 q.next_sequence 1 ≡ q.next_sequence + 1 = omega (arith, v.1) in
    if_ind (λ (r : Enqueued × PriorityQueue). Numbered n r.1) (is_full q.capacity (length q.items))
      (λ _. (v.0, omega (arith, v.1)))
      (λ _. (
        (omega (arith, next), All-mono q.items (λ p h. omega (arith, next, h)) v.0),
        omega (arith, next, v.1),
      ))

priority_enqueue-view :
    (n : ℕ) (item : QueueItem) (q : PriorityQueue)
    → Numbered (suc n) q
    → let r = priority_enqueue item q in
      let l = line_enqueue by_priority item (view q) in (r.0 ≡ l.0) × (view r.1 ≡ l.1)
unfolding priority_enqueue view Numbered in_order
priority_enqueue-view n item q v =
    let new : PrioritizedItem = record { item = item; sequence = q.next_sequence } in
    let placed =
      insert_first-by_priority new (in_order q.items)
        (in_order-All (λ p. p.sequence < q.next_sequence) q.items v.0) in
    elim (Bool-cases (is_full q.capacity (length q.items))) [
      | inl e ↦ rw (sym (length-view q)) (rw e (refl, refl))
      | inr e ↦
          rw (sym (length-view q))
            (rw e (refl, ap (λ w. record { waiting = w; capacity = q.capacity }) placed))
    ]

priority_dequeue-view :
    (q : PriorityQueue)
    → let r = priority_dequeue q in let l = line_dequeue (view q) in (r.0 ≡ l.0) × (view r.1 ≡ l.1)
unfolding priority_dequeue view FirstOf
priority_dequeue-view q = go (Heap.pop q.items) (pop-FirstOf q.items)
  where
    go :
        (o : Option (PrioritizedItem × List PrioritizedItem))
        → FirstOf q.items o
        → let r = elim o as (λ _. Option QueueItem × PriorityQueue) [
          | none ↦ (none, q)
          | some (p, items) ↦
              (some p.item, record q { items = items; total_dequeued = add_u64 q.total_dequeued 1 })
        ] in
          let l = line_dequeue (view q) in (r.0 ≡ l.0) × (view r.1 ≡ l.1)
    go none h = rw h (refl, refl)
    go (some (p, items)) h = rw h (refl, refl)

priority_peek-view : (q : PriorityQueue) → priority_peek q ≡ front (view q).waiting
unfolding priority_peek Heap.peek view FirstOf
priority_peek-view q = go (Heap.pop q.items) (pop-FirstOf q.items)
  where
    go :
        (o : Option (PrioritizedItem × List PrioritizedItem))
        → FirstOf q.items o
        → elim (elim o as (λ _. Option PrioritizedItem) [ none ↦ none | some (m, rest) ↦ some m ])
            as (λ _. Option QueueItem) [ none ↦ none | some p ↦ some p.item ]
          ≡ front (view q).waiting
    go none h = rw h refl
    go (some (p, items)) h = rw h refl

priority_dequeue-Numbered :
    (n : ℕ) (q : PriorityQueue) → Numbered (suc n) q → Numbered n (priority_dequeue q).1
unfolding priority_dequeue Numbered
priority_dequeue-Numbered n q v =
    go (Heap.pop q.items) (pop-All (λ p. p.sequence < q.next_sequence) q.items v.0)
  where
    go :
        (o : Option (PrioritizedItem × List PrioritizedItem))
        → OnSome (Heap.Both (λ p. p.sequence < q.next_sequence)) o
        → Numbered n
            (elim o as (λ _. Option QueueItem × PriorityQueue) [
              | none ↦ (none, q)
              | some (p, items) ↦ (
                some p.item,
                record q { items = items; total_dequeued = add_u64 q.total_dequeued 1 },
              )
            ]).1
    go none h = (v.0, omega (arith, v.1))
    go (some (p, items)) h = (h.1, omega (arith, v.1))

priority_line : Implements priority by_priority
unfolding Numbered
priority_line = record {
  view = view;
  Valid = Numbered;
  less = λ n q v. (v.0, omega (arith, v.1));
  enqueue_valid = priority_enqueue-Numbered;
  dequeue_valid = priority_dequeue-Numbered;
  enqueue_answer = λ n item q v. (priority_enqueue-view n item q v).0;
  enqueue_view = λ n item q v. (priority_enqueue-view n item q v).1;
  dequeue_answer = λ q. (priority_dequeue-view q).0;
  dequeue_view = λ q. (priority_dequeue-view q).1;
  peek_answer = priority_peek-view;
  len_answer = length-view;
}

-- From an empty priority queue, every row of calls that is no longer than the sequence numbers last
-- is answered as by a line in which a new item stands behind all whose priority number is no
-- greater: refusals at the capacity, items given out, peeks and lengths agree.
pub priority-answers :
    (capacity : Option ℕ) (calls : List QueueCall)
    → length calls ≤ u64_max
    → answers priority calls (new_priority capacity)
      ≡ answers (line by_priority) calls (record { waiting = []; capacity = capacity })
unfolding new_priority priority_line view
priority-answers capacity calls h =
    answers-Implements priority by_priority priority_line calls (new_priority capacity)
      (tt, omega (arith, h))
