-- ===== src/Components/Queue/Refinement.antt =====
-- The queues of des-components/src/queue.rs stand for lines of waiting items.
use des_cartes.Prelude.{ℕ, ◌≡◌, refl, inl, inr, Option, List, [], ◌∷◌, Bool-cases, length}
use des_cartes.Components.Queue.{
  QueueItem, is_full, FifoQueue, new_fifo, fifo_enqueue, fifo_dequeue, fifo,
}
use des_cartes.Components.Queue.Waiting.{
  Line, last, line_dequeue, line, QueueCall, answers, Implements, answers-Implements,
}

fifo_line : Implements fifo last
unfolding fifo_enqueue fifo_dequeue
fifo_line = record {
  view = view;
  Valid = λ n q. Unit;
  less = λ n q v. tt;
  enqueue_valid = λ n item q v. tt;
  dequeue_valid = λ n q v. tt;
  enqueue_answer = λ n item q v. elim (Bool-cases (is_full q.capacity (length q.items))) [
    | inl e ↦ rw e refl
    | inr e ↦ rw e refl
  ];
  enqueue_view = λ n item q v. elim (Bool-cases (is_full q.capacity (length q.items))) [
    | inl e ↦ rw e refl
    | inr e ↦ rw e refl
  ];
  dequeue_answer = λ q. (by q q.items).0;
  dequeue_view = λ q. (by q q.items).1;
  peek_answer = λ q. refl;
  len_answer = λ q. refl;
}
  where
    view : FifoQueue → Line
    view q = record { waiting = q.items; capacity = q.capacity }

    by :
        (q : FifoQueue) (items : List QueueItem)
        → let r = fifo_dequeue (record q { items = items }) in
          let w = line_dequeue (record { waiting = items; capacity = q.capacity }) in
          (r.0 ≡ w.0) × (view r.1 ≡ w.1)
    by q [] = (refl, refl)
    by q (item ∷ items) = (refl, refl)

-- From an empty FIFO queue, every row of calls is answered as by a line in which a new item stands
-- last: refusals at the capacity, items given out, peeks and lengths agree.
pub fifo-answers :
    (capacity : Option ℕ) (calls : List QueueCall)
    → answers fifo calls (new_fifo capacity)
      ≡ answers (line last) calls (record { waiting = []; capacity = capacity })
unfolding new_fifo fifo_line
fifo-answers capacity calls = answers-Implements fifo last fifo_line calls (new_fifo capacity) tt
