-- ===== src/Components/Queue/Waiting.antt =====
-- What a queue of des-components/src/queue.rs promises: a line of waiting items, in which a rule says
-- where a new item stands.
use des_cartes.Prelude.{
  ℕ, suc, ◌≡◌, refl, ap, ◌∙◌, Option, none, some, List, [], ◌∷◌, ◌++◌, leb, if◌then◌else◌, length,
}
use des_cartes.Components.Queue.{QueueItem, Enqueued, ok, Queue, is_full, refused, front}

pub record Line : Type 0 where
  pub waiting : List QueueItem
  pub capacity : Option ℕ

abbrev pub Rule : Type 0
Rule = QueueItem → List QueueItem → List QueueItem

-- Behind all others.
abbrev pub last : Rule
last item waiting = waiting ++ item ∷ []

-- Behind all whose priority number is no greater.
abbrev pub by_priority : Rule
by_priority item [] = item ∷ []
by_priority item (y ∷ waiting) =
    let behind = y ∷ by_priority item waiting in
    if leb y.priority item.priority then behind else item ∷ y ∷ waiting

abbrev pub line_enqueue : Rule → QueueItem → Line → Enqueued × Line
line_enqueue place item l =
    if is_full l.capacity (length l.waiting)
    then (refused l.capacity, l)
    else (ok, record l { waiting = place item l.waiting })

abbrev pub line_dequeue : Line → Option QueueItem × Line
line_dequeue l = elim l.waiting [
  | [] ↦ (none, l)
  | item ∷ waiting ↦ (some item, record l { waiting = waiting })
]

abbrev pub line : Rule → Queue Line
line place = record {
  enqueue = line_enqueue place;
  dequeue = line_dequeue;
  len = λ l. length l.waiting;
  capacity = λ l. l.capacity;
  peek = λ l. front l.waiting;
}

pub data QueueCall : Type 0 where
  enqueues : QueueItem → QueueCall
  dequeues peeks counts : QueueCall

pub data Answer : Type 0 where
  enqueued : Enqueued → Answer
  dequeued peeked : Option QueueItem → Answer
  counted : ℕ → Answer

-- The answers to a row of calls.
abbrev pub answers : {Q : Type 0} → Queue Q → List QueueCall → Q → List Answer
answers impl [] q = []
answers impl (enqueues item ∷ calls) q =
    let (answer, q') = impl.enqueue item q in enqueued answer ∷ answers impl calls q'
answers impl (dequeues ∷ calls) q =
    let (answer, q') = impl.dequeue q in dequeued answer ∷ answers impl calls q'
answers impl (peeks ∷ calls) q = peeked (impl.peek q) ∷ answers impl calls q
answers impl (counts ∷ calls) q = counted (impl.len q) ∷ answers impl calls q

-- A queue that stands for a line, while it has numbers for some more calls.
pub record Implements {Q : Type 0} (impl : Queue Q) (place : Rule) : Type 1 where
  pub view : Q → Line
  pub Valid : ℕ → Q → Type 0
  pub less : (n : ℕ) (q : Q) → Valid (suc n) q → Valid n q
  pub enqueue_valid :
      (n : ℕ) (item : QueueItem) (q : Q) → Valid (suc n) q → Valid n (impl.enqueue item q).1
  pub dequeue_valid : (n : ℕ) (q : Q) → Valid (suc n) q → Valid n (impl.dequeue q).1
  pub enqueue_answer :
      (n : ℕ) (item : QueueItem) (q : Q)
      → Valid (suc n) q
      → (impl.enqueue item q).0 ≡ (line_enqueue place item (view q)).0
  pub enqueue_view :
      (n : ℕ) (item : QueueItem) (q : Q)
      → Valid (suc n) q
      → view (impl.enqueue item q).1 ≡ (line_enqueue place item (view q)).1
  pub dequeue_answer : (q : Q) → (impl.dequeue q).0 ≡ (line_dequeue (view q)).0
  pub dequeue_view : (q : Q) → view (impl.dequeue q).1 ≡ (line_dequeue (view q)).1
  pub peek_answer : (q : Q) → impl.peek q ≡ front (view q).waiting
  pub len_answer : (q : Q) → impl.len q ≡ length (view q).waiting

pub answers-Implements :
    {Q : Type 0} (impl : Queue Q) (place : Rule) (i : Implements impl place)
    (calls : List QueueCall) (q : Q)
    → i.Valid (length calls) q
    → answers impl calls q ≡ answers (line place) calls (i.view q)
answers-Implements impl place i [] q v = refl
answers-Implements impl place i (enqueues item ∷ calls) q v =
    let n = length calls in
    let rest =
      answers-Implements impl place i calls (impl.enqueue item q).1 (i.enqueue_valid n item q v) in
    rw (i.enqueue_answer n item q v) (
      ap (λ a. enqueued (line_enqueue place item (i.view q)).0 ∷ a)
        (rest ∙ ap (answers (line place) calls) (i.enqueue_view n item q v)))
answers-Implements impl place i (dequeues ∷ calls) q v =
    let rest =
      answers-Implements impl place i calls (impl.dequeue q).1
        (i.dequeue_valid (length calls) q v) in
    rw (i.dequeue_answer q) (
      ap (λ a. dequeued (line_dequeue (i.view q)).0 ∷ a)
        (rest ∙ ap (answers (line place) calls) (i.dequeue_view q)))
answers-Implements impl place i (peeks ∷ calls) q v =
    let rest = answers-Implements impl place i calls q (i.less (length calls) q v) in
    rw (i.peek_answer q) (ap (λ a. peeked (front (i.view q).waiting) ∷ a) rest)
answers-Implements impl place i (counts ∷ calls) q v =
    let rest = answers-Implements impl place i calls q (i.less (length calls) q v) in
    rw (i.len_answer q) (ap (λ a. counted (length (i.view q).waiting) ∷ a) rest)
