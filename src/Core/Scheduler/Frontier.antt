-- ===== src/Core/Scheduler/Frontier.antt =====
-- des-core/src/scheduler.rs: the same-time frontier and its tie-breaking policies.
use mathlib.Core.List.{Perm}
use mathlib.Core.List.Perm
use des_cartes.Prelude.{
  ◌<◌, ◌≢◌, length, ℕ, zero, suc, ◌+◌, refl, Option, none, some, List, [], ◌∷◌, map, arith, ltb,
  if◌then◌else◌, All, ◌>>=◌, OnSome,
}
use des_cartes.Core.Time.{SimTime}
use des_cartes.Core.Ids.{Uuid}
use des_cartes.Core.Scheduler.Entry.{EventEntry}

pub data FrontierEventKind : Type 0 where
  component task : FrontierEventKind

pub record FrontierEvent : Type 0 where
  pub seq : ℕ
  pub kind : FrontierEventKind
  pub component_id : Option Uuid
  pub task_id : Option Uuid

pub record FrontierSignature : Type 0 where
  pub time_nanos : ℕ
  pub frontier_seqs : List ℕ

-- The trait `EventFrontierPolicy`, of a policy with the state `P`.
pub record Policy {κ} (P : Type κ) : Type κ where
  pub choose : P → SimTime → List FrontierEvent → ℕ × P

unfoldable pub to_frontier_event {ℓ} : {E : Type ℓ} → EventEntry E → FrontierEvent
to_frontier_event (EventEntry.component e) = record {
  seq = e.event_id;
  kind = FrontierEventKind.component;
  component_id = some e.component;
  task_id = none;
}
to_frontier_event (EventEntry.task e) = record {
  seq = e.event_id;
  kind = FrontierEventKind.task;
  component_id = none;
  task_id = some e.task_id;
}

abbrev pub seqs : List FrontierEvent → List ℕ
seqs = map (λ e. e.seq)

-- `min_by_key` on the sequence number: the first of the least entries. `i` is the index of the next
-- entry, `best` the index of the least one so far and `least` its number.
unfoldable pub min_index : ℕ → ℕ → ℕ → List FrontierEvent → ℕ
min_index i best least [] = best
min_index i best least (e ∷ es) =
    if ltb e.seq least then min_index (i + 1) i e.seq es else min_index (i + 1) best least es

unfoldable pub fifo_choose : SimTime → List FrontierEvent → ℕ
unfolding min_index
fifo_choose t [] = 0
fifo_choose t (e ∷ es) = min_index 1 0 e.seq es

abbrev pub fifo_policy : Policy (Unit {0})
fifo_policy = record { choose = λ p t frontier. (fifo_choose t frontier, p) }

-- `Vec::swap_remove`: the entry at the index, and the others with the last one in its place.
module _ {ℓ} {A : Type ℓ} where
  cons_behind : A → List A → List A
  cons_behind y [] = y ∷ []
  cons_behind y (l ∷ r) = l ∷ y ∷ r

  -- The last entry in front of the others.
  last_first : List A → List A
  unfolding cons_behind
  last_first [] = []
  last_first (y ∷ ys) = cons_behind y (last_first ys)

  unfoldable pub swap_remove : List A → ℕ → Option (A × List A)
  unfolding last_first
  swap_remove [] i = none
  swap_remove (x ∷ xs) zero = some (x, last_first xs)
  swap_remove (x ∷ xs) (suc i) = swap_remove xs i >>= λ r. some (r.0, x ∷ r.1)

  module _ {κ} (P : A → Type κ) where
    last_first-All : (xs : List A) → All P xs → All P (last_first xs)
    unfolding last_first
    last_first-All [] h = tt
    last_first-All (y ∷ ys) h = go (last_first ys) (last_first-All ys h.1)
      where
        go : (r : List A) → All P r → All P (cons_behind y r)
        go [] k = (h.0, tt)
        go (l ∷ r) k = (k.0, (h.0, k.1))

    -- What holds of every entry holds of the one taken out and of the others.
    pub swap_remove-All :
        (xs : List A) (i : ℕ)
        → All P xs
        → OnSome (λ (r : A × List A). P r.0 × All P r.1) (swap_remove xs i)
    unfolding swap_remove
    swap_remove-All [] i h = tt
    swap_remove-All (x ∷ xs) zero h = (h.0, last_first-All xs h.1)
    swap_remove-All (x ∷ xs) (suc i) h = go (swap_remove xs i) (swap_remove-All xs i h.1)
      where
        go :
            (r : Option (A × List A))
            → OnSome (λ (r : A × List A). P r.0 × All P r.1) r
            → OnSome (λ (r : A × List A). P r.0 × All P r.1) (r >>= λ r. some (r.0, x ∷ r.1))
        go none k = tt
        go (some r) k = (k.0, (h.0, k.1))

  -- Within its bounds `swap_remove` does not panic.
  pub swap_remove-ne_none : (xs : List A) (i : ℕ) → i < length xs → swap_remove xs i ≢ none
  unfolding swap_remove
  swap_remove-ne_none [] i h e = absurd (omega arith)
  swap_remove-ne_none (x ∷ xs) zero h e = cc
  swap_remove-ne_none (x ∷ xs) (suc i) h e =
      go (swap_remove xs i) (swap_remove-ne_none xs i (omega arith)) e
    where
      go :
          (r : Option (A × List A))
          → r ≢ none
          → ◌>>=◌ {B = A × List A} r (λ r. some (r.0, x ∷ r.1)) ≢ none
      go none k e' = k refl
      go (some r) k e' = cc

  last_first-perm : (xs : List A) → Perm xs (last_first xs)
  unfolding last_first
  last_first-perm [] = Perm.nil
  last_first-perm (y ∷ ys) = Perm.trans (Perm.cons y (last_first-perm ys)) (go (last_first ys))
    where
      go : (r : List A) → Perm (y ∷ r) (cons_behind y r)
      go [] = Perm.rfl
      go (l ∷ r) = Perm.swap l y r

  pub swap_remove-perm :
      (xs : List A) (i : ℕ) → OnSome (λ (r : A × List A). Perm xs (r.0 ∷ r.1)) (swap_remove xs i)
  unfolding swap_remove
  swap_remove-perm [] i = tt
  swap_remove-perm (x ∷ xs) zero = Perm.cons x (last_first-perm xs)
  swap_remove-perm (x ∷ xs) (suc i) = go (swap_remove xs i) (swap_remove-perm xs i)
    where
      go :
          (r : Option (A × List A))
          → OnSome (λ (r : A × List A). Perm xs (r.0 ∷ r.1)) r
          → OnSome (λ (r : A × List A). Perm (x ∷ xs) (r.0 ∷ r.1)) (r >>= λ r. some (r.0, x ∷ r.1))
      go none k = tt
      go (some (m, r)) k = Perm.trans (Perm.cons x k) (Perm.swap m x r)
