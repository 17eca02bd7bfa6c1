-- ===== src/Components/Queue/Priority.antt =====
-- The items of the queues of des-components/src/queue.rs, and the order of the priority queue's heap.
use des_cartes.Prelude.{ℕ, ◌≡◌, true, false, Option, none, compare, Ordering, arith}
use des_cartes.Core.Time.{SimTime}
use des_cartes.Core.Ids.{Uuid}
use des_cartes.Core.Request.{RequestAttempt}
use des_cartes.Core.Heap.{Ord, is_gt, then_with}

pub record QueueItem : Type 0 where
  pub attempt : RequestAttempt
  pub enqueued_at : SimTime
  pub priority : ℕ
  pub client_id : Option Uuid

abbrev pub with_priority : RequestAttempt → SimTime → ℕ → QueueItem
with_priority attempt enqueued_at priority = record {
  attempt = attempt;
  enqueued_at = enqueued_at;
  priority = priority;
  client_id = none;
}

pub record PrioritizedItem : Type 0 where
  pub item : QueueItem
  pub sequence : ℕ

-- Reversed, so that the greatest item has the lowest priority number, and among equals is the first.
abbrev pub cmp : PrioritizedItem → PrioritizedItem → Ordering
cmp a b = then_with (compare b.item.priority a.item.priority) (compare b.sequence a.sequence)

pub not_gt_trans :
    (a b c : PrioritizedItem)
    → is_gt (cmp a b) ≡ false
    → is_gt (cmp b c) ≡ false
    → is_gt (cmp a c) ≡ false
not_gt_trans a b c p q = ground arith

pub not_gt_total : (a b : PrioritizedItem) → is_gt (cmp a b) ≡ true → is_gt (cmp b a) ≡ false
not_gt_total a b p = ground arith

pub not_gt_refl : (a : PrioritizedItem) → is_gt (cmp a a) ≡ false
not_gt_refl a = ground arith

instance abbrev pub prioritized_ord : Ord PrioritizedItem
prioritized_ord = record {
  cmp = cmp;
  not_gt_trans = not_gt_trans;
  not_gt_total = not_gt_total;
  not_gt_refl = not_gt_refl;
}
