-- ===== src/Core/Scheduler/Entry.antt =====
-- des-core/src/scheduler.rs: the entries of the event queue and their order.
use des_cartes.Prelude.{ℕ, ◌≡◌, Option, none, some, true, false, compare, Ordering, arith}
use des_cartes.Core.Time.{SimTime}
use des_cartes.Core.Ids.{Uuid}
use des_cartes.Core.Heap.{Ord, is_gt, then_with}

pub record ComponentEventEntry {ℓ} (E : Type ℓ) : Type ℓ where
  pub event_id : ℕ
  pub time : SimTime
  pub component : Uuid
  pub inner : E

pub record TaskEventEntry : Type 0 where
  pub event_id : ℕ
  pub time : SimTime
  pub task_id : Uuid

pub data EventEntry {ℓ} (E : Type ℓ) : Type ℓ where
  component : ComponentEventEntry E → EventEntry E
  task : TaskEventEntry → EventEntry E

module _ {ℓ} {E : Type ℓ} where
  abbrev pub entry_time : EventEntry E → SimTime
  entry_time (component e) = e.time
  entry_time (task e) = e.time

  abbrev pub entry_seq : EventEntry E → ℕ
  entry_seq (component e) = e.event_id
  entry_seq (task e) = e.event_id

  abbrev pub entry_task_id : EventEntry E → Option Uuid
  entry_task_id (component e) = none
  entry_task_id (task e) = some e.task_id

  -- Reversed, so that the greatest entry is the earliest one, and at one time the first scheduled.
  abbrev pub cmp : EventEntry E → EventEntry E → Ordering
  cmp a b = then_with (compare (entry_time b) (entry_time a)) (compare (entry_seq b) (entry_seq a))

  pub not_gt_trans :
      (a b c : EventEntry E)
      → is_gt (cmp a b) ≡ false
      → is_gt (cmp b c) ≡ false
      → is_gt (cmp a c) ≡ false
  not_gt_trans a b c p q = ground arith

  pub not_gt_total : (a b : EventEntry E) → is_gt (cmp a b) ≡ true → is_gt (cmp b a) ≡ false
  not_gt_total a b p = ground arith

  pub not_gt_refl : (a : EventEntry E) → is_gt (cmp a a) ≡ false
  not_gt_refl a = ground arith

  instance abbrev pub entry_ord : Ord (EventEntry E)
  entry_ord = record {
    cmp = cmp;
    not_gt_trans = not_gt_trans;
    not_gt_total = not_gt_total;
    not_gt_refl = not_gt_refl;
  }
