-- ===== src/Core/Runtime/Timers.antt =====
-- The `BTreeMap` of the timers of des-core/src/async_runtime.rs: a list in the order of the deadlines.
pub mod Ordered
pub mod Registered
use des_cartes.Prelude.{
  ℕ, ◌<◌, ◌≤◌, Bool, true, false, not, Option, none, some, List, [], ◌∷◌, ◌++◌, ltb, leb, ◌==◌,
  if◌then◌else◌, is_empty, lookup,
}
use des_cartes.Core.Time.{SimTime}

abbrev pub TimerMap : Type 0
TimerMap = List (SimTime × List ℕ)

-- `retain(|t| *t != id)`.
abbrev pub retain_others : ℕ → List ℕ → List ℕ
retain_others id [] = []
retain_others id (t ∷ ts) = let rest = retain_others id ts in if t == id then rest else t ∷ rest

abbrev pub first_deadline : TimerMap → Option SimTime
first_deadline [] = none
first_deadline ((d, ids) ∷ ts) = some d

-- `entry(deadline).or_default().push(task_id)`.
unfoldable pub push_timer : SimTime → ℕ → TimerMap → TimerMap
push_timer d id [] = (d, id ∷ []) ∷ []
push_timer d id ((d', ids) ∷ ts) =
    let later = (d', ids) ∷ push_timer d id ts in
    if d == d'
    then (d', ids ++ id ∷ []) ∷ ts
    else if ltb d d'
    then (d, id ∷ []) ∷ (d', ids) ∷ ts
    else later

-- The entry of a deadline without the task, and whether the entry, which is then removed, was left
-- empty.
unfoldable pub drop_timer : SimTime → ℕ → TimerMap → Bool × TimerMap
drop_timer d id [] = (false, [])
drop_timer d id ((d', ids) ∷ ts) =
    let (emptied, ts') = drop_timer d id ts in
    if d == d'
    then (if is_empty (retain_others id ids)
        then (true, ts)
        else (false, (d', retain_others id ids) ∷ ts))
    else (emptied, (d', ids) ∷ ts')

-- The task leaves every entry; entries that are left empty are removed.
unfoldable pub drop_task : ℕ → TimerMap → TimerMap
drop_task id [] = []
drop_task id ((d, ids) ∷ ts) =
    let rest = drop_task id ts in
    if is_empty (retain_others id ids) then rest else (d, retain_others id ids) ∷ rest

-- The tasks of the deadlines that have come, in order, and the other entries.
unfoldable pub take_due : SimTime → TimerMap → List ℕ × TimerMap
take_due now [] = ([], [])
take_due now ((d, ids) ∷ ts) =
    let (due, rest) = take_due now ts in
    if ltb now d then ([], (d, ids) ∷ ts) else (ids ++ due, rest)
