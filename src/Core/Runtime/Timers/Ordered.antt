-- ===== src/Core/Runtime/Timers/Ordered.antt =====
-- The order of the timers of des-core/src/async_runtime.rs: what its `BTreeMap` keeps.
use des_cartes.Prelude.{
  ℕ, ◌<◌, ◌≡◌, refl, ap, Bool, true, false, List, [], ◌∷◌, ◌++◌, ltb, ◌==◌, if◌then◌else◌, if_ind,
  is_empty, All, All-mono, arith, Bool-cases, inl, inr,
}
use des_cartes.Core.Time.{SimTime}
use des_cartes.Core.Runtime.Timers.{
  TimerMap, retain_others, first_deadline, push_timer, drop_timer, drop_task, take_due,
}

abbrev pub Later : SimTime → TimerMap → Type 0
Later d ts = All (λ e. d < e.0) ts

-- The deadlines rise, and each has a task.
abbrev pub IsOrdered : TimerMap → Type 0
IsOrdered [] = Unit
IsOrdered ((d, ids) ∷ ts) = (is_empty ids ≡ false) × Later d ts × IsOrdered ts

is_empty-snoc : (ids : List ℕ) (id : ℕ) → is_empty (ids ++ id ∷ []) ≡ false
is_empty-snoc [] id = refl
is_empty-snoc (i ∷ ids) id = refl

push_timer-Later :
    (d₀ d : SimTime) (id : ℕ) (ts : TimerMap) → d₀ < d → Later d₀ ts → Later d₀ (push_timer d id ts)
unfolding push_timer
push_timer-Later d₀ d id [] l h = (l, tt)
push_timer-Later d₀ d id ((d', ids) ∷ ts) l h =
    let rest = push_timer-Later d₀ d id ts l h.1 in
    if_ind (Later d₀) (d == d') (λ _. h)
      (λ _. if_ind (Later d₀) (ltb d d') (λ _. (l, h)) (λ _. (h.0, rest)))

pub push_timer-IsOrdered :
    (d : SimTime) (id : ℕ) (ts : TimerMap) → IsOrdered ts → IsOrdered (push_timer d id ts)
unfolding push_timer
push_timer-IsOrdered d id [] h = (refl, tt, tt)
push_timer-IsOrdered d id ((d', ids) ∷ ts) h =
    let rest = push_timer-IsOrdered d id ts h.2 in
    if_ind IsOrdered (d == d') (λ _. (is_empty-snoc ids id, h.1, h.2))
      (λ n.
        if_ind IsOrdered (ltb d d')
          (λ l.
            let before : d < d' = ground (arith, l) in
            (refl, (before, All-mono ts (λ e q. omega (arith, before, q)) h.1), h))
          (λ l.
            let after : d' < d = grind (arith, l, n) in
            (h.0, push_timer-Later d' d id ts after h.1, rest)))

drop_timer-Later :
    (d₀ d : SimTime) (id : ℕ) (ts : TimerMap) → Later d₀ ts → Later d₀ (drop_timer d id ts).1
unfolding drop_timer
drop_timer-Later d₀ d id [] h = tt
drop_timer-Later d₀ d id ((d', ids) ∷ ts) h =
    let P : Bool × TimerMap → Type 0 = λ r. Later d₀ r.1 in
    if_ind P (d == d') (λ _. if_ind P (is_empty (retain_others id ids)) (λ _. h.1) (λ _. h))
      (λ _. (h.0, drop_timer-Later d₀ d id ts h.1))

pub drop_timer-IsOrdered :
    (d : SimTime) (id : ℕ) (ts : TimerMap) → IsOrdered ts → IsOrdered (drop_timer d id ts).1
unfolding drop_timer
drop_timer-IsOrdered d id [] h = tt
drop_timer-IsOrdered d id ((d', ids) ∷ ts) h =
    let P : Bool × TimerMap → Type 0 = λ r. IsOrdered r.1 in
    if_ind P (d == d')
      (λ _. if_ind P (is_empty (retain_others id ids)) (λ _. h.2) (λ n. (n, h.1, h.2)))
      (λ _. (h.0, drop_timer-Later d' d id ts h.1, drop_timer-IsOrdered d id ts h.2))

-- Where no entry was left empty, the first deadline is the same.
pub drop_timer-first_deadline :
    (d : SimTime) (id : ℕ) (ts : TimerMap)
    → (drop_timer d id ts).0 ≡ false
    → first_deadline (drop_timer d id ts).1 ≡ first_deadline ts
unfolding drop_timer
drop_timer-first_deadline d id [] e = refl
drop_timer-first_deadline d id ((d', ids) ∷ ts) e = elim (Bool-cases (d == d')) [
  | inl same ↦ elim (Bool-cases (is_empty (retain_others id ids))) [
    | inl gone ↦ absurd (grind (arith, e, same, gone))
    | inr kept ↦ rw (same, kept) refl
  ]
  | inr other ↦ rw other refl
]

drop_task-Later : (d₀ : SimTime) (id : ℕ) (ts : TimerMap) → Later d₀ ts → Later d₀ (drop_task id ts)
unfolding drop_task
drop_task-Later d₀ id [] h = tt
drop_task-Later d₀ id ((d, ids) ∷ ts) h =
    let rest = drop_task-Later d₀ id ts h.1 in
    if_ind (Later d₀) (is_empty (retain_others id ids)) (λ _. rest) (λ _. (h.0, rest))

pub drop_task-IsOrdered : (id : ℕ) (ts : TimerMap) → IsOrdered ts → IsOrdered (drop_task id ts)
unfolding drop_task
drop_task-IsOrdered id [] h = tt
drop_task-IsOrdered id ((d, ids) ∷ ts) h =
    let rest = drop_task-IsOrdered id ts h.2 in
    if_ind IsOrdered (is_empty (retain_others id ids)) (λ _. rest)
      (λ n. (n, drop_task-Later d id ts h.1, rest))

-- The reference: each entry is judged by its own deadline.
abbrev pub due_tasks : SimTime → TimerMap → List ℕ
due_tasks now [] = []
due_tasks now ((d, ids) ∷ ts) =
    let rest = due_tasks now ts in if ltb now d then rest else ids ++ rest

abbrev pub later_timers : SimTime → TimerMap → TimerMap
later_timers now [] = []
later_timers now ((d, ids) ∷ ts) =
    let rest = later_timers now ts in if ltb now d then (d, ids) ∷ rest else rest

due_tasks-none : (now d : SimTime) (ts : TimerMap) → now < d → Later d ts → due_tasks now ts ≡ []
due_tasks-none now d [] l h = refl
due_tasks-none now d ((d', ids) ∷ ts) l h =
    let before : ltb now d' ≡ true = ground (arith, l, h.0) in
    rw before (due_tasks-none now d ts l h.1)

later_timers-all :
    (now d : SimTime) (ts : TimerMap) → now < d → Later d ts → later_timers now ts ≡ ts
later_timers-all now d [] l h = refl
later_timers-all now d ((d', ids) ∷ ts) l h =
    let before : ltb now d' ≡ true = ground (arith, l, h.0) in
    rw before (ap (λ r. (d', ids) ∷ r) (later_timers-all now d ts l h.1))

-- If the timers are in order, taking entries from the front while they are due gives the tasks of
-- exactly the entries that are due, in their order, and leaves exactly the others.
pub take_due-lem :
    (now : SimTime) (ts : TimerMap)
    → IsOrdered ts
    → take_due now ts ≡ (due_tasks now ts, later_timers now ts)
unfolding take_due
take_due-lem now [] h = refl
take_due-lem now ((d, ids) ∷ ts) h = elim (Bool-cases (ltb now d)) [
  | inl l ↦
      let before : now < d = ground (arith, l) in
      rw l
        (rw (due_tasks-none now d ts before h.1) (rw (later_timers-all now d ts before h.1) refl))
  | inr n ↦ rw n (rw (take_due-lem now ts h.2) refl)
]

pub later_timers-Later : (now : SimTime) (ts : TimerMap) → Later now (later_timers now ts)
later_timers-Later now [] = tt
later_timers-Later now ((d, ids) ∷ ts) =
    let rest = later_timers-Later now ts in
    if_ind (Later now) (ltb now d) (λ l. (ground (arith, l), rest)) (λ _. rest)

pub later_timers-IsOrdered :
    (now : SimTime) (ts : TimerMap) → IsOrdered ts → IsOrdered (later_timers now ts)
later_timers-IsOrdered now [] h = tt
later_timers-IsOrdered now ((d, ids) ∷ ts) h =
    let rest = later_timers-IsOrdered now ts h.2 in
    let after = later_timers-after now d ts h.1 in
    if_ind IsOrdered (ltb now d) (λ _. (h.0, after, rest)) (λ _. rest)
  where
    later_timers-after :
        (now d : SimTime) (ts : TimerMap) → Later d ts → Later d (later_timers now ts)
    later_timers-after now d [] h = tt
    later_timers-after now d ((d', ids) ∷ ts) h =
        let rest = later_timers-after now d ts h.1 in
        if_ind (Later d) (ltb now d') (λ _. (h.0, rest)) (λ _. rest)
