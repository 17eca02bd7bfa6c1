-- ===== src/Core/Runtime/Timers/Registered.antt =====
-- The timers of des-core/src/async_runtime.rs as a set: who waits for which deadline.
use des_cartes.Prelude.{
  ℕ, ◌≤◌, ◌≡◌, refl, sym, ap, ◌∙◌, subst, inl, inr, Bool, true, false, not, ◌&&◌, ◌||◌, List, [],
  ◌∷◌, ◌++◌, ltb, ◌==◌, ==_iff, if◌then◌else◌, if_ind, is_empty, contains, arith, Bool-cases,
}
use des_cartes.Core.Time.{SimTime}
use des_cartes.Core.Runtime.Timers.{
  TimerMap, retain_others, push_timer, drop_timer, drop_task, take_due,
}
use des_cartes.Core.Runtime.Timers.Ordered.{IsOrdered, Later, later_timers, take_due-lem}

-- Whether the task waits for the deadline.
abbrev pub registered : SimTime → ℕ → TimerMap → Bool
registered d id [] = false
registered d id ((d', ids) ∷ ts) = ((d' == d) && contains id ids) || registered d id ts

contains-snoc_lem :
    (j id : ℕ) (ids : List ℕ) → contains j (ids ++ id ∷ []) ≡ (contains j ids || (id == j))
contains-snoc_lem j id [] = grind arith
contains-snoc_lem j id (i ∷ ids) = grind (arith, contains-snoc_lem j id ids)

is_empty-contains : (j : ℕ) (ids : List ℕ) → is_empty ids ≡ true → contains j ids ≡ false
is_empty-contains j [] e = refl
is_empty-contains j (i ∷ ids) e = absurd (cc)

contains-retain_others :
    (j id : ℕ) (ids : List ℕ)
    → contains j (retain_others id ids) ≡ (contains j ids && not (id == j))
contains-retain_others j id [] = grind arith
contains-retain_others j id (i ∷ ids) =
    if_ind (λ r. contains j r ≡ (contains j (i ∷ ids) && not (id == j))) (i == id)
      (λ e. grind (arith, contains-retain_others j id ids, e))
      (λ n. grind (arith, contains-retain_others j id ids, n))

registered-Later :
    (d d' : SimTime) (j : ℕ) (ts : TimerMap) → d ≤ d' → Later d' ts → registered d j ts ≡ false
registered-Later d d' j [] l h = refl
registered-Later d d' j ((e, ids) ∷ ts) l h =
    let rest = registered-Later d d' j ts l h.1 in
    let other : (e == d) ≡ false = ground (arith, l, h.0) in grind (arith, rest, other)

push_timer-registered :
    (d e : SimTime) (id j : ℕ) (ts : TimerMap)
    → registered e j (push_timer d id ts) ≡ (registered e j ts || ((d == e) && (id == j)))
unfolding push_timer
push_timer-registered d e id j [] = grind arith
push_timer-registered d e id j ((d', ids) ∷ ts) =
    let rest = push_timer-registered d e id j ts in
    let P : TimerMap → Type 0 =
      λ r. registered e j r ≡ (registered e j ((d', ids) ∷ ts) || ((d == e) && (id == j))) in
    if_ind P (d == d') (λ s. grind (arith, contains-snoc_lem j id ids, s))
      (λ _. if_ind P (ltb d d') (λ _. grind arith) (λ _. grind (arith, rest)))

drop_timer-registered :
    (d e : SimTime) (id j : ℕ) (ts : TimerMap)
    → IsOrdered ts
    → registered e j (drop_timer d id ts).1 ≡ (registered e j ts && not ((d == e) && (id == j)))
unfolding drop_timer
drop_timer-registered d e id j [] h = grind arith
drop_timer-registered d e id j ((d', ids) ∷ ts) h =
    let rest = drop_timer-registered d e id j ts h.2 in
    let kept = contains-retain_others j id ids in
    let P : Bool × TimerMap → Type 0 =
      λ r. registered e j r.1 ≡ (registered e j ((d', ids) ∷ ts) && not ((d == e) && (id == j))) in
    if_ind P (d == d')
      (λ s.
        let same = (==_iff d d').0 s in
        let once = registered-Later d d' j ts (omega (arith, same)) h.1 in
        if_ind P (is_empty (retain_others id ids))
          (λ n.
            let none_left = is_empty-contains j (retain_others id ids) n in
            grind (arith, kept, none_left, once, same))
          (λ _. grind (arith, kept, once, same)))
      (λ n. grind (arith, rest, n))

drop_task-registered :
    (e : SimTime) (id j : ℕ) (ts : TimerMap)
    → registered e j (drop_task id ts) ≡ (registered e j ts && not (id == j))
unfolding drop_task
drop_task-registered e id j [] = grind arith
drop_task-registered e id j ((d', ids) ∷ ts) =
    let rest = drop_task-registered e id j ts in
    let kept = contains-retain_others j id ids in
    let P : TimerMap → Type 0 =
      λ r. registered e j r ≡ (registered e j ((d', ids) ∷ ts) && not (id == j)) in
    if_ind P (is_empty (retain_others id ids))
      (λ s.
        let none_left = is_empty-contains j (retain_others id ids) s in
        grind (arith, rest, kept, none_left))
      (λ _. grind (arith, rest, kept))

later_timers-registered :
    (now e : SimTime) (j : ℕ) (ts : TimerMap)
    → registered e j (later_timers now ts) ≡ (registered e j ts && ltb now e)
later_timers-registered now e j [] = grind arith
later_timers-registered now e j ((d, ids) ∷ ts) =
    let rest = later_timers-registered now e j ts in
    let P : TimerMap → Type 0 =
      λ r. registered e j r ≡ (registered e j ((d, ids) ∷ ts) && ltb now e) in
    elim (Bool-cases (d == e)) [
      | inl same ↦
          let here = (==_iff d e).0 same in
          subst P
            (sym (
              ap (λ b. if b then (d, ids) ∷ later_timers now ts else later_timers now ts)
                (ap (ltb now) here)))
            (if_ind P (ltb now e) (λ l. grind (arith, rest, l)) (λ l. grind (arith, rest, l)))
      | inr other ↦
          if_ind P (ltb now d) (λ _. grind (arith, rest, other)) (λ _. grind (arith, rest, other))
    ]

-- If the timers are in order, then as a set of pairs of deadline and task, registering adds one
-- pair, cancelling a timer removes that one pair however often it was registered, cancelling a task
-- removes the pairs of this task, and a tick removes the pairs that are due.
pub timers-registered :
    (d e : SimTime) (id j : ℕ) (ts : TimerMap)
    → IsOrdered ts
    → (registered e j (push_timer d id ts) ≡ (registered e j ts || ((d == e) && (id == j))))
      × (registered e j (drop_timer d id ts).1 ≡ (registered e j ts && not ((d == e) && (id == j))))
      × (registered e j (drop_task id ts) ≡ (registered e j ts && not (id == j)))
      × (registered e j (take_due d ts).1 ≡ (registered e j ts && ltb d e))
timers-registered d e id j ts h = (
  push_timer-registered d e id j ts,
  drop_timer-registered d e id j ts h,
  drop_task-registered e id j ts,
  ap (λ r. registered e j r.1) (take_due-lem d ts h) ∙ later_timers-registered d e j ts,
)
