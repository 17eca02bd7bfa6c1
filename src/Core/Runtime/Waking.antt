-- ===== src/Core/Runtime/Waking.antt =====
-- How a wake-up puts a task into the ready queue (des-core/src/async_runtime.rs).
use mathlib.Core.Option.{some_inj}
use des_cartes.Prelude.{
  ℕ, ◌≡◌, refl, sym, ◌∙◌, subst, ◌⊎◌, inl, inr, true, Bool-cases, Option, none, some, List, [], ◌∷◌,
  ◌++◌, ◌==◌, ==_iff, if_ind, lookup, lookup-insert_key, contains, contains-snoc, contains-last,
  All, All-mono, arith,
}
use des_cartes.Core.Ids.{Uuid}
use des_cartes.Core.Runtime.{Runtime, Task, queue_task, wake_task, wake_tasks}
use des_cartes.Core.Runtime.Pending.{Pending}
use des_cartes.Core.Runtime.Rounds.{IsConsistent}
use des_cartes.Core.Runtime.Wakeups.{Kept, queue_task-Kept}

lookup-entry {ℓ κ} :
    {V : Type ℓ} (Q : ℕ × V → Type κ) (k : ℕ) (v : V) (m : List (ℕ × V))
    → All Q m
    → lookup k m ≡ some v
    → Q (k, v)
lookup-entry Q k v [] h e = absurd (ground (arith, e))
lookup-entry Q k v ((j, w) ∷ m) h e = elim (Bool-cases (j == k)) [
  | inl eq ↦
      let same : w ≡ v = some_inj.0 (grind (arith, e, eq)) in
      subst (λ i. Q (i, v)) ((==_iff j k).0 eq) (subst (λ x. Q (j, x)) same h.0)
  | inr ne ↦ lookup-entry Q k v m h.1 (grind (arith, e, ne))
]

pub contains-left : (k : ℕ) (xs ys : List ℕ) → contains k xs ≡ true → contains k (xs ++ ys) ≡ true
contains-left k [] ys h = cc
contains-left k (x ∷ xs) ys h = grind (arith, contains-left k xs ys)

pub contains-append :
    (k : ℕ) (xs ys : List ℕ)
    → contains k (xs ++ ys) ≡ true
    → (contains k xs ≡ true) ⊎ (contains k ys ≡ true)
contains-append k [] ys h = inr h
contains-append k (x ∷ xs) ys h = grind (arith, contains-append k xs ys)

pub All-contains {κ} :
    (Q : ℕ → Type κ) (k : ℕ) (xs : List ℕ) → All Q xs → contains k xs ≡ true → Q k
All-contains Q k [] h e = absurd (cc)
All-contains Q k (x ∷ xs) h e = elim (Bool-cases (x == k)) [
  | inl eq ↦ subst Q ((==_iff x k).0 eq) h.0
  | inr ne ↦ All-contains Q k xs h.1 (grind (arith, e, ne))
]

module _ {ℓ} {F P : Type ℓ} where
  -- There is no such task, or it stands in the ready queue of the second runtime.
  abbrev pub Ready : Runtime F P → Runtime F P → ℕ → Type ℓ
  Ready rt rt' id = (lookup id rt.tasks ≡ none) ⊎ (contains id rt'.ready_queue ≡ true)

  pub queue_task-Ready :
      (id : ℕ) (rt : Runtime F P) (o : Option (Task F))
      → lookup id rt.tasks ≡ o
      → IsConsistent rt
      → Ready rt (queue_task o id rt) id
  unfolding queue_task
  queue_task-Ready id rt none e h = inl e
  queue_task-Ready id rt (some t) e h = inr (
      if_ind (λ (r : Runtime F P). contains id r.ready_queue ≡ true) t.queued
        (λ q. queued q (lookup-entry (Pending rt.ready_queue) id t rt.tasks h e))
        (λ _. contains-last id rt.ready_queue))
    where
      queued : t.queued ≡ true → Pending rt.ready_queue (id, t) → contains id rt.ready_queue ≡ true
      queued q (inl n) = absurd (cc)
      queued q (inr c) = c

  queue_task-keeps :
      (j id : ℕ) (rt : Runtime F P) (o : Option (Task F))
      → contains j rt.ready_queue ≡ true
      → contains j (queue_task o id rt).ready_queue ≡ true
  unfolding queue_task
  queue_task-keeps j id rt none h = h
  queue_task-keeps j id rt (some t) h =
      if_ind (λ (r : Runtime F P). contains j r.ready_queue ≡ true) t.queued (λ _. h)
        (λ _. contains-snoc j id rt.ready_queue h)

  -- A wake-up adds no task.
  queue_task-none :
      (j id : ℕ) (rt : Runtime F P) (o : Option (Task F))
      → lookup id rt.tasks ≡ o
      → lookup j (queue_task o id rt).tasks ≡ none
      → lookup j rt.tasks ≡ none
  unfolding queue_task
  queue_task-none j id rt none e = λ n. n
  queue_task-none j id rt (some t) e =
      if_ind (λ (r : Runtime F P). lookup j r.tasks ≡ none → lookup j rt.tasks ≡ none) t.queued
        (λ _ n. n)
        (λ _ n.
          let n' = sym (lookup-insert_key id j (record t { queued = true }) rt.tasks) ∙ n in
          elim (Bool-cases (id == j)) [
            | inl eq ↦ absurd (grind (arith, n', eq))
            | inr ne ↦ grind (arith, n', ne)
          ])

  wake_tasks-keeps :
      (j : ℕ) (ids : List ℕ) (rt : Runtime F P)
      → contains j rt.ready_queue ≡ true
      → contains j (wake_tasks ids rt).ready_queue ≡ true
  unfolding wake_tasks
  wake_tasks-keeps j [] rt h = h
  wake_tasks-keeps j (id ∷ ids) rt h =
      wake_tasks-keeps j ids (wake_task id rt) (queue_task-keeps j id rt (lookup id rt.tasks) h)

  pub wake_tasks-Ready :
      (key : Uuid) (ids : List ℕ) (rt : Runtime F P)
      → Kept key rt
      → All (Ready rt (wake_tasks ids rt)) ids
  unfolding wake_tasks
  wake_tasks-Ready key [] rt h = tt
  wake_tasks-Ready key (id ∷ ids) rt h = (
    first (queue_task-Ready id rt (lookup id rt.tasks) refl h.consistent),
    All-mono ids (λ j q. later j q)
        (wake_tasks-Ready key ids (wake_task id rt)
          (queue_task-Kept key (lookup id rt.tasks) id rt h)),
  )
    where
      first : Ready rt (wake_task id rt) id → Ready rt (wake_tasks ids (wake_task id rt)) id
      first (inl n) = inl n
      first (inr c) = inr (wake_tasks-keeps id ids (wake_task id rt) c)

      later :
          (j : ℕ)
          → Ready (wake_task id rt) (wake_tasks ids (wake_task id rt)) j
          → Ready rt (wake_tasks ids (wake_task id rt)) j
      later j (inl n) = inl (queue_task-none j id rt (lookup id rt.tasks) refl n)
      later j (inr c) = inr c
