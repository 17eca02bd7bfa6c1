-- ===== src/Core/Runtime/Frame.antt =====
-- What the polls and wake-ups of des-core/src/async_runtime.rs leave alone: timers and deadlines.
use des_cartes.Prelude.{
  ℕ, zero, suc, ◌-◌, min, ◌≡◌, refl, ◌∙◌, Option, none, some, List, [], ◌∷◌, if_ind, lookup, length,
}
use des_cartes.Core.Time.{SimTime}
use des_cartes.Core.Ids.{Uuid}
use des_cartes.Core.Scheduler.{swap_remove}
use des_cartes.Core.Runtime.{
  RuntimeEvent, ReadyPolicy, Runtime, Task, Call, spawns, spawns_local, cancels, cancels_local,
  wakes, registers, unregisters, Futures, Turn, TimerMap, drain_spawns, drain_spawn_queues,
  queue_task, wake_task, wake_tasks, apply_call, apply_calls, run_task, poll_member, poll_loop,
  poll_ready_tasks, start,
}

-- The part of the state that polls leave alone.
abbrev pub deadlines {ℓ} : {F P : Type ℓ} → Runtime F P → TimerMap × Option SimTime
deadlines rt = (rt.timers, rt.next_timer_deadline)

module _ {ℓ} {F P : Type ℓ} where
  drain_spawns-deadlines :
      (requests : List (ℕ × F)) (rt : Runtime F P)
      → deadlines (drain_spawns requests rt) ≡ deadlines rt
  unfolding drain_spawns
  drain_spawns-deadlines [] rt = refl
  drain_spawns-deadlines ((id, f) ∷ requests) rt = drain_spawns-deadlines requests _

  drain_spawn_queues-deadlines :
      (rt : Runtime F P) → deadlines (drain_spawn_queues rt) ≡ deadlines rt
  unfolding drain_spawn_queues
  drain_spawn_queues-deadlines rt =
      drain_spawns-deadlines rt.spawn_queue_local _ ∙ drain_spawns-deadlines rt.spawn_queue _

  pub queue_task-deadlines :
      (o : Option (Task F)) (id : ℕ) (rt : Runtime F P)
      → deadlines (queue_task o id rt) ≡ deadlines rt
  unfolding queue_task
  queue_task-deadlines none id rt = refl
  queue_task-deadlines (some t) id rt =
      if_ind (λ (r : Runtime F P). deadlines r ≡ deadlines rt) t.queued (λ _. refl) (λ _. refl)

  pub wake_tasks-deadlines :
      (woken : List ℕ) (rt : Runtime F P) → deadlines (wake_tasks woken rt) ≡ deadlines rt
  unfolding wake_tasks
  wake_tasks-deadlines [] rt = refl
  wake_tasks-deadlines (id ∷ woken) rt =
      wake_tasks-deadlines woken (wake_task id rt) ∙ queue_task-deadlines (lookup id rt.tasks) id rt

module _ {ℓ} {E : Type ℓ} (wrap : RuntimeEvent → E) {F P : Type ℓ} where
  apply_call-deadlines :
      (key : Uuid) (id : ℕ) (call : Call F) (c : Turn E F P)
      → deadlines (apply_call wrap key id call c).runtime ≡ deadlines c.runtime
  unfolding apply_call
  apply_call-deadlines key id (spawns f) c = refl
  apply_call-deadlines key id (spawns_local f) c = refl
  apply_call-deadlines key id (cancels t) c = refl
  apply_call-deadlines key id (cancels_local t) c = refl
  apply_call-deadlines key id (wakes t) c = refl
  apply_call-deadlines key id (registers d) c = refl
  apply_call-deadlines key id (unregisters d) c = refl

  apply_calls-deadlines :
      (key : Uuid) (id : ℕ) (calls : List (Call F)) (c : Turn E F P)
      → deadlines (apply_calls wrap key id calls c).runtime ≡ deadlines c.runtime
  unfolding apply_calls
  apply_calls-deadlines key id [] c = refl
  apply_calls-deadlines key id (call ∷ calls) c =
      apply_calls-deadlines key id calls (apply_call wrap key id call c)
      ∙ apply_call-deadlines key id call c

  module _ (poll : Futures F) where
    run_task-deadlines :
        (o : Option Uuid) (now : SimTime) (id : ℕ) (f : F) (c : Turn E F P)
        → deadlines (run_task wrap poll o now id f c).runtime ≡ deadlines c.runtime
    unfolding run_task
    run_task-deadlines none now id f c = refl
    run_task-deadlines (some key) now id f c =
        apply_calls-deadlines key id (poll id c.runtime.next_task_id now f).calls _

    poll_member-deadlines :
        (o : Option (Task F)) (now : SimTime) (id : ℕ) (c : Turn E F P)
        → deadlines (poll_member wrap poll o now id c).runtime ≡ deadlines c.runtime
    unfolding poll_member
    poll_member-deadlines none now id c = refl
    poll_member-deadlines (some t) now id c =
        run_task-deadlines c.runtime.runtime_key now id t.future _

    module _ (policy : ReadyPolicy P) where
      poll_loop-deadlines :
          (fuel : ℕ) (now : SimTime) (set : List ℕ) (c : Turn E F P)
          → deadlines (poll_loop wrap poll policy fuel now set c).runtime ≡ deadlines c.runtime
      unfolding poll_loop
      poll_loop-deadlines zero now set c = refl
      poll_loop-deadlines (suc fuel) now [] c = refl
      poll_loop-deadlines (suc fuel) now (t ∷ ts) c =
          let (chosen, p) = policy.choose c.runtime.policy_state now (t ∷ ts) in
          go (poll_loop-deadlines fuel now)
            (record c { runtime = record c.runtime { policy_state = p } }) refl
            (swap_remove (t ∷ ts) (min chosen (length (t ∷ ts) - 1)))
        where
          go :
              ((set : List ℕ) (c : Turn E F P)
                → deadlines (poll_loop wrap poll policy fuel now set c).runtime
                  ≡ deadlines c.runtime)
              → (c' : Turn E F P) → deadlines c'.runtime ≡ deadlines c.runtime
              → (o : Option (ℕ × List ℕ))
              → deadlines
                  (elim o as (λ _. Turn E F P) [
                    | none ↦ c'
                    | some (id, rest) ↦
                        poll_loop wrap poll policy fuel now rest
                          (poll_member wrap poll (lookup id c'.runtime.tasks) now id c')
                  ]).runtime
                ≡ deadlines c.runtime
          go ih c' e none = e
          go ih c' e (some (id, rest)) =
              ih rest _ ∙ poll_member-deadlines (lookup id c'.runtime.tasks) now id c' ∙ e

      pub poll_ready_tasks-deadlines :
          (now : SimTime) (rt : Runtime F P)
          → deadlines (poll_ready_tasks wrap poll policy now (start rt)).runtime ≡ deadlines rt
      unfolding poll_ready_tasks
      poll_ready_tasks-deadlines now rt =
          poll_loop-deadlines (length (drain_spawn_queues rt).ready_queue) now _ _
          ∙ drain_spawn_queues-deadlines rt
