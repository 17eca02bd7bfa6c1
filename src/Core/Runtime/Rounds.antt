-- ===== src/Core/Runtime/Rounds.antt =====
-- The whole poll cycle of des-core/src/async_runtime.rs, whatever the ready-task policy.
use mathlib.Core.List.{Perm}
use des_cartes.Prelude.{
  ℕ, zero, suc, ◌-◌, ◌≤◌, min, ◌≡◌, ◌≢◌, refl, sym, ap, ◌∙◌, subst, inl, inr, true, Option, none,
  some, List, [], ◌∷◌, ◌++◌, length, length-Perm, lookup, insert_key, remove_key-All, contains-snoc,
  contains-last, All, append_assoc, append-nil, arith, OnSome,
}
use des_cartes.Core.Time.{SimTime}
use des_cartes.Core.Ids.{Uuid}
use des_cartes.Core.Scheduler.{swap_remove, swap_remove-ne_none, swap_remove-perm}
use des_cartes.Core.Runtime.{
  RuntimeEvent, ReadyPolicy, Runtime, Task, Futures, Turn, poll_member, poll_loop, poll_ready_tasks,
  drain_spawns, drain_spawn_queues, start,
}
use des_cartes.Core.Runtime.Pending.{Pending}
use des_cartes.Core.Runtime.Cycle.{Cycled, Cycled-empty, Cycled-step, poll_member-Member}

module _ {ℓ} {E : Type ℓ} (wrap : RuntimeEvent → E) {F P : Type ℓ} (poll : Futures F)
    (policy : ReadyPolicy P) where
  -- The policy's state is nobody's concern.
  Cycled-policy :
      (set : List ℕ) (c d : Turn E F P) (p : P)
      → Cycled wrap poll set (record c { runtime = record c.runtime { policy_state = p } }) d
      → Cycled wrap poll set c d
  Cycled-policy set c d p r = record {
    visited = r.visited;
    skipped = r.skipped;
    log = r.log;
    perm = r.perm;
    gone = r.gone;
    alive = r.alive;
    stays_gone = r.stays_gone;
    settled = r.settled;
    ready_queue = r.ready_queue;
  }

  poll_loop-Cycled :
      (key : Uuid) (fuel : ℕ) (now : SimTime) (set : List ℕ) (c : Turn E F P)
      → length set ≤ fuel
      → c.runtime.runtime_key ≡ some key
      → Cycled wrap poll set c (poll_loop wrap poll policy fuel now set c)
  unfolding poll_loop
  poll_loop-Cycled key zero now [] c l k = Cycled-empty wrap poll c
  poll_loop-Cycled key zero now (t ∷ ts) c l k = absurd (omega (arith, l))
  poll_loop-Cycled key (suc fuel) now [] c l k = Cycled-empty wrap poll c
  poll_loop-Cycled key (suc fuel) now (t ∷ ts) c l k =
      let (chosen, p) = policy.choose c.runtime.policy_state now (t ∷ ts) in
      let index = min chosen (length (t ∷ ts) - 1) in
      let c' : Turn E F P = record c { runtime = record c.runtime { policy_state = p } } in
      Cycled-policy (t ∷ ts) c _ p (
        go c' k (poll_loop-Cycled key fuel now) (swap_remove (t ∷ ts) index)
          (swap_remove-ne_none (t ∷ ts) index (omega arith)) (swap_remove-perm (t ∷ ts) index))
    where
      go :
          (c' : Turn E F P)
          → c'.runtime.runtime_key ≡ some key
          → ((set : List ℕ) (c : Turn E F P)
              → length set ≤ fuel
              → c.runtime.runtime_key ≡ some key
              → Cycled wrap poll set c (poll_loop wrap poll policy fuel now set c))
          → (o : Option (ℕ × List ℕ)) → o ≢ none
          → OnSome (λ (r : ℕ × List ℕ). Perm (t ∷ ts) (r.0 ∷ r.1)) o
          → Cycled wrap poll (t ∷ ts) c' (elim o as (λ _. Turn E F P) [
            | none ↦ c'
            | some (id, rest) ↦
                poll_loop wrap poll policy fuel now rest
                  (poll_member wrap poll (lookup id c'.runtime.tasks) now id c')
          ])
      go c' k' ih none n q = absurd (n refl)
      go c' k' ih (some (id, rest)) n q =
          let one =
            poll_member-Member wrap poll key now id c' (lookup id c'.runtime.tasks) refl k' in
          let m = poll_member wrap poll (lookup id c'.runtime.tasks) now id c' in
          Cycled-step wrap poll id (t ∷ ts) rest c' m _ q one
            (ih rest m (omega (arith, l, length-Perm q)) (one.runtime_key ∙ k'))

-- The ids that requests to spawn are to run under.
abbrev pub ids {ℓ} : {F : Type ℓ} → List (ℕ × F) → List ℕ
ids [] = []
ids ((id, future) ∷ requests) = id ∷ ids requests

pub Pending-snoc {ℓ} :
    {F : Type ℓ} (id : ℕ) (set : List ℕ) (e : ℕ × Task F)
    → Pending set e
    → Pending (set ++ id ∷ []) e
Pending-snoc id set e (inl h) = inl h
Pending-snoc id set e (inr h) = inr (contains-snoc e.0 id set h)

module _ {ℓ} {F P : Type ℓ} where
  -- A queued task stands in the ready queue.
  abbrev pub IsConsistent : Runtime F P → Type 0
  IsConsistent rt = All (Pending rt.ready_queue) rt.tasks

  -- What the drain of a spawn queue did.
  record Drained (requests : List (ℕ × F)) (rt rt' : Runtime F P) : Type ℓ where
    consistent : IsConsistent rt → IsConsistent rt'
    ready_queue : rt'.ready_queue ≡ rt.ready_queue ++ ids requests
    runtime_key : rt'.runtime_key ≡ rt.runtime_key

  drain_spawns-Drained :
      (requests : List (ℕ × F)) (rt : Runtime F P) → Drained requests rt (drain_spawns requests rt)
  unfolding drain_spawns
  drain_spawns-Drained [] rt = record {
    consistent = λ h. h;
    ready_queue = sym (append-nil rt.ready_queue);
    runtime_key = refl;
  }
  drain_spawns-Drained ((id, f) ∷ requests) rt =
      let rest = drain_spawns-Drained requests (record rt {
        tasks = insert_key id (record { future = f; queued = true }) rt.tasks;
        ready_queue = rt.ready_queue ++ id ∷ [];
      }) in
      record {
        consistent = λ h. rest.consistent (
          inr (contains-last id rt.ready_queue),
          remove_key-All id rt.tasks (λ e q n. Pending-snoc id rt.ready_queue e q) h,
        );
        ready_queue = rest.ready_queue ∙ append_assoc rt.ready_queue (id ∷ []) (ids requests);
        runtime_key = rest.runtime_key;
      }

  -- The ready queue that a poll cycle takes.
  abbrev pub poll_set : Runtime F P → List ℕ
  poll_set rt = rt.ready_queue ++ (ids rt.spawn_queue ++ ids rt.spawn_queue_local)

  record AllDrained (rt rt' : Runtime F P) : Type ℓ where
    consistent : IsConsistent rt → IsConsistent rt'
    ready_queue : rt'.ready_queue ≡ poll_set rt
    runtime_key : rt'.runtime_key ≡ rt.runtime_key

  drain_spawn_queues-AllDrained : (rt : Runtime F P) → AllDrained rt (drain_spawn_queues rt)
  unfolding drain_spawn_queues
  drain_spawn_queues-AllDrained rt =
      let emptied : Runtime F P = record rt { spawn_queue = []; spawn_queue_local = [] } in
      let sent = drain_spawns-Drained rt.spawn_queue emptied in
      let local = drain_spawns-Drained rt.spawn_queue_local (drain_spawns rt.spawn_queue emptied) in
      record {
        consistent = λ h. local.consistent (sent.consistent h);
        ready_queue =
            local.ready_queue
            ∙ ap (λ q. q ++ ids rt.spawn_queue_local) sent.ready_queue
            ∙ append_assoc rt.ready_queue (ids rt.spawn_queue) (ids rt.spawn_queue_local);
        runtime_key = local.runtime_key ∙ sent.runtime_key;
      }

module _ {ℓ} {E : Type ℓ} (wrap : RuntimeEvent → E) {F P : Type ℓ} (poll : Futures F)
    (policy : ReadyPolicy P) where
  -- What a whole poll cycle did.
  pub record Round (rt : Runtime F P) (c : Turn E F P) : Type ℓ where
    pub skipped : List ℕ
    pub perm : Perm (poll_set rt) (c.polled ++ skipped)
    pub gone : All (λ id. lookup id c.runtime.tasks ≡ none) skipped
    pub alive : All (λ id. lookup id (drain_spawn_queues rt).tasks ≢ none) c.polled
    pub emptied : c.runtime.ready_queue ≡ []

  -- The loop of a poll cycle, over all that is ready.
  poll_ready_tasks-Cycled :
      (key : Uuid) (now : SimTime) (rt : Runtime F P)
      → rt.runtime_key ≡ some key
      → Cycled wrap poll
          (drain_spawn_queues rt).ready_queue
          (start (record (drain_spawn_queues rt) { ready_queue = [] }))
          (poll_ready_tasks wrap poll policy now (start rt))
  unfolding poll_ready_tasks
  poll_ready_tasks-Cycled key now rt k =
      let queue = (drain_spawn_queues rt).ready_queue in
      poll_loop-Cycled wrap poll policy key (length queue) now queue
        (start (record (drain_spawn_queues rt) { ready_queue = [] })) (omega arith)
        ((drain_spawn_queues-AllDrained rt).runtime_key ∙ k)

  -- Once the runtime has its key, a poll cycle polls, whatever the ready-task policy chooses, each
  -- entry of the ready queue and of both spawn queues exactly once, or skips it because its task is
  -- gone at the end; whoever was polled was there after the spawns, and the ready queue is left
  -- empty.
  pub poll_ready_tasks-Round :
      (key : Uuid) (now : SimTime) (rt : Runtime F P)
      → rt.runtime_key ≡ some key
      → Round rt (poll_ready_tasks wrap poll policy now (start rt))
  poll_ready_tasks-Round key now rt k =
      let drained = drain_spawn_queues-AllDrained rt in
      let r = poll_ready_tasks-Cycled key now rt k in
      record {
        skipped = r.skipped;
        perm =
            subst (λ v. Perm (poll_set rt) (v ++ r.skipped)) (sym r.log)
              (subst (λ q. Perm q (r.visited ++ r.skipped)) drained.ready_queue r.perm);
        gone = r.gone;
        alive =
            subst (λ v. All (λ id. lookup id (drain_spawn_queues rt).tasks ≢ none) v) (sym r.log)
              r.alive;
        emptied = r.ready_queue;
      }

  -- After a poll cycle no task is queued.
  pub poll_ready_tasks-Unqueued :
      (key : Uuid) (now : SimTime) (rt : Runtime F P)
      → rt.runtime_key ≡ some key
      → IsConsistent rt
      → All (Pending []) (poll_ready_tasks wrap poll policy now (start rt)).runtime.tasks
  poll_ready_tasks-Unqueued key now rt k h =
      (poll_ready_tasks-Cycled key now rt k).settled
        ((drain_spawn_queues-AllDrained rt).consistent h)
