-- ===== src/Explore/CycleReplay.antt =====
-- A whole poll cycle of the async runtime and its replay: des-explore/src/ready_task.rs against
-- des-core/src/async_runtime.rs.
use des_cartes.Prelude.{
  ℕ, ◌≡◌, refl, sym, ap, ◌∙◌, subst, none, List, [], ◌∷◌, ◌++◌, length, append-nil,
}
use des_cartes.Core.Time.{SimTime}
use des_cartes.Core.Runtime.{
  RuntimeEvent, ReadyPolicy, Runtime, Futures, Turn, poll_loop, poll_ready_tasks, drain_spawns,
  drain_spawn_queues, start,
}
use des_cartes.Explore.Frontier.{TraceEvent}
use des_cartes.Explore.Ready.{
  recording, ReplayReadyTaskState, decisions_of, from_trace_events, replaying,
}
use des_cartes.Explore.Polls.{IsApart, erase}
use des_cartes.Explore.Cycles.{poll_loop-Replayed}

-- The runtime with the state of another policy.
abbrev pub restate : {F P Q : Type 0} → Q → Runtime F P → Runtime F Q
restate q rt = record {
  next_task_id = rt.next_task_id;
  tasks = rt.tasks;
  ready_queue = rt.ready_queue;
  policy_state = q;
  spawn_queue = rt.spawn_queue;
  spawn_queue_local = rt.spawn_queue_local;
  timers = rt.timers;
  next_timer_deadline = rt.next_timer_deadline;
  runtime_key = rt.runtime_key;
}

drain_spawns-restate :
    {F P Q : Type 0} (q : Q) (requests : List (ℕ × F)) (rt : Runtime F P)
    → drain_spawns requests (restate q rt) ≡ restate q (drain_spawns requests rt)
unfolding drain_spawns
drain_spawns-restate q [] rt = refl
drain_spawns-restate q ((id, f) ∷ requests) rt = drain_spawns-restate q requests _

drain_spawn_queues-restate :
    {F P Q : Type 0} (q : Q) (rt : Runtime F P)
    → drain_spawn_queues (restate q rt) ≡ restate q (drain_spawn_queues rt)
unfolding drain_spawn_queues
drain_spawn_queues-restate q rt =
    ap (drain_spawns rt.spawn_queue_local) (drain_spawns-restate q rt.spawn_queue _)
    ∙ drain_spawns-restate q rt.spawn_queue_local _

module _ {E F P : Type 0} (wrap : RuntimeEvent → E) (poll : Futures F) where
  poll_ready_tasks-poll_loop :
      (policy : ReadyPolicy P) (now : SimTime) (rt : Runtime F P)
      → let drained = drain_spawn_queues rt in
        poll_ready_tasks wrap poll policy now (start rt)
        ≡ poll_loop wrap poll policy
            (length drained.ready_queue)
            now
            drained.ready_queue
            (start (record drained { ready_queue = [] }))
  unfolding poll_ready_tasks
  poll_ready_tasks-poll_loop policy now rt = refl

module _ {E F P : Type 0} (wrap : RuntimeEvent → E) (poll : Futures F) where
  replay_loop :
      (now : SimTime) (st : ReplayReadyTaskState) (rt : Runtime F P)
      → let drained = drain_spawn_queues rt in
        poll_ready_tasks wrap poll replaying now (start (restate st rt))
        ≡ poll_loop wrap poll replaying
            (length drained.ready_queue)
            now
            drained.ready_queue
            (start (restate st (record drained { ready_queue = [] })))
  replay_loop now st rt =
      poll_ready_tasks-poll_loop wrap poll replaying now (restate st rt)
      ∙ ap
          (λ (x : Runtime F ReplayReadyTaskState).
            poll_loop wrap poll replaying (length x.ready_queue) now x.ready_queue
              (start (record x { ready_queue = [] })))
          (drain_spawn_queues-restate st rt)

module _ {E F P X : Type 0} (wrap : RuntimeEvent → E) (poll : Futures F)
    (inner : ReadyPolicy P) where
  -- Replaying the trace that a poll cycle recorded, from the same runtime with a recorder without
  -- async decisions, whatever policy was recorded, polls the same tasks in the same order, leaves
  -- the same runtime and the same deferred wakes, and meets no mismatch, if no task stands twice
  -- among those that are ready after the spawns.
  pub poll_ready_tasks-replaying :
      (now : SimTime) (rt : Runtime F (P × List (TraceEvent X)))
      → decisions_of rt.policy_state.1 ≡ []
      → IsApart (drain_spawn_queues rt).ready_queue
      → let recorded = poll_ready_tasks wrap poll (recording inner) now (start rt) in
        let replay =
          poll_ready_tasks wrap poll replaying now
            (start (restate (from_trace_events recorded.runtime.policy_state.1) rt)) in
        (erase recorded ≡ erase replay) × (replay.runtime.policy_state.error ≡ none)
  unfolding from_trace_events
  poll_ready_tasks-replaying now rt clean h =
      let drained = drain_spawn_queues rt in
      let taken : Runtime F (P × List (TraceEvent X)) = record drained { ready_queue = [] } in
      let set = drained.ready_queue in
      let rec = poll_loop wrap poll (recording inner) (length set) now set (start taken) in
      let r = poll_loop-Replayed wrap poll inner (length set) now set (start taken) h in
      let same : drained.policy_state ≡ rt.policy_state =
        ap (λ (x : Runtime F (P × List (TraceEvent X))). x.policy_state)
          (drain_spawn_queues-restate rt.policy_state rt) in
      let made : decisions_of rec.runtime.policy_state.1 ≡ r.made =
        r.trace
        ∙ ap (λ (x : P × List (TraceEvent X)). decisions_of x.1 ++ r.made) same
        ∙ ap (λ ds. ds ++ r.made) clean in
      let st = from_trace_events rec.runtime.policy_state.1 in
      let (alike, in_step) = r.follows (start (restate st taken)) [] [] refl (record {
        error = refl;
        decisions = made ∙ sym (append-nil r.made);
        next = refl;
        fifo_fallback = refl;
      }) in
      let Alike : Turn E F (P × List (TraceEvent X)) → Turn E F ReplayReadyTaskState → Type 0 =
        λ x y. (erase x ≡ erase y) × (y.runtime.policy_state.error ≡ none) in
      subst
        (λ x. Alike x (
          poll_ready_tasks wrap poll replaying now
            (start (restate (from_trace_events x.runtime.policy_state.1) rt))))
        (sym (poll_ready_tasks-poll_loop wrap poll (recording inner) now rt))
        (subst (Alike rec) (sym (replay_loop wrap poll now st rt)) (alike, in_step.error))
