-- ===== src/Explore/Ready.antt =====
-- des-explore/src/ready_task.rs: the policies of the async runtime that record a choice among ready
-- tasks, force a scripted one, or replay a recorded one. A recorder is its list of trace events.
use des_cartes.Prelude.{
  ℕ, ◌+◌, ◌-◌, min, Bool, true, false, Option, none, some, List, [], ◌∷◌, ◌++◌, ◌==◌, if◌then◌else◌,
  length, get_elem?, position, is_empty, add_u64,
}
use des_cartes.Core.Time.{SimTime, from_duration}
use des_cartes.Core.Runtime.{ReadyPolicy}
use des_cartes.Explore.Script.{
  DecisionKey, DecisionScript, tokio_ready, new_key, get_decision, normal_set, same_list,
}
use des_cartes.Explore.Frontier.{
  AsyncRuntimeDecision, TraceEvent, scheduler_decision, async_runtime_decision, other,
}

-- `ReadyTaskSignature`.
pub record ReadyTaskSignature : Type 0 where
  pub time_nanos : ℕ
  pub ready_task_ids : List ℕ

unfoldable pub signature : SimTime → List ℕ → ReadyTaskSignature
unfolding from_duration
signature time ready = record { time_nanos = from_duration time; ready_task_ids = ready }

-- The index cut to the ready tasks, and the decision that is recorded.
abbrev pub clamp : List ℕ → ℕ → ℕ
clamp ready i = min i (length ready - 1)

unfoldable pub decision : SimTime → List ℕ → ℕ → AsyncRuntimeDecision
unfolding signature
decision time ready chosen_index = record {
  time_nanos = (signature time ready).time_nanos;
  chosen_index = chosen_index;
  chosen_task_id = get_elem? ready chosen_index;
  ready_task_ids = (signature time ready).ready_task_ids;
}

module _ {ℓ} {P : Type ℓ} (inner : ReadyPolicy P) where
  -- The choice of `ExplorationReadyTaskPolicy` before it is cut to the ready tasks.
  unfoldable pub scripted_choice :
      Option DecisionScript → DecisionKey → P → SimTime → List ℕ → ℕ × P
  unfolding get_decision
  scripted_choice none key p time ready = inner.choose p time ready
  scripted_choice (some script) key p time ready = elim (get_decision key script) [
    | none ↦ inner.choose p time ready
    | some chosen_task_id ↦ elim (position chosen_task_id ready) [
      | some pos ↦ (pos, p)
      | none ↦ inner.choose p time ready
    ]
  ]

  module _ {X : Type ℓ} where
    -- `RecordingReadyTaskPolicy::choose`; the state is the inner policy's and the recorder.
    unfoldable pub record_choice :
        P × List (TraceEvent X) → SimTime → List ℕ → ℕ × (P × List (TraceEvent X))
    unfolding decision
    record_choice (p, trace) time ready =
        let (chosen, p') = inner.choose p time ready in
        let chosen_index = clamp ready chosen in
        (
          chosen_index,
          (p', trace ++ async_runtime_decision (decision time ready chosen_index) ∷ []),
        )

    abbrev pub recording : ReadyPolicy (P × List (TraceEvent X))
    recording = record { choose = record_choice }

    -- `ExplorationReadyTaskPolicy::choose`; the state has the next ordinal, too.
    unfoldable pub explore_choice :
        Option DecisionScript
        → P × ℕ × List (TraceEvent X)
        → SimTime
        → List ℕ
        → ℕ × (P × ℕ × List (TraceEvent X))
    unfolding signature scripted_choice decision
    explore_choice script (p, ordinal, trace) time ready =
        let s = signature time ready in
        let key = new_key tokio_ready s.time_nanos ordinal s.ready_task_ids in
        let (chosen, p') = scripted_choice script key p time ready in
        let chosen_index = clamp ready chosen in
        (
          chosen_index,
          (
            p',
            add_u64 ordinal 1,
            trace ++ async_runtime_decision (decision time ready chosen_index) ∷ [],
          ),
        )

    abbrev pub exploring : Option DecisionScript → ReadyPolicy (P × ℕ × List (TraceEvent X))
    exploring script = record { choose = explore_choice script }

pub data ReplayReadyTaskError : Type 0 where
  out_of_decisions : (index time_nanos : ℕ) (ready_task_ids : List ℕ) → ReplayReadyTaskError
  time_mismatch : (index expected actual : ℕ) → ReplayReadyTaskError
  ready_set_mismatch : (index time_nanos : ℕ) (expected actual : List ℕ) → ReplayReadyTaskError
  chosen_task_not_found : (index time_nanos chosen : ℕ) (ready : List ℕ) → ReplayReadyTaskError

pub record ReplayReadyTaskState : Type 0 where
  pub decisions : List AsyncRuntimeDecision
  pub next : ℕ
  pub error : Option ReplayReadyTaskError
  pub fifo_fallback : Bool
  pub warned : Bool

-- `ReplayReadyTaskPolicy::from_trace_events`.
unfoldable pub decisions_of {ℓ} : {X : Type ℓ} → List (TraceEvent X) → List AsyncRuntimeDecision
decisions_of [] = []
decisions_of (scheduler_decision d ∷ es) = decisions_of es
decisions_of (async_runtime_decision d ∷ es) = d ∷ decisions_of es
decisions_of (other x ∷ es) = decisions_of es

unfoldable pub from_trace_events {ℓ} : {X : Type ℓ} → List (TraceEvent X) → ReplayReadyTaskState
unfolding decisions_of
from_trace_events events = record {
  decisions = decisions_of events;
  next = 0;
  error = none;
  fifo_fallback = is_empty (decisions_of events);
  warned = false;
}

abbrev fail : ReplayReadyTaskError → ReplayReadyTaskState → ℕ × ReplayReadyTaskState
fail e st = (0, record st { error = some e })

-- Where the decision names no task: its index, cut to the ready tasks.
abbrev index_in : AsyncRuntimeDecision → List ℕ → ℕ
index_in d [] = 0
index_in d (t ∷ ts) = min d.chosen_index (length (t ∷ ts) - 1)

unfoldable pub replay_task :
    ℕ → AsyncRuntimeDecision → Option ℕ → List ℕ → ReplayReadyTaskState → ℕ × ReplayReadyTaskState
replay_task index d none ready st = (index_in d ready, st)
replay_task index d (some chosen) ready st = elim (position chosen ready) [
  | some pos ↦ (pos, st)
  | none ↦ fail (chosen_task_not_found index d.time_nanos chosen ready) st
]

unfoldable pub replay_decision :
    ℕ → AsyncRuntimeDecision → SimTime → List ℕ → ReplayReadyTaskState → ℕ × ReplayReadyTaskState
unfolding signature replay_task
replay_decision index d time ready st =
    let s = signature time ready in
    if d.time_nanos == s.time_nanos
    then (if is_empty d.ready_task_ids
        then replay_task index d d.chosen_task_id ready st
        else (if same_list (normal_set d.ready_task_ids) (normal_set s.ready_task_ids)
            then replay_task index d d.chosen_task_id ready st
            else fail (ready_set_mismatch index d.time_nanos d.ready_task_ids s.ready_task_ids) st))
    else fail (time_mismatch index d.time_nanos s.time_nanos) st

unfoldable pub replay_next :
    Option AsyncRuntimeDecision → SimTime → List ℕ → ReplayReadyTaskState → ℕ × ReplayReadyTaskState
unfolding signature replay_decision
replay_next none time ready st =
    let s = signature time ready in fail (out_of_decisions st.next s.time_nanos s.ready_task_ids) st
replay_next (some d) time ready st =
    replay_decision st.next d time ready (record st { next = st.next + 1 })

abbrev pub unless_failed :
    Option ReplayReadyTaskError → SimTime → List ℕ → ReplayReadyTaskState → ℕ × ReplayReadyTaskState
unless_failed (some e) time ready st = (0, st)
unless_failed none time ready st =
    if st.fifo_fallback
    then (0, record st { warned = true })
    else replay_next (get_elem? st.decisions st.next) time ready st

-- `ReplayReadyTaskPolicy::choose`.
unfoldable pub replay_choice : ReplayReadyTaskState → SimTime → List ℕ → ℕ × ReplayReadyTaskState
unfolding replay_next
replay_choice st time ready = unless_failed st.error time ready st

abbrev pub replaying : ReadyPolicy ReplayReadyTaskState
replaying = record { choose = replay_choice }
