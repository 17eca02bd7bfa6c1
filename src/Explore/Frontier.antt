-- ===== src/Explore/Frontier.antt =====
-- des-explore/src/frontier.rs and trace.rs: the frontier policies that record a decision, force a
-- scripted one, or replay a recorded one. A recorder is its list of trace events, the oldest first;
-- an id's string form stands as the id, and the other kinds of trace event are values of the type `X`.
use des_cartes.Prelude.{
  ℕ, ◌+◌, ◌-◌, min, Option, none, some, List, [], ◌∷◌, ◌++◌, map, leb, ◌==◌, if◌then◌else◌, length,
  get_elem?, position, is_empty, add_u64,
}
use des_cartes.Core.Time.{SimTime}
use des_cartes.Core.Ids.{Uuid}
use des_cartes.Core.Scheduler.{
  simtime_to_nanos, FrontierEvent, FrontierEventKind, FrontierSignature, Policy, seqs,
}
use des_cartes.Explore.Script.{
  DecisionKey, DecisionScript, frontier, new_key, get_decision, normal_set, same_list,
}

pub data FrontierKind : Type 0 where
  component task : FrontierKind

pub record FrontierEntry : Type 0 where
  pub seq : ℕ
  pub kind : FrontierKind
  pub component_id : Option Uuid
  pub task_id : Option Uuid

pub record SchedulerDecision : Type 0 where
  pub time_nanos : ℕ
  pub chosen_index : ℕ
  pub chosen_seq : Option ℕ
  pub frontier_seqs : List ℕ
  pub frontier : List FrontierEntry

pub record AsyncRuntimeDecision : Type 0 where
  pub time_nanos : ℕ
  pub chosen_index : ℕ
  pub chosen_task_id : Option ℕ
  pub ready_task_ids : List ℕ

pub data TraceEvent {ℓ} (X : Type ℓ) : Type ℓ where
  scheduler_decision : SchedulerDecision → TraceEvent X
  async_runtime_decision : AsyncRuntimeDecision → TraceEvent X
  other : X → TraceEvent X

abbrev kind_to_trace : FrontierEventKind → FrontierKind
kind_to_trace FrontierEventKind.component = component
kind_to_trace FrontierEventKind.task = task

abbrev to_frontier_entry : FrontierEvent → FrontierEntry
to_frontier_entry e = record {
  seq = e.seq;
  kind = kind_to_trace e.kind;
  component_id = e.component_id;
  task_id = e.task_id;
}

-- `FrontierSignature::new`.
abbrev pub signature : SimTime → List FrontierEvent → FrontierSignature
signature t events = record { time_nanos = simtime_to_nanos t; frontier_seqs = seqs events }

abbrev seq_at : List FrontierEvent → ℕ → Option ℕ
seq_at events i = elim (get_elem? events i) [ none ↦ none | some e ↦ some e.seq ]

-- The index cut to the frontier, and the decision that is recorded.
abbrev pub clamp : List FrontierEvent → ℕ → ℕ
clamp events i = min i (length events - 1)

unfoldable pub decision : SimTime → List FrontierEvent → ℕ → SchedulerDecision
decision t events chosen_index = record {
  time_nanos = (signature t events).time_nanos;
  chosen_index = chosen_index;
  chosen_seq = elim (get_elem? events chosen_index) [ none ↦ none | some e ↦ some e.seq ];
  frontier_seqs = (signature t events).frontier_seqs;
  frontier = map to_frontier_entry events;
}

module _ {κ} {P : Type κ} (inner : Policy P) where
  -- The choice of `ExplorationFrontierPolicy` before it is cut to the frontier.
  unfoldable pub scripted_choice :
      Option DecisionScript → DecisionKey → P → SimTime → List FrontierEvent → ℕ × P
  unfolding get_decision
  scripted_choice none key p t events = inner.choose p t events
  scripted_choice (some script) key p t events = elim (get_decision key script) [
    | none ↦ inner.choose p t events
    | some chosen_seq ↦ elim (position chosen_seq (seqs events)) [
      | some pos ↦ (pos, p)
      | none ↦ inner.choose p t events
    ]
  ]

  module _ {ℓ} {X : Type ℓ} where
    -- `RecordingFrontierPolicy::choose`.
    unfoldable pub record_choice :
        P → List (TraceEvent X) → SimTime → List FrontierEvent → ℕ × P × List (TraceEvent X)
    unfolding decision
    record_choice p trace t events =
        let (chosen, p') = inner.choose p t events in
        let chosen_index = clamp events chosen in
        (chosen_index, p', trace ++ scheduler_decision (decision t events chosen_index) ∷ [])

    -- `ExplorationFrontierPolicy::choose`; the state is the inner policy's, the next ordinal and the
    -- recorder.
    unfoldable pub explore_choice :
        Option DecisionScript
        → P
        → ℕ
        → List (TraceEvent X)
        → SimTime
        → List FrontierEvent
        → ℕ × P × ℕ × List (TraceEvent X)
    unfolding scripted_choice decision
    explore_choice script p ordinal trace t events =
        let key =
          new_key frontier (signature t events).time_nanos ordinal
            (signature t events).frontier_seqs in
        let (chosen, p') = scripted_choice script key p t events in
        let chosen_index = clamp events chosen in
        (
          chosen_index,
          p',
          add_u64 ordinal 1,
          trace ++ scheduler_decision (decision t events chosen_index) ∷ [],
        )

pub data ReplayFrontierError : Type 0 where
  out_of_decisions : (index time_nanos : ℕ) (frontier_seqs : List ℕ) → ReplayFrontierError
  time_mismatch : (index expected actual : ℕ) → ReplayFrontierError
  frontier_mismatch : (index time_nanos : ℕ) (expected actual : List ℕ) → ReplayFrontierError
  chosen_seq_not_found : (index time_nanos chosen : ℕ) (frontier : List ℕ) → ReplayFrontierError
  chosen_index_out_of_bounds :
      (index time_nanos chosen_index frontier_len : ℕ) → ReplayFrontierError

pub record ReplayFrontierState : Type 0 where
  pub decisions : List SchedulerDecision
  pub next : ℕ
  pub error : Option ReplayFrontierError

-- `ReplayFrontierPolicy::from_trace_events`.
unfoldable pub decisions_of {ℓ} : {X : Type ℓ} → List (TraceEvent X) → List SchedulerDecision
decisions_of [] = []
decisions_of (scheduler_decision d ∷ es) = d ∷ decisions_of es
decisions_of (async_runtime_decision d ∷ es) = decisions_of es
decisions_of (other x ∷ es) = decisions_of es

unfoldable pub from_trace_events {ℓ} : {X : Type ℓ} → List (TraceEvent X) → ReplayFrontierState
unfolding decisions_of
from_trace_events events = record { decisions = decisions_of events; next = 0; error = none }

unfoldable pub expected_seqs : SchedulerDecision → List ℕ
expected_seqs d =
    if is_empty d.frontier_seqs
    then map (λ (e : FrontierEntry). e.seq) d.frontier
    else d.frontier_seqs

abbrev fail : ReplayFrontierError → ReplayFrontierState → ℕ × ReplayFrontierState
fail e st = (0, record st { error = some e })

-- Where the decision names no event: its index, cut to the frontier.
unfoldable pub replay_index :
    ℕ → SchedulerDecision → List FrontierEvent → ReplayFrontierState → ℕ × ReplayFrontierState
replay_index index d [] st = (0, st)
replay_index index d (e ∷ es) st = (
  min d.chosen_index (length (e ∷ es) - 1),
  if leb (length (e ∷ es)) d.chosen_index
      then record st {
        error =
            some (chosen_index_out_of_bounds index d.time_nanos d.chosen_index (length (e ∷ es)));
      }
      else st,
)

unfoldable pub replay_seq :
    ℕ → SchedulerDecision → List FrontierEvent → ReplayFrontierState → ℕ × ReplayFrontierState
unfolding replay_index
replay_seq index d events st = elim d.chosen_seq [
  | none ↦ replay_index index d events st
  | some chosen ↦ elim (position chosen (seqs events)) [
    | some idx ↦ (idx, st)
    | none ↦ fail (chosen_seq_not_found index d.time_nanos chosen (seqs events)) st
  ]
]

unfoldable pub replay_decision :
    ℕ
    → SchedulerDecision
    → SimTime
    → List FrontierEvent
    → ReplayFrontierState
    → ℕ × ReplayFrontierState
unfolding expected_seqs normal_set replay_seq
replay_decision index d t events st =
    if d.time_nanos == simtime_to_nanos t
    then (if is_empty (expected_seqs d)
        then replay_seq index d events st
        else (if same_list (normal_set (expected_seqs d)) (normal_set (seqs events))
            then replay_seq index d events st
            else fail (frontier_mismatch index d.time_nanos (expected_seqs d) (seqs events)) st))
    else fail (time_mismatch index d.time_nanos (simtime_to_nanos t)) st

-- `ReplayFrontierPolicy::choose`.
unfoldable pub replay_choice :
    ReplayFrontierState → SimTime → List FrontierEvent → ℕ × ReplayFrontierState
unfolding replay_decision
replay_choice st t events = elim st.error [
  | some _ ↦ (0, st)
  | none ↦ elim (get_elem? st.decisions st.next) [
    | none ↦ fail (out_of_decisions st.next (simtime_to_nanos t) (seqs events)) st
    | some d ↦ replay_decision st.next d t events (record st { next = st.next + 1 })
  ]
]
