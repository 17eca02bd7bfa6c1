-- ===== src/Examples/Explore.antt =====
-- A frontier of two events, recorded and replayed in another order: des-explore.
use mathlib.Core.List.Perm
use des_cartes.Prelude.{ℕ, ◌+◌, ◌≡◌, refl, none, some, List, [], ◌∷◌}
use des_cartes.Core.Scheduler.{FrontierEvent, FrontierEventKind, Policy, simtime_to_nanos}
use des_cartes.Explore.Script.{
  frontier, new_key, get_decision, insert_decision, get_decision-insert_decision,
}
use des_cartes.Explore.Frontier.{TraceEvent, other, from_trace_events, decisions_of, explore_choice}
use des_cartes.Explore.Replay.{chosen_seq_at}
use des_cartes.Explore.Runs.{Frontiers, Replays, record_run, replay_run, replay_run-record_run}
use des_cartes.Explore.Forced.{explore_choice-forced}

abbrev event_four : FrontierEvent
event_four = record {
  seq = 4;
  kind = FrontierEventKind.task;
  component_id = none;
  task_id = some 1;
}

abbrev event_seven : FrontierEvent
event_seven = record {
  seq = 7;
  kind = FrontierEventKind.component;
  component_id = some 2;
  task_id = none;
}

abbrev frontiers : List Frontiers
frontiers =
    record {
      time = 10;
      recorded = event_four ∷ event_seven ∷ [];
      replayed = event_seven ∷ event_four ∷ [];
    }
    ∷ record { time = 12; recorded = event_seven ∷ []; replayed = event_seven ∷ [] }
    ∷ []

-- A policy that chooses by the number of its choices so far.
abbrev counting : Policy ℕ
counting = record { choose = λ n t events. (n, n + 1) }

-- A trace with a random draw in front.
abbrev before : List (TraceEvent ℕ)
before = other 5 ∷ []

replay_run-record_run_example :
    Replays
      (record_run counting 1 before frontiers).0
      (replay_run (from_trace_events (record_run counting 1 before frontiers).1) frontiers)
unfolding decisions_of
replay_run-record_run_example =
    replay_run-record_run counting 1 before frontiers refl (Perm.swap 7 4 [], (Perm.rfl, tt))

explore_choice-forced_example :
    chosen_seq_at
      (event_seven ∷ event_four ∷ [])
      (explore_choice counting
        (some (insert_decision (new_key frontier (simtime_to_nanos 10) 0 (4 ∷ 7 ∷ [])) 4 []))
        0
        0
        before
        10
        (event_seven ∷ event_four ∷ [])).0
    ≡ some 4
explore_choice-forced_example =
    explore_choice-forced counting [] 0 0 4 before 10 (event_seven ∷ event_four ∷ []) (4 ∷ 7 ∷ [])
      (Perm.swap 7 4 []) refl

get_decision-insert_decision_example :
    get_decision
      (record { kind = frontier; time_nanos = 10; ordinal = 0; choice_set = 7 ∷ 4 ∷ [] })
      (insert_decision
        (record { kind = frontier; time_nanos = 10; ordinal = 0; choice_set = 4 ∷ 7 ∷ [] })
        4
        [])
    ≡ some 4
get_decision-insert_decision_example =
    get_decision-insert_decision frontier 10 0 4 (4 ∷ 7 ∷ []) (7 ∷ 4 ∷ []) [] (Perm.swap 7 4 [])
