-- ===== src/Explore/Runs.antt =====
-- A whole run of a recording policy against a run that replays its trace: des-explore/src/frontier.rs.
use mathlib.Core.List.{Perm}
use des_cartes.Prelude.{
  ℕ, ◌+◌, ◌≡◌, refl, sym, ap, ◌∙◌, subst, Option, none, some, List, [], ◌∷◌, ◌++◌, length,
  length-append, get_elem?, arith, All, append_assoc, append-nil,
}
use des_cartes.Core.Time.{SimTime}
use des_cartes.Core.Scheduler.{simtime_to_nanos, FrontierEvent, Policy, seqs}
use des_cartes.Explore.Frontier.{
  TraceEvent, scheduler_decision, async_runtime_decision, other, SchedulerDecision,
  ReplayFrontierState, decision, clamp, record_choice, decisions_of, from_trace_events,
  replay_decision, replay_choice, out_of_decisions,
}
use des_cartes.Explore.Replay.{Follows, chosen_seq_at, replay_decision-Follows}

-- A frontier as the recording run saw it and as the replaying run sees it.
pub record Frontiers : Type 0 where
  pub time : SimTime
  pub recorded : List FrontierEvent
  pub replayed : List FrontierEvent

abbrev pub SameEvents : Frontiers → Type 0
SameEvents f = Perm (seqs f.recorded) (seqs f.replayed)

module _ {ℓ κ} {X : Type ℓ} {P : Type κ} (inner : Policy P) where
  -- The numbers of the events chosen in a recorded run, and its trace.
  unfoldable pub record_run :
      P → List (TraceEvent X) → List Frontiers → List (Option ℕ) × List (TraceEvent X)
  unfolding record_choice
  record_run p trace [] = ([], trace)
  record_run p trace (f ∷ fs) =
      let (i, p', trace') = record_choice inner p trace f.time f.recorded in
      let (more, trace'') = record_run p' trace' fs in (chosen_seq_at f.recorded i ∷ more, trace'')

-- The numbers of the events chosen in a replay, and the state that it ends in.
unfoldable pub replay_run :
    ReplayFrontierState → List Frontiers → List (Option ℕ) × ReplayFrontierState
unfolding replay_choice
replay_run st [] = ([], st)
replay_run st (f ∷ fs) =
    let (i, st') = replay_choice st f.time f.replayed in
    let (more, st'') = replay_run st' fs in (chosen_seq_at f.replayed i ∷ more, st'')

get_elem?-middle {ℓ} :
    {A : Type ℓ} (pre : List A) (d : A) (rest : List A)
    → get_elem? (pre ++ d ∷ rest) (length pre) ≡ some d
get_elem?-middle [] d rest = refl
get_elem?-middle (x ∷ pre) d rest = get_elem?-middle pre d rest

cons_cong {ℓ} : {A : Type ℓ} {x y : A} {xs ys : List A} → x ≡ y → xs ≡ ys → x ∷ xs ≡ y ∷ ys
cons_cong e e' = rw (e, e') refl

decisions_of-append {ℓ} :
    {X : Type ℓ} (xs ys : List (TraceEvent X))
    → decisions_of (xs ++ ys) ≡ decisions_of xs ++ decisions_of ys
unfolding decisions_of
decisions_of-append [] ys = refl
decisions_of-append (scheduler_decision d ∷ xs) ys = ap (λ r. d ∷ r) (decisions_of-append xs ys)
decisions_of-append (async_runtime_decision d ∷ xs) ys = decisions_of-append xs ys
decisions_of-append (other x ∷ xs) ys = decisions_of-append xs ys

replay_choice-eq :
    (st : ReplayFrontierState) (t : SimTime) (events : List FrontierEvent) (d : SchedulerDecision)
    → st.error ≡ none
    → get_elem? st.decisions st.next ≡ some d
    → replay_choice st t events
      ≡ replay_decision st.next d t events (record st { next = st.next + 1 })
unfolding replay_choice
replay_choice-eq st t events d ok at =
    let next : SchedulerDecision → ℕ × ReplayFrontierState =
      λ d. replay_decision st.next d t events (record st { next = st.next + 1 }) in
    subst
      (λ o.
        (elim o as (λ _. ℕ × ReplayFrontierState) [
          | some _ ↦ (0, st)
          | none ↦ elim (get_elem? st.decisions st.next) as (λ _. ℕ × ReplayFrontierState) [
            | none ↦ (
              0,
              record st {
                error = some (out_of_decisions st.next (simtime_to_nanos t) (seqs events));
              },
            )
            | some d ↦ replay_decision st.next d t events (record st { next = st.next + 1 })
          ]
        ])
        ≡ next d)
      (sym ok)
      (subst
        (λ o.
          (elim o as (λ _. ℕ × ReplayFrontierState) [
            | none ↦ (
              0,
              record st {
                error = some (out_of_decisions st.next (simtime_to_nanos t) (seqs events));
              },
            )
            | some d ↦ replay_decision st.next d t events (record st { next = st.next + 1 })
          ])
          ≡ next d)
        (sym at) refl)

-- One step of a replay that has followed the trace so far.
replay_choice-Follows :
    (st : ReplayFrontierState) (f : Frontiers) (c : ℕ)
    → st.error ≡ none
    → get_elem? st.decisions st.next ≡ some (decision f.time f.recorded (clamp f.recorded c))
    → SameEvents f
    → Follows f.recorded
        (clamp f.recorded c)
        f.replayed
        (record st { next = st.next + 1 })
        (replay_choice st f.time f.replayed)
replay_choice-Follows st f c ok at same =
    let d = decision f.time f.recorded (clamp f.recorded c) in
    subst (Follows f.recorded (clamp f.recorded c) f.replayed (record st { next = st.next + 1 }))
      (sym (replay_choice-eq st f.time f.replayed d ok at))
      (replay_decision-Follows st.next f.time (record st { next = st.next + 1 }) f.recorded
        f.replayed c same)

recorded_decisions {κ} : {P : Type κ} → Policy P → P → List Frontiers → List SchedulerDecision
recorded_decisions inner p [] = []
recorded_decisions inner p (f ∷ fs) =
    let (c, p') = inner.choose p f.time f.recorded in
    decision f.time f.recorded (clamp f.recorded c) ∷ recorded_decisions inner p' fs

-- The replay chose the recorded events and met no mismatch.
abbrev pub Replays : List (Option ℕ) → List (Option ℕ) × ReplayFrontierState → Type 0
Replays chosen r = (r.0 ≡ chosen) × (r.1.error ≡ none)

module _ {ℓ κ} {X : Type ℓ} {P : Type κ} (inner : Policy P) where
  decisions_of-record_run :
      (p : P) (trace : List (TraceEvent X)) (fs : List Frontiers)
      → decisions_of (record_run inner p trace fs).1
        ≡ decisions_of trace ++ recorded_decisions inner p fs
  unfolding record_run record_choice decisions_of recorded_decisions
  decisions_of-record_run p trace [] = sym (append-nil _)
  decisions_of-record_run p trace (f ∷ fs) =
      let (c, p') = inner.choose p f.time f.recorded in
      let d = decision f.time f.recorded (clamp f.recorded c) in
      decisions_of-record_run p' (trace ++ scheduler_decision d ∷ []) fs
      ∙ ap (λ ds. ds ++ recorded_decisions inner p' fs)
          (decisions_of-append trace (scheduler_decision d ∷ []))
      ∙ append_assoc (decisions_of trace) (d ∷ []) (recorded_decisions inner p' fs)

  replay_run-Replays :
      (p : P) (trace : List (TraceEvent X)) (fs : List Frontiers) (pre : List SchedulerDecision)
      (st : ReplayFrontierState)
      → st.error ≡ none
      → st.decisions ≡ pre ++ recorded_decisions inner p fs
      → st.next ≡ length pre
      → All SameEvents fs
      → Replays (record_run inner p trace fs).0 (replay_run st fs)
  unfolding record_run record_choice replay_run recorded_decisions
  replay_run-Replays p trace [] pre st ok ds n same = (refl, ok)
  replay_run-Replays p trace (f ∷ fs) pre st ok ds n same =
      let (c, p') = inner.choose p f.time f.recorded in
      let d = decision f.time f.recorded (clamp f.recorded c) in
      let at =
        subst (λ k. get_elem? st.decisions k ≡ some d) (sym n)
          (subst (λ l. get_elem? l (length pre) ≡ some d) (sym ds)
            (get_elem?-middle pre d (recorded_decisions inner p' fs))) in
      let now = replay_choice-Follows st f c ok at same.0 in
      let rest =
        replay_run-Replays p' (trace ++ scheduler_decision d ∷ []) fs (pre ++ d ∷ [])
          (record st { next = st.next + 1 }) ok
          (ds ∙ sym (append_assoc pre (d ∷ []) (recorded_decisions inner p' fs)))
          (omega (arith, n, length-append pre (d ∷ []))) same.1 in
      let there =
        subst
          (λ s.
            Replays (record_run inner p' (trace ++ scheduler_decision d ∷ []) fs).0
              (replay_run s fs))
          (sym now.1) rest in
      (cons_cong now.0 there.0, there.1)

  -- A replay of the trace that a recording run appended to a trace without decisions chooses events
  -- with the same numbers and meets no mismatch, whatever policy was recorded, if each frontier
  -- holds the same numbers, in any order.
  pub replay_run-record_run :
      (p : P) (before : List (TraceEvent X)) (fs : List Frontiers)
      → decisions_of before ≡ []
      → All SameEvents fs
      → Replays
          (record_run inner p before fs).0
          (replay_run (from_trace_events (record_run inner p before fs).1) fs)
  unfolding from_trace_events
  replay_run-record_run p before fs clean same =
      replay_run-Replays p before fs [] (from_trace_events (record_run inner p before fs).1) refl
        (decisions_of-record_run p before fs ∙ ap (λ ds. ds ++ recorded_decisions inner p fs) clean)
        refl same
