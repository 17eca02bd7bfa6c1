-- ===== src/Explore/Cycles.antt =====
-- Replaying a recorded poll cycle of the async runtime: des-explore/src/ready_task.rs against
-- des-core/src/async_runtime.rs.
use mathlib.Core.List.{Perm}
use des_cartes.Prelude.{
  ℕ, zero, suc, ◌+◌, ◌-◌, ◌≤◌, ◌<◌, min, ◌≡◌, refl, sym, ap, ◌∙◌, subst, Option, none, some, List,
  [], ◌∷◌, ◌++◌, length, length-append, lookup, append_assoc, append-nil, arith, OnSome, count,
  count-Perm,
}
use des_cartes.Core.Time.{SimTime}
use des_cartes.Core.Ids.{Uuid}
use des_cartes.Core.Scheduler.{swap_remove, swap_remove-perm, swap_remove-ne_none}
use des_cartes.Core.Runtime.{
  RuntimeEvent, ReadyPolicy, Task, Call, spawns, spawns_local, cancels, cancels_local, wakes,
  registers, unregisters, Futures, Turn, apply_call, apply_calls, run_task, poll_member, poll_loop,
}
use des_cartes.Explore.Frontier.{
  AsyncRuntimeDecision, TraceEvent, scheduler_decision, async_runtime_decision, other,
}
use des_cartes.Explore.Ready.{
  clamp, decision, record_choice, recording, ReplayReadyTaskState, decisions_of, replaying,
}
use des_cartes.Explore.Polls.{IsApart, InSync, erase, poll_member-erase, replay_choice-eq}

decisions_of-append {ℓ} :
    {X : Type ℓ} (xs ys : List (TraceEvent X))
    → decisions_of (xs ++ ys) ≡ decisions_of xs ++ decisions_of ys
unfolding decisions_of
decisions_of-append [] ys = refl
decisions_of-append (scheduler_decision d ∷ xs) ys = decisions_of-append xs ys
decisions_of-append (async_runtime_decision d ∷ xs) ys = ap (λ r. d ∷ r) (decisions_of-append xs ys)
decisions_of-append (other x ∷ xs) ys = decisions_of-append xs ys

decisions_of-snoc {ℓ} :
    {X : Type ℓ} (xs : List (TraceEvent X)) (d : AsyncRuntimeDecision)
    → decisions_of (xs ++ async_runtime_decision d ∷ []) ≡ decisions_of xs ++ d ∷ []
unfolding decisions_of
decisions_of-snoc xs d = decisions_of-append xs (async_runtime_decision d ∷ [])

IsApart-rest : (set rest : List ℕ) (id : ℕ) → IsApart set → Perm set (id ∷ rest) → IsApart rest
IsApart-rest set rest id h p k =
    let total : count k (id ∷ rest) ≤ 1 = subst (λ n. n ≤ 1) (count-Perm k p) (h k) in
    ground (arith, total)

InSync-next :
    (st : ReplayReadyTaskState) (pre rest : List AsyncRuntimeDecision) (d : AsyncRuntimeDecision)
    → InSync st pre (d ∷ rest)
    → InSync (record st { next = st.next + 1 }) (pre ++ d ∷ []) rest
InSync-next st pre rest d s = record {
  error = s.error;
  decisions = s.decisions ∙ sym (append_assoc pre (d ∷ []) rest);
  next = omega (arith, s.next, length-append pre (d ∷ []));
  fifo_fallback = s.fifo_fallback;
}

module _ {E F : Type 0} (wrap : RuntimeEvent → E) (poll : Futures F) where
  module _ {P : Type 0} where
    apply_calls-policy_state :
        (key : Uuid) (id : ℕ) (calls : List (Call F)) (c : Turn E F P)
        → (apply_calls wrap key id calls c).runtime.policy_state ≡ c.runtime.policy_state
    unfolding apply_calls apply_call
    apply_calls-policy_state key id [] c = refl
    apply_calls-policy_state key id (spawns f ∷ calls) c = apply_calls-policy_state key id calls _
    apply_calls-policy_state key id (spawns_local f ∷ calls) c =
        apply_calls-policy_state key id calls _
    apply_calls-policy_state key id (cancels t ∷ calls) c = apply_calls-policy_state key id calls _
    apply_calls-policy_state key id (cancels_local t ∷ calls) c =
        apply_calls-policy_state key id calls _
    apply_calls-policy_state key id (wakes t ∷ calls) c = apply_calls-policy_state key id calls _
    apply_calls-policy_state key id (registers d ∷ calls) c =
        apply_calls-policy_state key id calls _
    apply_calls-policy_state key id (unregisters d ∷ calls) c =
        apply_calls-policy_state key id calls _

    run_task-policy_state :
        (o : Option Uuid) (now : SimTime) (id : ℕ) (f : F) (c : Turn E F P)
        → (run_task wrap poll o now id f c).runtime.policy_state ≡ c.runtime.policy_state
    unfolding run_task
    run_task-policy_state none now id f c = refl
    run_task-policy_state (some key) now id f c =
        apply_calls-policy_state key id (poll id c.runtime.next_task_id now f).calls _

    poll_member-policy_state :
        (o : Option (Task F)) (now : SimTime) (id : ℕ) (c : Turn E F P)
        → (poll_member wrap poll o now id c).runtime.policy_state ≡ c.runtime.policy_state
    unfolding poll_member
    poll_member-policy_state none now id c = refl
    poll_member-policy_state (some t) now id c =
        run_task-policy_state c.runtime.runtime_key now id t.future _

    abbrev pub with_policy : P → Turn E F P → Turn E F P
    with_policy p c = record c { runtime = record c.runtime { policy_state = p } }

    abbrev pub member : SimTime → ℕ → Turn E F P → Turn E F P
    member now id c = poll_member wrap poll (lookup id c.runtime.tasks) now id c

    -- The rest of a round of the loop, once an index is chosen.
    abbrev pub continue :
        ReadyPolicy P → ℕ → SimTime → Option (ℕ × List ℕ) → Turn E F P → Turn E F P
    continue policy fuel now o c = elim o [
      | none ↦ c
      | some (id, rest) ↦ poll_loop wrap poll policy fuel now rest (member now id c)
    ]

    poll_loop-continue :
        (policy : ReadyPolicy P) (fuel : ℕ) (now : SimTime) (t : ℕ) (ts : List ℕ) (c : Turn E F P)
        → let r = policy.choose c.runtime.policy_state now (t ∷ ts) in
          poll_loop wrap poll policy (suc fuel) now (t ∷ ts) c
          ≡ continue policy fuel now
              (swap_remove (t ∷ ts) (min r.0 (length (t ∷ ts) - 1)))
              (with_policy r.1 c)
    unfolding poll_loop
    poll_loop-continue policy fuel now t ts c = refl

  -- Polled alike, two turns that differ in the policy's state still do.
  member-erase :
      {P Q : Type 0} (now : SimTime) (id : ℕ) (c : Turn E F P) (d : Turn E F Q)
      → erase c ≡ erase d
      → erase (member now id c) ≡ erase (member now id d)
  member-erase now id c d e =
      poll_member-erase wrap poll (lookup id c.runtime.tasks) now id c
      ∙ ap (λ x. poll_member wrap poll (lookup id x.runtime.tasks) now id x) e
      ∙ sym (poll_member-erase wrap poll (lookup id d.runtime.tasks) now id d)

  -- What the replay does in a round in which the recorded run chose the index `i`.
  replaying-continue :
      (fuel i : ℕ) (now : SimTime) (t : ℕ) (ts : List ℕ) (o : Option (ℕ × List ℕ))
      (d : Turn E F ReplayReadyTaskState) (pre rest : List AsyncRuntimeDecision)
      → IsApart (t ∷ ts)
      → i < length (t ∷ ts)
      → swap_remove (t ∷ ts) (min i (length (t ∷ ts) - 1)) ≡ o
      → InSync d.runtime.policy_state pre (decision now (t ∷ ts) i ∷ rest)
      → let st = d.runtime.policy_state in
        poll_loop wrap poll replaying (suc fuel) now (t ∷ ts) d
        ≡ continue replaying fuel now o (with_policy (record st { next = st.next + 1 }) d)
  replaying-continue fuel i now t ts o d pre rest h l e s =
      let run : ℕ × ReplayReadyTaskState → Turn E F ReplayReadyTaskState = λ r.
        continue replaying fuel now (swap_remove (t ∷ ts) (min r.0 (length (t ∷ ts) - 1)))
          (with_policy r.1 d) in
      let st = d.runtime.policy_state in
      poll_loop-continue replaying fuel now t ts d
      ∙ ap run (replay_choice-eq i now t ts st pre rest h l s)
      ∙ ap (λ x. continue replaying fuel now x (with_policy (record st { next = st.next + 1 }) d)) e

-- A recorded piece of a run, and what a replay does that is in step with it.
pub record Replayed {E F P X : Type 0} (c r : Turn E F (P × List (TraceEvent X)))
    (replay : Turn E F ReplayReadyTaskState → Turn E F ReplayReadyTaskState) : Type 0 where
  pub made : List AsyncRuntimeDecision
  pub trace : decisions_of r.runtime.policy_state.1 ≡ decisions_of c.runtime.policy_state.1 ++ made
  pub follows :
      (d : Turn E F ReplayReadyTaskState) (pre post : List AsyncRuntimeDecision)
      → erase c ≡ erase d
      → InSync d.runtime.policy_state pre (made ++ post)
      → (erase r ≡ erase (replay d)) × InSync (replay d).runtime.policy_state (pre ++ made) post

module _ {E F P X : Type 0} (wrap : RuntimeEvent → E) (poll : Futures F)
    (inner : ReadyPolicy P) where
  round-Replayed :
      (fuel i : ℕ) (now : SimTime) (t : ℕ) (ts : List ℕ) (c : Turn E F (P × List (TraceEvent X)))
      (p : P)
      → IsApart (t ∷ ts)
      → i < length (t ∷ ts)
      → ((set : List ℕ) (c : Turn E F (P × List (TraceEvent X)))
          → IsApart set
          → Replayed c
              (poll_loop wrap poll (recording inner) fuel now set c)
              (poll_loop wrap poll replaying fuel now set))
      → (o : Option (ℕ × List ℕ)) → swap_remove (t ∷ ts) (min i (length (t ∷ ts) - 1)) ≡ o
      → OnSome (λ (r : ℕ × List ℕ). Perm (t ∷ ts) (r.0 ∷ r.1)) o
      → let trace =
          c.runtime.policy_state.1 ++ async_runtime_decision (decision now (t ∷ ts) i) ∷ [] in
        Replayed c
          (continue wrap poll (recording inner) fuel now o (with_policy wrap poll (p, trace) c))
          (poll_loop wrap poll replaying (suc fuel) now (t ∷ ts))
  round-Replayed fuel i now t ts c p h l ih none e q =
      absurd (swap_remove-ne_none (t ∷ ts) (min i (length (t ∷ ts) - 1)) (omega arith) e)
  round-Replayed fuel i now t ts c p h l ih (some (id, rest)) e q =
      let choice = decision now (t ∷ ts) i in
      let trace = c.runtime.policy_state.1 ++ async_runtime_decision choice ∷ [] in
      let c' : Turn E F (P × List (TraceEvent X)) = with_policy wrap poll (p, trace) c in
      let m = member wrap poll now id c' in
      let kept = poll_member-policy_state wrap poll (lookup id c'.runtime.tasks) now id c' in
      let r = ih rest m (IsApart-rest (t ∷ ts) rest id h q) in
      let before = decisions_of c.runtime.policy_state.1 in
      record {
        made = choice ∷ r.made;
        trace =
            r.trace
            ∙ ap (λ (x : P × List (TraceEvent X)). decisions_of x.1 ++ r.made) kept
            ∙ ap (λ ds. ds ++ r.made) (decisions_of-snoc c.runtime.policy_state.1 choice)
            ∙ append_assoc before (choice ∷ []) r.made;
        follows = λ d pre post same s.
            let st = d.runtime.policy_state in
            let d' : Turn E F ReplayReadyTaskState =
              with_policy wrap poll (record st { next = st.next + 1 }) d in
            let m' = member wrap poll now id d' in
            let alike : erase m ≡ erase m' = member-erase wrap poll now id c' d' same in
            let kept' = poll_member-policy_state wrap poll (lookup id d'.runtime.tasks) now id d' in
            let next =
              subst (λ x. InSync x (pre ++ choice ∷ []) (r.made ++ post)) (sym kept')
                (InSync-next st pre (r.made ++ post) choice s) in
            let (done, in_step) = r.follows m' (pre ++ choice ∷ []) post alike next in
            let replayed =
              replaying-continue wrap poll fuel i now t ts (some (id, rest)) d pre (r.made ++ post)
                h l e s in
            subst
              (λ x.
                (erase (continue wrap poll (recording inner) fuel now (some (id, rest)) c')
                  ≡ erase x)
                × InSync x.runtime.policy_state (pre ++ choice ∷ r.made) post)
              (sym replayed)
              (
                done,
                subst
                    (λ y.
                      InSync
                        (continue wrap poll replaying fuel now (some (id, rest))
                          d').runtime.policy_state
                        y post)
                    (append_assoc pre (choice ∷ []) r.made) in_step,
              );
      }

  pub poll_loop-Replayed :
      (fuel : ℕ) (now : SimTime) (set : List ℕ) (c : Turn E F (P × List (TraceEvent X)))
      → IsApart set
      → Replayed c
          (poll_loop wrap poll (recording inner) fuel now set c)
          (poll_loop wrap poll replaying fuel now set)
  unfolding poll_loop record_choice
  poll_loop-Replayed zero now set c h = record {
    made = [];
    trace = sym (append-nil _);
    follows = λ d pre post e s.
        (e, subst (λ p. InSync d.runtime.policy_state p post) (sym (append-nil pre)) s);
  }
  poll_loop-Replayed (suc fuel) now [] c h = record {
    made = [];
    trace = sym (append-nil _);
    follows = λ d pre post e s.
        (e, subst (λ p. InSync d.runtime.policy_state p post) (sym (append-nil pre)) s);
  }
  poll_loop-Replayed (suc fuel) now (t ∷ ts) c h =
      let (chosen, p) = inner.choose c.runtime.policy_state.0 now (t ∷ ts) in
      let i = clamp (t ∷ ts) chosen in
      let index = min i (length (t ∷ ts) - 1) in
      round-Replayed fuel i now t ts c p h (omega arith) (poll_loop-Replayed fuel now)
        (swap_remove (t ∷ ts) index) refl (swap_remove-perm (t ∷ ts) index)
