-- ===== src/Explore/Polls.antt =====
-- A poll cycle under the recording policy of des-explore/src/ready_task.rs against its replay.
use des_cartes.Prelude.{
  ℕ, zero, suc, ◌+◌, ◌≤◌, ◌<◌, ◌≡◌, refl, sym, ap, ◌∙◌, subst, true, false, Option, none, some,
  List, [], ◌∷◌, ◌++◌, ◌==◌, ==-refl, ==_iff, if◌then◌else◌, if_ind, length, get_elem?, position,
  is_empty, arith, count,
}
use des_cartes.Core.Time.{SimTime}
use des_cartes.Core.Ids.{Uuid}
use des_cartes.Core.Runtime.{
  RuntimeEvent, Task, Call, spawns, spawns_local, cancels, cancels_local, wakes, registers,
  unregisters, Futures, Turn, apply_call, apply_calls, run_task, put_task, poll_member,
}
use des_cartes.Explore.Script.{normal_set, same_list_refl}
use des_cartes.Explore.Frontier.{AsyncRuntimeDecision}
use des_cartes.Explore.Ready.{
  decision, ReplayReadyTaskState, replay_task, replay_decision, replay_next, replay_choice,
  unless_failed,
}

-- No task stands twice among the ready ones.
abbrev pub IsApart : List ℕ → Type 0
IsApart xs = (k : ℕ) → count k xs ≤ 1

get_elem?-count : (k : ℕ) (xs : List ℕ) (i : ℕ) → get_elem? xs i ≡ some k → 1 ≤ count k xs
get_elem?-count k [] i e = absurd (cc)
get_elem?-count k (x ∷ xs) zero e = let same : x ≡ k = cc in ground (arith, same)
get_elem?-count k (x ∷ xs) (suc i) e = ground (arith, get_elem?-count k xs i e)

position-get_elem? :
    (k : ℕ) (xs : List ℕ) (i : ℕ)
    → count k xs ≤ 1
    → get_elem? xs i ≡ some k
    → position k xs ≡ some i
position-get_elem? k [] i l e = absurd (cc)
position-get_elem? k (x ∷ xs) zero l e =
    let same : (x == k) ≡ true = (==_iff x k).1 cc in rw same refl
position-get_elem? k (x ∷ xs) (suc i) l e =
    let later = get_elem?-count k xs i e in
    let other : (x == k) ≡ false = ground (arith, l, later) in
    rw (other, position-get_elem? k xs i (ground (arith, l, later)) e) refl

get_elem?-lt : (xs : List ℕ) (i : ℕ) → i < length xs → (k : ℕ) × (get_elem? xs i ≡ some k)
get_elem?-lt [] i h = absurd (omega (arith, h))
get_elem?-lt (x ∷ xs) zero h = (x, refl)
get_elem?-lt (x ∷ xs) (suc i) h = get_elem?-lt xs i (omega (arith, h))

-- The replay stands after the decisions `pre`, with `rest` to come, and has met no mismatch.
pub record InSync (st : ReplayReadyTaskState) (pre rest : List AsyncRuntimeDecision) : Type 0 where
  pub error : st.error ≡ none
  pub decisions : st.decisions ≡ pre ++ rest
  pub next : st.next ≡ length pre
  pub fifo_fallback : st.fifo_fallback ≡ is_empty st.decisions

get_elem?-middle {ℓ} :
    {A : Type ℓ} (pre : List A) (d : A) (rest : List A)
    → get_elem? (pre ++ d ∷ rest) (length pre) ≡ some d
get_elem?-middle [] d rest = refl
get_elem?-middle (x ∷ pre) d rest = get_elem?-middle pre d rest

is_empty-middle {ℓ} :
    {A : Type ℓ} (pre : List A) (d : A) (rest : List A) → is_empty (pre ++ d ∷ rest) ≡ false
is_empty-middle [] d rest = refl
is_empty-middle (x ∷ pre) d rest = refl

replay_task-eq :
    (index : ℕ) (d : AsyncRuntimeDecision) (k i : ℕ) (ready : List ℕ) (st : ReplayReadyTaskState)
    → position k ready ≡ some i
    → replay_task index d (some k) ready st ≡ (i, st)
unfolding replay_task
replay_task-eq index d k i ready st e = rw (e, replay_task) refl

replay_decision-eq :
    (index i : ℕ) (now : SimTime) (t : ℕ) (ts : List ℕ) (st : ReplayReadyTaskState)
    → IsApart (t ∷ ts)
    → i < length (t ∷ ts)
    → replay_decision index (decision now (t ∷ ts) i) now (t ∷ ts) st ≡ (i, st)
unfolding replay_decision decision
replay_decision-eq index i now t ts st apart l =
    let (k, at) = get_elem?-lt (t ∷ ts) i l in
    let found = position-get_elem? k (t ∷ ts) i (apart k) at in
    rw (==-refl _, same_list_refl (normal_set (t ∷ ts)), at)
      (replay_task-eq index (decision now (t ∷ ts) i) k i (t ∷ ts) st found)

pub replay_choice-eq :
    (i : ℕ) (now : SimTime) (t : ℕ) (ts : List ℕ) (st : ReplayReadyTaskState)
    (pre rest : List AsyncRuntimeDecision)
    → IsApart (t ∷ ts)
    → i < length (t ∷ ts)
    → InSync st pre (decision now (t ∷ ts) i ∷ rest)
    → replay_choice st now (t ∷ ts) ≡ (i, record st { next = st.next + 1 })
unfolding replay_choice replay_next
replay_choice-eq i now t ts st pre rest apart l s =
    let d = decision now (t ∷ ts) i in
    let no_fallback : st.fifo_fallback ≡ false =
      s.fifo_fallback ∙ ap is_empty s.decisions ∙ is_empty-middle pre d rest in
    let at : get_elem? st.decisions st.next ≡ some d =
      ap (λ ds. get_elem? ds st.next) s.decisions
      ∙ ap (get_elem? (pre ++ d ∷ rest)) s.next
      ∙ get_elem?-middle pre d rest in
    let R : ℕ × ReplayReadyTaskState → Type 0 = λ r. r ≡ (i, record st { next = st.next + 1 }) in
    subst (λ e. R (unless_failed e now (t ∷ ts) st)) (sym s.error)
      (if_ind R st.fifo_fallback (λ y. absurd (cc))
        (λ _.
          subst (λ o. R (replay_next o now (t ∷ ts) st)) (sym at)
            (replay_decision-eq st.next i now t ts (record st { next = st.next + 1 }) apart l)))

module _ {ℓ} {E F : Type ℓ} where
  -- What the policy's state is left out of.
  abbrev pub erase : {P : Type ℓ} → Turn E F P → Turn E F (Unit {ℓ})
  erase c = record {
    runtime = record {
      next_task_id = c.runtime.next_task_id;
      tasks = c.runtime.tasks;
      ready_queue = c.runtime.ready_queue;
      policy_state = tt;
      spawn_queue = c.runtime.spawn_queue;
      spawn_queue_local = c.runtime.spawn_queue_local;
      timers = c.runtime.timers;
      next_timer_deadline = c.runtime.next_timer_deadline;
      runtime_key = c.runtime.runtime_key;
    };
    deferred = c.deferred;
    polled = c.polled;
  }

  module _ (wrap : RuntimeEvent → E) {P : Type ℓ} where
    apply_call-erase :
        (key : Uuid) (id : ℕ) (call : Call F) (c : Turn E F P)
        → erase (apply_call wrap key id call c) ≡ apply_call wrap key id call (erase c)
    unfolding apply_call
    apply_call-erase key id (spawns f) c = refl
    apply_call-erase key id (spawns_local f) c = refl
    apply_call-erase key id (cancels t) c = refl
    apply_call-erase key id (cancels_local t) c = refl
    apply_call-erase key id (wakes t) c = refl
    apply_call-erase key id (registers d) c = refl
    apply_call-erase key id (unregisters d) c = refl

    apply_calls-erase :
        (key : Uuid) (id : ℕ) (calls : List (Call F)) (c : Turn E F P)
        → erase (apply_calls wrap key id calls c) ≡ apply_calls wrap key id calls (erase c)
    unfolding apply_calls
    apply_calls-erase key id [] c = refl
    apply_calls-erase key id (call ∷ calls) c =
        apply_calls-erase key id calls (apply_call wrap key id call c)
        ∙ ap (apply_calls wrap key id calls) (apply_call-erase key id call c)

    module _ (poll : Futures F) where
      run_task-erase :
          (o : Option Uuid) (now : SimTime) (id : ℕ) (f : F) (c : Turn E F P)
          → erase (run_task wrap poll o now id f c) ≡ run_task wrap poll o now id f (erase c)
      unfolding run_task
      run_task-erase none now id f c = refl
      run_task-erase (some key) now id f c =
          let result = poll id c.runtime.next_task_id now f in
          ap
            (put_task wrap id (
              if result.is_ready
              then none
              else some (record { future = result.future; queued = false })))
            (apply_calls-erase key id result.calls (record c { polled = c.polled ++ id ∷ [] }))

      pub poll_member-erase :
          (o : Option (Task F)) (now : SimTime) (id : ℕ) (c : Turn E F P)
          → erase (poll_member wrap poll o now id c) ≡ poll_member wrap poll o now id (erase c)
      unfolding poll_member
      poll_member-erase none now id c = refl
      poll_member-erase (some t) now id c = run_task-erase c.runtime.runtime_key now id t.future _
