-- ===== src/Core/Runtime/Cycle.antt =====
-- A poll cycle of des-core/src/async_runtime.rs: who is polled, and what is left of the tasks.
use mathlib.Core.List.{Perm, perm_middle}
use mathlib.Core.List.Perm
use des_cartes.Prelude.{
  ℕ, ◌≡◌, ◌≢◌, refl, sym, ap, ◌∙◌, subst, ◌⊎◌, inl, inr, Bool, true, false, Option, none, some,
  List, [], ◌∷◌, ◌++◌, ◌==◌, ==_iff, if◌then◌else◌, lookup, insert_key, remove_key,
  lookup-insert_key, remove_key-All, All, All-mono, append_assoc, append-nil, Bool-cases,
}
use des_cartes.Core.Time.{SimTime}
use des_cartes.Core.Ids.{Uuid}
use des_cartes.Core.Runtime.{
  RuntimeEvent, Task, Call, spawns, spawns_local, cancels, cancels_local, wakes, registers,
  unregisters, Futures, Turn, apply_call, apply_calls, run_task, poll_member,
}
use des_cartes.Core.Runtime.Pending.{
  Settled, Pending, lookup-Settled, Pending-tail, Pending-Settled, lookup-none-Pending,
}

module _ {ℓ} {E : Type ℓ} (wrap : RuntimeEvent → E) {F P : Type ℓ} where
  -- What the calls of a future leave alone.
  record Untouched (c d : Turn E F P) : Type ℓ where
    tasks : d.runtime.tasks ≡ c.runtime.tasks
    ready_queue : d.runtime.ready_queue ≡ c.runtime.ready_queue
    runtime_key : d.runtime.runtime_key ≡ c.runtime.runtime_key
    polled : d.polled ≡ c.polled

  apply_call-Untouched :
      (key : Uuid) (id : ℕ) (call : Call F) (c : Turn E F P)
      → Untouched c (apply_call wrap key id call c)
  unfolding apply_call
  apply_call-Untouched key id (spawns f) c = record {
    tasks = refl;
    ready_queue = refl;
    runtime_key = refl;
    polled = refl;
  }
  apply_call-Untouched key id (spawns_local f) c = record {
    tasks = refl;
    ready_queue = refl;
    runtime_key = refl;
    polled = refl;
  }
  apply_call-Untouched key id (cancels t) c = record {
    tasks = refl;
    ready_queue = refl;
    runtime_key = refl;
    polled = refl;
  }
  apply_call-Untouched key id (cancels_local t) c = record {
    tasks = refl;
    ready_queue = refl;
    runtime_key = refl;
    polled = refl;
  }
  apply_call-Untouched key id (wakes t) c = record {
    tasks = refl;
    ready_queue = refl;
    runtime_key = refl;
    polled = refl;
  }
  apply_call-Untouched key id (registers d) c = record {
    tasks = refl;
    ready_queue = refl;
    runtime_key = refl;
    polled = refl;
  }
  apply_call-Untouched key id (unregisters d) c = record {
    tasks = refl;
    ready_queue = refl;
    runtime_key = refl;
    polled = refl;
  }

  apply_calls-Untouched :
      (key : Uuid) (id : ℕ) (calls : List (Call F)) (c : Turn E F P)
      → Untouched c (apply_calls wrap key id calls c)
  unfolding apply_calls
  apply_calls-Untouched key id [] c = record {
    tasks = refl;
    ready_queue = refl;
    runtime_key = refl;
    polled = refl;
  }
  apply_calls-Untouched key id (call ∷ calls) c =
      let a = apply_call-Untouched key id call c in
      let b = apply_calls-Untouched key id calls (apply_call wrap key id call c) in
      record {
        tasks = b.tasks ∙ a.tasks;
        ready_queue = b.ready_queue ∙ a.ready_queue;
        runtime_key = b.runtime_key ∙ a.runtime_key;
        polled = b.polled ∙ a.polled;
      }

  record Ran (id : ℕ) (c d : Turn E F P) : Type ℓ where
    settled : Settled id c.runtime.tasks d.runtime.tasks
    ready_queue : d.runtime.ready_queue ≡ c.runtime.ready_queue
    runtime_key : d.runtime.runtime_key ≡ c.runtime.runtime_key
    polled : d.polled ≡ c.polled ++ id ∷ []

  module _ (poll : Futures F) where
    run_task-Ran :
        (key : Uuid) (now : SimTime) (id : ℕ) (future : F) (c : Turn E F P)
        → Ran id c (run_task wrap poll (some key) now id future c)
    unfolding run_task
    run_task-Ran key now id future c =
        let result = poll id c.runtime.next_task_id now future in
        let c' = record c { polled = c.polled ++ id ∷ [] } in
        let u = apply_calls-Untouched key id result.calls c' in
        record {
          settled = settle result.is_ready result.future _ u.tasks;
          ready_queue = u.ready_queue;
          runtime_key = u.runtime_key;
          polled = u.polled;
        }
      where
        settle :
            (b : Bool) (f : F) (ts : List (ℕ × Task F))
            → ts ≡ c.runtime.tasks
            → Settled id c.runtime.tasks (
                let o : Option (Task F) =
                  if b then none else some (record { future = f; queued = false }) in
                elim o as (λ _. List (ℕ × Task F)) [
                  | none ↦ remove_key id ts
                  | some t ↦ insert_key id t ts
                ])
        settle true f ts e = inl (ap (remove_key id) e)
        settle false f ts e = inr (
          record { future = f; queued = false },
          refl,
          ap (insert_key id (record { future = f; queued = false })) e,
        )

    -- What a member of the poll set does to the cycle: a live task is polled, and a gone one skipped.
    abbrev unqueued : ℕ → Task F → Turn E F P → Turn E F P
    unqueued id t c = record c {
      runtime = record c.runtime {
        tasks = insert_key id (record t { queued = false }) c.runtime.tasks;
      };
    }

    poll_member-Ran :
        (key : Uuid) (now : SimTime) (id : ℕ) (t : Task F) (c : Turn E F P)
        → c.runtime.runtime_key ≡ some key
        → Ran id (unqueued id t c) (poll_member wrap poll (some t) now id c)
    unfolding poll_member
    poll_member-Ran key now id t c k =
        subst
          (λ o. Ran id (unqueued id t c) (run_task wrap poll o now id t.future (unqueued id t c)))
          (sym k) (run_task-Ran key now id t.future (unqueued id t c))

    -- Either way, with a runtime key: gone tasks stay gone, and who is pending is told by the rest.
    pub record Member (id : ℕ) (c d : Turn E F P) : Type ℓ where
      pub outcome :
          ((lookup id c.runtime.tasks ≡ none) × (d ≡ c))
          ⊎ ((lookup id c.runtime.tasks ≢ none) × (d.polled ≡ c.polled ++ id ∷ []))
      pub gone : (j : ℕ) → lookup j c.runtime.tasks ≡ none → lookup j d.runtime.tasks ≡ none
      pub pending :
          (set rest : List ℕ)
          → Perm set (id ∷ rest)
          → All (Pending set) c.runtime.tasks
          → All (Pending rest) d.runtime.tasks
      pub ready_queue : d.runtime.ready_queue ≡ c.runtime.ready_queue
      pub runtime_key : d.runtime.runtime_key ≡ c.runtime.runtime_key

    pub poll_member-Member :
        (key : Uuid) (now : SimTime) (id : ℕ) (c : Turn E F P) (o : Option (Task F))
        → lookup id c.runtime.tasks ≡ o
        → c.runtime.runtime_key ≡ some key
        → Member id c (poll_member wrap poll o now id c)
    unfolding poll_member
    poll_member-Member key now id c none e k = record {
      outcome = inl (e, refl);
      gone = λ j h. h;
      pending = λ set rest p h. lookup-none-Pending id set rest c.runtime.tasks p e h;
      ready_queue = refl;
      runtime_key = refl;
    }
    poll_member-Member key now id c (some t) e k =
        let ran = poll_member-Ran key now id t c k in
        let before = c.runtime.tasks in
        let after = (poll_member wrap poll (some t) now id c).runtime.tasks in
        record {
          outcome = inr (λ n. cc, ran.polled);
          gone = λ j h. elim (Bool-cases (id == j)) [
            | inl same ↦
                let here : lookup id before ≡ none =
                  subst (λ i. lookup i before ≡ none) (sym ((==_iff id j).0 same)) h in
                absurd (cc)
            | inr other ↦
                lookup-Settled id j (unqueued id t c).runtime.tasks after ran.settled other
                ∙ lookup-insert_key id j (record t { queued = false }) before
                ∙ rw other h
          ];
          pending = λ set rest p h.
              Pending-Settled id (id ∷ rest) rest (unqueued id t c).runtime.tasks after Perm.rfl
                ran.settled
                (inl refl, remove_key-All id before (λ e q n. Pending-tail id set rest p e q) h);
          ready_queue = ran.ready_queue;
          runtime_key = ran.runtime_key;
        }

    -- What a run of the loop over a poll set did.
    pub record Cycled (set : List ℕ) (c d : Turn E F P) : Type ℓ where
      pub visited : List ℕ
      pub skipped : List ℕ
      pub log : d.polled ≡ c.polled ++ visited
      pub perm : Perm set (visited ++ skipped)
      pub gone : All (λ id. lookup id d.runtime.tasks ≡ none) skipped
      pub alive : All (λ id. lookup id c.runtime.tasks ≢ none) visited
      pub stays_gone : (j : ℕ) → lookup j c.runtime.tasks ≡ none → lookup j d.runtime.tasks ≡ none
      pub settled : All (Pending set) c.runtime.tasks → All (Pending []) d.runtime.tasks
      pub ready_queue : d.runtime.ready_queue ≡ c.runtime.ready_queue

    pub Cycled-empty : (c : Turn E F P) → Cycled [] c c
    Cycled-empty c = record {
      visited = [];
      skipped = [];
      log = sym (append-nil c.polled);
      perm = Perm.rfl;
      gone = tt;
      alive = tt;
      stays_gone = λ j h. h;
      settled = λ h. h;
      ready_queue = refl;
    }

    pub Cycled-step :
        (id : ℕ) (set rest : List ℕ) (c m d : Turn E F P)
        → Perm set (id ∷ rest)
        → Member id c m
        → Cycled rest m d
        → Cycled set c d
    Cycled-step id set rest c m d p one r = pick one.outcome
      where
        back :
            (ids : List ℕ)
            → All (λ i. lookup i m.runtime.tasks ≢ none) ids
            → All (λ i. lookup i c.runtime.tasks ≢ none) ids
        back ids h = All-mono ids (λ i q n. q (one.gone i n)) h

        pick :
            ((lookup id c.runtime.tasks ≡ none) × (m ≡ c))
              ⊎ ((lookup id c.runtime.tasks ≢ none) × (m.polled ≡ c.polled ++ id ∷ []))
            → Cycled set c d
        pick (inl (n, same)) = record {
          visited = r.visited;
          skipped = id ∷ r.skipped;
          log = subst (λ (x : Turn E F P). d.polled ≡ x.polled ++ r.visited) same r.log;
          perm =
              Perm.trans p
                (Perm.trans (Perm.cons id r.perm) (Perm.symm (perm_middle r.visited r.skipped)));
          gone = (r.stays_gone id (one.gone id n), r.gone);
          alive = back r.visited r.alive;
          stays_gone = λ j h. r.stays_gone j (one.gone j h);
          settled = λ h. r.settled (one.pending set rest p h);
          ready_queue = r.ready_queue ∙ one.ready_queue;
        }
        pick (inr (live, logged)) = record {
          visited = id ∷ r.visited;
          skipped = r.skipped;
          log = r.log ∙ ap (λ l. l ++ r.visited) logged ∙ append_assoc c.polled (id ∷ []) r.visited;
          perm = Perm.trans p (Perm.cons id r.perm);
          gone = r.gone;
          alive = (live, back r.visited r.alive);
          stays_gone = λ j h. r.stays_gone j (one.gone j h);
          settled = λ h. r.settled (one.pending set rest p h);
          ready_queue = r.ready_queue ∙ one.ready_queue;
        }
