-- ===== src/Tokio/Barrier/Generations.antt =====
-- Every history of a barrier: des-tokio/src/sync/barrier.rs.
use des_cartes.Prelude.{
  ℕ, suc, ◌+◌, ◌<◌, ◌≡◌, refl, subst, inl, true, false, not, some, List, [], ◌∷◌, ◌++◌, ◌==◌,
  if_ind, map, length, length-map, length-Perm, add_u64, u64_max, All, All-mono, arith,
}
use des_cartes.Tokio.Barrier.{
  Waiter, Barrier, Wait, WaitPoll, ready, task_of, new, wait, arrive, poll, drop_wait,
}
use des_cartes.Tokio.Barrier.Present.{present, leads, waits_for-unregistered}
use des_cartes.Tokio.Barrier.Soundness.{
  IsSound, new-IsSound, IsSound-focus, IsSound-unfocus, IsSound-forget, poll-IsSound,
  drop_wait-IsSound,
}

module _ {ℓ} {W : Type ℓ} where
  -- A call on the barrier: the futures before and after, and how many leaders it made.
  pub data Step : Barrier W → List Wait → ℕ → Barrier W → List Wait → Type ℓ where
    waits : (b : Barrier W) (fs : List Wait) → Step b fs 0 b (wait b ∷ fs)
    polls :
        (task : ℕ) (waker : W) (b : Barrier W) (before : List Wait) (f : Wait) (after : List Wait)
        → b.generation < u64_max
        → Step b
            (before ++ f ∷ after)
            (leads (poll task waker f b).0)
            (poll task waker f b).2
            (before ++ (poll task waker f b).1 ∷ after)
    drops :
        (b : Barrier W) (before : List Wait) (f : Wait) (after : List Wait)
        → Step b (before ++ f ∷ after) 0 (drop_wait f b) (before ++ after)

  pub data Reach (parties : ℕ) : Barrier W → List Wait → ℕ → Type ℓ where
    start : {b : Barrier W} → new parties ≡ some b → Reach parties b [] 0
    next :
        {b b' : Barrier W} {fs fs' : List Wait} {leaders more : ℕ}
        → Reach parties b fs leaders
        → Step b fs more b' fs'
        → Reach parties b' fs' (leaders + more)

  Step-IsSound :
      {b b' : Barrier W} {fs fs' : List Wait} {k : ℕ} (n : ℕ)
      → Step b fs k b' fs'
      → IsSound b fs n
      → IsSound b' fs' (n + k)
  Step-IsSound n (Step.waits b fs) v = record {
    counted = v.counted;
    some_missing = v.some_missing;
    releases = omega (arith, v.releases);
    past = (omega arith, v.past);
    proper = (inl refl, v.proper);
    waiting = v.waiting;
  }
  Step-IsSound n (Step.polls task waker b before f after room) v =
      IsSound-unfocus _ before _ after _
        (poll-IsSound task waker f b (before ++ after) n (IsSound-focus b before f after n v) room)
  Step-IsSound n (Step.drops b before f after) v =
      subst (IsSound (drop_wait f b) (before ++ after)) (omega arith)
        (drop_wait-IsSound f b (before ++ after) n (IsSound-focus b before f after n v))

  -- In every state that creating, polling (while generation numbers are left) and dropping wait
  -- futures, in any order, reaches from a new barrier, the generation counts the polls that
  -- reported a leader, the number of the arrived is that of the waiters and below the number of
  -- parties, and the waiters are, in some order, the tasks of the registered futures of the current
  -- generation.
  pub Reach-IsSound :
      (parties : ℕ) {b : Barrier W} {fs : List Wait} {leaders : ℕ}
      → Reach parties b fs leaders
      → IsSound b fs leaders
  Reach-IsSound parties (Reach.start e) = new-IsSound parties _ e
  Reach-IsSound parties (Reach.next {leaders = m} r st) =
      Step-IsSound m st (Reach-IsSound parties r)

  poll-other :
      (task : ℕ) (waker : W) (f : Wait) (b : Barrier W)
      → f.generation < b.generation
      → (poll task waker f b).0 ≡ ready false
  unfolding poll
  poll-other task waker f b l =
      let other : not (b.generation == f.generation) ≡ true = ground (arith, l) in rw other refl

  -- What a poll that releases the barrier did.
  pub Released : List Wait → Barrier W → ℕ → W → WaitPoll × Wait × Barrier W × List W → Type ℓ
  Released others b t k r =
      (suc (length (present b.generation others)) ≡ b.parties)
      × (r.3 ≡ map (λ (w : Waiter W). w.waker) b.waiters)
      × (r.2.waiters ≡ [])
      × All (λ h. (poll t k h r.2).0 ≡ ready false) others

  arrive-Released :
      (task : ℕ) (waker : W) (f : Wait) (b : Barrier W) (fs : List Wait) (n t : ℕ) (k : W)
      → IsSound b (f ∷ fs) n
      → b.generation < u64_max
      → f.registered ≡ false
      → (f' : Wait) → (arrive task waker f' b).0 ≡ ready true
      → Released fs b t k (arrive task waker f' b)
  unfolding arrive Released
  arrive-Released task waker f b fs n t k v room fresh f' =
      let P : WaitPoll × Wait × Barrier W × List W → Type ℓ =
        λ r. r.0 ≡ ready true → Released fs b t k r in
      let rest = IsSound-forget b f fs n v (waits_for-unregistered b.generation f fresh) in
      let next : add_u64 b.generation 1 ≡ b.generation + 1 = omega (arith, room) in
      let counts = length-map (λ (w : Waiter W). w.task_id) b.waiters in
      if_ind P (b.arrived + 1 == b.parties)
        (λ e _. (
          grind (arith, e, rest.counted, length-Perm rest.waiting, counts),
          refl,
          refl,
          All-mono fs (λ h l. poll-other t k h _ (omega (arith, next, l))) rest.past,
        ))
        (λ _ e. absurd (cc))

  -- If a poll in such a state reports a leader, the other waiting futures and it are as many as the
  -- parties, the wakers of all waiters are woken in the order of arrival, nobody is left waiting,
  -- and every other future that existed by then, registered or not, is ready without being the
  -- leader when it is polled next.
  pub poll-Released :
      (task : ℕ) (waker : W) (b : Barrier W) (before : List Wait) (f : Wait) (after : List Wait)
      (n t : ℕ) (k : W)
      → IsSound b (before ++ f ∷ after) n
      → b.generation < u64_max
      → (poll task waker f b).0 ≡ ready true
      → Released (before ++ after) b t k (poll task waker f b)
  unfolding poll
  poll-Released task waker b before f after n t k v room =
      let P : WaitPoll × Wait × Barrier W × List W → Type ℓ =
        λ r. r.0 ≡ ready true → Released (before ++ after) b t k r in
      if_ind P (not (b.generation == f.generation)) (λ _ e. absurd (cc))
        (λ _.
          if_ind P f.registered (λ _ e. absurd (cc))
            (λ q.
              arrive-Released (task_of f.task_id task) waker f b (before ++ after) n t k
                (IsSound-focus b before f after n v) room q _))
