-- ===== src/Tokio/Barrier/Soundness.antt =====
-- What the calls of des-tokio/src/sync/barrier.rs keep: the waiters are the futures that wait.
use mathlib.Core.List.{Perm, perm_append_singleton}
use mathlib.Core.List.Perm
use des_cartes.Prelude.{
  ℕ, ◌+◌, ◌<◌, ◌≤◌, ◌≡◌, refl, sym, ap, ◌∙◌, subst, inl, inr, Bool, true, false, not, Option, some,
  List, [], ◌∷◌, ◌++◌, ◌==◌, ==_iff, if_ind, map, length, length-append, length-map, length-Perm,
  add_u64, u64_max, All, All-mono, contains, contains-Perm, arith,
}
use des_cartes.Tokio.Barrier.{
  Waiter, Barrier, Wait, WaitPoll, task_of, new, renew, arrive, poll, remove_waiter, leave,
  drop_wait,
}
use des_cartes.Tokio.Barrier.Present.{
  waits_for, present, leads, Proper, present-focus, present-none, waits_for-unregistered,
  waits_for-other, waits_for-registered, waits_for-started, All-focus, All-unfocus,
}

module _ {ℓ} {W : Type ℓ} where
  abbrev pub task_ids : List (Waiter W) → List ℕ
  task_ids = map (λ w. w.task_id)

  -- The number of leaders counts the releases; the waiters are the futures that wait in the current
  -- generation, and are fewer than the parties.
  pub record IsSound (b : Barrier W) (fs : List Wait) (leaders : ℕ) : Type 0 where
    pub counted : b.arrived ≡ length b.waiters
    pub some_missing : b.arrived < b.parties
    pub releases : b.generation ≡ leaders
    pub past : All (λ f. f.generation ≤ b.generation) fs
    pub proper : All Proper fs
    pub waiting : Perm (task_ids b.waiters) (present b.generation fs)

  map-snoc :
      (ws : List (Waiter W)) (task : ℕ) (waker : W)
      → task_ids (ws ++ record { task_id = task; waker = waker } ∷ []) ≡ task_ids ws ++ task ∷ []
  map-snoc [] task waker = refl
  map-snoc (w ∷ ws) task waker = ap (λ r. w.task_id ∷ r) (map-snoc ws task waker)

  renew-task_ids :
      (task : ℕ) (waker : W) (ws : List (Waiter W)) → task_ids (renew task waker ws) ≡ task_ids ws
  unfolding renew
  renew-task_ids task waker [] = refl
  renew-task_ids task waker (w ∷ ws) =
      let rest = renew-task_ids task waker ws in
      if_ind (λ (r : List (Waiter W)). task_ids r ≡ task_ids (w ∷ ws)) (w.task_id == task)
        (λ _. refl) (λ _. ap (λ r. w.task_id ∷ r) rest)

  -- A waiter that is there is found and taken out.
  Removes : ℕ → List (Waiter W) → Bool × List (Waiter W) → Type 0
  Removes task ws r =
      (r.0 ≡ contains task (task_ids ws)) × (r.0 ≡ true → Perm (task_ids ws) (task ∷ task_ids r.1))

  remove_waiter-Removes :
      (task : ℕ) (ws : List (Waiter W)) → Removes task ws (remove_waiter task ws)
  unfolding remove_waiter Removes
  remove_waiter-Removes task [] = (refl, λ e. absurd (cc))
  remove_waiter-Removes task (w ∷ ws) =
      let rest = remove_waiter-Removes task ws in
      if_ind (Removes task (w ∷ ws)) (w.task_id == task)
        (λ e.
          let same = (==_iff w.task_id task).0 e in
          (
            rw e refl,
            λ _. subst (λ t. Perm (w.task_id ∷ task_ids ws) (t ∷ task_ids ws)) same Perm.rfl,
          ))
        (λ n. (rw n rest.0, λ e. Perm.trans (Perm.cons w.task_id (rest.1 e)) (Perm.swap _ _ _)))

  pub new-IsSound : (parties : ℕ) (b : Barrier W) → new parties ≡ some b → IsSound b [] 0
  unfolding new
  new-IsSound parties b =
      let P : Option (Barrier W) → Type ℓ = λ o. o ≡ some b → IsSound b [] 0 in
      if_ind P (parties == 0) (λ _ e. cc)
        (λ n e.
          let made : record { parties = parties; arrived = 0; generation = 0; waiters = [] } ≡ b =
            cc in
          subst (λ c. IsSound c [] 0) made
            (record {
              counted = refl;
              some_missing = grind (arith, n);
              releases = refl;
              past = tt;
              proper = tt;
              waiting = Perm.rfl;
            }))

  pub IsSound-focus :
      (b : Barrier W) (before : List Wait) (f : Wait) (after : List Wait) (n : ℕ)
      → IsSound b (before ++ f ∷ after) n
      → IsSound b (f ∷ (before ++ after)) n
  IsSound-focus b before f after n v = record {
    counted = v.counted;
    some_missing = v.some_missing;
    releases = v.releases;
    past = All-focus (λ f. f.generation ≤ b.generation) before f after v.past;
    proper = All-focus Proper before f after v.proper;
    waiting = Perm.trans v.waiting (present-focus b.generation before f after);
  }

  pub IsSound-unfocus :
      (b : Barrier W) (before : List Wait) (f : Wait) (after : List Wait) (n : ℕ)
      → IsSound b (f ∷ (before ++ after)) n
      → IsSound b (before ++ f ∷ after) n
  IsSound-unfocus b before f after n v = record {
    counted = v.counted;
    some_missing = v.some_missing;
    releases = v.releases;
    past = All-unfocus (λ f. f.generation ≤ b.generation) before f after v.past;
    proper = All-unfocus Proper before f after v.proper;
    waiting = Perm.trans v.waiting (Perm.symm (present-focus b.generation before f after));
  }

  -- Another future in the place of the first, which waits for the same.
  IsSound-replace :
      (b : Barrier W) (f f' : Wait) (fs : List Wait) (n : ℕ)
      → IsSound b (f ∷ fs) n
      → f'.generation ≡ f.generation
      → Proper f'
      → waits_for b.generation f' ≡ waits_for b.generation f
      → IsSound b (f' ∷ fs) n
  IsSound-replace b f f' fs n v same p w = record {
    counted = v.counted;
    some_missing = v.some_missing;
    releases = v.releases;
    past = (omega (arith, same, v.past.0), v.past.1);
    proper = (p, v.proper.1);
    waiting =
        subst (λ x. Perm (task_ids b.waiters) (x ++ present b.generation fs)) (sym w) v.waiting;
  }

  -- Without a future that does not wait in this generation.
  pub IsSound-forget :
      (b : Barrier W) (f : Wait) (fs : List Wait) (n : ℕ)
      → IsSound b (f ∷ fs) n
      → waits_for b.generation f ≡ []
      → IsSound b fs n
  IsSound-forget b f fs n v w = record {
    counted = v.counted;
    some_missing = v.some_missing;
    releases = v.releases;
    past = v.past.1;
    proper = v.proper.1;
    waiting = subst (λ x. Perm (task_ids b.waiters) (x ++ present b.generation fs)) w v.waiting;
  }

  arrive-IsSound :
      (task : ℕ) (waker : W) (f : Wait) (b : Barrier W) (fs : List Wait) (n : ℕ)
      → IsSound b (f ∷ fs) n
      → b.generation < u64_max
      → f.registered ≡ false
      → f.generation ≡ b.generation
      → f.task_id ≡ some task
      → let r = arrive task waker f b in IsSound r.2 (r.1 ∷ fs) (n + leads r.0)
  unfolding arrive
  arrive-IsSound task waker f b fs n v room fresh same mine =
      let Sound : WaitPoll × Wait × Barrier W × List W → Type 0 =
        λ r. IsSound r.2 (r.1 ∷ fs) (n + leads r.0) in
      let next : add_u64 b.generation 1 ≡ b.generation + 1 = omega (arith, room) in
      let none_waits = present-none (add_u64 b.generation 1) (f ∷ fs) (
        All-mono {Q = λ (x : Wait). x.generation < add_u64 b.generation 1} (f ∷ fs)
          (λ x h. omega (arith, next, h)) v.past) in
      let empty = waits_for-unregistered b.generation f fresh in
      if_ind Sound (b.arrived + 1 == b.parties)
        (λ e. record {
          counted = refl;
          some_missing = omega (arith, v.some_missing);
          releases = omega (arith, next, v.releases);
          past = All-mono (f ∷ fs) (λ x h. omega (arith, next, h)) v.past;
          proper = v.proper;
          waiting = subst (λ x. Perm [] x) (sym none_waits) Perm.rfl;
        })
        (λ e. record {
          counted = omega (
            arith,
            length-append b.waiters (record { task_id = task; waker = waker } ∷ []),
            v.counted,
          );
          some_missing = grind (arith, e, v.some_missing);
          releases = omega (arith, v.releases);
          past = v.past;
          proper = (inr (task, mine), v.proper.1);
          waiting =
              subst
                (λ x. Perm x (
                  waits_for b.generation (record f { registered = true })
                  ++ present b.generation fs))
                (sym (map-snoc b.waiters task waker))
                (subst (λ x. Perm (task_ids b.waiters ++ task ∷ []) (x ++ present b.generation fs))
                  (sym (
                    waits_for-registered b.generation (record f { registered = true }) task refl
                      same mine))
                  (Perm.trans (perm_append_singleton task (task_ids b.waiters))
                    (Perm.cons task (IsSound-forget b f fs n v empty).waiting)));
        })

  pub poll-IsSound :
      (task : ℕ) (waker : W) (f : Wait) (b : Barrier W) (fs : List Wait) (n : ℕ)
      → IsSound b (f ∷ fs) n
      → b.generation < u64_max
      → let r = poll task waker f b in IsSound r.2 (r.1 ∷ fs) (n + leads r.0)
  unfolding poll
  poll-IsSound task waker f b fs n v room =
      let Sound : WaitPoll × Wait × Barrier W × List W → Type 0 =
        λ r. IsSound r.2 (r.1 ∷ fs) (n + leads r.0) in
      let task_id = task_of f.task_id task in
      let started : Wait = record f { task_id = some task_id } in
      let more : (c : Barrier W) → IsSound c (started ∷ fs) n → IsSound c (started ∷ fs) (n + 0) =
        λ c h. subst (IsSound c (started ∷ fs)) (omega arith) h in
      if_ind Sound (not (b.generation == f.generation))
        (λ e.
          let other : (f.generation == b.generation) ≡ false = grind (arith, e) in
          more b (
            IsSound-replace b f started fs n v refl (inr (task_id, refl)) (
              waits_for-other b.generation started other
              ∙ sym (waits_for-other b.generation f other))))
        (λ e.
          let same : f.generation ≡ b.generation = grind (arith, e) in
          if_ind Sound f.registered
            (λ r.
              let kept =
                IsSound-replace b f started fs n v refl (inr (task_id, refl))
                  (waits_for-started b.generation f task r v.proper.0) in
              let ids = renew-task_ids task_id waker b.waiters in
              more (record b { waiters = renew task_id waker b.waiters })
                (record {
                  counted =
                      v.counted
                      ∙ sym (length-map (λ (w : Waiter W). w.task_id) b.waiters)
                      ∙ ap length (sym ids)
                      ∙ length-map (λ (w : Waiter W). w.task_id) (renew task_id waker b.waiters);
                  some_missing = v.some_missing;
                  releases = v.releases;
                  past = kept.past;
                  proper = kept.proper;
                  waiting =
                      subst (λ x. Perm x (present b.generation (started ∷ fs))) (sym ids)
                        kept.waiting;
                }))
            (λ r.
              arrive-IsSound task_id waker started b fs n
                (IsSound-replace b f started fs n v refl (inr (task_id, refl)) (
                  waits_for-unregistered b.generation started r
                  ∙ sym (waits_for-unregistered b.generation f r)))
                room r same refl))

  pub drop_wait-IsSound :
      (f : Wait) (b : Barrier W) (fs : List Wait) (n : ℕ)
      → IsSound b (f ∷ fs) n
      → IsSound (drop_wait f b) fs n
  unfolding drop_wait Removes
  drop_wait-IsSound f b fs m v =
      let Sound : Barrier W → Type 0 = λ c. IsSound c fs m in
      if_ind Sound (not f.registered)
        (λ e. IsSound-forget b f fs m v (waits_for-unregistered b.generation f (grind (arith, e))))
        (λ e.
          if_ind Sound (not (b.generation == f.generation))
            (λ g. IsSound-forget b f fs m v (waits_for-other b.generation f (grind (arith, g))))
            (λ g. left (grind (arith, e)) (grind (arith, g)) v.proper.0))
    where
      left :
          f.registered ≡ true
          → f.generation ≡ b.generation
          → Proper f
          → IsSound (leave f.task_id b) fs m
      left r g (inl n) = absurd (cc)
      left r g (inr (id, e)) =
          let w = waits_for-registered b.generation f id r g e in
          let stays : Perm (task_ids b.waiters) (id ∷ present b.generation fs) =
            subst (λ x. Perm (task_ids b.waiters) (x ++ present b.generation fs)) w v.waiting in
          let here : contains id (id ∷ present b.generation fs) ≡ true = grind arith in
          let (found, left_over) = remove_waiter-Removes id b.waiters in
          let is_found = found ∙ contains-Perm id stays ∙ here in
          let taken = left_over is_found in
          let counts = length-map (λ (w : Waiter W). w.task_id) in
          subst (λ t. IsSound (leave t b) fs m) (sym e)
            (if_ind (λ (c : Barrier W). IsSound c fs m) (remove_waiter id b.waiters).0
              (λ _. record {
                counted = omega (
                  arith,
                  v.counted,
                  length-Perm taken,
                  counts b.waiters,
                  counts (remove_waiter id b.waiters).1,
                );
                some_missing = omega (arith, v.some_missing);
                releases = v.releases;
                past = v.past.1;
                proper = v.proper.1;
                waiting = Perm.cons_inv (Perm.trans (Perm.symm taken) stays);
              })
              (λ q. absurd (cc)))
