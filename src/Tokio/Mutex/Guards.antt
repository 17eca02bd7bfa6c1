-- ===== src/Tokio/Mutex/Guards.antt =====
-- Every history of a mutex: des-tokio/src/sync/mutex.rs.
use mathlib.Core.List.{Perm, foldr, perm_append_singleton}
use native.Mathlib.Nat.{ℕ_set}
use mathlib.Core.List.Perm
use des_cartes.Prelude.{
  ℕ, zero, suc, ◌+◌, ◌-◌, ◌<◌, ◌≤◌, min, ◌≡◌, refl, sym, ap, ◌∙◌, subst, Bool, true, false, Option,
  none, some, List, [], ◌∷◌, ◌++◌, ◌==◌, ==_iff, if◌then◌else◌, if_ind, map, length, contains,
  count, count-Perm, OnSome, OnSome-eq_some, arith,
}
use des_cartes.Core.Time.{SimTime}
use des_cartes.Tokio.Mutex.{
  WaiterPolicy, Waiter, State, MutexEvent, remove_at, new, try_lock, task_ids, renew, enqueue, poll,
  unlocked, to_info, wake_chosen, drop_guard,
}

abbrev pub holder : Bool → ℕ
holder true = 1
holder false = 0

holder_le : (b : Bool) → holder b ≤ 1
holder_le true = omega arith
holder_le false = omega arith

module _ {ℓ} {W P : Type ℓ} (policy : WaiterPolicy P) where
  -- A call on the mutex, with the number of guards before and after it.
  pub data Step (s : State W) : ℕ → State W → ℕ → Type ℓ where
    tries :
        (task : ℕ) (now : Option ℕ) (g : ℕ)
        → Step s g (try_lock task now s).1 (g + holder (try_lock task now s).0)
    polls :
        (task : ℕ) (now : Option ℕ) (waker : W) (g : ℕ)
        → Step s g (poll task now waker s).1 (g + holder (poll task now waker s).0)
    drops :
        (task : ℕ) (now : Option ℕ) (p : P) (time : SimTime) (g : ℕ) {t : State W} {p' : P}
        {woken : List W}
        → (drop_guard policy (some task) now p time s).0 ≡ some (t, p', woken)
        → Step s (suc g) t g

  pub data Reach : State W → ℕ → Type ℓ where
    start : Reach new 0
    next : {s t : State W} {g h : ℕ} → Reach s g → Step s g t h → Reach t h

  -- There is a guard exactly while the mutex is locked, and no task waits twice.
  pub record IsSound (s : State W) (g : ℕ) : Type 0 where
    pub guards : g ≡ holder s.locked
    pub apart : (k : ℕ) → count k (task_ids s.waiters) ≤ 1

count-missing : (k : ℕ) (xs : List ℕ) → contains k xs ≡ false → count k xs ≡ 0
count-missing k [] e = refl
count-missing k (x ∷ xs) e = grind (arith, e, count-missing k xs)

module _ {ℓ} {W : Type ℓ} where
  task_ids-snoc :
      (ws : List (Waiter W)) (w : Waiter W)
      → task_ids (ws ++ w ∷ []) ≡ task_ids ws ++ w.task_id ∷ []
  task_ids-snoc [] w = refl
  task_ids-snoc (v ∷ ws) w = ap (λ r. v.task_id ∷ r) (task_ids-snoc ws w)

  renew-task_ids :
      (task : ℕ) (waker : W) (ws : List (Waiter W)) → task_ids (renew task waker ws) ≡ task_ids ws
  unfolding renew
  renew-task_ids task waker [] = refl
  renew-task_ids task waker (w ∷ ws) =
      let rest = renew-task_ids task waker ws in
      if_ind (λ (r : List (Waiter W)). task_ids r ≡ task_ids (w ∷ ws)) (w.task_id == task)
        (λ _. refl) (λ _. ap (λ r. w.task_id ∷ r) rest)

  enqueue-apart :
      (id task : ℕ) (waker : W) (ws : List (Waiter W))
      → ((k : ℕ) → count k (task_ids ws) ≤ 1)
      → (k : ℕ) → count k (task_ids (enqueue id task waker ws)) ≤ 1
  unfolding enqueue
  enqueue-apart id task waker ws h k =
      if_ind (λ (r : List (Waiter W)). count k (task_ids r) ≤ 1) (contains task (task_ids ws))
        (λ _. subst (λ ids. count k ids ≤ 1) (sym (renew-task_ids task waker ws)) (h k))
        (λ n.
          let new : Waiter W = record { waiter_id = id; task_id = task; waker = waker } in
          let none_yet = count-missing task (task_ids ws) n in
          let one : count k (task ∷ task_ids ws) ≤ 1 =
            if_ind (λ (c : ℕ). c ≤ 1) (task == k)
              (λ e.
                let same = (==_iff task k).0 e in
                omega (arith, ap (λ t. count t (task_ids ws)) (sym same) ∙ none_yet))
              (λ _. h k) in
          subst (λ c. c ≤ 1)
            (sym (
              ap (count k) (task_ids-snoc ws new)
              ∙ count-Perm k (perm_append_singleton task (task_ids ws))))
            one)

  -- One waiter is taken out.
  remove_at-Perm :
      (ws : List (Waiter W)) (i : ℕ)
      → i < length ws
      → (w : Waiter W) × (rest : List (Waiter W)) × (remove_at ws i ≡ some (w, rest))
        × Perm ws (w ∷ rest)
  unfolding remove_at
  remove_at-Perm [] i l = absurd (omega (arith, l))
  remove_at-Perm (x ∷ xs) zero l = (x, xs, refl, Perm.rfl)
  remove_at-Perm (x ∷ xs) (suc i) l =
      let (w, rest, e, p) = remove_at-Perm xs i (omega (arith, l)) in
      (w, x ∷ rest, rw e refl, Perm.trans (Perm.cons x p) (Perm.swap w x rest))

  task_ids-count :
      (k : ℕ) (ws : List (Waiter W))
      → count k (task_ids ws) ≡ foldr (λ w n. if w.task_id == k then suc n else n) 0 ws
  task_ids-count k [] = refl
  task_ids-count k (w ∷ ws) = rw (task_ids-count k ws) refl

  -- The waiters that are left wait once, too.
  task_ids-left :
      (k : ℕ) (ws gone left : List (Waiter W))
      → Perm ws (gone ++ left)
      → count k (task_ids left) ≤ count k (task_ids ws)
  task_ids-left k ws gone left p =
      let whole =
        task_ids-count k ws
        ∙ Perm.foldr-eq ℕ_set (λ (w : Waiter W) n. if w.task_id == k then suc n else n)
            (λ a b c. ground arith) p 0
        ∙ sym (task_ids-count k (gone ++ left)) in
      omega (arith, whole, more gone)
    where
      more : (gone : List (Waiter W)) → count k (task_ids left) ≤ count k (task_ids (gone ++ left))
      more [] = omega arith
      more (w ∷ gone) = ground (arith, more gone)

  -- What the drop of a guard did: the mutex is open, and if anybody waits, one waiter is gone and its
  -- waker alone is woken.
  pub record Handed {P : Type ℓ} (s : State W) (r : Option (State W × P × List W)) : Type ℓ where
    pub after : State W
    pub policy_state : P
    pub gone : List (Waiter W)
    pub returned : r ≡ some (after, policy_state, map (λ w. w.waker) gone)
    pub free : after.locked ≡ false
    pub left : Perm s.waiters (gone ++ after.waiters)
    pub one : length gone ≡ min 1 (length s.waiters)

  module _ {P : Type ℓ} (policy : WaiterPolicy P) where
    wake_chosen-Handed :
        (ws : List (Waiter W)) (p : P) (time : SimTime) (s : State W)
        → s.waiters ≡ ws
        → Handed s (wake_chosen policy ws p time s)
    unfolding wake_chosen
    wake_chosen-Handed [] p time s e = record {
      after = unlocked s;
      policy_state = p;
      gone = [];
      returned = refl;
      free = refl;
      left = Perm.rfl;
      one = rw e refl;
    }
    wake_chosen-Handed (w ∷ ws) p time s e =
        let (chosen, p') = policy.choose p time (map to_info (w ∷ ws)) in
        let (v, rest, at, q) =
          remove_at-Perm (w ∷ ws) (min chosen (length (w ∷ ws) - 1)) (omega arith) in
        record {
          after = record (unlocked s) { waiters = rest };
          policy_state = p';
          gone = v ∷ [];
          returned = rw at refl;
          free = refl;
          left = subst (λ x. Perm x (v ∷ rest)) (sym e) q;
          one = rw e (ground arith);
        }

    Step-IsSound :
        {s t : State W} {g h : ℕ} → Step policy s g t h → IsSound policy s g → IsSound policy t h
    unfolding try_lock poll drop_guard
    Step-IsSound {s} (Step.tries task now g) v =
        let Sound : Bool × State W × MutexEvent → Type 0 =
          λ r. IsSound policy r.1 (g + holder r.0) in
        if_ind Sound s.locked (λ _. record { guards = omega (arith, v.guards); apart = v.apart })
          (λ n.
            let before : g ≡ 0 = v.guards ∙ ap holder n in
            record { guards = omega (arith, before); apart = v.apart })
    Step-IsSound {s} (Step.polls task now waker g) v =
        let Sound : Bool × State W × MutexEvent → Type 0 =
          λ r. IsSound policy r.1 (g + holder r.0) in
        if_ind Sound s.locked
          (λ _. record {
            guards = omega (arith, v.guards);
            apart = enqueue-apart s.next_waiter_id task waker s.waiters v.apart;
          })
          (λ n.
            let before : g ≡ 0 = v.guards ∙ ap holder n in
            record { guards = omega (arith, before); apart = v.apart })
    Step-IsSound {s} (Step.drops task now p time g e) v =
        let h = wake_chosen-Handed s.waiters p time s refl in
        let P : State W × P × List W → Type 0 = λ r. IsSound policy r.0 g in
        let last : g ≡ 0 = omega (arith, v.guards, holder_le s.locked) in
        OnSome-eq_some P
          (subst (OnSome P) (sym h.returned) (record {
            guards = last ∙ sym (ap holder h.free);
            apart = λ k.
                omega (arith, v.apart k, task_ids-left k s.waiters h.gone h.after.waiters h.left);
          }))
          e

    Reach-Sound : {s : State W} {g : ℕ} → Reach policy s g → IsSound policy s g
    Reach-Sound Reach.start = record { guards = refl; apart = λ k. omega arith }
    Reach-Sound (Reach.next r st) = Step-IsSound st (Reach-Sound r)

    -- In every state that trying, polling lock futures and dropping guards while a task is polled,
    -- in any order, reaches from a new mutex, there is one guard while the mutex is locked and none
    -- otherwise, and no task waits twice; the drop of a guard while a task is polled then does not
    -- panic and opens the mutex, and if anybody waits, exactly one waiter leaves the queue and its
    -- waker alone is woken, whatever the policy chooses; where no task is polled, the drop panics
    -- before it changes or records anything.
    pub Reach-Handed :
        {s : State W} {g : ℕ} (task : ℕ) (now : Option ℕ) (p : P) (time : SimTime)
        → Reach policy s g
        → IsSound policy s g
          × Handed s (drop_guard policy (some task) now p time s).0
          × (drop_guard policy none now p time s ≡ (none, none))
    unfolding drop_guard
    Reach-Handed {s} task now p time r =
        (Reach-Sound r, wake_chosen-Handed s.waiters p time s refl, refl)
