-- ===== src/Tokio/Notify/Sleepers.antt =====
-- Who sleeps in `Notify` (des-tokio/src/sync/notify.rs).
use des_cartes.Prelude.{
  ℕ, ◌+◌, ◌-◌, ◌<◌, ◌≤◌, ◌≡◌, refl, sym, ap, subst, ◌∙◌, ◌⊎◌, inl, inr, Bool, Option, none, some,
  List, [], ◌∷◌, ◌++◌, ltb, if◌then◌else◌, if_ind, length, length-append, append-nil, append_assoc,
  arith, saturating_add,
}
use des_cartes.Tokio.Notify.{State, new, pop_front, notify_one, notify_waiters, poll}

abbrev pub to_list {ℓ} : {W : Type ℓ} → Option W → List W
to_list none = []
to_list (some w) = w ∷ []

-- The wakers of the tasks that go to sleep in a poll.
abbrev pub slept_in {ℓ} : {W : Type ℓ} → W → Bool → List W
slept_in waker ready = if ready then [] else waker ∷ []

module _ {W : Type 0} where
  -- The histories of `Notify` in which a future that waits is polled again only for a wake-up, and not
  -- dropped before. `slept` are the wakers of the polls that were pending, `woken` those that were
  -- woken, and `ran` is how many of the woken tasks have run since.
  pub data Step : State W → List W → List W → ℕ → State W → List W → List W → ℕ → Type 0 where
    notifies_one :
        (s : State W) (slept woken : List W) (ran : ℕ)
        → Step s slept woken ran (notify_one s).1 slept (woken ++ to_list (notify_one s).0) ran
    notifies_waiters :
        (s : State W) (slept woken : List W) (ran : ℕ)
        → Step s slept woken ran (notify_waiters s).1 slept (woken ++ (notify_waiters s).0) ran
    polls_first :
        (waker : W) (s : State W) (slept woken : List W) (ran : ℕ)
        → Step s slept woken ran
            (poll waker s).1
            (slept ++ slept_in waker (poll waker s).0)
            woken
            ran
    polls_again :
        (waker : W) (s : State W) (slept woken : List W) (ran : ℕ)
        → ran < length woken
        → Step s slept woken ran
            (poll waker s).1
            (slept ++ slept_in waker (poll waker s).0)
            woken
            (ran + 1)

  pub data Reach : State W → List W → List W → ℕ → Type 0 where
    start : Reach new [] [] 0
    next :
        {s s' : State W} {l l' w w' : List W} {n n' : ℕ}
        → Reach s l w n
        → Step s l w n s' l' w' n'
        → Reach s' l' w' n'

  -- Nobody sleeps, or the permits are spoken for by the tasks that were woken and have not run.
  abbrev pub Spoken : ℕ → List W → List W → ℕ → Type 0
  Spoken permits slept woken ran = (slept ≡ woken) ⊎ (permits + ran ≤ length woken)

  record Accounts (s : State W) (slept woken : List W) (ran : ℕ) : Type 0 where
    in_order : slept ≡ woken ++ s.waiters
    ran_le : ran ≤ length woken
    spoken : Spoken s.permits slept woken ran

  longer : (xs ys : List W) → length xs ≤ length (xs ++ ys)
  longer xs ys = omega (arith, length-append xs ys)

  more_woken :
      (permits ran : ℕ) (slept woken : List W) (x : W) (ws : List W)
      → slept ≡ woken ++ x ∷ ws
      → Spoken permits slept woken ran
      → saturating_add permits 1 + ran ≤ length (woken ++ x ∷ [])
  more_woken permits ran slept woken x ws e (inl h) =
      absurd (omega (arith, ap length (sym h ∙ e), length-append woken (x ∷ ws)))
  more_woken permits ran slept woken x ws e (inr h) = omega (arith, h, length-append woken (x ∷ []))

  notify_one-Accounts :
      (s : State W) (slept woken : List W) (ran : ℕ)
      → Accounts s slept woken ran
      → Accounts (notify_one s).1 slept (woken ++ to_list (notify_one s).0) ran
  notify_one-Accounts s slept woken ran h = go s.waiters h.in_order
    where
      go :
          (ws : List W)
          → slept ≡ woken ++ ws
          → Accounts
              (record { permits = saturating_add s.permits 1; waiters = (pop_front ws).1 })
              slept
              (woken ++ to_list (pop_front ws).0)
              ran
      go [] e = record {
        in_order = e ∙ sym (append-nil (woken ++ []));
        ran_le = omega (arith, h.ran_le, longer woken []);
        spoken = inl e;
      }
      go (x ∷ ws) e = record {
        in_order = e ∙ sym (append_assoc woken (x ∷ []) ws);
        ran_le = omega (arith, h.ran_le, longer woken (x ∷ []));
        spoken = inr (more_woken s.permits ran slept woken x ws e h.spoken);
      }

  notify_waiters-Accounts :
      (s : State W) (slept woken : List W) (ran : ℕ)
      → Accounts s slept woken ran
      → Accounts (notify_waiters s).1 slept (woken ++ (notify_waiters s).0) ran
  notify_waiters-Accounts s slept woken ran h = record {
    in_order = h.in_order ∙ sym (append-nil (woken ++ s.waiters));
    ran_le = omega (arith, h.ran_le, longer woken s.waiters);
    spoken = inl h.in_order;
  }

  -- A poll takes a permit, or the task goes to sleep. It runs for a wake-up where `runs` is 1.
  poll-Accounts :
      (waker : W) (s : State W) (slept woken : List W) (ran runs : ℕ)
      → runs ≤ 1
      → ran + runs ≤ length woken
      → Accounts s slept woken ran
      → Accounts (poll waker s).1 (slept ++ slept_in waker (poll waker s).0) woken (ran + runs)
  poll-Accounts waker s slept woken ran runs one l h =
      if_ind (λ (r : Bool × State W). Accounts r.1 (slept ++ slept_in waker r.0) woken (ran + runs))
        (ltb 0 s.permits)
        (λ e. record {
          in_order = append-nil slept ∙ h.in_order;
          ran_le = l;
          spoken = taken (grind (arith, e)) h.spoken;
        })
        (λ e. record {
          in_order =
              ap (λ xs. xs ++ waker ∷ []) h.in_order ∙ append_assoc woken s.waiters (waker ∷ []);
          ran_le = l;
          spoken = inr (grind (arith, e, l));
        })
    where
      taken :
          0 < s.permits
          → Spoken s.permits slept woken ran
          → Spoken (s.permits - 1) (slept ++ []) woken (ran + runs)
      taken p (inl k) = inl (append-nil slept ∙ k)
      taken p (inr k) = inr (omega (arith, k, p, one))

  Reach-Accounts :
      (s : State W) (slept woken : List W) (ran : ℕ)
      → Reach s slept woken ran
      → Accounts s slept woken ran
  Reach-Accounts s slept woken ran Reach.start = record {
    in_order = refl;
    ran_le = omega arith;
    spoken = inl refl;
  }
  Reach-Accounts _ _ _ _ (Reach.next r (Step.notifies_one s slept woken ran)) =
      notify_one-Accounts s slept woken ran (Reach-Accounts s slept woken ran r)
  Reach-Accounts _ _ _ _ (Reach.next r (Step.notifies_waiters s slept woken ran)) =
      notify_waiters-Accounts s slept woken ran (Reach-Accounts s slept woken ran r)
  Reach-Accounts _ _ _ _ (Reach.next r (Step.polls_first waker s slept woken ran)) =
      let h = Reach-Accounts s slept woken ran r in
      subst (Accounts _ _ _) (omega arith)
        (poll-Accounts waker s slept woken ran 0 (omega arith) (omega (arith, h.ran_le)) h)
  Reach-Accounts _ _ _ _ (Reach.next r (Step.polls_again waker s slept woken ran p)) =
      poll-Accounts waker s slept woken ran 1 (omega arith) (omega (arith, p))
        (Reach-Accounts s slept woken ran r)

  -- In every state of a Notify that notifying one or all waiters and polling, in any order, reach
  -- from a new one, where a future that waits is polled again only for a wake-up and is not dropped
  -- before: the wakers of the polls that were pending are, in their order, those that were woken
  -- and then those that still wait; and either all of them were woken, or the permits are at most
  -- the tasks that were woken and have not run since.
  pub Reach-NoneMissed :
      (s : State W) (slept woken : List W) (ran : ℕ)
      → Reach s slept woken ran
      → (slept ≡ woken ++ s.waiters) × Spoken s.permits slept woken ran
  Reach-NoneMissed s slept woken ran r =
      let h = Reach-Accounts s slept woken ran r in (h.in_order, h.spoken)
