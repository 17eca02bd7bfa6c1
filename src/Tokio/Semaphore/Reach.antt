-- ===== src/Tokio/Semaphore/Reach.antt =====
-- Every history of a semaphore: des-tokio/src/sync/batch_semaphore.rs.
use des_cartes.Prelude.{ℕ, OnSome-eq_some, ◌<◌, ◌≡◌, refl, inl, Option, some, List, u64_max}
use des_cartes.Tokio.Semaphore.{
  State, Acquire, new, add_permits, try_acquire, close, poll, drop_acquire,
}
use des_cartes.Tokio.Semaphore.Invariant.{
  IsValid, add_permits-IsValid, try_acquire-IsValid, close-IsValid,
}
use des_cartes.Tokio.Semaphore.Polling.{poll-IsValid, drop_acquire-IsValid}

module _ {ℓ} {W : Type ℓ} where
  -- One call on the semaphore, by anybody, in any order.
  pub data Step (s : State W) : State W → Type ℓ where
    polls :
        (task : Option ℕ) (k : W) (f : Acquire)
        → s.next_waiter_id < u64_max
        → Step s (poll task k f s).2
    drops :
        (f : Acquire) {t : State W} {wakes : List W} → drop_acquire f s ≡ some (t, wakes) → Step s t
    adds : (n : ℕ) {t : State W} {wakes : List W} → add_permits n s ≡ some (t, wakes) → Step s t
    tries : (n : ℕ) → Step s (try_acquire n s).1
    closes : Step s (close s).0

  pub data Reach (n : ℕ) : State W → Type ℓ where
    start : Reach n (new n)
    next : {s t : State W} → Reach n s → Step s t → Reach n t

  Step-IsValid : {s t : State W} → Step s t → IsValid s → IsValid t
  Step-IsValid {s} (polls task k f room) v = poll-IsValid task k f s room v
  Step-IsValid {s} (drops f e) v =
      OnSome-eq_some (λ (r : State W × List W). IsValid r.0) (drop_acquire-IsValid f s v) e
  Step-IsValid {s} (adds n e) v =
      OnSome-eq_some (λ (r : State W × List W). IsValid r.0) (add_permits-IsValid n s v) e
  Step-IsValid {s} (tries n) v = try_acquire-IsValid n s v
  Step-IsValid {s} closes v = close-IsValid s v

  -- In every state that polls (while waiter ids are left), drops, acquisitions, releases that do
  -- not overflow and closing reach from a new semaphore, nobody waits while a permit is free, the
  -- queue is in the order of the ids, all handed out, and no waiter is both queued and satisfied.
  pub Reach-IsValid : (n : ℕ) {s : State W} → Reach n s → IsValid s
  unfolding new
  Reach-IsValid n start = record { head_of_line = inl refl; ordered = tt; apart = tt; issued = tt }
  Reach-IsValid n (next r st) = Step-IsValid st (Reach-IsValid n r)
