-- ===== src/Tower/Breaker/Guarded.antt =====
-- The histories of the circuit breaker of des-tower/src/tower/circuit_breaker/mod.rs.
use des_cartes.Prelude.{
  ℕ, zero, suc, ◌-◌, ◌^◌, ◌≤◌, ◌<◌, ◌≡◌, refl, true, false, Option, none, some, List, [], ◌∷◌, leb,
  ltb, if◌then◌else◌, if_ind, Bool-cases, All-mono, get_elem?, erase_idx, All, add_u64, arith,
  OnSome, inl, inr, is_empty,
}
use des_cartes.Tower.{Polled, pending, done, failed, Service, ServiceError}
use des_cartes.Tower.Breaker.{
  BreakerState, closed, opened, half_open, should_allow_request, new, BreakerFuture, on_failure,
  recover, after_inner, poll, Shared, spawn, shared_poll, fire,
}

-- What holds of the state: a closed breaker has counted fewer failures than its threshold, and an
-- open one has a recovery timer asleep.
abbrev pub Guarded : ℕ → BreakerState → List ℕ → Type 0
Guarded threshold (closed failure_count) timers = failure_count ≤ threshold - 1
Guarded threshold (opened generation) timers = (generation ≡ 1) × (is_empty timers ≡ false)
Guarded threshold half_open timers = Unit

-- Every timer carries the generation 1.
pub record IsGuarded (threshold : ℕ) (w : Shared) : Type 0 where
  pub guarded : Guarded threshold w.state w.timers
  pub first : All (λ g. g ≡ 1) w.timers

module _ {S F Req A : Type 0} (service : Service S F Req A) (threshold : ℕ) where
  pub data Step : Shared → Shared → Type 0 where
    polls :
        (future : BreakerFuture F) (w : Shared) → Step w (shared_poll service threshold future w)
    fires : (i : ℕ) (w : Shared) → Step w (fire i w)

  pub data Reach : Shared → Type 0 where
    start : Reach (record { state = new; timers = [] })
    next : {w w' : Shared} → Reach w → Step w w' → Reach w'

get_elem-All {ℓ κ} :
    {B : Type ℓ} (P : B → Type κ) (xs : List B) (i : ℕ) → All P xs → OnSome P (get_elem? xs i)
get_elem-All P [] i h = tt
get_elem-All P (x ∷ xs) zero h = h.0
get_elem-All P (x ∷ xs) (suc i) h = get_elem-All P xs i h.1

erase_idx-All {ℓ κ} :
    {B : Type ℓ} (P : B → Type κ) (xs : List B) (i : ℕ) → All P xs → All P (erase_idx xs i)
erase_idx-All P [] i h = tt
erase_idx-All P (x ∷ xs) zero h = h.1
erase_idx-All P (x ∷ xs) (suc i) h = (h.0, erase_idx-All P xs i h.1)

on_failure-IsGuarded :
    (threshold : ℕ) (state : BreakerState) (timers : List ℕ)
    → threshold < 2 ^ 64
    → IsGuarded threshold (record { state = state; timers = timers })
    → let r = on_failure threshold state in
      IsGuarded threshold (record { state = r.0; timers = spawn r.1 timers })
on_failure-IsGuarded threshold (closed n) timers room h =
    if_ind
      (λ (r : BreakerState × Option ℕ).
        IsGuarded threshold (record { state = r.0; timers = spawn r.1 timers }))
      (leb threshold (add_u64 n 1))
      (λ e. record { guarded = (refl, refl); first = (refl, h.first) })
      (λ e. record { guarded = ground (arith, e, h.guarded, room); first = h.first })
on_failure-IsGuarded threshold half_open timers room h = record {
  guarded = (refl, refl);
  first = (refl, h.first);
}
on_failure-IsGuarded threshold (opened g) timers room h = h

poll-IsGuarded :
    {S F Req A : Type 0} (service : Service S F Req A) (threshold : ℕ) (future : BreakerFuture F)
    (w : Shared)
    → threshold < 2 ^ 64
    → IsGuarded threshold w
    → IsGuarded threshold (shared_poll service threshold future w)
poll-IsGuarded {F} {A} service threshold future w room h = go future.immediate_error future.inner
  where
    ended :
        (result : Polled A)
        → let r = after_inner service threshold w.state result in
          IsGuarded threshold (record { state = r.1; timers = spawn r.2 w.timers })
    ended pending = h
    ended (done response) = record { guarded = omega arith; first = h.first }
    ended (failed error) = on_failure-IsGuarded threshold w.state w.timers room h

    go :
        (e : Option ServiceError) (inner : Option F)
        → let r = poll service threshold w.state (record { inner = inner; immediate_error = e }) in
          IsGuarded threshold (record { state = r.1; timers = spawn r.2 w.timers })
    go (some error) inner = h
    go none none = h
    go none (some f) = ended (service.poll f).0

recover-Guarded :
    (threshold : ℕ) (state : BreakerState) (timers rest : List ℕ)
    → Guarded threshold state timers
    → Guarded threshold (recover 1 state) rest
recover-Guarded threshold (closed n) timers rest h = h
recover-Guarded threshold half_open timers rest h = tt
recover-Guarded threshold (opened g) timers rest h = rw (h.0) tt

fire-IsGuarded :
    (threshold i : ℕ) (w : Shared) → IsGuarded threshold w → IsGuarded threshold (fire i w)
fire-IsGuarded threshold i w h =
    go (get_elem? w.timers i) (get_elem-All (λ g. g ≡ 1) w.timers i h.first)
  where
    go :
        (o : Option ℕ)
        → OnSome (λ g. g ≡ 1) o
        → IsGuarded threshold (elim o as (λ _. Shared) [
          | none ↦ w
          | some generation ↦ record {
            state = recover generation w.state;
            timers = erase_idx w.timers i;
          }
        ])
    go none e = h
    go (some g) e = rw e (record {
      guarded = recover-Guarded threshold w.state w.timers (erase_idx w.timers i) h.guarded;
      first = erase_idx-All (λ g. g ≡ 1) w.timers i h.first;
    })

pub Reach-IsGuarded :
    {S F Req A : Type 0} (service : Service S F Req A) (threshold : ℕ) (w : Shared)
    → threshold < 2 ^ 64
    → Reach service threshold w
    → IsGuarded threshold w
Reach-IsGuarded service threshold w room Reach.start = record { guarded = omega arith; first = tt }
Reach-IsGuarded service threshold _ room (Reach.next {w} r (Step.polls future _)) =
    poll-IsGuarded service threshold future w room (Reach-IsGuarded service threshold w room r)
Reach-IsGuarded service threshold _ room (Reach.next {w} r (Step.fires i _)) =
    fire-IsGuarded threshold i w (Reach-IsGuarded service threshold w room r)

-- The state after a timer, where the breaker was open.
opened-half_open :
    (threshold g : ℕ) (state : BreakerState) (timers : List ℕ)
    → Guarded threshold state timers
    → should_allow_request state ≡ false
    → g ≡ 1
    → recover g state ≡ half_open
opened-half_open threshold g (opened g') timers h e one = rw (h.0, one) refl
opened-half_open threshold g (closed n) timers h e one = absurd (grind (arith, e))
opened-half_open threshold g half_open timers h e one = absurd (grind (arith, e))

-- What a row of failures makes of a closed breaker that has counted none.
abbrev pub after_failures : ℕ → ℕ → Shared
after_failures threshold n =
    if ltb n threshold
    then record { state = closed n; timers = [] }
    else record { state = opened 1; timers = 1 ∷ [] }

asleep :
    (threshold : ℕ) (state : BreakerState) (timers : List ℕ)
    → Guarded threshold state timers
    → should_allow_request state ≡ false
    → is_empty timers ≡ false
asleep threshold (opened g) timers h e = h.1
asleep threshold (closed n) timers h e = absurd (grind (arith, e))
asleep threshold half_open timers h e = absurd (grind (arith, e))

-- For a threshold in a usize: in every state that polls of futures and recovery timers, in any
-- order, reach from a new breaker, if the breaker lets no request through, then a recovery timer is
-- asleep, and each timer that is asleep, also one of an earlier opening, half-opens the breaker.
pub Reach-recovers :
    {S F Req A : Type 0} (service : Service S F Req A) (threshold : ℕ) (w : Shared)
    → threshold < 2 ^ 64
    → Reach service threshold w
    → should_allow_request w.state ≡ false
    → (is_empty w.timers ≡ false) × All (λ g. recover g w.state ≡ half_open) w.timers
Reach-recovers service threshold w room r e =
    let h = Reach-IsGuarded service threshold w room r in
    (
      asleep threshold w.state w.timers h.guarded e,
      All-mono w.timers (λ g one. opened-half_open threshold g w.state w.timers h.guarded e one)
          h.first,
    )

-- One more failure after a row of them.
one_more :
    (threshold n : ℕ)
    → 1 ≤ threshold
    → threshold < 2 ^ 64
    → let w = after_failures threshold n in
      let r = on_failure threshold w.state in
      record { state = r.0; timers = spawn r.1 w.timers } ≡ after_failures threshold (suc n)
one_more threshold n some_needed room = elim (Bool-cases (ltb n threshold)) [
  | inl e ↦
      let step : add_u64 n 1 ≡ suc n = ground (arith, e) in
      rw (e, step)
        (elim (Bool-cases (ltb (suc n) threshold)) [
          | inl l ↦ let g : leb threshold (suc n) ≡ false = ground (arith, l) in rw (l, g) refl
          | inr l ↦ let g : leb threshold (suc n) ≡ true = ground (arith, l) in rw (l, g) refl
        ])
  | inr e ↦ let l : ltb (suc n) threshold ≡ false = ground (arith, e) in rw (e, l) refl
]

module _ {S F Req A : Type 0} (service : Service S F Req A) (threshold : ℕ) (f : F) where
  -- Polls of calls whose service fails, one after the other.
  abbrev pub failures : ℕ → Shared
  failures zero = record { state = new; timers = [] }
  failures (suc n) =
      shared_poll service threshold (record { inner = some f; immediate_error = none }) (failures n)

  -- For a threshold that is at least one and fits in a usize: a new breaker whose calls fail one
  -- after the other stays closed, with their number and no timer, as long as they are fewer than
  -- the threshold, and from then on is open with exactly one recovery timer.
  pub failures-lem :
      (error : ServiceError) (n : ℕ)
      → (service.poll f).0 ≡ failed error
      → 1 ≤ threshold
      → threshold < 2 ^ 64
      → failures n ≡ after_failures threshold n
  failures-lem error zero e some_needed room = ground arith
  failures-lem error (suc n) e some_needed room =
      rw (failures-lem error n e some_needed room, e) (one_more threshold n some_needed room)
