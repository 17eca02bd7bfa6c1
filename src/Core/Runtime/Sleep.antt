-- ===== src/Core/Runtime/Sleep.antt =====
-- `SimSleep` of des-core/src/async_runtime.rs: the future that is ready at a time.
use des_cartes.Prelude.{
  ◌<◌, ◌≡◌, refl, sym, ap, subst, Bool, true, false, Option, none, some, List, [], ◌∷◌, ◌++◌, leb,
  if◌then◌else◌, All, arith, Bool-cases, inl, inr,
}
use des_cartes.Core.Time.{SimTime, Duration, from_duration, add_time}
use des_cartes.Core.Runtime.{Call, registers, unregisters, Polled}

pub record SimSleep : Type 0 where
  pub target_time : Option SimTime
  pub duration : Duration
  pub timer_scheduled : Bool

unfoldable pub sleep : Duration → SimSleep
sleep duration = record { target_time = none; duration = duration; timer_scheduled = false }

unfoldable pub sleep_until : SimTime → SimSleep
sleep_until target_time = record {
  target_time = some target_time;
  duration = 0;
  timer_scheduled = false;
}

-- The target, which the first poll computes.
abbrev target_of : Option SimTime → SimTime → Duration → SimTime
target_of none now duration = add_time now (from_duration duration)
target_of (some target) now duration = target

-- `poll`. Without a simulation there is no current time.
unfoldable pub poll_sleep : Option SimTime → SimSleep → Polled SimSleep
unfolding add_time from_duration
poll_sleep none s = record { is_ready = false; future = s; calls = [] }
poll_sleep (some now) s =
    let target = target_of s.target_time now s.duration in
    let started : SimSleep = record s { target_time = some target } in
    if leb target now
    then record { is_ready = true; future = record started { timer_scheduled = false }; calls = [] }
    else if s.timer_scheduled
    then record { is_ready = false; future = started; calls = [] }
    else record {
      is_ready = false;
      future = record started { timer_scheduled = true };
      calls = registers target ∷ [];
    }

-- `drop`.
unfoldable pub drop_sleep : SimSleep → List (Call SimSleep)
drop_sleep s = drop_timer_of s.target_time s.timer_scheduled
  where
    drop_timer_of : Option SimTime → Bool → List (Call SimSleep)
    drop_timer_of (some target) true = unregisters target ∷ []
    drop_timer_of _ _ = []

-- The polls at some times, one after the other: whether each was ready, and all calls.
abbrev pub poll_at : List SimTime → SimSleep → SimSleep × List Bool × List (Call SimSleep)
poll_at [] s = (s, [], [])
poll_at (now ∷ times) s =
    let p = poll_sleep (some now) s in
    let (s', ready, calls) = poll_at times p.future in (s', p.is_ready ∷ ready, p.calls ++ calls)

abbrev waiting : SimTime → Duration → SimSleep
waiting target duration = record {
  target_time = some target;
  duration = duration;
  timer_scheduled = true;
}

poll_at-waiting :
    (target : SimTime) (duration : Duration) (times : List SimTime)
    → All (λ t. t < target) times
    → let (s, ready, calls) = poll_at times (waiting target duration) in
      (s ≡ waiting target duration) × All (λ b. b ≡ false) ready × (calls ≡ [])
unfolding poll_sleep
poll_at-waiting target duration [] h = (refl, tt, refl)
poll_at-waiting target duration (t ∷ times) h =
    let early : leb target t ≡ false = ground (arith, h.0) in
    rw early (let (a, b, c) = poll_at-waiting target duration times h.1 in (a, (refl, b), c))

waiting-later :
    (target : SimTime) (duration : Duration) (later : SimTime)
    → let p = poll_sleep (some later) (waiting target duration) in
      (p.is_ready ≡ leb target later) × (p.calls ≡ [])
unfolding poll_sleep
waiting-later target duration later = elim (Bool-cases (leb target later)) [
  | inl e ↦ rw e (refl, refl)
  | inr e ↦ rw e (refl, refl)
]

first_poll :
    (duration : Duration) (now : SimTime)
    → let target = add_time now (from_duration duration) in
      now < target
      → poll_sleep (some now) (sleep duration) ≡ record {
        is_ready = false;
        future = waiting target duration;
        calls = registers target ∷ [];
      }
unfolding poll_sleep sleep
first_poll duration now h =
    let early : leb (add_time now (from_duration duration)) now ≡ false = ground (arith, h) in
    rw early refl

-- What a row of polls before the target did, and what a later one does.
abbrev pub Slept : SimTime → SimTime → SimSleep × List Bool × List (Call SimSleep) → Type 0
Slept target later (s, ready, calls) =
    All (λ b. b ≡ false) ready
    × (calls ≡ registers target ∷ [])
    × (drop_sleep s ≡ unregisters target ∷ [])
    × ((poll_sleep (some later) s).is_ready ≡ leb target later)
    × ((poll_sleep (some later) s).calls ≡ [])

-- A sleep that is polled at times before its target, the first poll included, reports nothing ready
-- and registers exactly one timer, for the target; dropped then, it cancels this timer, and a later
-- poll is ready exactly from the target on and registers nothing.
pub sleep-poll_at :
    (duration : Duration) (now : SimTime) (times : List SimTime) (later : SimTime)
    → let target = add_time now (from_duration duration) in
      All (λ t. t < target) (now ∷ times)
      → Slept target later (poll_at (now ∷ times) (sleep duration))
unfolding drop_sleep
sleep-poll_at duration now times later h =
    let target = add_time now (from_duration duration) in
    let (same, none_ready, no_calls) = poll_at-waiting target duration times h.1 in
    let (ready, quiet) = waiting-later target duration later in
    let rest = poll_at times (waiting target duration) in
    let at : (s : SimSleep)
        → s ≡ waiting target duration
        → Slept target later (s, false ∷ rest.1, registers target ∷ rest.2) =
      λ s e.
        subst (λ (x : SimSleep). Slept target later (x, false ∷ rest.1, registers target ∷ rest.2))
          (sym e)
          ((refl, none_ready), ap (λ c. registers target ∷ c) no_calls, refl, ready, quiet) in
    subst
      (λ (p : Polled SimSleep).
        Slept target later
          (let (s', r, c) = poll_at times p.future in (s', p.is_ready ∷ r, p.calls ++ c)))
      (sym (first_poll duration now h.0)) (at rest.0 same)
