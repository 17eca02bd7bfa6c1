-- ===== src/Components/World/Soundness.antt =====
-- The invariants of the servers and clients in one simulation (des-components/src), and what handing
-- an event to one of them does to all of them.
use des_cartes.Prelude.{
  ℕ, ◌+◌, ◌≤◌, ◌≡◌, refl, ==-refl, Option, none, some, List, [], ◌∷◌, ◌++◌, lookup, insert_key,
  insert_key-OnSome, lookup-OnSome, OnSome, OnSome-mono, OnSome-eq_some, All, sum, sum-append,
  sum-Perm, arith,
}
use des_cartes.Core.Time.{Duration}
use des_cartes.Core.Ids.{Uuid}
use des_cartes.Core.Scheduler.{Scheduler, EventEntry, ComponentEventEntry, component, task}
use des_cartes.Core.Scheduler.Rules.{IsCancelled}
use des_cartes.Core.Scheduler.Conservation.{Accounts}
use des_cartes.Components.Queue.{Queue}
use des_cartes.Components.Queue.Contents.{Holds}
use des_cartes.Components.Retry.{RetryPolicy}
use des_cartes.Components.Service.{ServiceEvent, to_server, to_client, addressed}
use des_cartes.Components.Server.Threads.{completes, wakes, IsSettled, process_event-IsSettled}
use des_cartes.Components.Client.Watch.{IsWatched, attends, process_event-IsWatched}
use des_cartes.Components.World.{Part, server_part, client_part, handle_part}
use des_cartes.Components.World.Effects.{handle_part-Grows}

-- The events in hand: how much they weigh.
abbrev pub Due : Type 0
Due = (ServiceEvent → ℕ) → ℕ

cancelled-sum :
    {T R : Type 0} (f : ServiceEvent → ℕ) (j : Uuid) (s : Scheduler ServiceEvent T R)
    (es : List (EventEntry ServiceEvent))
    → All (λ d. IsCancelled d s) es
    → sum (addressed f j) es ≡ 0
cancelled-sum f j s [] h = refl
cancelled-sum f j s (component e ∷ es) h = absurd h.0
cancelled-sum f j s (task e ∷ es) h = omega (arith, cancelled-sum f j s es h.1)

-- What the event queue holds is what is taken and what stays.
pub Accounts-sum :
    {T R : Type 0} (f : ServiceEvent → ℕ) (j : Uuid) (s : Scheduler ServiceEvent T R)
    (out after : List (EventEntry ServiceEvent))
    → Accounts s out after
    → sum (addressed f j) s.events ≡ sum (addressed f j) out + sum (addressed f j) after
Accounts-sum f j s out after h = omega (
  arith,
  sum-Perm (addressed f j) h.perm,
  sum-append (addressed f j) out (h.dropped ++ after),
  sum-append (addressed f j) h.dropped after,
  cancelled-sum f j s h.dropped h.cancelled,
)

module _ {Q D P T R : Type 0} (impl : Queue Q) where
  -- The invariant of one component, with events in hand.
  abbrev pub Held : Due → Scheduler ServiceEvent T R → Uuid → Part Q D P → Type 0
  Held due s id (server_part server) = IsSettled impl id (due completes) (due wakes) server s
  Held due s id (client_part client) = IsWatched id (λ rid aid. due (attends rid aid)) client s

  -- Events move from the queue into the hand, and others join them.
  pub move-Held :
      (due due' : Due) (s t : Scheduler ServiceEvent T R) (id : Uuid) (part : Part Q D P)
      → due completes + sum (addressed completes id) s.events
        ≡ due' completes + sum (addressed completes id) t.events
      → ((f : ServiceEvent → ℕ)
          → due f + sum (addressed f id) s.events ≤ due' f + sum (addressed f id) t.events)
      → Held due s id part
      → Held due' t id part
  move-Held due due' s t id (server_part server) same more h = record {
    in_range = h.in_range;
    within = h.within;
    busy = omega (arith, h.busy, same);
    attended = λ cap deep. omega (arith, h.attended cap deep, more wakes);
  }
  move-Held due due' s t id (client_part client) same more h = λ rid.
      OnSome-mono (lookup rid client.active_requests)
        (λ w v. omega (arith, v, more (attends rid w.0.id))) (h rid)

  abbrev pub AllHeld : (Uuid → Due) → List (Uuid × Part Q D P) → Scheduler ServiceEvent T R → Type 0
  AllHeld due parts s = (id : Uuid) → OnSome (Held (due id) s id) (lookup id parts)

module _ {Q D P T R : Type 0} (impl : Queue Q) (holds : Holds impl)
    (sample : D → List ℕ → Duration × D) (policy : RetryPolicy P) (body : ℕ → List ℕ) where
  handle_part-Held :
      (id : Uuid) (e : ServiceEvent) (part : Part Q D P) (s : Scheduler ServiceEvent T R)
      → Held impl (λ f. f e) s id part
      → let r = handle_part impl sample policy body id e part s in Held impl (λ f. 0) r.1 id r.0
  unfolding handle_part
  handle_part-Held id (to_server e) (server_part server) s h =
      process_event-IsSettled impl holds sample id e server s h
  handle_part-Held id (to_client e) (client_part client) s h =
      process_event-IsWatched policy body id e client s h
  handle_part-Held id (to_client e) (server_part server) s h = h
  handle_part-Held id (to_server e) (client_part client) s h = h

  abbrev pub run_component :
      Uuid
      → ServiceEvent
      → List (Uuid × Part Q D P)
      → Scheduler ServiceEvent T R
      → Option (Part Q D P)
      → List (Uuid × Part Q D P) × Scheduler ServiceEvent T R
  run_component k e parts s none = (parts, s)
  run_component k e parts s (some part) =
      let (part', s') = handle_part impl sample policy body k e part s in
      (insert_key k part' parts, s')

  pub run_component-AllHeld :
      (e : ComponentEventEntry ServiceEvent) (parts : List (Uuid × Part Q D P))
      (s : Scheduler ServiceEvent T R) (o : Option (Part Q D P))
      → lookup e.component parts ≡ o
      → AllHeld impl (λ id f. addressed f id (component e)) parts s
      → let r = run_component e.component e.inner parts s o in AllHeld impl (λ id f. 0) r.0 r.1
  run_component-AllHeld e parts s none n h =
      lookup-OnSome (Held impl (λ f. 0) s) e.component parts
        (λ j ne.
          OnSome-mono (lookup j parts)
            (λ part v.
              move-Held impl (λ f. addressed f j (component e)) (λ f. 0) s s j part
                (ground (arith, ne)) (λ f. ground (arith, ne)) v)
            (h j))
        (rw n tt)
  run_component-AllHeld e parts s (some part) n h =
      let k = e.component in
      let r = handle_part impl sample policy body k e.inner part s in
      let grows = handle_part-Grows impl sample policy body k e.inner part s in
      let mine : Held impl (λ f. f e.inner) s k part =
        move-Held impl (λ f. addressed f k (component e)) (λ f. f e.inner) s s k part
          (grind (arith, ==-refl k)) (λ f. grind (arith, ==-refl k))
          (OnSome-eq_some (Held impl (λ f. addressed f k (component e)) s k) (h k) n) in
      insert_key-OnSome (Held impl (λ f. 0) r.1) k parts
        (λ j ne.
          OnSome-mono (lookup j parts)
            (λ part v.
              move-Held impl (λ f. addressed f j (component e)) (λ f. 0) s r.1 j part
                (ground (arith, ne, grows.same_completions j ne))
                (λ f. ground (arith, ne, grows.more (addressed f j))) v)
            (h j))
        r.0 (handle_part-Held k e.inner part s mine)
