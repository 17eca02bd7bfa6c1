-- ===== src/Examples/World.antt =====
-- A simulation of a client and a server, in which the client is about to send a request.
use des_cartes.Prelude.{
  ℕ, ◌+◌, Option, none, some, List, [], ◌∷◌, arith, insert_key, insert_key-OnSome,
}
use des_cartes.Core.Time.{Duration}
use des_cartes.Core.Scheduler.{Scheduler, EventEntry, component, with_seed, Policy}
use des_cartes.Core.Simulation.{Simulation, execute_steps}
use des_cartes.Components.Queue.{FifoQueue, fifo, new_fifo}
use des_cartes.Components.Queue.Contents.{fifo-Holds}
use des_cartes.Components.Retry.{FixedRetry, fixed_retry, new_fixed}
use des_cartes.Components.Service.{send_request, ServiceEvent, to_client}
use des_cartes.Components.Server.{with_queue}
use des_cartes.Components.Server
use des_cartes.Components.Client
use des_cartes.Components.World.{Part, server_part, client_part}
use des_cartes.Components.World.Effects.{Grows, refl-Grows}
use des_cartes.Components.World.Soundness.{Held}
use des_cartes.Components.World.Steps.{handlers, IsSound, execute_steps-IsSound}

abbrev latest : Policy ℕ
latest = record { choose = λ n t frontier. (5, n + 1) }

abbrev constant : ℕ → List ℕ → Duration × ℕ
constant n payload = (10, n)

abbrev body : ℕ → List ℕ
body id = id ∷ []

abbrev rest : ℕ → Scheduler ServiceEvent ℕ ℕ → Option ℕ × Scheduler ServiceEvent ℕ ℕ
rest boxed s = (none, s)

rest-Grows : (id : ℕ) (boxed : ℕ) (s : Scheduler ServiceEvent ℕ ℕ) → Grows id s (rest boxed s).1
rest-Grows id boxed s = refl-Grows id s

abbrev the_server : Part FifoQueue ℕ FixedRetry
unfolding new_fifo
the_server = server_part (with_queue (new_fifo (some 2)) (Server.new 1 0))

abbrev the_client : Part FifoQueue ℕ FixedRetry
the_client = client_part (Client.new 9 (new_fixed 3 1_000))

abbrev sends : EventEntry ServiceEvent
sends = component (record { event_id = 1; time = 0; component = 8; inner = to_client send_request })

abbrev started : Scheduler ServiceEvent ℕ ℕ
unfolding with_seed
started = record (with_seed 7) { next_event_id = 1; events = sends ∷ [] }

abbrev service : Simulation (Part FifoQueue ℕ FixedRetry) ServiceEvent ℕ ℕ ℕ
service = record {
  scheduler = started;
  policy_state = 0;
  next_component_id = 2;
  components = insert_key 9 the_server (insert_key 8 the_client []);
  seed = 7;
}

service-IsSound : IsSound fifo fifo-Holds constant fixed_retry body rest rest-Grows latest service
unfolding new_fifo with_seed
service-IsSound =
    insert_key-OnSome (Held fifo (λ f. 0) started) 9 (insert_key 8 the_client [])
      (λ j ne.
        insert_key-OnSome (Held fifo (λ f. 0) started) 8 [] (λ j ne. tt) the_client (λ rid. tt) j)
      the_server
      (record {
        in_range = omega arith;
        within = omega arith;
        busy = omega arith;
        attended = λ cap deep. absurd (omega (arith, deep));
      })

execute_steps-IsSound_example :
    IsSound fifo fifo-Holds constant fixed_retry body rest rest-Grows latest (
      execute_steps
        (handlers fifo fifo-Holds constant fixed_retry body rest rest-Grows)
        latest
        4
        service)
execute_steps-IsSound_example =
    execute_steps-IsSound fifo fifo-Holds constant fixed_retry body rest rest-Grows latest 4 service
      service-IsSound
