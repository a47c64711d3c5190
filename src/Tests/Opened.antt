-- ===== src/Tests/Opened.antt =====
-- The connections that the sending side of a topic opens, and what is sent on them, on a concrete run.
use rt_fogros.Prelude.{
  ℕ, ◌≡◌, refl, codes, text_beq, Text, true, Option, none, List, [], ◌∷◌, map, All, contains, arith,
  done,
}
use rt_fogros.Prelude.Assoc.{get, insert}
use rt_fogros.Packet.Name.{zero_name, name_beq, name_eq}
use rt_fogros.Fib.Binding.{no_bindings, read_binding_table}
use rt_fogros.Fib.Table.{Table, Delivery}
use rt_fogros.Fib.Update.{connection_of, is_bound, add_receiver, on_update}
use rt_fogros.Fib.Step.{Event, change, new_table, step, run}
use rt_fogros.Routing.Direction.{direction_str_to_connection_type, flip_direction}
use rt_fogros.Routing.Manager.{subscribe_topic}
use rt_fogros.Routing.Register.{connections, gather_candidates, candidate_struct, subscribe_request}
use rt_fogros.Routing.Registration.{register_stream_sender}
use rt_fogros.Ros.Channels.{inbox}
use rt_fogros.Ros.Topics.{RosMessage}
use rt_fogros.Ros.Transport.{packet_of, arrival}
use rt_fogros.Network.Registering.{changes_of}
use rt_fogros.Network.Opened.{opened_connections_fed}
use rt_fogros.Tests.Routes.{chatter, route, peer}
use rt_fogros.Tests.Registrations.{world, all_answer, interfaces, candidates, subscription}
use rt_fogros.Tests.Carried.{stream_to, first, second}

-- The name has one connection already.
abbrev history : List Event
history = change (stream_to chatter 2) ∷ []

abbrev table : Table
table = record {
  binding_table = none;
  rib_state_table =
      (chatter, record { receivers = connection_of (stream_to chatter 2) 2 ∷ [] }) ∷ [];
  processed_requests = [];
  request_latency_table = [];
}

history_lem : run (new_table no_bindings) history ≡ done (table, [])
unfolding run step new_table on_update add_receiver insert get text_beq name_beq is_bound
    read_binding_table
history_lem = refl

abbrev now : RosMessage → ℕ
now m = 0

abbrev interface : RosMessage → Option Text
interface m = none

opened_connections_fed_example :
    let task =
      register_stream_sender world (route (codes "pubsub-sender")) interfaces 3 ((1 ∷ []) ∷ []) in
    (t₁ : Table) × (t₂ : Table) × (out : List Delivery) × (task.alive ≡ true)
    × (run table (map change (changes_of task.outputs)) ≡ done (t₁, []))
    × (run t₁ (map (arrival zero_name chatter now interface) (first ∷ second ∷ []))
        ≡ done (t₂, out))
    × All (λ c. inbox c out ≡ map (packet_of zero_name chatter) (first ∷ second ∷ [])) (3 ∷ 4 ∷ [])
unfolding direction_str_to_connection_type flip_direction text_beq candidate_struct name_beq
    gather_candidates subscribe_request subscribe_topic read_binding_table is_bound contains
    connections
opened_connections_fed_example =
    opened_connections_fed world (route (codes "pubsub-sender")) (codes "pubsub") refl refl
      all_answer interfaces candidates peer subscription 3 1 [] no_bindings history table []
      zero_name now interface (first ∷ second ∷ []) refl refl refl history_lem (omega arith)
      (refl, (refl, tt)) (refl, (refl, tt)) ((refl, tt), (tt, tt))
