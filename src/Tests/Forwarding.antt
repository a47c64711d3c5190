-- ===== src/Tests/Forwarding.antt =====
-- The forwarding table's theorems on a concrete history.
use rt_fogros.Prelude.{
  ◌≡◌, refl, codes, text_beq, text_eq, starts_with, Option, none, some, List, [], ◌∷◌, ◌++◌, All,
  contains, option_eq, option_beq, done, panic,
}
use rt_fogros.Prelude.Assoc.{get, insert}
use rt_fogros.Packet.Name.{GdpName, zero_name, name_beq, name_eq}
use rt_fogros.Packet.Action.{GdpAction, forward, response}
use rt_fogros.Packet.Types.{GdpPacket}
use rt_fogros.Fib.Types.{FibConnection, FibStateChange, add, receiver, running}
use rt_fogros.Fib.Binding.{ConfigFile, bindings, read_entries, read_binding_table}
use rt_fogros.Fib.Table.{Table, deliver}
use rt_fogros.Fib.Forward.{mark_processed, on_forward}
use rt_fogros.Fib.Update.{in_binding_table, is_bound, add_receiver, on_update}
use rt_fogros.Fib.Step.{Event, packet, change, new_table, step, run}
use rt_fogros.Fib.Once.{Avoids, forward_once}
use rt_fogros.Fib.Connections.{IsSound}
use rt_fogros.Fib.Rounds.{IsSafe}
use rt_fogros.Fib.Safety.{run-new_table}
use rt_fogros.Fib.Registrations.{subscribers}
use rt_fogros.Fib.Subscribers.{run-subscribers}
use rt_fogros.Fib.Complete.{copies, forward_to_subscribers}
use rt_fogros.Fib.Latency.{response_without_request}

abbrev topic : GdpName
topic = record { b0 = 1; b1 = 2; b2 = 3; b3 = 4 }

-- The interface `eth0` reaches the addresses that start with `10.`.
abbrev config : ConfigFile
config = bindings ((some (codes "eth0"), some (codes "10.")) ∷ [])

-- A receiver on channel 5, at an address that the table lets `eth0` reach.
abbrev subscribe : FibStateChange
subscribe = record {
  action = add;
  connection_type = receiver;
  topic_gdp_name = topic;
  forward_destination = some 5;
  interface = some (codes "eth0");
  address = some (codes "10.0.0.1");
  description = none;
}

-- The same on another interface, which the table does not have.
abbrev subscribe_elsewhere : FibStateChange
subscribe_elsewhere = record subscribe {
  forward_destination = some 6;
  interface = some (codes "wlan0");
}

abbrev message : GdpAction → GdpPacket
message action = record {
  action = action;
  gdpname = topic;
  payload = some (7 ∷ []);
  name_record = none;
  guid = some zero_name;
  source = zero_name;
  description = none;
}

abbrev arrival : Event
arrival = packet 0 none (message forward)

abbrev history : List Event
history = change subscribe ∷ change subscribe_elsewhere ∷ arrival ∷ arrival ∷ []

-- The connection that the history adds.
abbrev connection : FibConnection
connection = record {
  state = running;
  connection_type = receiver;
  tx = 5;
  description = none;
  interface = some (codes "eth0");
  address = some (codes "10.0.0.1");
}

-- The table after the two changes, with the guids that have been processed.
abbrev table_with : List (Option GdpName) → Table
table_with processed = record {
  binding_table = some ((codes "eth0", codes "10.") ∷ []);
  rib_state_table = (topic, record { receivers = connection ∷ [] }) ∷ [];
  processed_requests = processed;
  request_latency_table = [];
}

-- One connection is let through, and gets the packet once although it came twice.

run-history :
    run (new_table config) history
    ≡ done (table_with (some zero_name ∷ []), record { tx = 5; packet = message forward } ∷ [])
unfolding run step new_table read_binding_table read_entries on_update add_receiver is_bound
    in_binding_table starts_with text_beq get insert name_beq on_forward mark_processed deliver
    contains option_beq
run-history = refl

run-new_table_example :
    IsSound (read_binding_table config) (table_with (some zero_name ∷ []))
    × All
        (IsSafe (read_binding_table config) ((topic, record { receivers = connection ∷ [] }) ∷ []))
        (record { tx = 5; packet = message forward } ∷ [])
run-new_table_example =
    run-new_table config history (table_with (some zero_name ∷ [])) _ run-history

forward_once_example : Avoids (some zero_name) []
unfolding run step get name_beq on_forward mark_processed deliver contains option_beq
forward_once_example =
    forward_once (table_with []) (message forward) (arrival ∷ []) (table_with (some zero_name ∷ []))
      [] (λ e. cc) refl

response_without_request_example :
    run (new_table config) (history ++ packet 0 none (message response) ∷ []) ≡ panic
response_without_request_example =
    response_without_request config history 0 none (message response) refl refl

run-subscribers_example : connection ∷ [] ≡ subscribers (read_binding_table config) topic history
unfolding get name_beq
run-subscribers_example =
    run-subscribers config topic history (table_with (some zero_name ∷ [])) _ run-history

-- A message with another guid than the one that has been processed.
abbrev fresh : GdpPacket
fresh = record (message forward) { guid = some topic }

forward_to_subscribers_example :
    (on_forward (table_with (some zero_name ∷ [])) fresh).deliveries
    ≡ copies receiver fresh (subscribers (read_binding_table config) topic history)
unfolding contains option_beq name_beq
forward_to_subscribers_example =
    forward_to_subscribers config history (table_with (some zero_name ∷ [])) _ fresh run-history
      refl
