-- ===== src/Tests/Called.antt =====
-- The theorems on calls of a service and on what a table sends for them, on concrete histories.
use rt_fogros.Prelude.{
  ℕ, ◌≡◌, refl, codes, text_beq, Text, Option, none, some, List, [], ◌∷◌, contains, arith, done,
}
use rt_fogros.Prelude.Assoc.{get, insert}
use rt_fogros.Packet.Name.{GdpName, zero_name, name_beq, name_eq}
use rt_fogros.Packet.Action.{request, response}
use rt_fogros.Packet.Types.{GdpPacket, GdpHeaderInTransit}
use rt_fogros.Framing.Frames.{frame_bytes}
use rt_fogros.Framing.Reader.{Reader}
use rt_fogros.Fib.Types.{
  FibConnectionType, FibStateChange, request_receiver, response_receiver, add,
}
use rt_fogros.Fib.Binding.{no_bindings, read_binding_table}
use rt_fogros.Fib.Table.{Table, request_line, response_line}
use rt_fogros.Fib.Request.{send_request, send_requests, send_on_interface, on_request}
use rt_fogros.Fib.Response.{on_response}
use rt_fogros.Fib.Requests.{timed, request_to_receivers}
use rt_fogros.Fib.Responses.{processed, response_to_receivers}
use rt_fogros.Fib.Update.{connection_of, is_bound, add_receiver, on_update}
use rt_fogros.Fib.Step.{Event, packet, change, new_table, step, run}
use rt_fogros.Network.Call.{question}
use rt_fogros.Tests.Toy.{toy}
use rt_fogros.Tests.Routes.{chatter}

-- A change of a kind, over an interface, with a channel.
abbrev registers : FibConnectionType → Text → ℕ → FibStateChange
registers kind interface tx = record {
  action = add;
  connection_type = kind;
  topic_gdp_name = chatter;
  forward_destination = some tx;
  interface = some interface;
  address = some (codes "/chatter");
  description = none;
}

-- At the client: its task's channel, and the connection that the request goes out on.
abbrev to_client : FibStateChange
to_client = registers response_receiver (codes "ros") 3

abbrev to_network : FibStateChange
to_network = registers request_receiver (codes "eth0") 4

abbrev history_here : List Event
history_here = change to_client ∷ change to_network ∷ []

-- At the service: its task's channel, and the connection that the response goes back on.
abbrev to_service : FibStateChange
to_service = registers request_receiver (codes "ros") 5

abbrev from_network : FibStateChange
from_network = registers response_receiver (codes "eth1") 6

abbrev history_there : List Event
history_there = change to_service ∷ change from_network ∷ []

-- The table with two connections.
abbrev table : FibStateChange → ℕ → FibStateChange → ℕ → Table
table u c v d = record {
  binding_table = none;
  rib_state_table =
      (chatter, record { receivers = connection_of u c ∷ connection_of v d ∷ [] }) ∷ [];
  processed_requests = [];
  request_latency_table = [];
}

history_here_lem :
    run (new_table no_bindings) history_here ≡ done (table to_client 3 to_network 4, [])
unfolding run step new_table on_update add_receiver insert get text_beq name_beq is_bound
    read_binding_table
history_here_lem = refl

-- The name that the id "a" draws.
abbrev drawn : GdpName
drawn = record { b0 = 97; b1 = 97; b2 = 97; b3 = 97 }

abbrev asks : GdpHeaderInTransit
asks = record {
  action = request;
  destination = chatter;
  source = zero_name;
  guid = drawn;
  length = 1;
}

abbrev responds : GdpHeaderInTransit
responds = record {
  action = response;
  destination = chatter;
  source = chatter;
  guid = drawn;
  length = 2;
}

-- The request in one chunk, the response cut in its payload.
abbrev chunks : List (List ℕ)
chunks = frame_bytes toy asks (1 ∷ []) ∷ []

abbrev chunks_back : List (List ℕ)
chunks_back = frame_bytes toy responds (0 ∷ []) ∷ (1 ∷ []) ∷ []

abbrev echo : List ℕ → List ℕ
echo message = 0 ∷ message

abbrev draw : ℕ → GdpName
draw i = zero_name

abbrev asked : Option Text → GdpPacket
asked = question echo zero_name chatter chatter drawn (1 ∷ [])

-- A request and a response for the name, at the client's table.
abbrev asked_again : GdpPacket
asked_again = record {
  action = request;
  gdpname = chatter;
  payload = some (2 ∷ []);
  name_record = none;
  guid = some drawn;
  source = zero_name;
  description = none;
}

request_to_receivers_example :
    on_request 10 (some (codes "eth0")) (table to_client 3 to_network 4) asked_again
    ≡ done (record {
      table = timed 10 (table to_client 3 to_network 4) asked_again;
      deliveries = record { tx = 4; packet = asked_again } ∷ [];
      log = request_line ∷ [];
    })
unfolding text_beq name_beq read_binding_table is_bound contains
request_to_receivers_example =
    request_to_receivers no_bindings history_here (table to_client 3 to_network 4) [] 10
      (codes "eth0") drawn asked_again history_here_lem refl refl

abbrev answered_once : GdpPacket
answered_once = record asked_again { action = response; payload = some (3 ∷ []) }

-- The history goes on with the request.
abbrev history_asked : List Event
history_asked =
    change to_client ∷ change to_network ∷ packet 10 (some (codes "eth0")) asked_again ∷ []

abbrev table_asked : Table
table_asked = timed 10 (table to_client 3 to_network 4) asked_again

history_asked_lem :
    run (new_table no_bindings) history_asked
    ≡ done (table_asked, record { tx = 4; packet = asked_again } ∷ [])
unfolding run step new_table on_update on_request send_on_interface send_requests send_request
    add_receiver insert get text_beq name_beq is_bound read_binding_table contains
history_asked_lem = refl

response_to_receivers_example :
    on_response 12 table_asked answered_once
    ≡ done (record {
      table = processed table_asked answered_once;
      deliveries = record { tx = 3; packet = answered_once } ∷ [];
      log = response_line ∷ [];
    })
unfolding text_beq name_beq read_binding_table is_bound contains insert get
response_to_receivers_example =
    response_to_receivers no_bindings history_asked table_asked
      (record { tx = 4; packet = asked_again } ∷ []) 10 12 drawn answered_once history_asked_lem
      refl (omega arith) refl refl
