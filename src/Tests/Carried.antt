-- ===== src/Tests/Carried.antt =====
-- The theorems on two machines and the connection between them on concrete messages.
use rt_fogros.Prelude.{
  ℕ, ◌≡◌, ◌≢◌, refl, codes, text_beq, Text, true, Option, none, some, List, [], ◌∷◌, ◌++◌, map,
  concat, All, if◌then◌else◌, contains, arith, done,
}
use rt_fogros.Prelude.Tasks.{work, goes_on}
use rt_fogros.Packet.Name.{GdpName, zero_name, name_beq, name_eq}
use rt_fogros.Packet.Action.{noop, forward, to_u8}
use rt_fogros.Packet.Types.{GdpPacket, GdpHeaderInTransit}
use rt_fogros.Packet.Header.{payload_bytes, record_bytes}
use rt_fogros.Packet.Construct.{get_gdp_name_from_topic, construct_gdp_forward_from_bytes_with_guid}
use rt_fogros.Framing.Frames.{Pending, nothing, in_header, in_payload, frame_bytes}
use rt_fogros.Framing.Incremental.{Holds}
use rt_fogros.Framing.Stream.{Feed, stop, more}
use rt_fogros.Framing.Reader.{Reader, new_reader, read_all}
use rt_fogros.Framing.Writer.{send_all}
use rt_fogros.Framing.RoundTrip.{received}
use rt_fogros.Framing.Carried.{header_of, carried}
use rt_fogros.Fib.Types.{FibStateChange, receiver, add}
use rt_fogros.Fib.Binding.{no_bindings, read_binding_table}
use rt_fogros.Fib.Table.{Table, Delivery}
use rt_fogros.Fib.Step.{Event, change, new_table, step, run}
use rt_fogros.Fib.Update.{connection_of, is_bound, add_receiver, on_update}
use rt_fogros.Prelude.Assoc.{get, insert}
use rt_fogros.Routing.Direction.{direction_str_to_connection_type}
use rt_fogros.Service.Manager.{end_of}
use rt_fogros.Ros.Names.{names}
use rt_fogros.Ros.Channels.{inbox}
use rt_fogros.Ros.Topics.{RosMessage, forward_message, publish_packet}
use rt_fogros.Ros.Messages.{incoming}
use rt_fogros.Ros.Transport.{packet_of, arrival}
use rt_fogros.Service.EndToEnd.{subscribers_of}
use rt_fogros.Network.Published.{from_reader}
use rt_fogros.Network.Requested.{requested_topic_carried}
use rt_fogros.Tests.Toy.{toy, toy_laws}
use rt_fogros.Tests.Routes.{digest, chatter}
use rt_fogros.Tests.Requests.{sub, route}

abbrev pub first : RosMessage
first = record { bytes = 7 ∷ []; guid = zero_name; taken = true }

abbrev pub second : RosMessage
second = record { bytes = 8 ∷ []; guid = chatter; taken = true }

-- The header of a message of one byte.
abbrev header : RosMessage → GdpHeaderInTransit
header m = record {
  action = forward;
  destination = chatter;
  source = zero_name;
  guid = m.guid;
  length = 1;
}

-- The print of the first header is `head ++ 48 ∷ tail`.
abbrev head : Text
head = 2 ∷ 48 ∷ 48 ∷ []

abbrev tail : Text
tail = 48 ∷ 1 ∷ 1 ∷ 1 ∷ 1 ∷ 1 ∷ 1 ∷ 1 ∷ 1 ∷ 2 ∷ []

abbrev cut : Pending
cut = in_header (header first) head 48 tail

abbrev begun : Pending
begun = in_payload (header second) []

-- The messages in three chunks, cut in the first header and before the second payload.
abbrev middle : List ℕ
middle = 48 ∷ (tail ++ 0 ∷ 7 ∷ frame_bytes toy (header second) [])

abbrev chunks : List (List ℕ)
chunks = head ∷ middle ∷ (8 ∷ []) ∷ []

is_forward : (m : RosMessage) → (header m).action ≢ noop
is_forward m e = ground arith

feed : Feed toy nothing chunks ((header first, 7 ∷ []) ∷ (header second, 8 ∷ []) ∷ []) nothing 1
unfolding to_u8
feed =
    more {p = nothing} {q = cut} head [] ((header first, 7 ∷ []) ∷ (header second, 8 ∷ []) ∷ [])
      (λ e. cc) (λ e. cc) tt (refl, λ e. cc) tt refl
      (more {p = cut} {q = begun} middle ((header first, 7 ∷ []) ∷ [])
        ((header second, 8 ∷ []) ∷ []) (λ e. cc) (λ e. cc) (refl, tt) (omega arith)
        (is_forward second) refl
        (more {p = begun} {q = nothing} (8 ∷ []) ((header second, 8 ∷ []) ∷ []) [] (λ e. cc)
          (λ e. cc) (refl, tt) tt tt refl stop))

abbrev pub messages : List RosMessage
messages = first ∷ second ∷ []

abbrev draw : ℕ → GdpName
draw i = zero_name

carried_example :
    (buffers : List (List ℕ)) × (r' : Reader) × (send_all toy
        (λ _ _. true)
        draw
        (map (packet_of zero_name chatter) messages)
      ≡ done buffers)
    × (concat chunks ≡ concat buffers)
    × (read_all toy true (new_reader none) chunks
        ≡ done (
          r',
          map
              (λ m.
                received toy none
                  (packet_of zero_name chatter m)
                  (header_of toy (packet_of zero_name chatter m) m.guid))
              messages,
        ))
    × Holds r' nothing
unfolding construct_gdp_forward_from_bytes_with_guid payload_bytes record_bytes
carried_example =
    carried toy (packet_of zero_name chatter) (λ m. m.guid) (λ m. refl) toy_laws true
      (new_reader none) messages draw feed refl (omega arith)

-- The change of a stream to the other machine, and one of another name.
abbrev pub stream_to : GdpName → ℕ → FibStateChange
stream_to name tx = record {
  action = add;
  connection_type = receiver;
  topic_gdp_name = name;
  forward_destination = some tx;
  interface = some (codes "eth0");
  address = some (codes "10.0.0.2:80");
  description = none;
}

abbrev history : List Event
history = change (stream_to zero_name 4) ∷ change (stream_to chatter 5) ∷ []

-- The forwarding table after the history.
abbrev table : Table
table = record {
  binding_table = none;
  rib_state_table =
      (zero_name, record { receivers = connection_of (stream_to zero_name 4) 4 ∷ [] })
      ∷ (chatter, record { receivers = connection_of (stream_to chatter 5) 5 ∷ [] })
      ∷ [];
  processed_requests = [];
  request_latency_table = [];
}

history_lem : run (new_table no_bindings) history ≡ done (table, [])
unfolding run step new_table on_update add_receiver insert get text_beq name_beq is_bound
    read_binding_table
history_lem = refl

abbrev now : RosMessage → ℕ
now m = 0

abbrev interface : RosMessage → Option Text
interface m = none

abbrev now_there : GdpPacket → ℕ
now_there pkt = 0

abbrev interface_there : GdpPacket → Option Text
interface_there pkt = none

requested_topic_carried_example :
    let there = subscribers_of digest [] 0 (route ∷ sub ∷ sub ∷ []) in
    (contains chatter (names there.workers) ≡ true)
    × ((t' : Table) × (out : List Delivery) × (buffers : List (List ℕ)) × (r : Reader)
        × (packets : List GdpPacket) × (u : Table) × (u' : Table) × (ds : List Delivery) × (work
              (forward_message zero_name chatter)
              messages
            ≡ goes_on (map (packet_of zero_name chatter) messages))
        × (run table (map (arrival zero_name chatter now interface) messages) ≡ done (t', out))
        × (send_all toy (λ _ _. true) draw (inbox 5 out) ≡ done buffers)
        × (concat chunks ≡ concat buffers)
        × (read_all toy true (new_reader none) chunks ≡ done (r, packets))
        × (run (new_table no_bindings) (map change there.changes) ≡ done (u, []))
        × (run u (map (from_reader now_there interface_there) packets) ≡ done (u', ds))
        × All
            (λ w.
              work (publish_packet w.topic_gdp_name) (map incoming (inbox w.ros_rx ds))
              ≡ goes_on
                  (if name_beq w.topic_gdp_name chatter then (7 ∷ []) ∷ (8 ∷ []) ∷ [] else []))
            there.workers)
unfolding text_beq name_beq end_of direction_str_to_connection_type get_gdp_name_from_topic
    construct_gdp_forward_from_bytes_with_guid payload_bytes record_bytes read_binding_table
    is_bound contains
requested_topic_carried_example =
    requested_topic_carried toy_laws digest [] zero_name sub (route ∷ []) (sub ∷ []) no_bindings
      history table [] 5 now interface draw true none no_bindings 0 now_there interface_there
      messages (refl, (refl, (refl, tt))) refl history_lem refl (refl, (refl, tt))
      ((refl, tt), (tt, tt)) (refl, (refl, tt)) feed (omega arith)
