-- ===== src/Network/Requested.antt =====
-- A topic that HTTP requests ask for, from machine to machine over a KCP connection: before
-- Network.Topic stand the managers of fogrs-core/src/service_manager.rs.
use rt_fogros.Prelude.{
  ℕ, ◌≤◌, ◌≡◌, Text, Bool, true, Option, List, [], ◌∷◌, ◌++◌, map, concat, All, if◌then◌else◌,
  contains, done,
}
use rt_fogros.Prelude.Tasks.{work, goes_on}
use rt_fogros.Packet.Name.{GdpName, name_beq, name_eq}
use rt_fogros.Packet.Types.{GdpPacket}
use rt_fogros.Packet.Header.{Json, JsonLaws}
use rt_fogros.Packet.Construct.{Sha256}
use rt_fogros.Framing.Frames.{nothing}
use rt_fogros.Framing.Stream.{Feed}
use rt_fogros.Framing.Reader.{Reader, new_reader, read_all}
use rt_fogros.Framing.Writer.{send_all}
use rt_fogros.Framing.Carried.{frames}
use rt_fogros.Fib.Types.{Channel, receiver}
use rt_fogros.Fib.Binding.{ConfigFile, read_binding_table}
use rt_fogros.Fib.Table.{Table, Delivery}
use rt_fogros.Fib.Step.{Event, change, new_table, run}
use rt_fogros.Fib.Registrations.{subscribers}
use rt_fogros.Ros.Manager.{subscriber}
use rt_fogros.Ros.Names.{names}
use rt_fogros.Ros.Channels.{inbox}
use rt_fogros.Ros.Topics.{RosMessage, forward_message, publish_packet}
use rt_fogros.Ros.Messages.{IsDistinct, IsTaken, incoming, Unseen}
use rt_fogros.Ros.Transport.{packet_of, arrival}
use rt_fogros.Service.Request.{RosTopicRequest}
use rt_fogros.Service.Queues.{queue, adds, IsComplete}
use rt_fogros.Service.Served.{served}
use rt_fogros.Service.EndToEnd.{arrive, topic_name, subscribers_of, names_here}
use rt_fogros.Network.Outgoing.{times}
use rt_fogros.Network.Published.{from_reader}
use rt_fogros.Network.Topic.{topic_carried}

-- A topic that complete requests at a machine add by `sub` among others has a task there, where the
-- ROS node makes all that it is asked for; and the messages that a machine with the same certificate
-- has read from the topic are written to the connection whose channel is registered once for the name
-- there, whatever else went through the forwarding table. The reader at the connection's other end,
-- however its stream cuts the bytes, hands them to the forwarding table with the subscriber's updates,
-- and the task of the name publishes each once and in order, no other task does, and nothing panics.
-- Conditions: no guid is drawn twice or has been processed before; no chunk is empty or the four bytes
-- "ping", none ends between a header and its NUL byte, and at most five begin inside a header.
pub requested_topic_carried :
    {j : Json} {chunks : List (List ℕ)} {n : ℕ} (laws : JsonLaws j) (sha256 : Sha256)
    (certificate : List ℕ) (node : GdpName) (p : RosTopicRequest) (ps qs : List RosTopicRequest)
    (file : ConfigFile) (es : List Event) (t : Table) (before : List Delivery) (c : Channel)
    (now : RosMessage → ℕ) (interface : RosMessage → Option Text) (random : ℕ → GdpName)
    (can_write : Bool) (d : Option Text) (file' : ConfigFile) (c' : Channel) (now' : GdpPacket → ℕ)
    (interface' : GdpPacket → Option Text) (ms : List RosMessage)
    → All IsComplete (ps ++ p ∷ qs)
    → adds subscriber p ≡ true
    → run (new_table file) es ≡ done (t, before)
    → times receiver c (subscribers (read_binding_table file) (topic_name sha256 certificate p) es)
      ≡ 1
    → All IsTaken ms
    → IsDistinct ms
    → All (Unseen t.processed_requests) ms
    → Feed j nothing chunks
        (frames j (packet_of node (topic_name sha256 certificate p)) (λ m. m.guid) ms)
        nothing
        n
    → n ≤ 5
    → let name = topic_name sha256 certificate p in
      let there = subscribers_of sha256 certificate c' (ps ++ p ∷ qs) in
      (contains name (names there.workers) ≡ true)
      × ((t' : Table) × (out : List Delivery) × (buffers : List (List ℕ)) × (r : Reader)
          × (packets : List GdpPacket) × (u : Table) × (u' : Table) × (ds : List Delivery) × (work
                (forward_message node name)
                ms
              ≡ goes_on (map (packet_of node name) ms))
          × (run t (map (arrival node name now interface) ms) ≡ done (t', out))
          × (send_all j (λ _ _. true) random (inbox c out) ≡ done buffers)
          × (concat chunks ≡ concat buffers)
          × (read_all j can_write (new_reader d) chunks ≡ done (r, packets))
          × (run (new_table file') (map change there.changes) ≡ done (u, []))
          × (run u (map (from_reader now' interface') packets) ≡ done (u', ds))
          × All
              (λ w.
                work (publish_packet w.topic_gdp_name) (map incoming (inbox w.ros_rx ds))
                ≡ goes_on (if name_beq w.topic_gdp_name name then map (λ m. m.bytes) ms else []))
              there.workers)
requested_topic_carried {j} laws sha256 certificate node p ps qs file es t before c now interface
      random can_write d file' c' now' interface' ms complete adds_it ran once taken distinct new
      feed few =
    (
      names_here sha256 certificate c' p ps qs complete adds_it,
      topic_carried j node (topic_name sha256 certificate p) laws sha256 file es t before c now
          interface random can_write d file' c'
          (map arrive (queue subscriber (served sha256 certificate (ps ++ p ∷ qs)).operations)) now'
          interface' ms ran once taken distinct new feed few,
    )
