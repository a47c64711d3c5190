-- ===== src/Network/Topic.antt =====
-- A topic from machine to machine over a KCP connection: the tasks of fogrs-ros/src/lib.rs, the
-- forwarding tables of fogrs-core/src/service_request_manager.rs and both halves of
-- `reader_and_writer` in fogrs-core/src/network/kcp.rs between them.
use rt_fogros.Prelude.{
  ℕ, ◌≤◌, ◌≡◌, refl, ap, ◌∙◌, arith, Text, Bool, true, Option, none, List, [], map, concat, All,
  if◌then◌else◌, done,
}
use rt_fogros.Prelude.Tasks.{work, goes_on}
use rt_fogros.Packet.Name.{GdpName, name_beq}
use rt_fogros.Packet.Types.{GdpPacket}
use rt_fogros.Packet.Header.{Json, JsonLaws}
use rt_fogros.Packet.Construct.{
  Sha256, construct_gdp_packet_with_guid, construct_gdp_forward_from_bytes_with_guid,
}
use rt_fogros.Framing.Frames.{nothing}
use rt_fogros.Framing.Stream.{Feed}
use rt_fogros.Framing.Reader.{Reader, new_reader, read_all}
use rt_fogros.Framing.Writer.{send_all}
use rt_fogros.Framing.Carried.{frames, carried}
use rt_fogros.Fib.Types.{Channel, receiver}
use rt_fogros.Fib.Binding.{ConfigFile, read_binding_table}
use rt_fogros.Fib.Table.{Table, Delivery}
use rt_fogros.Fib.Step.{Event, change, new_table, run}
use rt_fogros.Fib.Registrations.{subscribers}
use rt_fogros.Fib.Subscribers.{run-subscribers}
use rt_fogros.Fib.Complete.{subscribers-Runs}
use rt_fogros.Ros.Manager.{new_manager, Arrival, handle_ros_topic_remote_subscriber, serve}
use rt_fogros.Ros.Channels.{inbox}
use rt_fogros.Ros.Topics.{RosMessage, forward_message, publish_packet}
use rt_fogros.Ros.Messages.{IsDistinct, IsTaken, incoming, Unseen}
use rt_fogros.Ros.Transport.{packet_of, described, sent, work-forward_message, arrival, run-sent}
use rt_fogros.Network.Outgoing.{times, inbox-sent}
use rt_fogros.Network.Published.{from_reader, received-described, published_there}

module _ (j : Json) (node : GdpName) (name : GdpName) where
  -- Between the machines, from the messages of a ROS topic to the packets out of the reader.
  carried_there :
      {chunks : List (List ℕ)} {n : ℕ} (laws : JsonLaws j) (can_write : Bool) (random : ℕ → GdpName)
      (d : Option Text) (ms : List RosMessage)
      → Feed j nothing chunks (frames j (packet_of node name) (λ m. m.guid) ms) nothing n
      → n ≤ 5
      → (buffers : List (List ℕ)) × (r : Reader) × (send_all j
            (λ _ _. true)
            random
            (map (packet_of node name) ms)
          ≡ done buffers)
        × (concat chunks ≡ concat buffers)
        × (read_all j can_write (new_reader d) chunks ≡ done (r, map (described node name d) ms))
  unfolding construct_gdp_forward_from_bytes_with_guid
  carried_there laws can_write random d ms feed few =
      let (buffers, r, wrote, same, read, held) =
        carried j (packet_of node name) (λ m. m.guid) (λ m. refl) laws can_write (new_reader d) ms
          random feed refl (omega arith) in
      (
        buffers,
        r,
        wrote,
        same,
        read ∙ ap (λ ps. done (r, ps)) (received-described node name j d ms),
      )

  -- Here the forwarding table sends every message into the channel of the connection, once.
  sent_here :
      (file : ConfigFile) (es : List Event) (t : Table) (ds : List Delivery) (c : Channel)
      (now : RosMessage → ℕ) (interface : RosMessage → Option Text) (ms : List RosMessage)
      → run (new_table file) es ≡ done (t, ds)
      → times receiver c (subscribers (read_binding_table file) name es) ≡ 1
      → All (Unseen t.processed_requests) ms
      → IsDistinct ms
      → (t' : Table) × (out : List Delivery) × (run t (map (arrival node name now interface) ms)
          ≡ done (t', out))
        × (inbox c out ≡ map (packet_of node name) ms)
  unfolding construct_gdp_forward_from_bytes_with_guid construct_gdp_packet_with_guid
  sent_here file es t ds c now interface ms ran once new distinct =
      let rs = subscribers (read_binding_table file) name es in
      let (t', sends) = run-sent node name now interface none t ms new distinct in
      (
        t',
        _,
        sends,
        ap (λ l. inbox c (sent node name none l ms)) (run-subscribers file name es t ds ran)
            ∙ inbox-sent node name c rs none ms (subscribers-Runs (read_binding_table file) name es)
                once,
      )

  -- A topic from machine to machine: once a connection's channel is registered once for the name at
  -- the one machine, whatever else went through its forwarding table, the messages that the task of
  -- the topic has read are written to the connection, and the reader at its other end, however its
  -- stream cuts the bytes, hands them to the forwarding table of the other machine; there the task of
  -- the name publishes each once and in order, no other task does, and nothing panics. Conditions: no
  -- guid is drawn twice or has been processed before; no chunk is empty or the four bytes "ping",
  -- none ends between a header and its NUL byte, and at most five begin inside a header.
  pub topic_carried :
      {chunks : List (List ℕ)} {n : ℕ} (laws : JsonLaws j) (sha256 : Sha256) (file : ConfigFile)
      (es : List Event) (t : Table) (before : List Delivery) (c : Channel) (now : RosMessage → ℕ)
      (interface : RosMessage → Option Text) (random : ℕ → GdpName) (can_write : Bool)
      (d : Option Text) (file' : ConfigFile) (c' : Channel) (arrivals : List Arrival)
      (now' : GdpPacket → ℕ) (interface' : GdpPacket → Option Text) (ms : List RosMessage)
      → run (new_table file) es ≡ done (t, before)
      → times receiver c (subscribers (read_binding_table file) name es) ≡ 1
      → All IsTaken ms
      → IsDistinct ms
      → All (Unseen t.processed_requests) ms
      → Feed j nothing chunks (frames j (packet_of node name) (λ m. m.guid) ms) nothing n
      → n ≤ 5
      → let there = serve (handle_ros_topic_remote_subscriber sha256) (new_manager c') arrivals in
        (t' : Table) × (out : List Delivery) × (buffers : List (List ℕ)) × (r : Reader)
        × (packets : List GdpPacket) × (u : Table) × (u' : Table) × (ds : List Delivery) × (work
              (forward_message node name)
              ms
            ≡ goes_on (map (packet_of node name) ms))
        × (run t (map (arrival node name now interface) ms) ≡ done (t', out))
        × (send_all j (λ _ _. true) random (inbox c out) ≡ done buffers)
        × (concat chunks ≡ concat buffers)
        × (read_all j can_write (new_reader d) chunks ≡ done (r, packets))
        × (run (new_table file') (map change there.changes) ≡ done (u, []))
        × (run u (map (from_reader now' interface') packets) ≡ done (u', ds))
        × All
            (λ w.
              work (publish_packet w.topic_gdp_name) (map incoming (inbox w.ros_rx ds))
              ≡ goes_on (if name_beq w.topic_gdp_name name then map (λ m. m.bytes) ms else []))
            there.workers
  topic_carried laws sha256 file es t before c now interface random can_write d file' c' arrivals
        now' interface' ms ran once taken distinct new feed few =
      let (t', out, sends, put) =
        sent_here file es t before c now interface ms ran once new distinct in
      let (buffers, r, wrote, same, read) = carried_there laws can_write random d ms feed few in
      let (u, u', ds, subscribed, passed, published) =
        published_there node name now' interface' sha256 file' c' arrivals d ms distinct in
      (
        t',
        out,
        buffers,
        r,
        map (described node name d) ms,
        u,
        u',
        ds,
        work-forward_message node name ms taken,
        sends,
        ap (send_all j (λ _ _. true) random) put ∙ wrote,
        same,
        read,
        subscribed,
        passed,
        published,
      )
