-- ===== src/Network/Published.antt =====
-- The messages of a topic at the machine that publishes them: the forwarding table of fogrs-core/src/service_request_manager.rs and the tasks of fogrs-ros/src/lib.rs, from the packets that a reader sends.
use rt_fogros.Prelude.{
  ℕ, ◌≡◌, refl, ap, ◌∙◌, Text, Option, List, [], ◌∷◌, map, All, if◌then◌else◌, done,
}
use rt_fogros.Prelude.Tasks.{work, goes_on}
use rt_fogros.Packet.Name.{GdpName, name_beq}
use rt_fogros.Packet.Action.{forward}
use mathlib.Core.Path.{ap₂}
use rt_fogros.Packet.Types.{GdpPacket}
use rt_fogros.Packet.Header.{Json}
use rt_fogros.Packet.Construct.{
  Sha256, construct_gdp_packet_with_guid, construct_gdp_forward_from_bytes_with_guid,
}
use rt_fogros.Framing.RoundTrip.{received}
use rt_fogros.Framing.Carried.{header_of}
use rt_fogros.Fib.Types.{Channel}
use rt_fogros.Fib.Binding.{ConfigFile}
use rt_fogros.Fib.Table.{Table, Delivery}
use rt_fogros.Fib.Step.{Event, packet, change, new_table, run}
use rt_fogros.Ros.Manager.{new_manager, Arrival, handle_ros_topic_remote_subscriber, serve}
use rt_fogros.Ros.Channels.{inbox}
use rt_fogros.Ros.Subscriptions.{turn, subscriber_table, workers_get}
use rt_fogros.Ros.Topics.{RosMessage, publish_packet}
use rt_fogros.Ros.Messages.{IsDistinct, incoming}
use rt_fogros.Ros.Transport.{
  packet_of, described, arrives, run-sent, tasks_publish, Inbox-sent, Unseen-nil,
}
use rt_fogros.Network.Hop.{received-packet_with}

module _ (now : GdpPacket → ℕ) (interface : GdpPacket → Option Text) where
  -- A packet out of the reader, as the forwarding task receives it.
  abbrev pub from_reader : GdpPacket → Event
  from_reader pkt = packet (now pkt) (interface pkt) pkt

module _ (node : GdpName) (name : GdpName) where
  -- What the reader at the other end makes of a message.
  pub received-described :
      (j : Json) (d : Option Text) (ms : List RosMessage)
      → map
          (λ m. received j d (packet_of node name m) (header_of j (packet_of node name m) m.guid))
          ms
        ≡ map (described node name d) ms
  unfolding construct_gdp_forward_from_bytes_with_guid construct_gdp_packet_with_guid
  received-described j d [] = refl
  received-described j d (m ∷ ms) =
      ap₂ (◌∷◌) (received-packet_with forward name node m.bytes m.guid j d)
        (received-described j d ms)

  module _ (now : GdpPacket → ℕ) (interface : GdpPacket → Option Text) where
    map-from_reader :
        (d : Option Text) (ms : List RosMessage)
        → map (from_reader now interface) (map (described node name d) ms)
          ≡ map
              (arrives node name
                (λ m. now (described node name d m))
                (λ m. interface (described node name d m))
                d)
              ms
    map-from_reader d [] = refl
    map-from_reader d (m ∷ ms) =
        ap (◌∷◌ (from_reader now interface (described node name d m))) (map-from_reader d ms)

    module _ (sha256 : Sha256) (file : ConfigFile) (c : Channel) (arrivals : List Arrival)
        (d : Option Text) where
      -- At the machine with the subscriber.
      pub published_there :
          (ms : List RosMessage)
          → IsDistinct ms
          → let there =
              serve (handle_ros_topic_remote_subscriber sha256) (new_manager c) arrivals in
            (u : Table) × (u' : Table) × (ds : List Delivery) × (run
                (new_table file)
                (map change there.changes)
              ≡ done (u, []))
            × (run u (map (from_reader now interface) (map (described node name d) ms))
                ≡ done (u', ds))
            × All
                (λ w.
                  work (publish_packet w.topic_gdp_name) (map incoming (inbox w.ros_rx ds))
                  ≡ goes_on (if name_beq w.topic_gdp_name name then map (λ m. m.bytes) ms else []))
                there.workers
      published_there ms distinct =
          let (u, h) = subscriber_table file sha256 c arrivals in
          let there = turn file sha256 c arrivals in
          let (u', ran) =
            run-sent node name (λ m. now (described node name d m))
              (λ m. interface (described node name d m)) d u ms (rw h.1 (Unseen-nil ms)) distinct in
          (
            u,
            u',
            _,
            h.0,
            ap (run u) (map-from_reader d ms) ∙ ran,
            tasks_publish node name d _ ms there.workers (
                Inbox-sent node name d u there.workers ms
                  (λ m. workers_get file sha256 c arrivals u (described node name d m) h)),
          )
