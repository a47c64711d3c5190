-- ===== src/Ros/Transport.antt =====
-- The way of a ROS topic: from the task of `handle_ros_topic_remote_publisher` through a forwarding
-- table to the task of `handle_ros_topic_remote_subscriber`.
use rt_fogros.Prelude.{
  ℕ, ◌≡◌, refl, sym, ap, ◌∙◌, Text, true, Bool-cases, inl, inr, Option, none, List, [], ◌∷◌, ◌++◌,
  map, All, if◌then◌else◌, contains, option_eq, done,
}
use rt_fogros.Prelude.Assoc.{get}
use rt_fogros.Packet.Name.{GdpName, name_beq, name_eq, name_beq_iff}
use rt_fogros.Packet.Action.{forward, to_u8}
use rt_fogros.Packet.Construct.{
  Sha256, construct_gdp_forward_from_bytes_with_guid, construct_gdp_packet_with_guid,
}
use rt_fogros.Packet.Types.{GdpPacket}
use rt_fogros.Fib.Types.{FibConnection, Channel, receiver}
use rt_fogros.Fib.Binding.{ConfigFile}
use rt_fogros.Fib.Table.{Table, Delivery, receivers_of, deliver}
use rt_fogros.Fib.Forward.{mark_processed, on_forward}
use rt_fogros.Fib.Step.{Event, packet, change, new_table, step, run}
use rt_fogros.Prelude.Tasks.{work, goes_on}
use rt_fogros.Ros.Manager.{new_manager, Worker, Arrival, handle_ros_topic_remote_subscriber, serve}
use rt_fogros.Ros.Channels.{inbox, inbox-append}
use rt_fogros.Ros.Subscriptions.{Gets, turn, subscriber_table, workers_get}
use rt_fogros.Ros.Topics.{RosMessage, forward_message, publish_packet}
use rt_fogros.Ros.Messages.{IsDistinct, IsTaken, incoming, Unseen, Unseen-next}

module _ (node : GdpName) (name : GdpName) where
  abbrev pub packet_of : RosMessage → GdpPacket
  packet_of m = construct_gdp_forward_from_bytes_with_guid name node m.bytes m.guid

  -- The publisher's task puts out every message.
  pub work-forward_message :
      (ms : List RosMessage)
      → All IsTaken ms
      → work (forward_message node name) ms ≡ goes_on (map packet_of ms)
  unfolding work forward_message
  work-forward_message [] h = refl
  work-forward_message (m ∷ ms) h = rw (h.0, work-forward_message ms h.1) refl

  -- The packet as it comes from a reader with a description, or from the task with none.
  abbrev pub described : Option Text → RosMessage → GdpPacket
  described description m =
      construct_gdp_packet_with_guid forward name node m.bytes m.guid description

  -- A worker's task gets the packets of its name, and publishes what the publisher has read.
  work-publish_packet :
      (d : Option Text) (w : Worker) (ms : List RosMessage)
      → work
          (publish_packet w.topic_gdp_name)
          (map incoming (if name_beq w.topic_gdp_name name then map (described d) ms else []))
        ≡ goes_on (if name_beq w.topic_gdp_name name then map (λ m. m.bytes) ms else [])
  unfolding work publish_packet construct_gdp_packet_with_guid to_u8
  work-publish_packet d w ms = elim (Bool-cases (name_beq w.topic_gdp_name name)) [
    | inr other ↦ rw other refl
    | inl same ↦ rw same (published ms same)
  ]
    where
      published :
          (ls : List RosMessage)
          → name_beq w.topic_gdp_name name ≡ true
          → work (publish_packet w.topic_gdp_name) (map incoming (map (described d) ls))
            ≡ goes_on (map (λ m. m.bytes) ls)
      published [] same = refl
      published (l ∷ ls) same =
          let e = sym ((name_beq_iff w.topic_gdp_name name).0 same) in
          rw ((name_beq_iff name w.topic_gdp_name).1 e, published ls same) refl

  abbrev pub Inbox : Option Text → List Delivery → List RosMessage → Worker → Type 0
  Inbox d ds ms w =
      inbox w.ros_rx ds ≡ (if name_beq w.topic_gdp_name name then map (described d) ms else [])

  pub tasks_publish :
      (d : Option Text) (ds : List Delivery) (ms : List RosMessage) (ws : List Worker)
      → All (Inbox d ds ms) ws
      → All
          (λ w.
            work (publish_packet w.topic_gdp_name) (map incoming (inbox w.ros_rx ds))
            ≡ goes_on (if name_beq w.topic_gdp_name name then map (λ m. m.bytes) ms else []))
          ws
  tasks_publish d ds ms [] h = tt
  tasks_publish d ds ms (w ∷ ws) h = (
    ap (λ ps. work (publish_packet w.topic_gdp_name) (map incoming ps)) h.0
        ∙ work-publish_packet d w ms,
    tasks_publish d ds ms ws h.1,
  )

  -- What the table sends for the messages, whose name has the connections.
  abbrev pub sent : Option Text → List FibConnection → List RosMessage → List Delivery
  sent d rs [] = []
  sent d rs (m ∷ ms) = deliver receiver (described d m) rs ++ sent d rs ms

  Inbox-cons :
      (d : Option Text) (ds es : List Delivery) (m : RosMessage) (ms : List RosMessage)
      (ws : List Worker)
      → All (Inbox d ds (m ∷ [])) ws
      → All (Inbox d es ms) ws
      → All (Inbox d (ds ++ es) (m ∷ ms)) ws
  Inbox-cons d ds es m ms [] h k = tt
  Inbox-cons d ds es m ms (w ∷ ws) h k = (
    inbox-append w.ros_rx ds es ∙ elim (Bool-cases (name_beq w.topic_gdp_name name)) [
      | inl same ↦ rw (h.0, k.0, same) refl
      | inr other ↦ rw (h.0, k.0, other) refl
    ],
    Inbox-cons d ds es m ms ws h.1 k.1,
  )

  Inbox-none : (d : Option Text) (ws : List Worker) → All (Inbox d [] []) ws
  Inbox-none d [] = tt
  Inbox-none d (w ∷ ws) = (
    elim (Bool-cases (name_beq w.topic_gdp_name name)) [
      | inl same ↦ rw same refl
      | inr other ↦ rw other refl
    ],
    Inbox-none d ws,
  )

  pub Inbox-sent :
      (d : Option Text) (t : Table) (ws : List Worker) (ms : List RosMessage)
      → ((m : RosMessage) → All (Gets t (described d m)) ws)
      → All (Inbox d (sent d (receivers_of (get name t.rib_state_table)) ms) ms) ws
  unfolding construct_gdp_packet_with_guid
  Inbox-sent d t ws [] h = Inbox-none d ws
  Inbox-sent d t ws (m ∷ ms) h = Inbox-cons d _ _ m ms ws (h m) (Inbox-sent d t ws ms h)

  module _ (now : RosMessage → ℕ) (interface : RosMessage → Option Text) where
    abbrev pub arrival : RosMessage → Event
    arrival m = packet (now m) (interface m) (packet_of m)

    abbrev pub arrives : Option Text → RosMessage → Event
    arrives d m = packet (now m) (interface m) (described d m)

    pub run-sent :
        (d : Option Text) (t : Table) (ms : List RosMessage)
        → All (Unseen t.processed_requests) ms
        → IsDistinct ms
        → (t' : Table) × (run t (map (arrives d) ms)
            ≡ done (t', sent d (receivers_of (get name t.rib_state_table)) ms))
    unfolding run step on_forward construct_gdp_packet_with_guid
    run-sent d t [] h new = (t, refl)
    run-sent d t (m ∷ ms) h new =
        let rs = receivers_of (get name t.rib_state_table) in
        let t' = record t {
          processed_requests = mark_processed (described d m) rs t.processed_requests;
        } in
        let (t'', e) =
          run-sent d t' ms
            (Unseen-next (described d m) m.guid rs t.processed_requests ms refl new.0 h.1) new.1 in
        (t'', rw (h.0, e) refl)

pub Unseen-nil : (ms : List RosMessage) → All (Unseen []) ms
unfolding contains
Unseen-nil [] = tt
Unseen-nil (m ∷ ms) = (refl, Unseen-nil ms)

-- The messages that a ROS topic's task has read are published once each, in order, by the task of the
-- same name at a machine whose table has taken its subscriber's updates, and by no other task, if no
-- guid is drawn twice: neither table nor task panics, and a topic that is requested again changes
-- nothing.
pub topic_published :
    (file : ConfigFile) (sha256 : Sha256) (c : Channel) (arrivals : List Arrival) (node : GdpName)
    (name : GdpName) (now : RosMessage → ℕ) (interface : RosMessage → Option Text)
    (ms : List RosMessage)
    → All IsTaken ms
    → IsDistinct ms
    → let there = serve (handle_ros_topic_remote_subscriber sha256) (new_manager c) arrivals in
      (t : Table) × (t' : Table) × (ds : List Delivery) × (run
          (new_table file)
          (map change there.changes)
        ≡ done (t, []))
      × (run t (map (arrival node name now interface) ms) ≡ done (t', ds))
      × (work (forward_message node name) ms ≡ goes_on (map (packet_of node name) ms))
      × All
          (λ w.
            work (publish_packet w.topic_gdp_name) (map incoming (inbox w.ros_rx ds))
            ≡ goes_on (if name_beq w.topic_gdp_name name then map (λ m. m.bytes) ms else []))
          there.workers
unfolding construct_gdp_forward_from_bytes_with_guid construct_gdp_packet_with_guid
topic_published file sha256 c arrivals node name now interface ms taken distinct =
    let (t, h) = subscriber_table file sha256 c arrivals in
    let there = turn file sha256 c arrivals in
    let (t', ran) = run-sent node name now interface none t ms (rw h.1 (Unseen-nil ms)) distinct in
    (
      t,
      t',
      _,
      h.0,
      ran,
      work-forward_message node name ms taken,
      tasks_publish node name none _ ms there.workers (
          Inbox-sent node name none t there.workers ms
            (λ m. workers_get file sha256 c arrivals t (described node name none m) h)),
    )
