-- ===== src/Service/EndToEnd.antt =====
-- A topic from the HTTP requests of two machines to what is published: service_manager.rs and
-- service_request_manager.rs of fogrs-core and the handlers of fogrs-ros/src/lib.rs together.
use rt_fogros.Prelude.{
  ℕ, ◌≡◌, refl, ap, ◌∙◌, true, Bool-cases, inl, inr, Option, List, [], ◌∷◌, ◌++◌, map, All,
  if◌then◌else◌, contains, Text, done, beq_refl,
}
use rt_fogros.Packet.Name.{GdpName, name_beq, name_eq}
use rt_fogros.Packet.Construct.{Sha256, get_gdp_name_from_topic}
use rt_fogros.Fib.Types.{Channel}
use rt_fogros.Fib.Binding.{ConfigFile}
use rt_fogros.Fib.Table.{Table, Delivery}
use rt_fogros.Fib.Step.{change, new_table, run}
use rt_fogros.Prelude.Tasks.{work, goes_on}
use rt_fogros.Ros.Types.{TopicManagerRequest}
use rt_fogros.Ros.Manager.{
  new_manager, Turn, Role, subscriber, Arrival, handler_of, handle_ros_topic_remote_subscriber,
  serve,
}
use rt_fogros.Ros.Names.{contains-distinct, added, names, IsCreated}
use rt_fogros.Ros.Existing.{serve-registers}
use rt_fogros.Ros.Channels.{inbox}
use rt_fogros.Ros.Topics.{RosMessage, forward_message, publish_packet}
use rt_fogros.Ros.Messages.{IsDistinct, IsTaken, incoming}
use rt_fogros.Ros.Transport.{packet_of, arrival, topic_published}
use rt_fogros.Service.Request.{RosTopicRequest}
use rt_fogros.Service.Queues.{queue, adds, wanted, IsComplete}
use rt_fogros.Service.Served.{served, served-wanted}

-- A request that the node serves.
abbrev pub arrive : TopicManagerRequest → Arrival
arrive r = record { request = r; created = true }

map-arrive-IsCreated : (rs : List TopicManagerRequest) → All IsCreated (map arrive rs)
map-arrive-IsCreated [] = tt
map-arrive-IsCreated (r ∷ rs) = (refl, map-arrive-IsCreated rs)

module _ (sha256 : Sha256) (certificate : List ℕ) where
  -- The name of a request's topic.
  abbrev pub topic_name : RosTopicRequest → GdpName
  topic_name p = get_gdp_name_from_topic sha256 p.topic_name p.topic_type certificate

  wanted_here :
      (role : Role) (p : RosTopicRequest) (ps qs : List RosTopicRequest)
      → adds role p ≡ true
      → contains (topic_name p) (added sha256 (map arrive (wanted certificate role (ps ++ p ∷ qs))))
        ≡ true
  unfolding contains
  wanted_here role p [] qs h = rw (h, beq_refl (topic_name p)) refl
  wanted_here role p (o ∷ ps) qs h =
      let later = wanted_here role p ps qs h in
      elim (Bool-cases (adds role o)) [
        | inl e ↦ elim (Bool-cases (name_beq (topic_name o) (topic_name p))) [
          | inl same ↦ rw (e, same) refl
          | inr other ↦ rw (e, other, later) refl
        ]
        | inr e ↦ rw (e, later) refl
      ]

  -- The handler of subscribers behind the manager.
  abbrev pub subscribers_of : Channel → List RosTopicRequest → Turn
  subscribers_of c ps =
      serve (handle_ros_topic_remote_subscriber sha256) (new_manager c)
        (map arrive (queue subscriber (served sha256 certificate ps).operations))

  pub names_here :
      (c : Channel) (p : RosTopicRequest) (ps qs : List RosTopicRequest)
      → All IsComplete (ps ++ p ∷ qs)
      → adds subscriber p ≡ true
      → contains (topic_name p) (names (subscribers_of c (ps ++ p ∷ qs)).workers) ≡ true
  unfolding handler_of
  names_here c p ps qs h e =
      let rs = queue subscriber (served sha256 certificate (ps ++ p ∷ qs)).operations in
      let (alive, queued) = served-wanted sha256 certificate (ps ++ p ∷ qs) subscriber h in
      ap (contains (topic_name p))
        (serve-registers subscriber sha256 c (map arrive rs) (map-arrive-IsCreated rs)).1
      ∙ contains-distinct (topic_name p) (added sha256 (map arrive rs)) (
          ap (λ l. contains (topic_name p) (added sha256 (map arrive l))) queued
          ∙ wanted_here subscriber p ps qs e)

  -- Where complete requests at a machine add a topic by `sub` among others, and the ROS node makes all
  -- that it is asked for, a task of the topic's name is there; and of the messages that a machine with
  -- the same certificate has read from the topic, and that come to a forwarding table with the
  -- subscriber's updates, it publishes each once and in order, no other task does, and nothing panics,
  -- if no guid is drawn twice.
  pub requested_topic_published :
      (file : ConfigFile) (c : Channel) (node : GdpName) (p : RosTopicRequest)
      (ps qs : List RosTopicRequest) (now : RosMessage → ℕ) (interface : RosMessage → Option Text)
      (ms : List RosMessage)
      → All IsComplete (ps ++ p ∷ qs)
      → adds subscriber p ≡ true
      → All IsTaken ms
      → IsDistinct ms
      → let there = subscribers_of c (ps ++ p ∷ qs) in
        let name = topic_name p in
        (contains name (names there.workers) ≡ true)
        × ((t : Table) × (t' : Table) × (ds : List Delivery) × (run
                (new_table file)
                (map change there.changes)
              ≡ done (t, []))
            × (run t (map (arrival node name now interface) ms) ≡ done (t', ds))
            × (work (forward_message node name) ms ≡ goes_on (map (packet_of node name) ms))
            × All
                (λ w.
                  work (publish_packet w.topic_gdp_name) (map incoming (inbox w.ros_rx ds))
                  ≡ goes_on (if name_beq w.topic_gdp_name name then map (λ m. m.bytes) ms else []))
                there.workers)
  requested_topic_published file c node p ps qs now interface ms h e taken distinct_guids = (
    names_here c p ps qs h e,
    topic_published file sha256 c
        (map arrive (queue subscriber (served sha256 certificate (ps ++ p ∷ qs)).operations)) node
        (topic_name p) now interface ms taken distinct_guids,
  )
