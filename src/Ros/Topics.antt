-- ===== src/Ros/Topics.antt =====
-- The tasks that the two topic handlers of fogrs-ros/src/lib.rs spawn. A channel stays open, since the
-- forwarding table keeps its sender.
use rt_fogros.Prelude.{ℕ, Bool, Option, none, some, List, [], ◌∷◌, if◌then◌else◌}
use rt_fogros.Packet.Name.{GdpName, name_beq}
use rt_fogros.Packet.Action.{forward, action_beq}
use rt_fogros.Packet.Types.{GdpPacket}
use rt_fogros.Packet.Construct.{construct_gdp_forward_from_bytes_with_guid}
use rt_fogros.Prelude.Tasks.{Task, goes_on, panics}

-- A ROS message, with the random name drawn for it and whether the forwarding table takes packets.
pub record RosMessage : Type 0 where
  pub bytes : List ℕ
  pub guid : GdpName
  pub taken : Bool

-- The task of `handle_ros_topic_remote_publisher`: a message of the ROS topic becomes a packet.
unfoldable pub forward_message : GdpName → GdpName → RosMessage → Task GdpPacket
forward_message node topic_gdp_name message =
    if message.taken
    then goes_on (
        construct_gdp_forward_from_bytes_with_guid topic_gdp_name node message.bytes message.guid
        ∷ [])
    else panics []

-- A packet out of the task's channel, with whether the ROS publisher takes what is published.
pub record Incoming : Type 0 where
  pub packet : GdpPacket
  pub taken : Bool

-- `publisher.publish(payload.clone()).unwrap()`, the payload unwrapped before.
abbrev pub publish : Option (List ℕ) → Bool → Task (List ℕ)
publish none taken = panics []
publish (some payload) taken = if taken then goes_on (payload ∷ []) else panics []

-- The task of `handle_ros_topic_remote_subscriber`: the payloads that it publishes to the ROS topic.
unfoldable pub publish_packet : GdpName → Incoming → Task (List ℕ)
publish_packet topic_gdp_name incoming =
    if action_beq incoming.packet.action forward
    then (if name_beq incoming.packet.gdpname topic_gdp_name
        then publish incoming.packet.payload incoming.taken
        else goes_on [])
    else goes_on []
