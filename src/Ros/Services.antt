-- ===== src/Ros/Services.antt =====
-- The tasks that the two service handlers of fogrs-ros/src/lib.rs spawn. A channel stays open, since
-- the forwarding table keeps its sender.
use rt_fogros.Prelude.{ℕ, Text, Bool, Option, none, some, List, [], ◌∷◌, ◌++◌, if◌then◌else◌}
use rt_fogros.Packet.Name.{GdpName, name_beq}
use rt_fogros.Packet.Action.{request, action_beq}
use rt_fogros.Packet.Types.{GdpPacket}
use rt_fogros.Packet.Construct.{
  Sha256, construct_gdp_request_with_guid, construct_gdp_response_with_guid,
  generate_gdp_name_from_string,
}
use rt_fogros.Prelude.Tasks.{Task, goes_on, panics}

-- What the local ROS service does with a call: it does not take it, it gives no readable response, or
-- it gives one.
pub data ServiceAnswer : Type 0 where
  refused failed : ServiceAnswer
  answered : List ℕ → ServiceAnswer

-- A packet out of the channel of the task that calls the service, with the answer to the call, and
-- whether the forwarding table takes packets.
pub record IncomingCall : Type 0 where
  pub packet : GdpPacket
  pub answer : ServiceAnswer
  pub taken : Bool

-- A call of the local service, and the packet that goes to the forwarding table.
pub data CallOutput : Type 0 where
  call : List ℕ → CallOutput
  reply : GdpPacket → CallOutput

module _ (node : GdpName) (topic_gdp_name : GdpName) where
  abbrev pub reply_packet : List ℕ → Option GdpName → Bool → List ℕ → Task CallOutput
  reply_packet payload none taken resp = panics (call payload ∷ [])
  reply_packet payload (some guid) taken resp =
      if taken
      then goes_on (
          call payload
          ∷ reply (construct_gdp_response_with_guid topic_gdp_name node resp guid)
          ∷ [])
      else panics (call payload ∷ [])

  abbrev pub call_with : List ℕ → Option GdpName → Bool → ServiceAnswer → Task CallOutput
  call_with payload guid taken refused = panics []
  call_with payload guid taken failed = panics (call payload ∷ [])
  call_with payload guid taken (answered resp) = reply_packet payload guid taken resp

  abbrev pub call_payload :
      Option (List ℕ) → Option GdpName → Bool → ServiceAnswer → Task CallOutput
  call_payload none guid taken answer = panics []
  call_payload (some payload) guid taken answer = call_with payload guid taken answer

  -- The task of `handle_local_ros_service_caller`.
  unfoldable pub call_service : IncomingCall → Task CallOutput
  call_service incoming =
      if action_beq incoming.packet.action request
      then (if name_beq incoming.packet.gdpname topic_gdp_name
          then call_payload incoming.packet.payload incoming.packet.guid incoming.taken
              incoming.answer
          else goes_on [])
      else goes_on []

-- A request of the ROS service: its id as `Debug` prints it, its message, the packets that come into
-- the task's channel up to the end of the wait, and whether the table and the requester take what
-- they are sent.
pub record ServiceRequest : Type 0 where
  pub request_id : Text
  pub message : List ℕ
  pub arrivals : List GdpPacket
  pub taken : Bool
  pub responds : Bool

-- The packet to the forwarding table, and the answer to a requester: the bytes of a packet, or the
-- default message after a timeout.
pub data ServiceOutput : Type 0 where
  ask : GdpPacket → ServiceOutput
  answer : Text → Option (List ℕ) → ServiceOutput

-- What the task has put out, and what is left in its channel.
pub record Exchange : Type 0 where
  pub task : Task ServiceOutput
  pub ros_rx : List GdpPacket

abbrev pub answer_to : Text → Bool → GdpPacket → Option (List ℕ) → Task ServiceOutput
answer_to request_id responds packet message =
    if responds
    then goes_on (ask packet ∷ answer request_id message ∷ [])
    else panics (ask packet ∷ [])

abbrev pub answer_payload : Text → Bool → GdpPacket → Option (List ℕ) → Task ServiceOutput
answer_payload request_id responds packet none = panics (ask packet ∷ [])
answer_payload request_id responds packet (some payload) =
    answer_to request_id responds packet (some payload)

-- The `select!` on the channel and the timeout.
abbrev pub await_response : Text → Bool → GdpPacket → List GdpPacket → Exchange
await_response request_id responds packet [] = record {
  task = answer_to request_id responds packet none;
  ros_rx = [];
}
await_response request_id responds packet (p ∷ rest) = record {
  task = answer_payload request_id responds packet p.payload;
  ros_rx = rest;
}

module _ (sha256 : Sha256) (node : GdpName) (topic_gdp_name : GdpName) where
  abbrev pub request_packet : ServiceRequest → GdpPacket
  request_packet req =
      construct_gdp_request_with_guid topic_gdp_name node req.message
        (generate_gdp_name_from_string sha256 req.request_id)

  -- A round of the task of `handle_remote_ros_service`.
  unfoldable pub on_service_request : List GdpPacket → ServiceRequest → Exchange
  on_service_request ros_rx req =
      if req.taken
      then await_response req.request_id req.responds (request_packet req) (ros_rx ++ req.arrivals)
      else record { task = panics []; ros_rx = ros_rx }

  -- Its loop.
  unfoldable pub serve_requests : List GdpPacket → List ServiceRequest → Exchange
  serve_requests ros_rx [] = record { task = goes_on []; ros_rx = ros_rx }
  serve_requests ros_rx (req ∷ reqs) =
      let now = on_service_request ros_rx req in
      let rest = serve_requests now.ros_rx reqs in
      if now.task.alive
      then record {
        task = record { outputs = now.task.outputs ++ rest.task.outputs; alive = rest.task.alive };
        ros_rx = rest.ros_rx;
      }
      else now
