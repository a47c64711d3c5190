-- ===== src/Service/Request.antt =====
-- A request of the HTTP interface, of fogrs-core/src/api_server.rs, and its two handlers.
use rt_fogros.Prelude.{
  Text, codes, text_beq, Bool, Option, none, some, List, [], ◌∷◌, if◌then◌else◌, Outcome, done,
  panic,
}

pub record RosTopicRequest : Type 0 where
  pub api_op : Text
  pub ros_op : Text
  pub crypto : Text
  pub topic_name : Text
  pub topic_type : Text
  pub topic_qos : Option Text
  pub connection_type : Option Text
  pub forward_sender_url : Option Text
  pub forward_receiver_url : Option Text

pub record RosResponse : Type 0 where
  pub result : Text

-- Whether the receivers of the two channels are still there.
pub record AppState : Type 0 where
  pub tx : Bool
  pub service_tx : Bool

-- What a handler puts into the two channels, and what it answers with `201 Created`.
pub record Reply : Type 0 where
  pub topic_requests : List RosTopicRequest
  pub service_requests : List RosTopicRequest
  pub response : RosResponse

abbrev result_done : RosResponse
result_done = record { result = codes "done" }

-- No route leads to it.
unfoldable pub handle_ros_topic : AppState → RosTopicRequest → Outcome Reply
handle_ros_topic state payload =
    if state.tx
    then done
        (record { topic_requests = payload ∷ []; service_requests = []; response = result_done })
    else panic

unfoldable pub handle_ros_service : AppState → RosTopicRequest → Outcome Reply
handle_ros_service state payload =
    if state.service_tx
    then done
        (record { topic_requests = []; service_requests = payload ∷ []; response = result_done })
    else panic

-- The routes that take a POST; `none` is a path that the router refuses.
unfoldable pub post : Text → AppState → RosTopicRequest → Option (Outcome Reply)
post path state payload =
    if text_beq path (codes "/topic")
    then some (handle_ros_service state payload)
    else if text_beq path (codes "/service")
    then some (handle_ros_service state payload)
    else none
