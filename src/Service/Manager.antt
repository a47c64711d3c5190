-- ===== src/Service/Manager.antt =====
-- `main_service_manager` of fogrs-core/src/service_manager.rs: where a request goes.
use rt_fogros.Prelude.{
  ℕ, Text, codes, text_beq, Bool, true, false, Option, none, some, List, [], ◌∷◌, ◌++◌,
  if◌then◌else◌, Outcome, done, panic, ◌>>=◌, unwrap,
}
use rt_fogros.Packet.Construct.{Sha256}
use rt_fogros.Fib.Types.{FibChangeAction}
use rt_fogros.Routing.Manager.{RoutingManagerRequest, handle_sender_routing}
use rt_fogros.Ros.Types.{TopicManagerAction, TopicManagerRequest}
use rt_fogros.Ros.Manager.{Role, publisher, subscriber, client, service}
use rt_fogros.Service.Request.{RosTopicRequest}

-- A message to one of the channels of the manager.
pub data Operation : Type 0 where
  topic : Role → TopicManagerRequest → Operation
  sender_routing : RoutingManagerRequest → Operation
  receiver_routing : RoutingManagerRequest → Operation

-- The arms of `"add"`.
unfoldable pub role_of : Text → Option Role
role_of ros_op =
    if text_beq ros_op (codes "client")
    then some client
    else if text_beq ros_op (codes "service")
    then some service
    else if text_beq ros_op (codes "pub")
    then some publisher
    else if text_beq ros_op (codes "sub")
    then some subscriber
    else none

abbrev pub topic_creator_request : List ℕ → RosTopicRequest → TopicManagerRequest
topic_creator_request certificate payload = record {
  action = TopicManagerAction.add;
  topic_name = payload.topic_name;
  topic_type = payload.topic_type;
  certificate = certificate;
}

abbrev pub on_add : List ℕ → RosTopicRequest → Option Role → List Operation
on_add certificate payload none = []
on_add certificate payload (some role) = topic role (topic_creator_request certificate payload) ∷ []

-- The two directions of `"routing"`.
pub data End : Type 0 where
  to_net from_net : End

-- The arms of `"routing"`.
unfoldable pub end_of : Text → Option End
end_of ros_op =
    if text_beq ros_op (codes "source")
    then some to_net
    else if text_beq ros_op (codes "destination")
    then some from_net
    else if text_beq ros_op (codes "pub")
    then some to_net
    else if text_beq ros_op (codes "sub")
    then some from_net
    else none

abbrev pub routing_request : List ℕ → RosTopicRequest → Text → Text → Text → RoutingManagerRequest
routing_request certificate payload qos connection_type url = record {
  action = FibChangeAction.add;
  topic_name = payload.topic_name;
  topic_type = payload.topic_type;
  topic_qos = qos;
  certificate = certificate;
  connection_type = some connection_type;
  communication_url = some url;
}

-- Whether the handlers of the two directions still take requests.
pub record Routers : Type 0 where
  pub sender_open : Bool
  pub receiver_open : Bool

abbrev pub url_of : RosTopicRequest → End → Option Text
url_of payload to_net = payload.forward_sender_url
url_of payload from_net = payload.forward_receiver_url

abbrev pub is_open : Routers → End → Bool
is_open routers to_net = routers.sender_open
is_open routers from_net = routers.receiver_open

abbrev pub routing : End → RoutingManagerRequest → Operation
routing to_net = sender_routing
routing from_net = receiver_routing

-- The connection type and the address are unwrapped, and the channel must be open.
abbrev pub on_end :
    List ℕ → Routers → RosTopicRequest → Text → Option End → Outcome (List Operation)
on_end certificate routers payload qos none = done []
on_end certificate routers payload qos (some e) = do
  connection_type ← unwrap payload.connection_type
  url ← unwrap (url_of payload e)
  if is_open routers e
      then done (routing e (routing_request certificate payload qos connection_type url) ∷ [])
      else panic

-- A request: what is sent to the handlers.
unfoldable pub dispatch : List ℕ → Routers → RosTopicRequest → Outcome (List Operation)
dispatch certificate routers payload =
    if text_beq payload.api_op (codes "add")
    then done (on_add certificate payload (role_of payload.ros_op))
    else if text_beq payload.api_op (codes "routing")
    then (do
      qos ← unwrap payload.topic_qos
      on_end certificate routers payload qos (end_of payload.ros_op))
    else done []

-- What is left of the handler of the sender once it has taken its request: it unwraps the direction in
-- its own loop, so an invalid one ends it.
abbrev pub is_done : {A : Type 0} → Outcome A → Bool
is_done (done a) = true
is_done panic = false

abbrev pub after_operation : Sha256 → Routers → Operation → Routers
after_operation sha256 routers (sender_routing request) = record routers {
  sender_open = is_done (handle_sender_routing sha256 request);
}
after_operation sha256 routers _ = routers

abbrev pub after_operations : Sha256 → Routers → List Operation → Routers
after_operations sha256 routers [] = routers
after_operations sha256 routers (o ∷ os) =
    after_operations sha256 (after_operation sha256 routers o) os

-- What has been sent, and whether the manager is still there.
pub record Managed : Type 0 where
  pub operations : List Operation
  pub routers : Routers
  pub alive : Bool

-- A request and the rest of the loop: a panic ends it.
abbrev pub then_serve : Outcome (List Operation) → Routers → (List Operation → Managed) → Managed
then_serve panic routers rest = record { operations = []; routers = routers; alive = false }
then_serve (done os) routers rest = record (rest os) { operations = os ++ (rest os).operations }

-- The loop, where each handler has taken a request before the next one comes.
module _ (sha256 : Sha256) (certificate : List ℕ) where
  unfoldable pub main_service_manager : Routers → List RosTopicRequest → Managed
  main_service_manager routers [] = record { operations = []; routers = routers; alive = true }
  main_service_manager routers (p ∷ ps) =
      then_serve (dispatch certificate routers p) routers
        (λ os. main_service_manager (after_operations sha256 routers os) ps)
