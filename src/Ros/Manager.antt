-- ===== src/Ros/Manager.antt =====
-- The four handlers of `ROSManager`: a request for a topic or a service, up to the task that is
-- spawned for it. A channel is its number; a request takes the next one.
use rt_fogros.Prelude.{
  suc, Text, codes, Bool, true, false, some, List, [], ◌∷◌, ◌++◌, if◌then◌else◌, contains,
}
use rt_fogros.Packet.Name.{GdpName, name_eq}
use rt_fogros.Packet.Construct.{Sha256, get_gdp_name_from_topic}
use rt_fogros.Fib.Types.{
  FibChangeAction, FibConnectionType, sender, receiver, request_receiver, response_receiver,
  FibStateChange, Channel,
}
use rt_fogros.Ros.Types.{TopicManagerRequest, is_add}

-- The state of a handler: its `existing_topics`, and the number of the next channel.
pub record Manager : Type 0 where
  pub existing_topics : List GdpName
  pub next_channel : Channel

abbrev pub new_manager : Channel → Manager
new_manager next_channel = record { existing_topics = []; next_channel = next_channel }

-- What a spawned task owns.
pub record Worker : Type 0 where
  pub topic_gdp_name : GdpName
  pub topic_name : Text
  pub topic_type : Text
  pub ros_rx : Channel

-- A request handled: the changes sent to the forwarding table, the tasks spawned, and whether the
-- handler goes on.
pub record Turn : Type 0 where
  pub manager : Manager
  pub changes : List FibStateChange
  pub workers : List Worker
  pub alive : Bool

abbrev pub turn : Manager → List FibStateChange → Turn
turn m changes = record { manager = m; changes = changes; workers = []; alive = true }

-- `mpsc::unbounded_channel()`
abbrev pub open_channel : Manager → Manager
open_channel m = record m { next_channel = suc m.next_channel }

abbrev pub worker_of : Sha256 → Manager → TopicManagerRequest → Worker
worker_of sha256 m request = record {
  topic_gdp_name =
      get_gdp_name_from_topic sha256 request.topic_name request.topic_type request.certificate;
  topic_name = request.topic_name;
  topic_type = request.topic_type;
  ros_rx = m.next_channel;
}

-- `channel_update_msg`
abbrev pub channel_update : FibConnectionType → Text → Worker → FibStateChange
channel_update kind description w = record {
  action = FibChangeAction.add;
  connection_type = kind;
  topic_gdp_name = w.topic_gdp_name;
  forward_destination = some w.ros_rx;
  interface = some (codes "ros");
  address = some w.topic_name;
  description = some description;
}

-- A name that is new is kept and the node is asked for the subscriber, publisher, client or service
-- of the task: without it the handler panics.
abbrev pub spawn : Bool → Manager → Worker → List FibStateChange → Turn
spawn created m w changes = record {
  manager = record m { existing_topics = m.existing_topics ++ w.topic_gdp_name ∷ [] };
  changes = changes;
  workers = if created then w ∷ [] else [];
  alive = created;
}

-- The update is sent before the name is looked up (`repeats`), or for a name that is new only.
abbrev pub announce : Bool → FibConnectionType → Text → Bool → Manager → Worker → Turn
announce repeats kind description created m w =
    let update = channel_update kind description w in
    if contains w.topic_gdp_name m.existing_topics
    then turn (open_channel m) (if repeats then update ∷ [] else [])
    else spawn created (open_channel m) w (update ∷ [])

-- A handler takes a request with whether the node makes what it is asked for.
abbrev pub Handler : Type 0
Handler = Bool → Manager → TopicManagerRequest → Turn

-- Only `ADD` is supported.
abbrev pub on_add : (Bool → Manager → Worker → Turn) → Sha256 → Handler
on_add announced sha256 created m request =
    if is_add request.action then announced created m (worker_of sha256 m request) else turn m []

unfoldable pub handle_ros_topic_remote_publisher : Sha256 → Handler
handle_ros_topic_remote_publisher = on_add (announce false sender (codes "ros topic send"))

unfoldable pub handle_ros_topic_remote_subscriber : Sha256 → Handler
handle_ros_topic_remote_subscriber = on_add (announce true receiver (codes "ros topic receive"))

unfoldable pub handle_local_ros_service_caller : Sha256 → Handler
handle_local_ros_service_caller =
    on_add (announce true request_receiver (codes "ros service request"))

unfoldable pub handle_remote_ros_service : Sha256 → Handler
handle_remote_ros_service = on_add (announce false response_receiver (codes "ros service response"))

-- The four tasks that `main_service_manager` starts, by the names of their channels.
pub data Role : Type 0 where
  publisher subscriber client service : Role

unfoldable pub handler_of : Role → Sha256 → Handler
handler_of publisher = handle_ros_topic_remote_publisher
handler_of subscriber = handle_ros_topic_remote_subscriber
handler_of client = handle_remote_ros_service
handler_of service = handle_local_ros_service_caller

-- A request as it is received, with what the node answers.
pub record Arrival : Type 0 where
  pub request : TopicManagerRequest
  pub created : Bool

-- The loop of a handler: one request after the other, until it panics.
unfoldable pub serve : Handler → Manager → List Arrival → Turn
serve handle m [] = turn m []
serve handle m (a ∷ later) =
    let now = handle a.created m a.request in
    let rest = serve handle now.manager later in
    if now.alive
    then record {
      manager = rest.manager;
      changes = now.changes ++ rest.changes;
      workers = now.workers ++ rest.workers;
      alive = rest.alive;
    }
    else now
