-- ===== src/Routing/Manager.antt =====
-- `RoutingManager` of fogrs-core/src/routing_manager.rs and the requests it takes, of
-- fogrs-common/src/fib_structs.rs.
use rt_fogros.Prelude.{ℕ, Text, codes, Option, List, ◌++◌, Outcome, done, ◌>>=◌, unwrap}
use rt_fogros.Packet.Name.{GdpName}
use rt_fogros.Fib.Types.{FibChangeAction}
use rt_fogros.Packet.Hex.{display_name}
use rt_fogros.Packet.Construct.{Sha256, get_gdp_name_from_topic}
use rt_fogros.Routing.Direction.{direction_str_to_connection_type, flip_direction}

pub record RoutingManagerRequest : Type 0 where
  pub action : FibChangeAction
  pub topic_name : Text
  pub topic_type : Text
  pub topic_qos : Text
  pub certificate : List ℕ
  pub connection_type : Option Text
  pub communication_url : Option Text

-- What a request is turned into: the arguments of `register_stream_sender` or
-- `register_stream_receiver`, the KCP configuration by the name of its mode.
pub record Route : Type 0 where
  pub topic_gdp_name : GdpName
  pub direction : Text
  pub config : Text

-- The two handlers differ in the word behind the connection type. An invalid one panics.
unfoldable pub route_to : Text → Sha256 → RoutingManagerRequest → Outcome Route
route_to suffix sha256 request = do
  connection_type ← unwrap request.connection_type
  kind ← direction_str_to_connection_type (connection_type ++ suffix)
  done (record {
    topic_gdp_name =
        get_gdp_name_from_topic sha256 request.topic_name request.topic_type request.certificate;
    direction = connection_type ++ suffix;
    config = request.topic_qos;
  })

abbrev pub handle_sender_routing : Sha256 → RoutingManagerRequest → Outcome Route
handle_sender_routing = route_to (codes "-sender")

abbrev pub handle_receiver_routing : Sha256 → RoutingManagerRequest → Outcome Route
handle_receiver_routing = route_to (codes "-receiver")

-- `format!("{}-{:}", topic_gdp_name, direction)`
abbrev pub signaling_topic : GdpName → Text → Text
signaling_topic name direction = display_name name ++ codes "-" ++ direction

-- The topics at the signaling server that a registration subscribes to and publishes to.
unfoldable pub subscribe_topic : Route → Outcome Text
subscribe_topic route = do
  flipped ← flip_direction route.direction
  done (signaling_topic route.topic_gdp_name flipped)

unfoldable pub publish_topic : Route → Text
publish_topic route = signaling_topic route.topic_gdp_name route.direction
