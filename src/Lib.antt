-- ===== src/Lib.antt =====
-- A model of rt-fogros2, the router that carries ROS topics and services between machines by flat
-- names, and the theorems on its parts. A packet comes in over a transport
-- (fog_rs/fogrs-core/src/network), is reassembled from chunks, goes to the forwarding table
-- (fog_rs/fogrs-core/src/service_request_manager.rs), and out to the channels of the connections
-- that receive its name. Those connections are registered by the handlers of ROS topics and
-- services and by the routing manager, which find their peers over the signaling server; both are
-- driven by the HTTP interface (fog_rs/fogrs-core/src/api_server.rs and
-- fog_rs/fogrs-core/src/service_manager.rs).
--
--   Packet: fog_rs/fogrs-common/src/packet_structs.rs. GDPAction, GDPName, GDPPacket and the
--     header in transit; get_header and the constructors are Packet.Header and Packet.Construct.
--   Framing: fog_rs/fogrs-core/src/network/kcp.rs. parse_header_payload_pairs is Framing.Parser,
--     the two arms of reader_and_writer are Framing.Reader (on_read, absorb) and Framing.Writer
--     (on_forward).
--   Udp: fog_rs/fogrs-core/src/network/udp.rs, both halves of reader_and_writer (Udp.Socket) over
--     the parser and the reassembly of Framing, of which that file has a copy, the STUN exchange
--     (Udp.Stun), and register_stream (Udp.Registration) over the operations of
--     fog_rs/fogrs-core/src/db.rs (Udp.Redis).
--   Fib: fog_rs/fogrs-core/src/service_request_manager.rs and
--     fog_rs/fogrs-common/src/fib_structs.rs. The four kinds of events of
--     service_connection_fib_handler are Fib.Forward, Fib.Request, Fib.Response and Fib.Update,
--     its loop is Fib.Step.
--   Rib: fog_rs/fogrs-core/src/rib.rs. The arms of local_rib_handler are Rib.Handler (on_query,
--     on_update, on_info).
--   Routing: fog_rs/fogrs-core/src/routing_manager.rs. direction_str_to_connection_type and
--     flip_direction are Routing.Direction, handle_sender_routing and handle_receiver_routing
--     Routing.Manager, handle_stream_sender is Routing.Streams, register_stream_sender and
--     register_stream_receiver are Routing.Registration over the candidates and messages of
--     Routing.Register, and the latency probes, which nothing calls, are Routing.Probes; the
--     changes that they send are events of Fib.
--   Signaling: fog_rs/fogrs-signaling/src/lib.rs. Topic::publish, the cleanup task and
--     Server::handle_client are Signaling.Server (publish, clean, handle_client), the read of a
--     message Signaling.Wire, Topic::subscribe with its broadcast channel is Signaling.Broadcast.
--   Ros: fog_rs/fogrs-ros/src/lib.rs. The four handlers of ROSManager are Ros.Manager, the tasks
--     that they spawn are Ros.Topics and Ros.Services; their updates are events of Fib, and a
--     message of a topic is followed from task to task in Ros.Transport, a call of a service in
--     Ros.Calls and Ros.RemoteCall.
--   Service: fog_rs/fogrs-core/src/api_server.rs and fog_rs/fogrs-core/src/service_manager.rs.
--     The handlers and routes of HTTP are Service.Request, main_service_manager is
--     Service.Manager; Service.EndToEnd puts it before Ros and Fib.
--   Network: two machines and a KCP connection between them, the models of Service, Ros, Fib and
--     Framing put together: Network.Topic and Network.Requested follow the messages of a topic
--     from the task that reads them to the task that publishes them, Network.Call a call of a
--     service there and back; Network.Opened follows the connections that a registration of
--     Routing opens into the table.
--   Start: AppConfig of fog_rs/fogrs-utils/src/app_config.rs and cli_match of fog_rs/src/main.rs
--     (Start.Config), str_to_ipv4 of fog_rs/fogrs-utils/src/conversion.rs and the levels of
--     fog_rs/fogrs-utils/src/types.rs (Start.Ipv4), addresses of fog_rs/fogrs-core/src/util.rs
--     and fog_rs/fogrs-core/src/db.rs, the port of fog_rs/fogrs-core/src/api_server.rs and the
--     log of fog_rs/fogrs-core/src/logger.rs (Start.Address).
--   Prelude: helpers. Tests: runs on concrete inputs.
--
-- Bytes and lengths are native natural numbers; a usize is never near its bound, since every
-- length is that of a buffer in memory. A panic (a failed unwrap, an index out of bounds) is the
-- value `panic`; where what a task has sent before counts, the task is a list of outputs and
-- whether it is still there (Prelude.Tasks). An asynchronous task is its rounds: one event of a
-- channel or a stream, handled to its end, gives the next state and what was sent. The loop of
-- the parser has a unit of fuel for each byte and one more, since a round takes the NUL byte at
-- least; the loop of the writer has one for each byte of the payload.
--
-- serde_json, the UTF-8 check, SHA-256, the Redis server, the crate config, the clock, the random
-- names, the ROS node and the default network interface are parameters. The printer of headers is
-- taken with its laws (JsonLaws): a printed header reads back, holds no NUL byte and is ASCII,
-- and no proper prefix of it reads; the printer of the signaling messages has like laws
-- (WireLaws).
--
-- Not modelled: the copy of tokio_kcp, the transports under network/deprecated (not compiled),
-- the set-up of logging and the spawning of the tasks at the start.
pub mod Prelude
pub mod Packet
pub mod Framing
pub mod Udp
pub mod Fib
pub mod Rib
pub mod Routing
pub mod Signaling
pub mod Ros
pub mod Service
pub mod Network
pub mod Start
pub mod Tests
