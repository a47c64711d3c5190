-- ===== src/Routing/Exchange.antt =====
-- The two sides of fogrs-core/src/routing_manager.rs and the signaling server between them.
use rt_fogros.Prelude.{ℕ, ◌≡◌, Text, some, List, ◌∷◌, done}
use rt_fogros.Packet.Construct.{Sha256}
use rt_fogros.Routing.Direction.{to_lowercase}
use rt_fogros.Routing.Case.{IsAscii}
use rt_fogros.Routing.Manager.{
  Route, RoutingManagerRequest, handle_sender_routing, handle_receiver_routing, subscribe_topic,
  publish_topic,
}
use rt_fogros.Routing.Register.{subscribe_request, publish_request}
use rt_fogros.Routing.Rendezvous.{routes_meet}
use rt_fogros.Signaling.Server.{
  CandidateStruct, Message, Server, Event, client, streams, handle_client, run,
}
use rt_fogros.Signaling.Fresh.{HasEntry, IsWithinMinute, subscribe_message, fresh_streamed}

-- Who subscribes to the topic that the other publishes to is streamed what the other published.
streamed :
    (s t : Route) (server : Server) (m : CandidateStruct) (time now : ℕ) (es : List Event)
    → subscribe_topic t ≡ done (publish_topic s)
    → IsWithinMinute (publish_topic s) time es
    → (request : Message) × (log : List (CandidateStruct × ℕ)) × (later : Server)
      × (subscribe_request t ≡ done request)
      × (handle_client now (run server (client time (publish_request s m) ∷ es)) request
          ≡ done (later, streams log))
      × HasEntry (m, time) log
unfolding subscribe_request publish_request
streamed s t server m time now es meets soon =
    let (log, later, e, has) = fresh_streamed server (publish_topic s) m time now es soon in
    (subscribe_message (publish_topic s), log, later, rw meets, e, has)

-- Of the two sides of a topic (one name, type and certificate, and one connection type in lower-case
-- ASCII), the receiving side is streamed the candidates that the sending side published, whatever else happens
-- at the signaling server, as long as each cleanup of that topic since came within 60 seconds.
pub candidates_reach_receiver :
    (sha256 : Sha256) (q r : RoutingManagerRequest) (s t : Route) (ct : Text) (server : Server)
    (m : CandidateStruct) (time now : ℕ) (es : List Event)
    → q.connection_type ≡ some ct
    → r.connection_type ≡ some ct
    → IsAscii ct
    → to_lowercase ct ≡ ct
    → q.topic_name ≡ r.topic_name
    → q.topic_type ≡ r.topic_type
    → q.certificate ≡ r.certificate
    → handle_sender_routing sha256 q ≡ done s
    → handle_receiver_routing sha256 r ≡ done t
    → IsWithinMinute (publish_topic s) time es
    → (request : Message) × (log : List (CandidateStruct × ℕ)) × (later : Server)
      × (subscribe_request t ≡ done request)
      × (handle_client now (run server (client time (publish_request s m) ∷ es)) request
          ≡ done (later, streams log))
      × HasEntry (m, time) log
candidates_reach_receiver sha256 q r s t ct server m time now es cq cr ascii low n ty c is it soon =
    streamed s t server m time now es (routes_meet sha256 q r s t ct cq cr ascii low n ty c is it).1
      soon
