-- ===== src/Tests/Routes.antt =====
-- The routing manager's theorems on concrete requests.
use rt_fogros.Prelude.{
  ℕ, ◌≡◌, refl, Text, codes, text_beq, none, some, List, [], ◌∷◌, ◌++◌, ◌⊎◌, done, panic,
}
use rt_fogros.Packet.Name.{GdpName}
use rt_fogros.Packet.Construct.{Sha256, get_gdp_name_from_topic}
use rt_fogros.Fib.Types.{FibConnectionType, add, sender}
use rt_fogros.Routing.Direction.{direction_str_to_connection_type, flip_direction}
use rt_fogros.Routing.Case.{IsAscii}
use rt_fogros.Routing.Duality.{dual, direction_of, flip_direction_lem}
use rt_fogros.Routing.Manager.{RoutingManagerRequest, Route, route_to}
use rt_fogros.Routing.Register.{subscribe_request, publish_request}
use rt_fogros.Routing.Exchange.{candidates_reach_receiver}
use rt_fogros.Signaling.Server.{
  CandidateStruct, Message, Server, client, streams, handle_client, run,
}
use rt_fogros.Signaling.Fresh.{HasEntry}

flip_direction_lem_example :
    ((k : FibConnectionType) × (direction_str_to_connection_type (codes "Request-Sender") ≡ done k)
      × (flip_direction (codes "Request-Sender") ≡ done (direction_of (dual k)))
      × (direction_str_to_connection_type (direction_of (dual k)) ≡ done (dual k)))
    ⊎ ((flip_direction (codes "Request-Sender") ≡ panic)
        × ((direction_str_to_connection_type (codes "Request-Sender") ≡ panic)
            ⊎ ((k : FibConnectionType) × (direction_str_to_connection_type (codes "Request-Sender")
                  ≡ done k)
                × ¬ IsAscii (codes "Request-Sender"))))
flip_direction_lem_example = flip_direction_lem (codes "Request-Sender")

-- A digest for the tests: the byte at the index.
abbrev pub digest : Sha256
digest [] n = 0
digest (b ∷ bs) n = b

abbrev pubsub : RoutingManagerRequest
pubsub = record {
  action = add;
  topic_name = codes "/chatter";
  topic_type = codes "String";
  topic_qos = codes "fast";
  certificate = [];
  connection_type = some (codes "pubsub");
  communication_url = none;
}

abbrev pub chatter : GdpName
chatter = record { b0 = 47; b1 = 47; b2 = 47; b3 = 47 }

abbrev pub route : Text → Route
route direction = record { topic_gdp_name = chatter; direction = direction; config = codes "fast" }

abbrev pub peer : CandidateStruct
peer = record { thread_gdp_name = chatter; candidates = codes "10.0.0.1:80" ∷ [] }

candidates_reach_receiver_example :
    (request : Message) × (log : List (CandidateStruct × ℕ)) × (later : Server) × (subscribe_request
        (route (codes "pubsub-receiver"))
      ≡ done request)
    × (handle_client 30
          (run [] (client 5 (publish_request (route (codes "pubsub-sender")) peer) ∷ []))
          request
        ≡ done (later, streams log))
    × HasEntry (peer, 5) log
unfolding route_to direction_str_to_connection_type text_beq get_gdp_name_from_topic
candidates_reach_receiver_example =
    candidates_reach_receiver digest pubsub pubsub (route (codes "pubsub-sender"))
      (route (codes "pubsub-receiver")) (codes "pubsub") [] peer 5 30 [] refl refl
      (refl, (refl, (refl, (refl, (refl, (refl, tt)))))) refl refl refl refl refl refl tt

-- With a long s in the place of the s, the one function reads a type, and the other panics.
abbrev long_s : Text
long_s = codes "pub" ++ 383 ∷ codes "ub-sender"

long_s_reads : direction_str_to_connection_type long_s ≡ done sender
unfolding direction_str_to_connection_type text_beq
long_s_reads = refl

long_s_panics : flip_direction long_s ≡ panic
unfolding flip_direction text_beq
long_s_panics = refl
