-- ===== src/Tests/Requests.antt =====
-- The theorems on the requests of the HTTP interface on concrete ones.
use rt_fogros.Prelude.{
  ℕ, ◌≡◌, refl, codes, text_beq, Text, true, false, none, some, inl, List, [], ◌∷◌, ◌++◌, Option,
}
use rt_fogros.Packet.Name.{zero_name, name_eq}
use rt_fogros.Routing.Direction.{direction_str_to_connection_type}
use rt_fogros.Ros.Manager.{subscriber}
use rt_fogros.Ros.Topics.{RosMessage}
use rt_fogros.Service.Request.{RosTopicRequest}
use rt_fogros.Service.Manager.{end_of, routing_request, sender_routing}
use rt_fogros.Service.Queues.{queue, wanted}
use rt_fogros.Service.Served.{served, served-wanted}
use rt_fogros.Service.Failures.{missing_ends_manager, unreadable_ends_manager}
use rt_fogros.Tests.Routes.{digest, chatter}

abbrev request : Text → Text → RosTopicRequest
request api_op ros_op = record {
  api_op = api_op;
  ros_op = ros_op;
  crypto = codes "test_cert";
  topic_name = codes "/chatter";
  topic_type = codes "String";
  topic_qos = some (codes "fast");
  connection_type = some (codes "pubsub");
  forward_sender_url = some (codes "u");
  forward_receiver_url = some (codes "u");
}

abbrev pub sub : RosTopicRequest
sub = request (codes "add") (codes "sub")

abbrev pub route : RosTopicRequest
route = request (codes "routing") (codes "pub")

served-wanted_example :
    ((served digest [] (sub ∷ route ∷ [])).alive ≡ true)
    × (queue subscriber (served digest [] (sub ∷ route ∷ [])).operations
        ≡ wanted [] subscriber (sub ∷ route ∷ []))
unfolding text_beq end_of direction_str_to_connection_type
served-wanted_example = served-wanted digest [] (sub ∷ route ∷ []) subscriber (refl, (refl, tt))

-- A request for routing without its quality of service.
abbrev no_qos : RosTopicRequest
no_qos = record route { topic_qos = none }

missing_ends_manager_example :
    ((served digest [] (sub ∷ no_qos ∷ route ∷ [])).operations
      ≡ (served digest [] (sub ∷ [])).operations)
    × ((served digest [] (sub ∷ no_qos ∷ route ∷ [])).alive ≡ false)
unfolding text_beq
missing_ends_manager_example =
    missing_ends_manager digest [] (sub ∷ []) (route ∷ []) no_qos (refl, tt) (inl (refl, refl))

-- A connection type that is none of the three.
abbrev no_type : RosTopicRequest
no_type = record route { connection_type = some (codes "topic") }

unreadable_ends_manager_example :
    ((served digest [] (sub ∷ no_type ∷ route ∷ sub ∷ [])).operations
      ≡ (served digest [] (sub ∷ [])).operations
        ++ sender_routing (routing_request [] no_type (codes "fast") (codes "topic") (codes "u"))
          ∷ [])
    × ((served digest [] (sub ∷ no_type ∷ route ∷ sub ∷ [])).alive ≡ false)
unfolding text_beq end_of direction_str_to_connection_type
unreadable_ends_manager_example =
    unreadable_ends_manager digest [] (sub ∷ []) (sub ∷ []) no_type route (refl, tt)
      (record {
        routes = (refl, refl);
        qos = codes "fast";
        has_qos = refl;
        connection_type = codes "topic";
        has_type = refl;
        url = codes "u";
        has_url = refl;
        unreadable = refl;
      })
      (refl, refl)

-- Two messages, each with a name of its own.
abbrev messages : List RosMessage
messages =
    record { bytes = 7 ∷ []; guid = zero_name; taken = true }
    ∷ record { bytes = 8 ∷ []; guid = chatter; taken = true }
    ∷ []

abbrev now : RosMessage → ℕ
now m = 0

abbrev interface : RosMessage → Option Text
interface m = none
