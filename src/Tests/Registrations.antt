-- ===== src/Tests/Registrations.antt =====
-- The theorems on the registrations of the routing manager on concrete ones.
use rt_fogros.Prelude.{
  ℕ, refl, Text, codes, text_beq, Bool, true, Option, none, some, List, [], ◌∷◌, All,
}
use rt_fogros.Packet.Name.{zero_name}
use rt_fogros.Fib.Types.{sender, receiver, Channel}
use rt_fogros.Routing.Direction.{direction_str_to_connection_type}
use rt_fogros.Routing.Manager.{signaling_topic}
use rt_fogros.Routing.Streams.{bytes, timed_out}
use rt_fogros.Signaling.Server.{CandidateStruct, Message}
use rt_fogros.Routing.Register.{Interface}
use rt_fogros.Routing.Registration.{
  Attempt, Accepted, accepted, failed, World, sender_accepts, receiver_accepts,
  register_stream_sender, register_stream_receiver,
}
use rt_fogros.Routing.Registered.{OnUpdate, IsIgnored, receiver_side-IsIgnored}
use rt_fogros.Routing.Opened.{IsOpened, IsAnswered, sender_side_acknowledged}
use rt_fogros.Routing.Answering.{answering, IsAnswering}
use rt_fogros.Tests.Routes.{chatter, route, peer}

abbrev parse : List ℕ → Option CandidateStruct
parse message = some peer

abbrev describe : Text → Text → Text
describe interface address = interface

abbrev attempt : Channel → Attempt
attempt tx = answering

abbrev is_utf8 : List ℕ → Bool
is_utf8 message = true

-- Every peer answers.
abbrev pub world : World
world = record {
  is_utf8 = is_utf8;
  parse = parse;
  description = describe;
  thread_gdp_name = zero_name;
  attempt = attempt;
  subscribes_at = true;
  subscribe_taken = true;
  publishes_at = true;
  publish_ended = true;
}

abbrev pub all_answer : IsAnswering world
all_answer = record {
  subscribes_at = refl;
  subscribe_taken = refl;
  publishes_at = refl;
  publish_ended = refl;
  is_utf8 = refl;
  attempt = λ tx. refl;
}

abbrev pub interfaces : List Interface
interfaces =
    record { name = codes "eth0"; binds = true; stun = some (codes "10.0.0.2:90") }
    ∷ record { name = codes "lo"; binds = true; stun = none }
    ∷ []

-- One peer that answers at once, a listener that fails, and one that is silent for a second.
abbrev accepts : List Accepted
accepts =
    accepted (codes "10.0.0.3:80") true (bytes (codes "pong") ∷ [])
    ∷ failed
    ∷ accepted (codes "10.0.0.4:80") true (timed_out ∷ [])
    ∷ []

abbrev pub messages : List (List ℕ)
messages = (1 ∷ []) ∷ [] ∷ []

receiver_side-IsIgnored_example :
    All
      (OnUpdate IsIgnored)
      (receiver_accepts world (route (codes "pubsub-receiver")) (codes "eth0") 3 accepts)
    × All
        (OnUpdate IsIgnored)
        (register_stream_receiver world
          (route (codes "pubsub-receiver"))
          interfaces
          3
          messages).outputs
unfolding direction_str_to_connection_type text_beq
receiver_side-IsIgnored_example =
    receiver_side-IsIgnored world (route (codes "pubsub-receiver")) (codes "pubsub") receiver refl
      refl interfaces (codes "eth0") 3 accepts messages

sender_side_acknowledged_example :
    All
      (OnUpdate (IsAnswered accepts))
      (sender_accepts world (route (codes "pubsub-sender")) (codes "eth0") 3 accepts)
    × All
        (OnUpdate (IsOpened world))
        (register_stream_sender world (route (codes "pubsub-sender")) interfaces 3 messages).outputs
unfolding direction_str_to_connection_type text_beq
sender_side_acknowledged_example =
    sender_side_acknowledged world (route (codes "pubsub-sender")) (codes "pubsub") sender refl refl
      interfaces (codes "eth0") 3 accepts messages

abbrev pub candidates : CandidateStruct
candidates = record { thread_gdp_name = zero_name; candidates = codes "10.0.0.2:90" ∷ [] }

abbrev pub subscription : Message
subscription = record {
  command = codes "SUBSCRIBE";
  topic = signaling_topic chatter (codes "pubsub-receiver");
  message_data = none;
}
