-- ===== src/Routing/Register.antt =====
-- `register_stream_sender` and `register_stream_receiver` of fogrs-core/src/routing_manager.rs: the
-- candidates, the two messages to the signaling server, and what a read from it starts. Sockets,
-- listeners and the STUN server are what the environment answers for an interface.
use rt_fogros.Prelude.{
  ℕ, Text, codes, Bool, Option, none, some, List, [], ◌∷◌, ◌++◌, map, if◌then◌else◌, Outcome, done,
  panic, ◌>>=◌, unwrap,
}
use rt_fogros.Packet.Name.{GdpName}
use rt_fogros.Signaling.Server.{CandidateStruct, Message}
use rt_fogros.Routing.Manager.{Route, subscribe_topic, publish_topic}

-- An interface: whether a socket binds to it and listens, and the public address that STUN finds.
pub record Interface : Type 0 where
  pub name : Text
  pub binds : Bool
  pub stun : Option Text

-- The loop over the interfaces: the addresses that are pushed.
unfoldable pub gather_candidates : List Interface → Outcome (List Text)
gather_candidates [] = done []
gather_candidates (i ∷ rest) =
    if i.binds then (do later ← gather_candidates rest; done (pushed i.stun ++ later)) else panic
  where
    pushed : Option Text → List Text
    pushed none = []
    pushed (some addr) = addr ∷ []

unfoldable pub candidate_struct : GdpName → List Interface → Outcome CandidateStruct
unfolding gather_candidates
candidate_struct thread_gdp_name interfaces = do
  candidates ← gather_candidates interfaces
  done (record { thread_gdp_name = thread_gdp_name; candidates = candidates })

unfoldable pub subscribe_request : Route → Outcome Message
subscribe_request route = do
  topic ← subscribe_topic route
  done (record { command = codes "SUBSCRIBE"; topic = topic; message_data = none })

unfoldable pub publish_request : Route → CandidateStruct → Message
publish_request route candidates = record {
  command = codes "PUBLISH";
  topic = publish_topic route;
  message_data = some candidates;
}

-- The two loops over the candidates of a peer and the own interfaces: the connections that are tried.
unfoldable pub connections : List Text → List Text → List (Text × Text)
connections interfaces [] = []
connections interfaces (candidate_addr ∷ rest) =
    map (λ name. (name, candidate_addr)) interfaces ++ connections interfaces rest

-- A read from the signaling server, parsed by serde_json: `none` ends the loop.
unfoldable pub on_signal :
    (List ℕ → Option CandidateStruct) → List Text → List ℕ → Outcome (Option (List (Text × Text)))
unfolding connections
on_signal parse interfaces [] = done none
on_signal parse interfaces (b ∷ bs) = do
  peer ← unwrap (parse (b ∷ bs))
  done (some (connections interfaces peer.candidates))
