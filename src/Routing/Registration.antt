-- ===== src/Routing/Registration.antt =====
-- `register_stream_sender` and `register_stream_receiver` of fogrs-core/src/routing_manager.rs as
-- tasks: their loops that accept and that connect, and what they send to the signaling server and to
-- the forwarding table.
use rt_fogros.Prelude.{
  ℕ, suc, ◌+◌, Text, Bool, Option, none, some, List, [], ◌∷◌, ◌++◌, map, length, if◌then◌else◌,
  Outcome, done, panic,
}
use rt_fogros.Prelude.Tasks.{Task, goes_on, panics, ◌then◌, require}
use rt_fogros.Packet.Name.{GdpName}
use rt_fogros.Fib.Types.{FibStateChange, Channel}
use rt_fogros.Signaling.Server.{CandidateStruct, Message}
use rt_fogros.Routing.Manager.{Route}
use rt_fogros.Routing.Register.{
  Interface, candidate_struct, subscribe_request, publish_request, on_signal,
}
use rt_fogros.Routing.Streams.{Reading, stream_update, handle_stream_sender}

-- What a registration sends: to the signaling server, to the forwarding table, and to a peer.
pub data Effect : Type 0 where
  subscribes publishes : Message → Effect
  updates : FibStateChange → Effect
  pings : Text → Effect

-- A connection that is tried: whether its socket binds to the interface, whether it is connected,
-- whether the stream takes a ping, and what comes after.
pub record Attempt : Type 0 where
  pub binds : Bool
  pub connects : Bool
  pub can_write : Bool
  pub readings : List Reading

-- A round of a listener.
pub data Accepted : Type 0 where
  accepted : Text → Bool → List Reading → Accepted
  failed : Accepted

-- The UTF-8 check, serde_json, the text for the log of an interface and an address, the random name,
-- the outcome of each attempt by its channel, and whether the signaling server is there for the two
-- connections and takes the two messages.
pub record World : Type 0 where
  pub is_utf8 : List ℕ → Bool
  pub parse : List ℕ → Option CandidateStruct
  pub description : Text → Text → Text
  pub thread_gdp_name : GdpName
  pub attempt : Channel → Attempt
  pub subscribes_at : Bool
  pub subscribe_taken : Bool
  pub publishes_at : Bool
  pub publish_ended : Bool

-- What a spawned task has sent to the forwarding table.
abbrev pub sent : Outcome (Option FibStateChange) → List Effect
sent (done (some u)) = updates u ∷ []
sent (done none) = []
sent panic = []

abbrev pub sent_update : Outcome FibStateChange → List Effect
sent_update (done u) = updates u ∷ []
sent_update panic = []

module _ (world : World) (route : Route) where
  -- The change of a stream on the channel.
  abbrev pub update_on : Channel → Text → Text → Outcome FibStateChange
  update_on tx interface address =
      stream_update route.topic_gdp_name route.direction tx interface address
        (world.description interface address)

  -- The loop of a listener of the sender.
  unfoldable pub sender_accepts : Text → Channel → List Accepted → List Effect
  sender_accepts interface tx [] = []
  sender_accepts interface tx (accepted peer can_write readings ∷ later) =
      sent (handle_stream_sender world.is_utf8 can_write readings (update_on tx interface peer))
      ++ sender_accepts interface (suc tx) later
  sender_accepts interface tx (failed ∷ later) = sender_accepts interface tx later

  -- The loop of a listener of the receiver.
  unfoldable pub receiver_accepts : Text → Channel → List Accepted → List Effect
  receiver_accepts interface tx [] = []
  receiver_accepts interface tx (accepted peer can_write readings ∷ later) =
      sent_update (update_on tx interface peer) ++ receiver_accepts interface (suc tx) later
  receiver_accepts interface tx (failed ∷ later) = receiver_accepts interface tx later

  -- An interface and a candidate of a peer: the sender sends its change from the spawned task, after
  -- the handshake.
  abbrev pub sender_tries : Channel → Text → Text → Task Effect
  sender_tries tx interface address =
      let a = world.attempt tx in
      require a.binds
      then goes_on (
          if a.connects
          then sent (
              handle_stream_sender world.is_utf8 a.can_write a.readings
                (update_on tx interface address))
          else [])

  -- The receiver sends its change before the task is spawned that connects.
  abbrev pub receiver_sends : Attempt → Text → Outcome FibStateChange → Task Effect
  receiver_sends a address panic = panics []
  receiver_sends a address (done u) =
      goes_on
        (updates u ∷ (if a.connects then (if a.can_write then pings address ∷ [] else []) else []))

  abbrev pub receiver_tries : Channel → Text → Text → Task Effect
  receiver_tries tx interface address =
      let a = world.attempt tx in
      require a.binds then receiver_sends a address (update_on tx interface address)

  module _ (tries : Channel → Text → Text → Task Effect) where
    -- The two loops over the candidates and the interfaces.
    unfoldable pub connects_to : Channel → List (Text × Text) → Task Effect
    connects_to tx [] = goes_on []
    connects_to tx ((interface, address) ∷ rest) =
        tries tx interface address then connects_to (suc tx) rest

    -- A message of the signaling server, or its end.
    abbrev pub on_peer :
        Channel → Outcome (Option (List (Text × Text))) → (Channel → Task Effect) → Task Effect
    on_peer tx panic next = panics []
    on_peer tx (done none) next = goes_on []
    on_peer tx (done (some pairs)) next = connects_to tx pairs then next (tx + length pairs)

    -- The loop over the messages of the signaling server.
    unfoldable pub signals : List Text → Channel → List (List ℕ) → Task Effect
    signals interfaces tx [] = goes_on []
    signals interfaces tx (bytes ∷ later) =
        on_peer tx (on_signal world.parse interfaces bytes) (λ next. signals interfaces next later)

    -- The two requests, once the candidates are gathered.
    abbrev pub announces : Outcome CandidateStruct → Outcome Message → Task Effect → Task Effect
    announces panic request next = panics []
    announces (done candidates) panic next = panics []
    announces (done candidates) (done request) next =
        require world.subscribe_taken
        then goes_on (subscribes request ∷ [])
        then require world.publishes_at
        then goes_on (publishes (publish_request route candidates) ∷ [])
        then require world.publish_ended
        then next

    abbrev pub register : List Interface → Channel → List (List ℕ) → Task Effect
    register interfaces tx messages =
        require world.subscribes_at
        then announces (candidate_struct world.thread_gdp_name interfaces) (subscribe_request route)
            (signals (map (λ i. i.name) interfaces) tx messages)

  unfoldable pub register_stream_sender : List Interface → Channel → List (List ℕ) → Task Effect
  register_stream_sender = register sender_tries

  unfoldable pub register_stream_receiver : List Interface → Channel → List (List ℕ) → Task Effect
  register_stream_receiver = register receiver_tries
