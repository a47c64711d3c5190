-- ===== src/Routing/Answering.antt =====
-- `register_stream_sender` of fogrs-core/src/routing_manager.rs where every peer answers.
use rt_fogros.Prelude.{
  ℕ, suc, ◌≡◌, ◌≢◌, refl, ap, ◌∙◌, inl, inr, Outcome, panic, Text, codes, text_beq, true, some,
  List, [], ◌∷◌, ◌++◌, append-nil, map, done,
}
use rt_fogros.Prelude.Tasks.{goes_on}
use rt_fogros.Fib.Types.{FibConnectionType, Channel}
use rt_fogros.Routing.Direction.{direction_str_to_connection_type, flip_direction}
use rt_fogros.Routing.Duality.{dual, direction_of}
use rt_fogros.Routing.Rendezvous.{flip-of_type}
use rt_fogros.Routing.Feeds.{update_of, stream_update-of_type}
use rt_fogros.Signaling.Server.{CandidateStruct, Message}
use rt_fogros.Routing.Manager.{Route, subscribe_topic}
use rt_fogros.Routing.Register.{
  Interface, candidate_struct, subscribe_request, publish_request, connections, on_signal,
}
use rt_fogros.Routing.Streams.{stream_update, bytes, await_pong, handle_stream_sender}
use rt_fogros.Routing.Registration.{
  Effect, subscribes, publishes, updates, Attempt, World, update_on, sender_tries, connects_to,
  signals, register_stream_sender,
}

-- The attempt is connected and answered at once.
abbrev pub answering : Attempt
answering = record {
  binds = true;
  connects = true;
  can_write = true;
  readings = bytes (codes "pong") ∷ [];
}

-- The signaling server takes both messages, and every attempt is answered.
pub record IsAnswering (world : World) : Type 0 where
  pub subscribes_at : world.subscribes_at ≡ true
  pub subscribe_taken : world.subscribe_taken ≡ true
  pub publishes_at : world.publishes_at ≡ true
  pub publish_ended : world.publish_ended ≡ true
  pub is_utf8 : world.is_utf8 (codes "pong") ≡ true
  pub attempt : (tx : Channel) → world.attempt tx ≡ answering

-- A change for each pair of an interface and an address, each on a channel of its own.
abbrev pub opened : World → Route → FibConnectionType → Channel → List (Text × Text) → List Effect
opened world route k tx [] = []
opened world route k tx ((i, a) ∷ rest) =
    updates (update_of route.topic_gdp_name k tx i a (world.description i a))
    ∷ opened world route k (suc tx) rest

module _ (world : World) (route : Route) (ct : Text) (k : FibConnectionType)
    (directed : route.direction ≡ ct ++ codes "-sender")
    (valid : direction_str_to_connection_type (ct ++ codes "-sender") ≡ done k)
    (h : IsAnswering world) where
  -- The direction flips, as it has for the request to the signaling server.
  flips :
      (request : Message)
      → subscribe_request route ≡ done request
      → flip_direction (ct ++ codes "-sender") ≡ done (direction_of (dual k))
  unfolding subscribe_request subscribe_topic
  flips request r = elim (flip-of_type (ct ++ codes "-sender") k valid) [
    | inl f ↦ f
    | inr (f, n) ↦ absurd (apart (rw (directed, f) at r))
  ]
    where
      apart : ◌≢◌ {A = Outcome Message} panic (done request)
      apart e = cc

  sender_update :
      (tx : Channel) (i a : Text)
      → flip_direction (ct ++ codes "-sender") ≡ done (direction_of (dual k))
      → update_on world route tx i a
        ≡ done (update_of route.topic_gdp_name k tx i a (world.description i a))
  sender_update tx i a f =
      let d = world.description i a in
      ap (λ x. stream_update route.topic_gdp_name x tx i a d) directed
      ∙ stream_update-of_type route.topic_gdp_name tx i a d (ct ++ codes "-sender") k f

  connects_to-opened :
      (tx : Channel) (pairs : List (Text × Text))
      → flip_direction (ct ++ codes "-sender") ≡ done (direction_of (dual k))
      → connects_to world route (sender_tries world route) tx pairs
        ≡ goes_on (opened world route k tx pairs)
  unfolding connects_to handle_stream_sender await_pong text_beq
  connects_to-opened tx [] f = refl
  connects_to-opened tx ((i, a) ∷ rest) f =
      rw (h.attempt tx, h.is_utf8, sender_update tx i a f, connects_to-opened (suc tx) rest f) refl

  -- Where the signaling server and every peer answer, the sending side of a topic subscribes and
  -- publishes its candidates, and then tells the forwarding table of one connection for each of its
  -- interfaces and each candidate that a message of the server carries.
  pub sender_opens_all :
      (interfaces : List Interface) (candidates peer : CandidateStruct) (request : Message)
      (tx : Channel) (b : ℕ) (bs : List ℕ)
      → candidate_struct world.thread_gdp_name interfaces ≡ done candidates
      → subscribe_request route ≡ done request
      → world.parse (b ∷ bs) ≡ some peer
      → register_stream_sender world route interfaces tx ((b ∷ bs) ∷ [])
        ≡ goes_on (
            subscribes request
            ∷ publishes (publish_request route candidates)
            ∷ opened world route k tx (connections (map (λ i. i.name) interfaces) peer.candidates))
  unfolding register_stream_sender signals on_signal publish_request connects_to
  sender_opens_all interfaces candidates peer request tx b bs c r p =
      let pairs = connections (map (λ i. i.name) interfaces) peer.candidates in
      rw
        (
          h.subscribes_at,
          h.subscribe_taken,
          h.publishes_at,
          h.publish_ended,
          c,
          r,
          p,
          connects_to-opened tx pairs (flips request r),
          append-nil (opened world route k tx pairs),
        )
        refl
