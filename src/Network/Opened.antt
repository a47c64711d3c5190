-- ===== src/Network/Opened.antt =====
-- The connections that the sending side of a topic opens, fogrs-core/src/routing_manager.rs, and the
-- messages that the forwarding table then sends on them.
use rt_fogros.Prelude.{
  ℕ, ◌≤◌, ◌≡◌, refl, sym, arith, Text, codes, Option, none, some, List, [], ◌∷◌, ◌++◌, map, All,
  true, option_eq, done,
}
use mathlib.Core.Path.{subst}
use rt_fogros.Packet.Name.{GdpName, name_eq}
use rt_fogros.Packet.Construct.{
  construct_gdp_packet_with_guid, construct_gdp_forward_from_bytes_with_guid,
}
use rt_fogros.Fib.Types.{FibConnection, Channel, sender, receiver}
use rt_fogros.Fib.Binding.{ConfigFile, read_binding_table}
use rt_fogros.Fib.Table.{Table, Delivery}
use rt_fogros.Fib.Step.{Event, change, new_table, run}
use rt_fogros.Fib.Registrations.{subscribers}
use rt_fogros.Fib.Subscribers.{run-subscribers, run-binding_table}
use rt_fogros.Fib.Complete.{Runs, subscribers-Runs}
use rt_fogros.Fib.Histories.{run-append, subscribers-append}
use rt_fogros.Signaling.Server.{CandidateStruct, Message}
use rt_fogros.Routing.Direction.{direction_str_to_connection_type}
use rt_fogros.Routing.Manager.{Route}
use rt_fogros.Routing.Register.{Interface, candidate_struct, subscribe_request, connections}
use rt_fogros.Routing.Registration.{World, register_stream_sender}
use rt_fogros.Routing.Answering.{IsAnswering, opened, sender_opens_all}
use rt_fogros.Ros.Channels.{inbox}
use rt_fogros.Ros.Topics.{RosMessage}
use rt_fogros.Ros.Messages.{IsDistinct, Unseen}
use rt_fogros.Ros.Transport.{packet_of, sent, arrival, run-sent}
use rt_fogros.Network.Outgoing.{times, inbox-sent}
use rt_fogros.Network.Registering.{
  changes_of, channels, IsBound, run-opened, channels-OnceFrom, Older, times-append, times-Older,
}

abbrev Once : List FibConnection → Channel → Type 0
Once rs c = times receiver c rs ≡ 1

-- A channel that is new to the older connections is registered by the later ones only.
Once-append :
    (tx : Channel) (rs ss : List FibConnection) (cs : List Channel)
    → All (Older tx) rs
    → All (λ c. (tx ≤ c) × (times receiver c ss ≡ 1)) cs
    → All (Once (rs ++ ss)) cs
Once-append tx rs ss [] older h = tt
Once-append tx rs ss (c ∷ cs) older h = (
  omega (arith, times-append receiver c rs ss, times-Older receiver c tx rs h.0.0 older, h.0.1),
  Once-append tx rs ss cs older h.1,
)

module _ (node : GdpName) (name : GdpName) (ms : List RosMessage) where
  -- What is put into a channel for the messages.
  abbrev Gets : List Delivery → Channel → Type 0
  Gets out c = inbox c out ≡ map (packet_of node name) ms

  Gets-sent :
      (rs : List FibConnection) (cs : List Channel)
      → All Runs rs
      → All (Once rs) cs
      → All (Gets (sent node name none rs ms)) cs
  unfolding construct_gdp_packet_with_guid construct_gdp_forward_from_bytes_with_guid
  Gets-sent rs [] run h = tt
  Gets-sent rs (c ∷ cs) run h = (inbox-sent node name c rs none ms run h.0, Gets-sent rs cs run h.1)

module _ (world : World) (route : Route) (ct : Text)
    (directed : route.direction ≡ ct ++ codes "-sender")
    (valid : direction_str_to_connection_type (ct ++ codes "-sender") ≡ done sender)
    (answers : IsAnswering world) where
  carried_on :
      (file : ConfigFile) (es : List Event) (t : Table) (before : List Delivery) (tx : Channel)
      (pairs : List (Text × Text)) (node : GdpName) (now : RosMessage → ℕ)
      (interface : RosMessage → Option Text) (ms : List RosMessage)
      → run (new_table file) es ≡ done (t, before)
      → All (Older tx) (subscribers (read_binding_table file) route.topic_gdp_name es)
      → All (IsBound (read_binding_table file)) pairs
      → All (Unseen t.processed_requests) ms
      → IsDistinct ms
      → let name = route.topic_gdp_name in
        (t₁ : Table) × (t₂ : Table) × (out : List Delivery) × (run t
            (map change (changes_of (opened world route sender tx pairs)))
          ≡ done (t₁, []))
        × (run t₁ (map (arrival node name now interface) ms) ≡ done (t₂, out))
        × All (Gets node name ms out) (channels tx pairs)
  unfolding construct_gdp_packet_with_guid construct_gdp_forward_from_bytes_with_guid
  carried_on file es t before tx pairs node now interface ms ran older bound new distinct =
      let binding = read_binding_table file in
      let same = run-binding_table file es t before ran in
      let name = route.topic_gdp_name in
      let opens = map change (changes_of (opened world route sender tx pairs)) in
      let (t₁, opening, kept) = run-opened world route t tx pairs (rw same bound) in
      let (t₂, sends) = run-sent node name now interface none t₁ ms (rw kept new) distinct in
      let grown = run-append es opens (new_table file) t t₁ before [] ran opening in
      (
        t₁,
        t₂,
        _,
        opening,
        sends,
        subst (λ rs. All (Gets node name ms (sent node name none rs ms)) (channels tx pairs))
            (sym (run-subscribers file name (es ++ opens) t₁ (before ++ []) grown))
            (Gets-sent node name ms (subscribers binding name (es ++ opens)) (channels tx pairs)
              (subscribers-Runs binding name (es ++ opens))
              (subst (λ rs. All (Once rs) (channels tx pairs))
                (sym (subscribers-append binding name es opens))
                (Once-append tx (subscribers binding name es) (subscribers binding name opens)
                  (channels tx pairs) older
                  (channels-OnceFrom world route binding tx pairs bound)))),
      )

  -- Where the signaling server and every peer answer, the sending side of a topic opens a connection
  -- for each of its interfaces and each candidate that a message of the server carries, each on a
  -- channel of its own; after any history of the forwarding table that does not panic, the table takes
  -- their changes, and then puts every message of the topic into the channel of each of them, once and
  -- in order. Conditions: the connections that the name had before are on older channels, the binding
  -- table lets the new ones through, and no guid is drawn twice or has been processed before.
  pub opened_connections_fed :
      (interfaces : List Interface) (candidates peer : CandidateStruct) (request : Message)
      (tx : Channel) (b : ℕ) (bs : List ℕ) (file : ConfigFile) (es : List Event) (t : Table)
      (before : List Delivery) (node : GdpName) (now : RosMessage → ℕ)
      (interface : RosMessage → Option Text) (ms : List RosMessage)
      → candidate_struct world.thread_gdp_name interfaces ≡ done candidates
      → subscribe_request route ≡ done request
      → world.parse (b ∷ bs) ≡ some peer
      → run (new_table file) es ≡ done (t, before)
      → All (Older tx) (subscribers (read_binding_table file) route.topic_gdp_name es)
      → All
          (IsBound (read_binding_table file))
          (connections (map (λ i. i.name) interfaces) peer.candidates)
      → All (Unseen t.processed_requests) ms
      → IsDistinct ms
      → let task = register_stream_sender world route interfaces tx ((b ∷ bs) ∷ []) in
        let name = route.topic_gdp_name in
        let pairs = connections (map (λ i. i.name) interfaces) peer.candidates in
        (t₁ : Table) × (t₂ : Table) × (out : List Delivery) × (task.alive ≡ true)
        × (run t (map change (changes_of task.outputs)) ≡ done (t₁, []))
        × (run t₁ (map (arrival node name now interface) ms) ≡ done (t₂, out))
        × All (λ c. inbox c out ≡ map (packet_of node name) ms) (channels tx pairs)
  opened_connections_fed interfaces candidates peer request tx b bs file es t before node now
        interface ms gathered asked parsed ran older bound new distinct =
      let pairs = connections (map (λ i. i.name) interfaces) peer.candidates in
      rw
        (sender_opens_all world route ct sender directed valid answers interfaces candidates peer
          request tx b bs gathered asked parsed)
        (let (t₁, t₂, out, opening, sends, gets) =
            carried_on file es t before tx pairs node now interface ms ran older bound new
              distinct in
          (t₁, t₂, out, refl, opening, sends, gets))
