-- ===== src/Routing/Registered.antt =====
-- What the registrations of fogrs-core/src/routing_manager.rs send to the forwarding table.
use rt_fogros.Prelude.{
  ℕ, suc, ◌≡◌, refl, sym, ap, All-append, ◌∙◌, Text, codes, Bool-cases, inl, inr, Option, none,
  some, List, [], ◌∷◌, ◌++◌, map, All, if◌then◌else◌, Outcome, done, panic,
}
use mathlib.Core.Path.{subst}
use rt_fogros.Prelude.Tasks.{Task, goes_on, ◌then◌, require, then-All}
use rt_fogros.Fib.Types.{FibConnectionType, FibStateChange, Channel}
use rt_fogros.Fib.Table.{Table}
use rt_fogros.Fib.Update.{on_update}
use rt_fogros.Routing.Direction.{direction_str_to_connection_type}
use rt_fogros.Routing.Feeds.{stream_update-only, receiver_stream_ignored}
use rt_fogros.Signaling.Server.{CandidateStruct, Message}
use rt_fogros.Routing.Manager.{Route}
use rt_fogros.Routing.Register.{
  Interface, candidate_struct, subscribe_request, publish_request, on_signal,
}
use rt_fogros.Routing.Streams.{stream_update}
use rt_fogros.Routing.Registration.{
  Effect, subscribes, publishes, updates, pings, Attempt, Accepted, accepted, failed, World,
  update_on, sent_update, receiver_sends, receiver_accepts, receiver_tries, connects_to, on_peer,
  signals, announces, register, register_stream_receiver,
}

-- A property of the changes that are sent.
abbrev pub OnUpdate : (FibStateChange → Type 0) → Effect → Type 0
OnUpdate P (updates u) = P u
OnUpdate P (subscribes m) = Unit
OnUpdate P (publishes m) = Unit
OnUpdate P (pings a) = Unit

module _ (world : World) (route : Route) (P : FibStateChange → Type 0)
    (tries : Channel → Text → Text → Task Effect)
    (each : (tx : Channel) (i a : Text) → All (OnUpdate P) (tries tx i a).outputs) where
  connects_to-All :
      (tx : Channel) (pairs : List (Text × Text))
      → All (OnUpdate P) (connects_to world route tries tx pairs).outputs
  unfolding connects_to
  connects_to-All tx [] = tt
  connects_to-All tx ((i, a) ∷ rest) =
      then-All (OnUpdate P) (tries tx i a) _ (each tx i a) (connects_to-All (suc tx) rest)

  on_peer-All :
      (tx : Channel) (o : Outcome (Option (List (Text × Text)))) (next : Channel → Task Effect)
      → ((tx : Channel) → All (OnUpdate P) (next tx).outputs)
      → All (OnUpdate P) (on_peer world route tries tx o next).outputs
  on_peer-All tx panic next h = tt
  on_peer-All tx (done none) next h = tt
  on_peer-All tx (done (some pairs)) next h =
      then-All (OnUpdate P) (connects_to world route tries tx pairs) _ (connects_to-All tx pairs)
        (h _)

  signals-All :
      (interfaces : List Text) (tx : Channel) (messages : List (List ℕ))
      → All (OnUpdate P) (signals world route tries interfaces tx messages).outputs
  unfolding signals
  signals-All interfaces tx [] = tt
  signals-All interfaces tx (bytes ∷ later) =
      on_peer-All tx (on_signal world.parse interfaces bytes) _
        (λ next. signals-All interfaces next later)

  announces-All :
      (candidates : Outcome CandidateStruct) (request : Outcome Message) (next : Task Effect)
      → All (OnUpdate P) next.outputs
      → All (OnUpdate P) (announces world route tries candidates request next).outputs
  announces-All panic request next h = tt
  announces-All (done candidates) panic next h = tt
  announces-All (done candidates) (done request) next h =
      let Q = OnUpdate P in
      let ended = require world.publish_ended then next in
      let published = goes_on (publishes (publish_request route candidates) ∷ []) then ended in
      let connected = require world.publishes_at then published in
      let subscribed = goes_on (subscribes request ∷ []) then connected in
      then-All Q (require world.subscribe_taken) subscribed tt (
        then-All Q (goes_on (subscribes request ∷ [])) connected (tt, tt)
          (then-All Q (require world.publishes_at) published tt (
            then-All Q (goes_on (publishes (publish_request route candidates) ∷ [])) ended (tt, tt)
              (then-All Q (require world.publish_ended) next tt h))))

  pub register-All :
      (interfaces : List Interface) (tx : Channel) (messages : List (List ℕ))
      → All (OnUpdate P) (register world route tries interfaces tx messages).outputs
  register-All interfaces tx messages = then-All (OnUpdate P) (require world.subscribes_at) _ tt (
      announces-All (candidate_struct world.thread_gdp_name interfaces) (subscribe_request route) _
        (signals-All (map (λ i. i.name) interfaces) tx messages))

-- The forwarding table is not changed by it.
abbrev pub IsIgnored : FibStateChange → Type 0
IsIgnored u = (t : Table) → on_update t u ≡ done t

module _ (world : World) (route : Route) (ct : Text) (k : FibConnectionType)
    (directed : route.direction ≡ ct ++ codes "-receiver")
    (valid : direction_str_to_connection_type (ct ++ codes "-receiver") ≡ done k) where
  receiver_update :
      (tx : Channel) (i a : Text) (u : FibStateChange)
      → update_on world route tx i a ≡ done u
      → IsIgnored u
  receiver_update tx i a u e t =
      let d = world.description i a in
      let only =
        stream_update-only route.topic_gdp_name tx i a d (ct ++ codes "-receiver") k u valid
          (ap (λ x. stream_update route.topic_gdp_name x tx i a d) (sym directed) ∙ e) in
      subst (λ v. on_update t v ≡ done t) only
        (receiver_stream_ignored route.topic_gdp_name tx i a d ct k t valid)

  pinged :
      (a : Attempt) (address : Text)
      → All
          (OnUpdate IsIgnored)
          (if a.connects then (if a.can_write then pings address ∷ [] else []) else [])
  pinged a address = elim (Bool-cases a.connects) [
    | inr off ↦ rw off tt
    | inl on ↦ elim (Bool-cases a.can_write) [
      | inl on' ↦ rw (on, on') (tt, tt)
      | inr off ↦ rw (on, off) tt
    ]
  ]

  receiver_sends-All :
      (a : Attempt) (address : Text) (o : Outcome FibStateChange)
      → ((u : FibStateChange) → o ≡ done u → IsIgnored u)
      → All (OnUpdate IsIgnored) (receiver_sends world route a address o).outputs
  receiver_sends-All a address panic h = tt
  receiver_sends-All a address (done u) h = (h u refl, pinged a address)

  receiver_tries-All :
      (tx : Channel) (i a : Text)
      → All (OnUpdate IsIgnored) (receiver_tries world route tx i a).outputs
  receiver_tries-All tx i a =
      then-All (OnUpdate IsIgnored) (require (world.attempt tx).binds) _ tt (
        receiver_sends-All (world.attempt tx) a (update_on world route tx i a)
          (receiver_update tx i a))

  sent_update-All :
      (o : Outcome FibStateChange)
      → ((u : FibStateChange) → o ≡ done u → IsIgnored u)
      → All (OnUpdate IsIgnored) (sent_update o)
  sent_update-All panic h = tt
  sent_update-All (done u) h = (h u refl, tt)

  receiver_accepts-All :
      (i : Text) (tx : Channel) (accepts : List Accepted)
      → All (OnUpdate IsIgnored) (receiver_accepts world route i tx accepts)
  unfolding receiver_accepts
  receiver_accepts-All i tx [] = tt
  receiver_accepts-All i tx (accepted peer can_write readings ∷ later) =
      All-append (OnUpdate IsIgnored) (sent_update (update_on world route tx i peer)) _
        (sent_update-All (update_on world route tx i peer) (receiver_update tx i peer))
        (receiver_accepts-All i (suc tx) later)
  receiver_accepts-All i tx (failed ∷ later) = receiver_accepts-All i tx later

  -- Whatever is accepted and whatever comes from the signaling server, no change that the receiving side
  -- of a topic sends, by its listeners or by its registration, alters the forwarding table.
  pub receiver_side-IsIgnored :
      (interfaces : List Interface) (i : Text) (tx : Channel) (accepts : List Accepted)
      (messages : List (List ℕ))
      → All (OnUpdate IsIgnored) (receiver_accepts world route i tx accepts)
        × All
            (OnUpdate IsIgnored)
            (register_stream_receiver world route interfaces tx messages).outputs
  unfolding register_stream_receiver
  receiver_side-IsIgnored interfaces i tx accepts messages = (
    receiver_accepts-All i tx accepts,
    register-All world route IsIgnored (receiver_tries world route) receiver_tries-All interfaces tx
        messages,
  )
