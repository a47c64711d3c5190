-- ===== src/Routing/Opened.antt =====
-- The connections that `register_stream_sender` of fogrs-core/src/routing_manager.rs opens.
use rt_fogros.Prelude.{
  ℕ, suc, ◌≡◌, ◌≢◌, refl, sym, ◌>>=◌, ap, ◌∙◌, Text, codes, Bool, true, false, Bool-cases, inl, inr,
  Option, none, some, List, [], ◌∷◌, ◌++◌, All, All-append, Outcome, done, panic, >>=-eq-done,
}
use mathlib.Core.Path.{subst}
use mathlib.Core.List.{Memᴰ}
use rt_fogros.Prelude.Tasks.{require, then-All}
use rt_fogros.Fib.Types.{FibConnectionType, FibStateChange, Channel}
use rt_fogros.Fib.Update.{is_receiver}
use rt_fogros.Routing.Direction.{direction_str_to_connection_type}
use rt_fogros.Routing.Ends.{of_sender}
use rt_fogros.Routing.Feeds.{update_of, stream_update-only, registered_after_pong, IsAcknowledged}
use rt_fogros.Routing.Manager.{Route}
use rt_fogros.Routing.Register.{Interface}
use rt_fogros.Routing.Streams.{
  Reading, Handshake, acknowledged, given_up, waiting, await_pong, after_handshake, stream_update,
  handle_stream_sender,
}
use rt_fogros.Routing.Registration.{
  Effect, updates, Accepted, accepted, failed, World, sent, update_on, sender_accepts, sender_tries,
  register_stream_sender,
}
use rt_fogros.Routing.Registered.{OnUpdate, register-All}

-- A handshake sends no other change than its own.
after_handshake-same :
    (u v : FibStateChange) (h : Handshake) → after_handshake (done u) h ≡ done (some v) → u ≡ v
after_handshake-same u v acknowledged e = cc
after_handshake-same u v given_up e = cc
after_handshake-same u v waiting e = cc

handle_stream_sender-same :
    (is_utf8 : List ℕ → Bool) (can_write : Bool) (readings : List Reading) (u v : FibStateChange)
    → handle_stream_sender is_utf8 can_write readings (done u) ≡ done (some v)
    → u ≡ v
unfolding handle_stream_sender
handle_stream_sender-same is_utf8 true readings u v e =
    let (h, waited, later) =
      >>=-eq-done (await_pong is_utf8 readings) (after_handshake (done u)) e in
    after_handshake-same u v h later
handle_stream_sender-same is_utf8 false readings u v e = absurd (ne e)
  where
    ne : ◌≢◌ {A = Outcome (Option FibStateChange)} (done none) (done (some v))
    ne h = cc

-- What is sent after a handshake has the property that its change has once the pong has come.
sent-All :
    (P : FibStateChange → Type 0) (is_utf8 : List ℕ → Bool) (can_write : Bool)
    (readings : List Reading) (u : FibStateChange)
    → (IsAcknowledged readings → P u)
    → All (OnUpdate P) (sent (handle_stream_sender is_utf8 can_write readings (done u)))
sent-All P is_utf8 can_write readings u h =
    over (handle_stream_sender is_utf8 can_write readings (done u))
      (registered_after_pong is_utf8 can_write readings (done u))
      (handle_stream_sender-same is_utf8 can_write readings u)
  where
    over :
        (o : Outcome (Option FibStateChange))
        → ((v : FibStateChange) → o ≡ done (some v) → IsAcknowledged readings)
        → ((v : FibStateChange) → o ≡ done (some v) → u ≡ v)
        → All (OnUpdate P) (sent o)
    over panic a b = tt
    over (done none) a b = tt
    over (done (some v)) a b = (subst P (b v refl) (h (a v refl)), tt)

-- Nor does it send any where there is none.
after_handshake-none :
    (P : FibStateChange → Type 0) (h : Outcome Handshake)
    → All (OnUpdate P) (sent (h >>= after_handshake panic))
after_handshake-none P panic = tt
after_handshake-none P (done acknowledged) = tt
after_handshake-none P (done given_up) = tt
after_handshake-none P (done waiting) = tt

sent_outcome-All :
    (P : FibStateChange → Type 0) (is_utf8 : List ℕ → Bool) (can_write : Bool)
    (readings : List Reading) (o : Outcome FibStateChange)
    → ((u : FibStateChange) → o ≡ done u → IsAcknowledged readings → P u)
    → All (OnUpdate P) (sent (handle_stream_sender is_utf8 can_write readings o))
unfolding handle_stream_sender
sent_outcome-All P is_utf8 can_write readings (done u) h =
    sent-All P is_utf8 can_write readings u (h u refl)
sent_outcome-All P is_utf8 true readings panic h =
    after_handshake-none P (await_pong is_utf8 readings)
sent_outcome-All P is_utf8 false readings panic h = tt

-- The change is of a receiving connection on a channel of an attempt that was connected, and whose
-- peer has answered the ping in time.
abbrev pub IsOpened : World → FibStateChange → Type 0
IsOpened world u =
    (tx : Channel) × (u.forward_destination ≡ some tx)
    × (is_receiver u.connection_type ≡ true)
    × ((world.attempt tx).connects ≡ true)
    × IsAcknowledged (world.attempt tx).readings

-- The change is of a receiving connection to a peer that was accepted, and has answered the ping.
abbrev pub IsAnswered : List Accepted → FibStateChange → Type 0
IsAnswered accepts u =
    (peer : Text) × (can_write : Bool) × (readings : List Reading) × Memᴰ
      (accepted peer can_write readings) accepts
    × (u.address ≡ some peer)
    × (is_receiver u.connection_type ≡ true)
    × IsAcknowledged readings

IsAnswered-later :
    (a : Accepted) (later : List Accepted) (u : FibStateChange)
    → IsAnswered later u
    → IsAnswered (a ∷ later) u
IsAnswered-later a later u (peer, can_write, readings, m, address, kind, acknowledged_by) =
    (peer, can_write, readings, Memᴰ.tail m, address, kind, acknowledged_by)

OnUpdate-map :
    (P Q : FibStateChange → Type 0) (es : List Effect)
    → ((u : FibStateChange) → P u → Q u)
    → All (OnUpdate P) es
    → All (OnUpdate Q) es
OnUpdate-map P Q [] f h = tt
OnUpdate-map P Q (updates u ∷ es) f h = (f u h.0, OnUpdate-map P Q es f h.1)
OnUpdate-map P Q (Effect.subscribes m ∷ es) f h = (tt, OnUpdate-map P Q es f h.1)
OnUpdate-map P Q (Effect.publishes m ∷ es) f h = (tt, OnUpdate-map P Q es f h.1)
OnUpdate-map P Q (Effect.pings a ∷ es) f h = (tt, OnUpdate-map P Q es f h.1)

module _ (world : World) (route : Route) (ct : Text) (k : FibConnectionType)
    (directed : route.direction ≡ ct ++ codes "-sender")
    (valid : direction_str_to_connection_type (ct ++ codes "-sender") ≡ done k) where
  abbrev change_of : Channel → Text → Text → FibStateChange
  change_of tx i a = update_of route.topic_gdp_name k tx i a (world.description i a)

  sender_update :
      (tx : Channel) (i a : Text) (u : FibStateChange)
      → update_on world route tx i a ≡ done u
      → change_of tx i a ≡ u
  sender_update tx i a u e =
      let d = world.description i a in
      stream_update-only route.topic_gdp_name tx i a d (ct ++ codes "-sender") k u valid
        (ap (λ x. stream_update route.topic_gdp_name x tx i a d) (sym directed) ∙ e)

  sender_tries-All :
      (tx : Channel) (i a : Text)
      → All (OnUpdate (IsOpened world)) (sender_tries world route tx i a).outputs
  sender_tries-All tx i a =
      let Q = OnUpdate (IsOpened world) in
      then-All Q (require (world.attempt tx).binds) _ tt
        (elim (Bool-cases (world.attempt tx).connects) [
          | inr off ↦ rw off tt
          | inl on ↦ rw on (
              sent_outcome-All (IsOpened world) world.is_utf8 (world.attempt tx).can_write
                (world.attempt tx).readings (update_on world route tx i a)
                (λ u e h.
                  subst (IsOpened world) (sender_update tx i a u e)
                    (tx, refl, of_sender ct k valid, on, h)))
        ])

  sender_accepts-All :
      (i : Text) (tx : Channel) (accepts : List Accepted)
      → All (OnUpdate (IsAnswered accepts)) (sender_accepts world route i tx accepts)
  unfolding sender_accepts
  sender_accepts-All i tx [] = tt
  sender_accepts-All i tx (accepted peer can_write readings ∷ later) =
      let Q = IsAnswered (accepted peer can_write readings ∷ later) in
      All-append (OnUpdate Q) _ _
        (sent_outcome-All Q world.is_utf8 can_write readings (update_on world route tx i peer)
          (λ u e h.
            subst Q (sender_update tx i peer u e)
              (peer, can_write, readings, Memᴰ.head refl, refl, of_sender ct k valid, h)))
        (OnUpdate-map (IsAnswered later) Q _
          (IsAnswered-later (accepted peer can_write readings) later)
          (sender_accepts-All i (suc tx) later))
  sender_accepts-All i tx (failed ∷ later) =
      OnUpdate-map (IsAnswered later) (IsAnswered (failed ∷ later)) _
        (IsAnswered-later failed later) (sender_accepts-All i tx later)

  -- Every change that the sending side of a topic sends to the forwarding table, by its listeners or by
  -- its registration, is of a receiving connection: to an accepted peer, or on the channel of an attempt
  -- that was connected; and the peer has answered the ping with a pong, before any second passed in
  -- which nothing came.
  pub sender_side_acknowledged :
      (interfaces : List Interface) (i : Text) (tx : Channel) (accepts : List Accepted)
      (messages : List (List ℕ))
      → All (OnUpdate (IsAnswered accepts)) (sender_accepts world route i tx accepts)
        × All
            (OnUpdate (IsOpened world))
            (register_stream_sender world route interfaces tx messages).outputs
  unfolding register_stream_sender
  sender_side_acknowledged interfaces i tx accepts messages = (
    sender_accepts-All i tx accepts,
    register-All world route (IsOpened world) (sender_tries world route) sender_tries-All interfaces
        tx messages,
  )
