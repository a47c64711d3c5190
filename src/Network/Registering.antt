-- ===== src/Network/Registering.antt =====
-- The changes of the sending side of a topic, fogrs-core/src/routing_manager.rs, in the forwarding
-- table: each opens a channel of its own.
use rt_fogros.Prelude.{
  suc, ◌+◌, ◌≤◌, ◌<◌, ◌≡◌, refl, arith, Text, true, Option, List, [], ◌∷◌, ◌++◌, map, All,
  option_eq, beq_refl, done,
}
use rt_fogros.Prelude.Assoc.{Assoc, get, insert}
use rt_fogros.Packet.Name.{name_eq}
use rt_fogros.Fib.Types.{
  FibConnection, FibConnectionType, FibStateChange, Channel, sender, receiver,
}
use rt_fogros.Fib.Table.{Table}
use rt_fogros.Fib.Update.{is_bound, push_receiver, connection_of, add_receiver, on_update}
use rt_fogros.Fib.Step.{change, step, run}
use rt_fogros.Fib.Registrations.{subscribers}
use rt_fogros.Routing.Feeds.{update_of}
use rt_fogros.Routing.Manager.{Route}
use rt_fogros.Routing.Registration.{Effect, updates, World}
use rt_fogros.Routing.Answering.{opened}
use rt_fogros.Network.Outgoing.{times}

-- The changes among what a registration sends.
abbrev pub changes_of : List Effect → List FibStateChange
changes_of [] = []
changes_of (updates u ∷ es) = u ∷ changes_of es
changes_of (_ ∷ es) = changes_of es

-- The channels from a number on, one for each pair.
abbrev pub channels : Channel → List (Text × Text) → List Channel
channels tx [] = []
channels tx (p ∷ ps) = tx ∷ channels (suc tx) ps

-- The binding table lets the interface reach the address.
abbrev pub IsBound : Option (Assoc Text Text) → Text × Text → Type 0
IsBound binding (i, a) = is_bound binding i a ≡ true

module _ (world : World) (route : Route) where
  -- The table takes the changes without a panic, and puts nothing out.
  pub run-opened :
      (t : Table) (tx : Channel) (pairs : List (Text × Text))
      → All (IsBound t.binding_table) pairs
      → (t' : Table) × (run t (map change (changes_of (opened world route sender tx pairs)))
          ≡ done (t', []))
        × (t'.processed_requests ≡ t.processed_requests)
  unfolding run step on_update add_receiver
  run-opened t tx [] h = (t, refl, refl)
  run-opened t tx ((i, a) ∷ rest) h =
      let u = update_of route.topic_gdp_name sender tx i a (world.description i a) in
      let t₁ = record t {
        rib_state_table =
            insert route.topic_gdp_name
              (push_receiver (get route.topic_gdp_name t.rib_state_table) (connection_of u tx))
              t.rib_state_table;
      } in
      let (t', ran, kept) = run-opened t₁ (suc tx) rest h.1 in (t', rw (h.0, ran) refl, kept)

  times_later :
      (binding : Option (Assoc Text Text)) (c tx : Channel) (pairs : List (Text × Text))
      → c < tx
      → All (IsBound binding) pairs
      → times receiver c (
          subscribers binding route.topic_gdp_name
            (map change (changes_of (opened world route sender tx pairs))))
        ≡ 0
  times_later binding c tx [] lt h = refl
  times_later binding c tx ((i, a) ∷ rest) lt h =
      rw (beq_refl route.topic_gdp_name, h.0)
        (ground (arith, times_later binding c (suc tx) rest (omega arith) h.1))

  -- A connection of the name on each of the channels, once, and none on a channel before them.
  abbrev pub OnceFrom : Option (Assoc Text Text) → Channel → List (Text × Text) → Channel → Type 0
  OnceFrom binding tx pairs c =
      (tx ≤ c)
      × (times receiver c (
            subscribers binding route.topic_gdp_name
              (map change (changes_of (opened world route sender tx pairs))))
          ≡ 1)

  OnceFrom-cons :
      (binding : Option (Assoc Text Text)) (tx : Channel) (i a : Text) (rest : List (Text × Text))
      (cs : List Channel)
      → is_bound binding i a ≡ true
      → All (OnceFrom binding (suc tx) rest) cs
      → All (OnceFrom binding tx ((i, a) ∷ rest)) cs
  OnceFrom-cons binding tx i a rest [] h k = tt
  OnceFrom-cons binding tx i a rest (c ∷ cs) h k = (
    (omega (arith, k.0.0), rw (beq_refl route.topic_gdp_name, h) (ground (arith, k.0.0, k.0.1))),
    OnceFrom-cons binding tx i a rest cs h k.1,
  )

  pub channels-OnceFrom :
      (binding : Option (Assoc Text Text)) (tx : Channel) (pairs : List (Text × Text))
      → All (IsBound binding) pairs
      → All (OnceFrom binding tx pairs) (channels tx pairs)
  channels-OnceFrom binding tx [] h = tt
  channels-OnceFrom binding tx ((i, a) ∷ rest) h = (
    (
      omega arith,
      rw (beq_refl route.topic_gdp_name, h.0)
          (ground (arith, times_later binding tx (suc tx) rest (omega arith) h.1)),
    ),
    OnceFrom-cons binding tx i a rest (channels (suc tx) rest) h.0
        (channels-OnceFrom binding (suc tx) rest h.1),
  )

-- Channels that are older than a number.
abbrev pub Older : Channel → FibConnection → Type 0
Older tx r = r.tx < tx

pub times-append :
    (kind : FibConnectionType) (c : Channel) (rs ss : List FibConnection)
    → times kind c (rs ++ ss) ≡ times kind c rs + times kind c ss
times-append kind c [] ss = omega arith
times-append kind c (r ∷ rs) ss = ground (arith, times-append kind c rs ss)

pub times-Older :
    (kind : FibConnectionType) (c tx : Channel) (rs : List FibConnection)
    → tx ≤ c
    → All (Older tx) rs
    → times kind c rs ≡ 0
times-Older kind c tx [] le h = refl
times-Older kind c tx (r ∷ rs) le h = ground (arith, h.0, times-Older kind c tx rs le h.1)
