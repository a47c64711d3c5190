-- ===== src/Fib/Registrations.antt =====
-- What a history registers for a name: the abstract view of the forwarding table.
use rt_fogros.Prelude.{
  Text, Bool, true, false, ◌&&◌, Option, none, some, List, [], ◌∷◌, ◌++◌, if◌then◌else◌, option_eq,
}
use rt_fogros.Prelude.Assoc.{Assoc}
use rt_fogros.Packet.Name.{GdpName, name_eq, name_beq}
use rt_fogros.Fib.Types.{FibConnection, FibStateChange, FibChangeAction, add, Channel}
use rt_fogros.Fib.Update.{is_receiver, is_bound, connection_of}
use rt_fogros.Fib.Step.{Event, packet, change}

abbrev pub is_add : FibChangeAction → Bool
is_add add = true
is_add _ = false

-- The interface and the address are there, and the binding table lets the one reach the other.
abbrev pub reaches : Option (Assoc Text Text) → Option Text → Option Text → Bool
reaches binding (some interface) (some address) = is_bound binding interface address
reaches binding _ _ = false

abbrev pub connections : FibStateChange → Option Channel → List FibConnection
connections u none = []
connections u (some tx) = connection_of u tx ∷ []

-- What a change registers for the name.
abbrev pub subscription : Option (Assoc Text Text) → GdpName → FibStateChange → List FibConnection
subscription binding name u =
    if is_add u.action
      && (is_receiver u.connection_type
          && (name_beq u.topic_gdp_name name && reaches binding u.interface u.address))
    then connections u u.forward_destination
    else []

abbrev pub registered : Option (Assoc Text Text) → GdpName → Event → List FibConnection
registered binding name (packet now i pkt) = []
registered binding name (change u) = subscription binding name u

abbrev pub subscribers : Option (Assoc Text Text) → GdpName → List Event → List FibConnection
subscribers binding name [] = []
subscribers binding name (e ∷ es) = registered binding name e ++ subscribers binding name es
