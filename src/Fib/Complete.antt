-- ===== src/Fib/Complete.antt =====
-- The receivers of a Forward of `service_connection_fib_handler`, against the registrations.
use rt_fogros.Prelude.{
  Text, ◌≡◌, refl, ap, ◌∙◌, Bool, true, false, Bool-cases, inl, inr, ◌&&◌, Option, none, some, List,
  [], ◌∷◌, All, All-append, if◌then◌else◌, contains, option_eq, done,
}
use rt_fogros.Prelude.Assoc.{Assoc}
use rt_fogros.Packet.Name.{GdpName, name_eq, name_beq}
use rt_fogros.Packet.Types.{GdpPacket}
use rt_fogros.Fib.Types.{
  FibConnection, FibConnectionType, FibStateChange, Channel, receiver, running, type_beq,
}
use rt_fogros.Fib.Binding.{ConfigFile, read_binding_table}
use rt_fogros.Fib.Table.{Table, Delivery, deliver}
use rt_fogros.Fib.Forward.{on_forward}
use rt_fogros.Fib.Update.{is_receiver}
use rt_fogros.Fib.Step.{Event, packet, change, new_table, run}
use rt_fogros.Fib.Registrations.{is_add, reaches, connections, registered, subscribers}
use rt_fogros.Fib.Subscribers.{run-subscribers}

-- What the connections of a kind are sent.
abbrev pub copies : FibConnectionType → GdpPacket → List FibConnection → List Delivery
copies kind pkt [] = []
copies kind pkt (c ∷ cs) =
    let rest = copies kind pkt cs in
    if type_beq c.connection_type kind then record { tx = c.tx; packet = pkt } ∷ rest else rest

abbrev pub Runs : FibConnection → Type 0
Runs c = c.state ≡ running

pub deliver-copies :
    (kind : FibConnectionType) (pkt : GdpPacket) (cs : List FibConnection)
    → All Runs cs
    → deliver kind pkt cs ≡ copies kind pkt cs
unfolding deliver
deliver-copies kind pkt [] h = refl
deliver-copies kind pkt (c ∷ cs) h = elim (Bool-cases (type_beq c.connection_type kind)) [
  | inl same ↦ rw (h.0, same, deliver-copies kind pkt cs h.1)
  | inr other ↦ rw (h.0, other, deliver-copies kind pkt cs h.1)
]

connections-Runs : (u : FibStateChange) (o : Option Channel) → All Runs (connections u o)
connections-Runs u none = tt
connections-Runs u (some tx) = (refl, tt)

registered-Runs :
    (binding : Option (Assoc Text Text)) (name : GdpName) (e : Event)
    → All Runs (registered binding name e)
registered-Runs binding name (packet now i pkt) = tt
registered-Runs binding name (change u) = chosen (
    is_add u.action
    && (is_receiver u.connection_type
        && (name_beq u.topic_gdp_name name && reaches binding u.interface u.address)))
  where
    chosen : (b : Bool) → All Runs (if b then connections u u.forward_destination else [])
    chosen true = connections-Runs u u.forward_destination
    chosen false = tt

pub subscribers-Runs :
    (binding : Option (Assoc Text Text)) (name : GdpName) (es : List Event)
    → All Runs (subscribers binding name es)
subscribers-Runs binding name [] = tt
subscribers-Runs binding name (e ∷ es) =
    All-append Runs (registered binding name e) (subscribers binding name es)
      (registered-Runs binding name e) (subscribers-Runs binding name es)

-- After any history that does not panic, a Forward whose guid has not been processed is put into
-- exactly the channels of the receivers that the history registered for its name and that the binding
-- table lets through, in order, once for each registration.
pub forward_to_subscribers :
    (file : ConfigFile) (es : List Event) (t : Table) (ds : List Delivery) (pkt : GdpPacket)
    → run (new_table file) es ≡ done (t, ds)
    → contains pkt.guid t.processed_requests ≡ false
    → (on_forward t pkt).deliveries
      ≡ copies receiver pkt (subscribers (read_binding_table file) pkt.gdpname es)
unfolding on_forward
forward_to_subscribers file es t ds pkt e new = rw new (
    ap (deliver receiver pkt) (run-subscribers file pkt.gdpname es t ds e)
    ∙ deliver-copies receiver pkt (subscribers (read_binding_table file) pkt.gdpname es)
        (subscribers-Runs (read_binding_table file) pkt.gdpname es))
