-- ===== src/Fib/Requests.antt =====
-- The receivers of a Request of `service_connection_fib_handler`, against the registrations.
use rt_fogros.Prelude.{
  ℕ, Text, codes, text_beq, ◌≡◌, refl, Bool, true, false, Bool-cases, inl, inr, ◌&&◌, ◌||◌, Option,
  none, some, List, [], ◌∷◌, All, All-append, if◌then◌else◌, contains, option_eq, done, arith,
}
use rt_fogros.Prelude.Assoc.{Assoc, insert}
use rt_fogros.Packet.Name.{GdpName, name_eq, name_beq}
use rt_fogros.Packet.Types.{GdpPacket}
use rt_fogros.Fib.Types.{FibConnection, FibStateChange, Channel, request_receiver, type_beq}
use rt_fogros.Fib.Binding.{ConfigFile, read_binding_table}
use rt_fogros.Fib.Table.{Table, Delivery}
use rt_fogros.Fib.Request.{
  send_request, send_requests, request_lines, send_on_interface, on_request,
}
use rt_fogros.Fib.Update.{is_receiver}
use rt_fogros.Fib.Step.{Event, packet, change, new_table, run}
use rt_fogros.Fib.Registrations.{is_add, reaches, connections, registered, subscribers}
use rt_fogros.Fib.Subscribers.{run-subscribers}
use rt_fogros.Fib.Complete.{Runs, subscribers-Runs}

-- A connection of ROS, or on the default interface.
abbrev pub goes_by : Text → Option Text → Bool
goes_by default_interface none = false
goes_by default_interface (some interface) =
    text_beq interface (codes "ros") || text_beq interface default_interface

-- What the connections of a request's name are sent.
abbrev pub request_copies : Text → GdpPacket → List FibConnection → List Delivery
request_copies i pkt [] = []
request_copies i pkt (c ∷ cs) =
    let rest = request_copies i pkt cs in
    if type_beq c.connection_type request_receiver && goes_by i c.interface
    then record { tx = c.tx; packet = pkt } ∷ rest
    else rest

abbrev HasInterface : FibConnection → Type 0
HasInterface c = (i : Text) × (c.interface ≡ some i)

reaches_interface :
    (binding : Option (Assoc Text Text)) (i a : Option Text)
    → reaches binding i a ≡ true
    → (x : Text) × (i ≡ some x)
reaches_interface binding (some i) (some a) h = (i, refl)
reaches_interface binding (some i) none h = (i, refl)
reaches_interface binding none a h = cc

connections-HasInterface :
    (u : FibStateChange) (o : Option Channel)
    → (i : Text) × (u.interface ≡ some i)
    → All HasInterface (connections u o)
connections-HasInterface u none h = tt
connections-HasInterface u (some tx) h = (h, tt)

registered-HasInterface :
    (binding : Option (Assoc Text Text)) (name : GdpName) (e : Event)
    → All HasInterface (registered binding name e)
registered-HasInterface binding name (packet now i pkt) = tt
registered-HasInterface binding name (change u) =
    elim (Bool-cases (
      is_add u.action
      && (is_receiver u.connection_type
          && (name_beq u.topic_gdp_name name && reaches binding u.interface u.address)))) [
            | inr off ↦ rw off tt
            | inl on ↦ rw on (
                connections-HasInterface u u.forward_destination
                  (reaches_interface binding u.interface u.address (ground (arith, on))))
          ]

subscribers-HasInterface :
    (binding : Option (Assoc Text Text)) (name : GdpName) (es : List Event)
    → All HasInterface (subscribers binding name es)
subscribers-HasInterface binding name [] = tt
subscribers-HasInterface binding name (e ∷ es) =
    All-append HasInterface (registered binding name e) (subscribers binding name es)
      (registered-HasInterface binding name e) (subscribers-HasInterface binding name es)

send_requests-copies :
    (i : Text) (pkt : GdpPacket) (guid : GdpName) (cs : List FibConnection)
    → pkt.guid ≡ some guid
    → All Runs cs
    → All HasInterface cs
    → send_requests i pkt cs ≡ done (request_copies i pkt cs)
unfolding send_requests send_request
send_requests-copies i pkt guid [] e h k = refl
send_requests-copies i pkt guid (c ∷ cs) e h k =
    let (x, has) = k.0 in
    let later = send_requests-copies i pkt guid cs e h.1 k.1 in
    elim (Bool-cases (type_beq c.connection_type request_receiver)) [
      | inr other ↦ rw (h.0, other) later
      | inl same ↦ elim (Bool-cases (text_beq x (codes "ros"))) [
        | inl ros ↦ rw (h.0, same, has, ros, e, later) refl
        | inr net ↦ elim (Bool-cases (text_beq x i)) [
          | inl default ↦ rw (h.0, same, has, net, default, e, later) refl
          | inr away ↦ rw (h.0, same, has, net, away, later) refl
        ]
      ]
    ]

-- The table once a request has come.
abbrev pub timed : ℕ → Table → GdpPacket → Table
timed now t pkt = record t {
  request_latency_table = insert pkt.gdpname now t.request_latency_table;
}

-- After any history that does not panic, a Request whose guid has not been processed, at a machine with
-- a default interface, does not panic: it is put into exactly the channels of the request receivers
-- that the history registered for its name and that the binding table lets through, those of ROS and
-- those on the default interface, in order; and the time is kept for the name.
pub request_to_receivers :
    (file : ConfigFile) (es : List Event) (t : Table) (ds : List Delivery) (now : ℕ)
    (interface : Text) (guid : GdpName) (pkt : GdpPacket)
    → run (new_table file) es ≡ done (t, ds)
    → pkt.guid ≡ some guid
    → contains pkt.guid t.processed_requests ≡ false
    → let sent =
        request_copies interface pkt (subscribers (read_binding_table file) pkt.gdpname es) in
      on_request now (some interface) t pkt
      ≡ done (record { table = timed now t pkt; deliveries = sent; log = request_lines sent })
unfolding on_request send_on_interface
request_to_receivers file es t ds now interface guid pkt ran has new =
    let rs = subscribers (read_binding_table file) pkt.gdpname es in
    rw
      (
        new,
        run-subscribers file pkt.gdpname es t ds ran,
        send_requests-copies interface pkt guid rs has
            (subscribers-Runs (read_binding_table file) pkt.gdpname es)
            (subscribers-HasInterface (read_binding_table file) pkt.gdpname es),
      )
      refl
