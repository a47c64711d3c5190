-- ===== src/Fib/Rounds.antt =====
-- The connections that a round of `service_connection_fib_handler` delivers to.
use rt_fogros.Prelude.{
  ℕ, Text, text_beq, codes, ◌≡◌, refl, ap, true, Bool-cases, inl, inr, Option, none, some, List, [],
  ◌∷◌, All, All-append, contains, option_eq, Ensures, Ensures-bind, Ensures-unwrap, trivially,
}
use mathlib.Core.List.{Memᴰ}
use rt_fogros.Prelude.Assoc.{Assoc, get}
use rt_fogros.Packet.Name.{GdpName, name_eq}
use rt_fogros.Packet.Action.{GdpAction, forward, request, response}
use rt_fogros.Packet.Types.{GdpPacket}
use rt_fogros.Fib.Types.{
  FibState, FibConnection, FibConnectionType, FibStateChange, FibChangeAction, add, receiver,
  request_receiver, response_receiver,
}
use rt_fogros.Fib.Table.{Table, Round, Delivery, is_open, receivers_of, deliver}
use rt_fogros.Fib.Forward.{on_forward}
use rt_fogros.Fib.Request.{send_request, send_requests, send_on_interface, on_request}
use rt_fogros.Fib.Response.{duration_since, on_response}
use rt_fogros.Fib.Update.{is_receiver, on_add, on_update}
use rt_fogros.Fib.Step.{Event, packet, change, on_packet, step}
use rt_fogros.Fib.Connections.{IsAdmitted, IsSound, get-AreAdmitted, add_receiver-IsSound}

-- The kind of connections that a packet of the action goes to.
abbrev pub wanted : GdpAction → Option FibConnectionType
wanted forward = some receiver
wanted request = some request_receiver
wanted response = some response_receiver
wanted _ = none

module _ (binding : Option (Assoc Text Text)) where
  -- The connection is one that the table has for the name, and admitted.
  abbrev IsListed : Assoc GdpName FibState → GdpName → FibConnection → Type 0
  IsListed m name c = Memᴰ c (receivers_of (get name m)) × IsAdmitted binding c

  -- The channel is that of a connection that the table has for the packet's name, that is admitted, and
  -- that is open to packets of its action.
  abbrev pub IsSafe : Assoc GdpName FibState → Delivery → Type 0
  IsSafe m d =
      (c : FibConnection) × (kind : FibConnectionType) × (wanted d.packet.action ≡ some kind)
      × (is_open kind c ≡ true)
      × (d.tx ≡ c.tx)
      × IsListed m d.packet.gdpname c

  abbrev pub IsSafeRound : Table → Round → Type 0
  IsSafeRound t round =
      IsSound binding round.table × All (IsSafe t.rib_state_table) round.deliveries

  listed :
      (m : Assoc GdpName FibState) (name : GdpName) (rs : List FibConnection)
      → ((c : FibConnection) → Memᴰ c rs → Memᴰ c (receivers_of (get name m)))
      → All (IsAdmitted binding) rs
      → All (IsListed m name) rs
  listed m name [] f a = tt
  listed m name (c ∷ rs) f a =
      ((f c (Memᴰ.head refl), a.0), listed m name rs (λ d i. f d (Memᴰ.tail i)) a.1)

  receivers_of-IsListed :
      (t : Table) (name : GdpName)
      → IsSound binding t
      → All (IsListed t.rib_state_table name) (receivers_of (get name t.rib_state_table))
  receivers_of-IsListed t name s =
      listed t.rib_state_table name _ (λ c i. i)
        (get-AreAdmitted binding name t.rib_state_table s.admitted)

  deliver-IsSafe :
      (m : Assoc GdpName FibState) (kind : FibConnectionType) (pkt : GdpPacket)
      (rs : List FibConnection)
      → wanted pkt.action ≡ some kind
      → All (IsListed m pkt.gdpname) rs
      → All (IsSafe m) (deliver kind pkt rs)
  unfolding deliver
  deliver-IsSafe m kind pkt [] w a = tt
  deliver-IsSafe m kind pkt (dst ∷ rest) w a = elim (Bool-cases (is_open kind dst)) [
    | inl open_dst ↦
        rw open_dst ((dst, kind, w, open_dst, refl, a.0), deliver-IsSafe m kind pkt rest w a.1)
    | inr shut_dst ↦ rw shut_dst (deliver-IsSafe m kind pkt rest w a.1)
  ]

  send_request-IsSafe :
      (m : Assoc GdpName FibState) (name : Text) (pkt : GdpPacket) (dst : FibConnection)
      → wanted pkt.action ≡ some request_receiver
      → is_open request_receiver dst ≡ true
      → IsListed m pkt.gdpname dst
      → Ensures (All (IsSafe m)) (send_request name pkt dst)
  unfolding send_request
  send_request-IsSafe m name pkt dst w o a =
      let safe : IsSafe m (record { tx = dst.tx; packet = pkt }) =
        (dst, request_receiver, w, o, refl, a) in
      Ensures-unwrap (All (IsSafe m)) dst.interface _ λ interface i.
        elim (Bool-cases (text_beq interface (codes "ros"))) [
          | inl ros ↦ rw ros (Ensures-unwrap (All (IsSafe m)) pkt.guid _ (λ g e. (safe, tt)))
          | inr not_ros ↦ elim (Bool-cases (text_beq interface name)) [
            | inl default ↦
                rw (not_ros, default)
                  (Ensures-unwrap (All (IsSafe m)) pkt.guid _ (λ g e. (safe, tt)))
            | inr other ↦ rw (not_ros, other) tt
          ]
        ]

  send_requests-IsSafe :
      (m : Assoc GdpName FibState) (name : Text) (pkt : GdpPacket) (rs : List FibConnection)
      → wanted pkt.action ≡ some request_receiver
      → All (IsListed m pkt.gdpname) rs
      → Ensures (All (IsSafe m)) (send_requests name pkt rs)
  unfolding send_requests
  send_requests-IsSafe m name pkt [] w a = tt
  send_requests-IsSafe m name pkt (dst ∷ rest) w a =
      elim (Bool-cases (is_open request_receiver dst)) [
        | inr shut_dst ↦ rw shut_dst (send_requests-IsSafe m name pkt rest w a.1)
        | inl open_dst ↦ rw open_dst (
            Ensures-bind (All (IsSafe m)) (All (IsSafe m)) (send_request name pkt dst) _
              (send_request-IsSafe m name pkt dst w open_dst a.0)
              (λ now n.
                Ensures-bind (All (IsSafe m)) (All (IsSafe m)) (send_requests name pkt rest) _
                  (send_requests-IsSafe m name pkt rest w a.1)
                  (λ more l. All-append (IsSafe m) now more n l)))
      ]

  on_forward-IsSafe :
      (t : Table) (pkt : GdpPacket)
      → pkt.action ≡ forward
      → IsSound binding t
      → IsSafeRound t (on_forward t pkt)
  unfolding on_forward
  on_forward-IsSafe t pkt e s = elim (Bool-cases (contains pkt.guid t.processed_requests)) [
    | inl seen ↦ rw seen (s, tt)
    | inr new ↦ rw new (
      record { same_binding = s.same_binding; admitted = s.admitted },
      deliver-IsSafe t.rib_state_table receiver pkt _ (ap wanted e)
          (receivers_of-IsListed t pkt.gdpname s),
    )
  ]

  send_on_interface-IsSafe :
      (i : Option Text) (t : Table) (pkt : GdpPacket)
      → pkt.action ≡ request
      → IsSound binding t
      → Ensures (IsSafeRound t) (send_on_interface i t pkt)
  unfolding send_on_interface
  send_on_interface-IsSafe none t pkt a s = (s, tt)
  send_on_interface-IsSafe (some name) t pkt a s =
      let m = t.rib_state_table in
      Ensures-bind (All (IsSafe m)) (IsSafeRound t)
        (send_requests name pkt (receivers_of (get pkt.gdpname t.rib_state_table))) _
        (send_requests-IsSafe m name pkt _ (ap wanted a) (receivers_of-IsListed t pkt.gdpname s))
        (λ ds b. (s, b))

  on_request-IsSafe :
      (now : ℕ) (i : Option Text) (t : Table) (pkt : GdpPacket)
      → pkt.action ≡ request
      → IsSound binding t
      → Ensures (IsSafeRound t) (on_request now i t pkt)
  unfolding on_request
  on_request-IsSafe now i t pkt a s = elim (Bool-cases (contains pkt.guid t.processed_requests)) [
    | inl seen ↦ rw seen (Ensures-unwrap (IsSafeRound t) pkt.guid _ (λ g e. (s, tt)))
    | inr new ↦ rw new (
        send_on_interface-IsSafe i _ pkt a
          (record { same_binding = s.same_binding; admitted = s.admitted }))
  ]

  on_response-IsSafe :
      (now : ℕ) (t : Table) (pkt : GdpPacket)
      → pkt.action ≡ response
      → IsSound binding t
      → Ensures (IsSafeRound t) (on_response now t pkt)
  unfolding on_response
  on_response-IsSafe now t pkt a s =
      Ensures-unwrap (IsSafeRound t) (get pkt.gdpname t.request_latency_table) _ λ start e.
        Ensures-bind (λ _. Unit {0}) (IsSafeRound t) (duration_since now start) _
          (trivially (duration_since now start))
          λ duration _. Ensures-unwrap (IsSafeRound t) pkt.guid _ λ g _.
            elim (Bool-cases (contains pkt.guid t.processed_requests)) [
              | inl seen ↦ rw seen (s, tt)
              | inr new ↦ rw new (
                record { same_binding = s.same_binding; admitted = s.admitted },
                deliver-IsSafe t.rib_state_table response_receiver pkt _ (ap wanted a)
                    (receivers_of-IsListed t pkt.gdpname s),
              )
            ]

  on_packet-IsSafe :
      (now : ℕ) (i : Option Text) (t : Table) (pkt : GdpPacket) (a : GdpAction)
      → pkt.action ≡ a
      → IsSound binding t
      → Ensures (IsSafeRound t) (on_packet now i t pkt a)
  on_packet-IsSafe now i t pkt forward e s = on_forward-IsSafe t pkt e s
  on_packet-IsSafe now i t pkt request e s = on_request-IsSafe now i t pkt e s
  on_packet-IsSafe now i t pkt response e s = on_response-IsSafe now t pkt e s
  on_packet-IsSafe now i t pkt _ e s = (s, tt)

  on_add-IsSound :
      (t : Table) (update : FibStateChange) (a : FibChangeAction)
      → IsSound binding t
      → Ensures (IsSound binding) (on_add t update a)
  on_add-IsSound t update add s = elim (Bool-cases (is_receiver update.connection_type)) [
    | inl receiving ↦ rw receiving (add_receiver-IsSound binding t update receiving s)
    | inr sending ↦ rw sending s
  ]
  on_add-IsSound t update _ s = s

  pub step-IsSafe : (t : Table) (e : Event) → IsSound binding t → Ensures (IsSafeRound t) (step t e)
  unfolding step on_update
  step-IsSafe t (packet now i pkt) s = on_packet-IsSafe now i t pkt pkt.action refl s
  step-IsSafe t (change update) s =
      Ensures-bind (IsSound binding) (IsSafeRound t) (on_add t update update.action) _
        (on_add-IsSound t update update.action s) (λ t' s'. (s', tt))
