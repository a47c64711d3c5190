-- ===== src/Fib/Growth.antt =====
-- What each event of the loop of service_connection_fib_handler adds to the connections of a name.
use rt_fogros.Prelude.{
  ℕ, Text, ◌≡◌, refl, sym, ap, ◌∙◌, Bool, true, false, Bool-cases, inl, inr, ◌&&◌, Option, none,
  some, List, [], ◌∷◌, ◌++◌, append-nil, append_assoc, if◌then◌else◌, contains, option_eq, Ensures,
  Ensures-bind, Ensures-unwrap, trivially,
}
use mathlib.Core.Path.{subst}
use rt_fogros.Prelude.Assoc.{Assoc, get, insert, get-insert}
use rt_fogros.Packet.Name.{GdpName, name_eq, name_beq, name_beq_iff}
use rt_fogros.Packet.Action.{GdpAction, forward, request, response}
use rt_fogros.Packet.Types.{GdpPacket}
use rt_fogros.Fib.Types.{FibConnection, FibStateChange, FibChangeAction, add}
use rt_fogros.Fib.Table.{Table, Round, Delivery, receivers_of}
use rt_fogros.Fib.Forward.{on_forward}
use rt_fogros.Fib.Request.{send_requests, send_on_interface, on_request}
use rt_fogros.Fib.Response.{duration_since, on_response}
use rt_fogros.Fib.Update.{is_receiver, is_bound, push_receiver, add_receiver, on_add, on_update}
use rt_fogros.Fib.Step.{Event, packet, change, on_packet, step, run}
use rt_fogros.Fib.Registrations.{
  is_add, reaches, connections, subscription, registered, subscribers,
}

module _ (name : GdpName) where
  abbrev pub entry : Table → List FibConnection
  entry t = receivers_of (get name t.rib_state_table)

  -- The second table has the first one's binding, and `cs` more for the name.
  abbrev pub Grows : Table → List FibConnection → Table → Type 0
  Grows t cs t' = (t'.binding_table ≡ t.binding_table) × (entry t' ≡ entry t ++ cs)

  pub Grows-refl : (t : Table) → Grows t [] t
  Grows-refl t = (refl, sym (append-nil (entry t)))

  pub Grows-trans :
      (t u v : Table) (cs ds : List FibConnection)
      → Grows t cs u
      → Grows u ds v
      → Grows t (cs ++ ds) v
  Grows-trans t u v cs ds g h =
      (h.0 ∙ g.0, h.1 ∙ ap (λ l. l ++ ds) g.1 ∙ append_assoc (entry t) cs ds)

  pub on_forward-Grows : (t : Table) (pkt : GdpPacket) → Grows t [] (on_forward t pkt).table
  unfolding on_forward
  on_forward-Grows t pkt = elim (Bool-cases (contains pkt.guid t.processed_requests)) [
    | inl seen ↦ rw seen (Grows-refl t)
    | inr new ↦ rw new (Grows-refl t)
  ]

  abbrev pub Kept : Table → Round → Type 0
  Kept t round = Grows t [] round.table

  pub send_on_interface-Kept :
      (i : Option Text) (t : Table) (pkt : GdpPacket) → Ensures (Kept t) (send_on_interface i t pkt)
  unfolding send_on_interface
  send_on_interface-Kept none t pkt = Grows-refl t
  send_on_interface-Kept (some i) t pkt =
      let sends = send_requests i pkt (receivers_of (get pkt.gdpname t.rib_state_table)) in
      Ensures-bind (λ _. Unit {0}) (Kept t) sends _ (trivially sends) (λ ds _. Grows-refl t)

  pub on_request-Kept :
      (now : ℕ) (i : Option Text) (t : Table) (pkt : GdpPacket)
      → Ensures (Kept t) (on_request now i t pkt)
  unfolding on_request
  on_request-Kept now i t pkt = elim (Bool-cases (contains pkt.guid t.processed_requests)) [
    | inl seen ↦ rw seen (Ensures-unwrap (Kept t) pkt.guid _ (λ g e. Grows-refl t))
    | inr new ↦ rw new (
        send_on_interface-Kept i
          (record t { request_latency_table = insert pkt.gdpname now t.request_latency_table }) pkt)
  ]

  pub on_response-Kept :
      (now : ℕ) (t : Table) (pkt : GdpPacket) → Ensures (Kept t) (on_response now t pkt)
  unfolding on_response
  on_response-Kept now t pkt =
      Ensures-unwrap (Kept t) (get pkt.gdpname t.request_latency_table) _ λ start e.
        Ensures-bind (λ _. Unit {0}) (Kept t) (duration_since now start) _
          (trivially (duration_since now start))
          λ duration _. Ensures-unwrap (Kept t) pkt.guid _ λ g _.
            elim (Bool-cases (contains pkt.guid t.processed_requests)) [
              | inl seen ↦ rw seen (Grows-refl t)
              | inr new ↦ rw new (Grows-refl t)
            ]

  pub on_packet-Kept :
      (now : ℕ) (i : Option Text) (t : Table) (pkt : GdpPacket) (a : GdpAction)
      → Ensures (Kept t) (on_packet now i t pkt a)
  on_packet-Kept now i t pkt forward = on_forward-Grows t pkt
  on_packet-Kept now i t pkt request = on_request-Kept now i t pkt
  on_packet-Kept now i t pkt response = on_response-Kept now t pkt
  on_packet-Kept now i t pkt _ = Grows-refl t

  pub receivers_of-push_receiver :
      (o : Option _) (c : FibConnection) → (push_receiver o c).receivers ≡ receivers_of o ++ c ∷ []
  receivers_of-push_receiver none c = refl
  receivers_of-push_receiver (some s) c = refl

  -- The connection becomes one more of its own name, and nothing changes for another.
  pub insert-Grows :
      (t : Table) (k : GdpName) (c : FibConnection)
      → Grows t (if name_beq k name && true then c ∷ [] else []) (record t {
        rib_state_table = insert k (push_receiver (get k t.rib_state_table) c) t.rib_state_table;
      })
  insert-Grows t k c = elim (Bool-cases (name_beq k name)) [
    | inr other ↦
        rw
          (
            other,
            get-insert k name (push_receiver (get k t.rib_state_table) c) t.rib_state_table,
            other,
          )
          (Grows-refl t)
    | inl same ↦
        rw
          (
            same,
            get-insert k name (push_receiver (get k t.rib_state_table) c) t.rib_state_table,
            same,
          )
          (
            refl,
            receivers_of-push_receiver (get k t.rib_state_table) c
                ∙ ap (λ n. receivers_of (get n t.rib_state_table) ++ c ∷ [])
                    ((name_beq_iff k name).0 same),
          )
  ]

  abbrev pub added : Option (Assoc Text Text) → FibStateChange → List FibConnection
  added binding u =
      if name_beq u.topic_gdp_name name && reaches binding u.interface u.address
      then connections u u.forward_destination
      else []

  pub add_receiver-Grows :
      (t : Table) (u : FibStateChange)
      → Ensures (Grows t (added t.binding_table u)) (add_receiver t u)
  unfolding add_receiver
  add_receiver-Grows t u =
      let P = Grows t (added t.binding_table u) in
      Ensures-unwrap P u.interface _ λ interface i. Ensures-unwrap P u.address _ λ address a.
        elim (Bool-cases (is_bound t.binding_table interface address)) [
          | inr unbound ↦ rw (unbound, i, a, unbound) (no_more (name_beq u.topic_gdp_name name) _)
          | inl bound ↦ rw bound (
              Ensures-unwrap P u.forward_destination _
                (λ tx f. rw (i, a, bound, f) (insert-Grows t u.topic_gdp_name _)))
        ]
    where
      no_more : (b : Bool) (cs : List FibConnection) → Grows t (if b && false then cs else []) t
      no_more true cs = Grows-refl t
      no_more false cs = Grows-refl t

  pub on_add-Grows :
      (t : Table) (u : FibStateChange) (a : FibChangeAction)
      → Ensures
          (Grows t (
            if is_add a
              && (is_receiver u.connection_type
                  && (name_beq u.topic_gdp_name name
                      && reaches t.binding_table u.interface u.address))
            then connections u u.forward_destination
            else []))
          (on_add t u a)
  on_add-Grows t u add = elim (Bool-cases (is_receiver u.connection_type)) [
    | inl receiving ↦ rw receiving (add_receiver-Grows t u)
    | inr sending ↦ rw sending (Grows-refl t)
  ]
  on_add-Grows t u _ = Grows-refl t

  pub step-Grows :
      (t : Table) (e : Event)
      → Ensures (λ r. Grows t (registered t.binding_table name e) r.table) (step t e)
  unfolding step on_update
  step-Grows t (packet now i pkt) = on_packet-Kept now i t pkt pkt.action
  step-Grows t (change u) =
      let P = Grows t (subscription t.binding_table name u) in
      Ensures-bind P (λ r. P r.table) (on_add t u u.action) _ (on_add-Grows t u u.action)
        (λ t' g. g)

  pub run-Grows :
      (t : Table) (es : List Event)
      → Ensures (λ r. Grows t (subscribers t.binding_table name es) r.0) (run t es)
  unfolding run
  run-Grows t [] = Grows-refl t
  run-Grows t (e ∷ es) =
      let goal =
        λ (r : Table × List Delivery). Grows t (subscribers t.binding_table name (e ∷ es)) r.0 in
      Ensures-bind (λ r. Grows t (registered t.binding_table name e) r.table) goal (step t e) _
        (step-Grows t e)
        λ round g.
          Ensures-bind (λ r. Grows round.table (subscribers round.table.binding_table name es) r.0)
            goal (run round.table es) _ (run-Grows round.table es)
            λ rest h.
              Grows-trans t round.table rest.0 (registered t.binding_table name e)
                (subscribers t.binding_table name es) g
                (subst (λ b. Grows round.table (subscribers b name es) rest.0) g.0 h)
