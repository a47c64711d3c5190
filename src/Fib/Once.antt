-- ===== src/Fib/Once.antt =====
-- The set of processed guids of `service_connection_fib_handler` along a history.
use rt_fogros.Prelude.{
  ℕ, Text, ◌≡◌, ◌≢◌, refl, ap, ◌∙◌, true, false, Bool-cases, inl, inr, Option, none, some, List, [],
  ◌∷◌, All, All-append, contains, option_eq, done, Ensures, Ensures-bind, Ensures-done, trivially,
  unwrap, arith,
}
use rt_fogros.Packet.Name.{GdpName, name_eq}
use rt_fogros.Packet.Action.{GdpAction, forward, request, response}
use rt_fogros.Packet.Types.{GdpPacket}
use rt_fogros.Prelude.Assoc.{get, insert}
use rt_fogros.Fib.Types.{
  FibConnection, FibStateChange, FibChangeAction, add, receiver, response_receiver,
}
use rt_fogros.Fib.Table.{Table, Round, Delivery, receivers_of, deliver}
use rt_fogros.Fib.Forward.{mark_processed, on_forward}
use rt_fogros.Fib.Request.{send_requests, send_on_interface, on_request}
use rt_fogros.Fib.Response.{duration_since, on_response}
use rt_fogros.Fib.Update.{is_receiver, add_receiver, on_add, on_update}
use rt_fogros.Fib.Step.{Event, packet, change, on_packet, step, run}
use rt_fogros.Fib.Sends.{deliver-All, send_requests-All}
use rt_fogros.Fib.Processed.{contains-mark_processed, contains-cons, deliver-marked}

-- No delivery carries the guid.
abbrev pub Avoids : Option GdpName → List Delivery → Type 0
Avoids g = All (λ d. d.packet.guid ≢ g)

-- What a round keeps to, for a guid that has been processed.
abbrev pub Quiet : Option GdpName → Round → Type 0
Quiet g round = (contains g round.table.processed_requests ≡ true) × Avoids g round.deliveries

-- A packet that is let through has another guid.
guid_ne :
    (g : Option GdpName) (pkt : GdpPacket) (processed : List (Option GdpName))
    → contains g processed ≡ true
    → contains pkt.guid processed ≡ false
    → pkt.guid ≢ g
guid_ne g pkt processed h k e = cc (ap (λ x. contains x processed) e)

on_forward-Quiet :
    (g : Option GdpName) (t : Table) (pkt : GdpPacket)
    → contains g t.processed_requests ≡ true
    → Quiet g (on_forward t pkt)
unfolding on_forward
on_forward-Quiet g t pkt h = elim (Bool-cases (contains pkt.guid t.processed_requests)) [
  | inl seen ↦ rw seen (h, tt)
  | inr new ↦
      let rs = receivers_of (get pkt.gdpname t.rib_state_table) in
      rw new (
        contains-mark_processed g pkt rs t.processed_requests h,
        deliver-All (λ p. p.guid ≢ g) pkt (guid_ne g pkt t.processed_requests h new) receiver rs,
      )
]

on_response-Quiet :
    (g : Option GdpName) (now : ℕ) (t : Table) (pkt : GdpPacket)
    → contains g t.processed_requests ≡ true
    → Ensures (Quiet g) (on_response now t pkt)
unfolding on_response
on_response-Quiet g now t pkt h =
    Ensures-bind (λ _. Unit {0}) (Quiet g) (unwrap (get pkt.gdpname t.request_latency_table)) _
      (trivially (unwrap (get pkt.gdpname t.request_latency_table)))
      λ start _.
        Ensures-bind (λ _. Unit {0}) (Quiet g) (duration_since now start) _
          (trivially (duration_since now start))
          λ duration _.
            Ensures-bind (λ _. Unit {0}) (Quiet g) (unwrap pkt.guid) _ (trivially (unwrap pkt.guid))
              λ guid _. elim (Bool-cases (contains pkt.guid t.processed_requests)) [
                | inl seen ↦ rw seen (h, tt)
                | inr new ↦ rw new (
                  contains-cons g pkt.guid t.processed_requests h,
                  deliver-All (λ p. p.guid ≢ g) pkt (guid_ne g pkt t.processed_requests h new)
                      response_receiver _,
                )
              ]

on_request-Quiet :
    (g : Option GdpName) (now : ℕ) (i : Option Text) (t : Table) (pkt : GdpPacket)
    → contains g t.processed_requests ≡ true
    → Ensures (Quiet g) (on_request now i t pkt)
unfolding on_request send_on_interface
on_request-Quiet g now i t pkt h = elim (Bool-cases (contains pkt.guid t.processed_requests)) [
  | inl seen ↦ rw seen (
      Ensures-bind (λ _. Unit {0}) (Quiet g) (unwrap pkt.guid) _ (trivially (unwrap pkt.guid))
        (λ _ _. (h, tt)))
  | inr new ↦ rw new (through i (guid_ne g pkt t.processed_requests h new))
]
  where
    through :
        (i : Option Text)
        → pkt.guid ≢ g
        → Ensures (Quiet g) (
            send_on_interface i
              (record t { request_latency_table = insert pkt.gdpname now t.request_latency_table })
              pkt)
    through none ne = (h, tt)
    through (some name) ne =
        Ensures-bind _ (Quiet g) (send_requests name pkt _) _
          (send_requests-All (λ p. p.guid ≢ g) pkt ne name _) (λ ds a. (h, a))

add_receiver-processed :
    (t : Table) (update : FibStateChange)
    → Ensures (λ t'. t'.processed_requests ≡ t.processed_requests) (add_receiver t update)
unfolding add_receiver
add_receiver-processed t update = ground arith

on_add-processed :
    (t : Table) (update : FibStateChange) (a : FibChangeAction)
    → Ensures (λ t'. t'.processed_requests ≡ t.processed_requests) (on_add t update a)
on_add-processed t update add = elim (Bool-cases (is_receiver update.connection_type)) [
  | inl receiving ↦ rw receiving (add_receiver-processed t update)
  | inr sending ↦ rw sending refl
]
on_add-processed t update _ = refl

on_packet-Quiet :
    (g : Option GdpName) (now : ℕ) (i : Option Text) (t : Table) (pkt : GdpPacket) (a : GdpAction)
    → contains g t.processed_requests ≡ true
    → Ensures (Quiet g) (on_packet now i t pkt a)
on_packet-Quiet g now i t pkt forward h = on_forward-Quiet g t pkt h
on_packet-Quiet g now i t pkt request h = on_request-Quiet g now i t pkt h
on_packet-Quiet g now i t pkt response h = on_response-Quiet g now t pkt h
on_packet-Quiet g now i t pkt _ h = (h, tt)

step-Quiet :
    (g : Option GdpName) (t : Table) (e : Event)
    → contains g t.processed_requests ≡ true
    → Ensures (Quiet g) (step t e)
unfolding step on_update
step-Quiet g t (packet now i pkt) h = on_packet-Quiet g now i t pkt pkt.action h
step-Quiet g t (change update) h =
    Ensures-bind _ (Quiet g) (on_add t update update.action) _
      (on_add-processed t update update.action) (λ t' e. (ap (contains g) e ∙ h, tt))

run-Quiet :
    (g : Option GdpName) (t : Table) (es : List Event)
    → contains g t.processed_requests ≡ true
    → Ensures (λ r. Avoids g r.1) (run t es)
unfolding run
run-Quiet g t [] h = tt
run-Quiet g t (e ∷ es) h =
    Ensures-bind (Quiet g) (λ r. Avoids g r.1) (step t e) _ (step-Quiet g t e h)
      λ round q.
        Ensures-bind (λ r. Avoids g r.1) (λ r. Avoids g r.1) (run round.table es) _
          (run-Quiet g round.table es q.0)
          λ rest a. All-append (λ (d : Delivery). d.packet.guid ≢ g) round.deliveries rest.1 q.1 a

-- Once a guid has been processed, no later history, whatever its packets and changes of the table,
-- delivers a packet that carries it to anyone.
pub run-Avoids :
    (g : Option GdpName) (t : Table) (es : List Event) (t' : Table) (ds : List Delivery)
    → contains g t.processed_requests ≡ true
    → run t es ≡ done (t', ds)
    → Avoids g ds
run-Avoids g t es t' ds h e =
    Ensures-done (λ r. Avoids g r.1) (run t es) (t', ds) e (run-Quiet g t es h)

-- A `Forward` that is delivered to someone, or a `Response` that is handled, is processed.
pub on_forward-processed :
    (t : Table) (pkt : GdpPacket)
    → (on_forward t pkt).deliveries ≢ []
    → contains pkt.guid (on_forward t pkt).table.processed_requests ≡ true
unfolding on_forward
on_forward-processed t pkt ne = elim (Bool-cases (contains pkt.guid t.processed_requests)) [
  | inl seen ↦ rw seen seen
  | inr new ↦ rw new (
      marked (receivers_of (get pkt.gdpname t.rib_state_table)) t.processed_requests (rw new at ne))
]
  where
    marked :
        (rs : List FibConnection) (processed : List (Option GdpName))
        → deliver receiver pkt rs ≢ []
        → contains pkt.guid (mark_processed pkt rs processed) ≡ true
    marked rs processed ne = deliver-marked pkt rs processed ne

-- A message that is forwarded to someone is forwarded once: no later history delivers a packet with
-- its guid.
pub forward_once :
    (t : Table) (pkt : GdpPacket) (es : List Event) (t' : Table) (ds : List Delivery)
    → (on_forward t pkt).deliveries ≢ []
    → run (on_forward t pkt).table es ≡ done (t', ds)
    → Avoids pkt.guid ds
forward_once t pkt es t' ds ne e = run-Avoids pkt.guid _ es t' ds (on_forward-processed t pkt ne) e
