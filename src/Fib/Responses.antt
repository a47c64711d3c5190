-- ===== src/Fib/Responses.antt =====
-- The receivers of a Response of `service_connection_fib_handler`, against the registrations.
use rt_fogros.Prelude.{
  ℕ, ◌-◌, ◌≤◌, ◌≡◌, ap, ◌∙◌, arith, ltb, Bool, false, some, List, [], ◌∷◌, if◌then◌else◌, contains,
  option_eq, Outcome, done, panic, ◌>>=◌, unwrap,
}
use rt_fogros.Prelude.Assoc.{get}
use rt_fogros.Packet.Name.{GdpName, name_eq}
use rt_fogros.Packet.Types.{GdpPacket}
use rt_fogros.Fib.Types.{response_receiver}
use rt_fogros.Fib.Binding.{ConfigFile, read_binding_table}
use rt_fogros.Fib.Table.{
  Table, Round, Delivery, response_line, response_dup_line, receivers_of, deliver,
}
use rt_fogros.Fib.Response.{duration_since, on_response}
use rt_fogros.Fib.Step.{Event, new_table, run}
use rt_fogros.Fib.Registrations.{subscribers}
use rt_fogros.Fib.Subscribers.{run-subscribers}
use rt_fogros.Fib.Complete.{copies, deliver-copies, subscribers-Runs}

no_less : (a b : ℕ) → a ≤ b → ltb b a ≡ false
no_less a b h = ground arith

duration_since_lem : (start now : ℕ) → start ≤ now → duration_since now start ≡ done (now - start)
duration_since_lem start now h =
    ap (λ b. if b then panic else done (now - start)) (no_less start now h)

-- A response that is new goes to the response receivers of its name.
pub on_response-new :
    (now start : ℕ) (t : Table) (pkt : GdpPacket) (guid : GdpName)
    → get pkt.gdpname t.request_latency_table ≡ some start
    → start ≤ now
    → pkt.guid ≡ some guid
    → contains pkt.guid t.processed_requests ≡ false
    → on_response now t pkt
      ≡ done (record {
        table = record t { processed_requests = pkt.guid ∷ t.processed_requests };
        deliveries =
            deliver response_receiver pkt (receivers_of (get pkt.gdpname t.rib_state_table));
        log = response_line ∷ [];
      })
unfolding on_response
on_response-new now start t pkt guid g h i n =
    let answer : Bool → Outcome Round = λ seen.
      if seen
      then done (record { table = t; deliveries = []; log = response_dup_line ∷ [] })
      else done (record {
        table = record t { processed_requests = pkt.guid ∷ t.processed_requests };
        deliveries =
            deliver response_receiver pkt (receivers_of (get pkt.gdpname t.rib_state_table));
        log = response_line ∷ [];
      }) in
    let seen = contains pkt.guid t.processed_requests in
    ap (λ o. unwrap o >>= λ s. duration_since now s >>= λ d. unwrap pkt.guid >>= λ x. answer seen) g
    ∙ ap (λ o. o >>= λ d. unwrap pkt.guid >>= λ x. answer seen) (duration_since_lem start now h)
    ∙ ap (λ o. unwrap o >>= λ x. answer seen) i
    ∙ ap answer n

-- The table once the packet's guid has been processed.
abbrev pub processed : Table → GdpPacket → Table
processed t pkt = record t { processed_requests = pkt.guid ∷ t.processed_requests }

-- The same for a table whose receivers are those that a history registered.
pub response_sent :
    (file : ConfigFile) (es : List Event) (t : Table) (start now : ℕ) (guid : GdpName)
    (pkt : GdpPacket)
    → receivers_of (get pkt.gdpname t.rib_state_table)
      ≡ subscribers (read_binding_table file) pkt.gdpname es
    → get pkt.gdpname t.request_latency_table ≡ some start
    → start ≤ now
    → pkt.guid ≡ some guid
    → contains pkt.guid t.processed_requests ≡ false
    → on_response now t pkt
      ≡ done (record {
        table = processed t pkt;
        deliveries =
            copies response_receiver pkt (subscribers (read_binding_table file) pkt.gdpname es);
        log = response_line ∷ [];
      })
response_sent file es t start now guid pkt same asked clock has new =
    let rs = subscribers (read_binding_table file) pkt.gdpname es in
    on_response-new now start t pkt guid asked clock has new
    ∙ ap
        (λ sent.
          done (record { table = processed t pkt; deliveries = sent; log = response_line ∷ [] }))
        (ap (deliver response_receiver pkt) same
          ∙ deliver-copies response_receiver pkt rs
              (subscribers-Runs (read_binding_table file) pkt.gdpname es))

-- After any history that does not panic, a Response whose guid has not been processed, for a name that
-- has been requested and under a clock that has not gone back since, does not panic: it is put into
-- exactly the channels of the response receivers that the history registered for its name and that the
-- binding table lets through, in order, and its guid is processed.
pub response_to_receivers :
    (file : ConfigFile) (es : List Event) (t : Table) (ds : List Delivery) (start now : ℕ)
    (guid : GdpName) (pkt : GdpPacket)
    → run (new_table file) es ≡ done (t, ds)
    → get pkt.gdpname t.request_latency_table ≡ some start
    → start ≤ now
    → pkt.guid ≡ some guid
    → contains pkt.guid t.processed_requests ≡ false
    → on_response now t pkt
      ≡ done (record {
        table = processed t pkt;
        deliveries =
            copies response_receiver pkt (subscribers (read_binding_table file) pkt.gdpname es);
        log = response_line ∷ [];
      })
response_to_receivers file es t ds start now guid pkt ran asked clock has new =
    response_sent file es t start now guid pkt (run-subscribers file pkt.gdpname es t ds ran) asked
      clock has new
