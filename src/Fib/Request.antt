-- ===== src/Fib/Request.antt =====
-- The `GdpAction::Request` arm of `service_connection_fib_handler`.
use rt_fogros.Prelude.{
  ℕ, Text, codes, text_beq, Option, none, some, List, [], ◌∷◌, ◌++◌, if◌then◌else◌, contains,
  option_eq, Outcome, done, ◌>>=◌, unwrap,
}
use rt_fogros.Prelude.Assoc.{get, insert}
use rt_fogros.Packet.Name.{name_eq}
use rt_fogros.Packet.Types.{GdpPacket}
use rt_fogros.Fib.Types.{FibConnection, request_receiver}
use rt_fogros.Fib.Table.{
  Table, Round, Delivery, LogLine, request_line, request_dup_line, idle, is_open, receivers_of,
}

-- One open connection: `dst.interface` is unwrapped, and so is the packet's guid where the packet is
-- sent.
unfoldable pub send_request : Text → GdpPacket → FibConnection → Outcome (List Delivery)
send_request default_interface pkt dst = do
  interface ← unwrap dst.interface
  if text_beq interface (codes "ros")
      then (do guid ← unwrap pkt.guid; done (record { tx = dst.tx; packet = pkt } ∷ []))
      else if text_beq interface default_interface
      then (do guid ← unwrap pkt.guid; done (record { tx = dst.tx; packet = pkt } ∷ []))
      else done []

-- The loop over the receivers.
unfoldable pub send_requests : Text → GdpPacket → List FibConnection → Outcome (List Delivery)
send_requests default_interface pkt [] = done []
send_requests default_interface pkt (dst ∷ rest) =
    let later = send_requests default_interface pkt rest in
    if is_open request_receiver dst
    then (do now ← send_request default_interface pkt dst; more ← later; done (now ++ more))
    else later

-- One log line for each packet that is sent.
abbrev pub request_lines : List Delivery → List LogLine
request_lines [] = []
request_lines (d ∷ ds) = request_line ∷ request_lines ds

-- What follows the look at the default interface, which is `none` where `get_default_interface` fails.
unfoldable pub send_on_interface : Option Text → Table → GdpPacket → Outcome Round
send_on_interface none t pkt = done (idle t)
send_on_interface (some name) t pkt =
    send_requests name pkt (receivers_of (get pkt.gdpname t.rib_state_table)) >>= λ ds.
    done (record { table = t; deliveries = ds; log = request_lines ds })

-- `interface` is `default_net::get_default_interface()` and `now` the clock.
unfoldable pub on_request : ℕ → Option Text → Table → GdpPacket → Outcome Round
on_request now interface t pkt =
    if contains pkt.guid t.processed_requests
    then (do
      guid ← unwrap pkt.guid
      done (record { table = t; deliveries = []; log = request_dup_line ∷ [] }))
    else send_on_interface interface
        (record t { request_latency_table = insert pkt.gdpname now t.request_latency_table }) pkt
