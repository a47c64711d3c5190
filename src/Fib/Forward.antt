-- ===== src/Fib/Forward.antt =====
-- The `GdpAction::Forward` arm of `service_connection_fib_handler`.
use rt_fogros.Prelude.{Option, List, [], ◌∷◌, if◌then◌else◌, contains, option_eq}
use rt_fogros.Prelude.Assoc.{get}
use rt_fogros.Packet.Name.{GdpName, name_eq}
use rt_fogros.Packet.Types.{GdpPacket}
use rt_fogros.Fib.Types.{FibConnection, receiver}
use rt_fogros.Fib.Table.{Table, Round, idle, is_open, receivers_of, deliver}

-- The loop over the receivers: each open connection puts the guid into the set (which an element is
-- put into once) and gets the packet.
unfoldable pub mark_processed :
    GdpPacket → List FibConnection → List (Option GdpName) → List (Option GdpName)
mark_processed pkt [] processed = processed
mark_processed pkt (dst ∷ rest) processed = mark_processed pkt rest (
    if is_open receiver dst
    then (if contains pkt.guid processed then processed else pkt.guid ∷ processed)
    else processed)

unfoldable pub on_forward : Table → GdpPacket → Round
on_forward t pkt =
    let receivers = receivers_of (get pkt.gdpname t.rib_state_table) in
    if contains pkt.guid t.processed_requests then idle t else record {
      table = record t { processed_requests = mark_processed pkt receivers t.processed_requests };
      deliveries = deliver receiver pkt receivers;
      log = [];
    }
