-- ===== src/Fib/Step.antt =====
-- The loop of `service_connection_fib_handler`: one event of either channel after the other.
use rt_fogros.Prelude.{ℕ, Text, Option, List, [], ◌∷◌, ◌++◌, Outcome, done, ◌>>=◌}
use rt_fogros.Packet.Action.{GdpAction, forward, request, response}
use rt_fogros.Packet.Types.{GdpPacket}
use rt_fogros.Fib.Types.{FibStateChange}
use rt_fogros.Fib.Table.{Table, Round, Delivery, idle}
use rt_fogros.Fib.Binding.{ConfigFile, read_binding_table}
use rt_fogros.Fib.Forward.{on_forward}
use rt_fogros.Fib.Request.{on_request}
use rt_fogros.Fib.Response.{on_response}
use rt_fogros.Fib.Update.{on_update}

unfoldable pub new_table : ConfigFile → Table
new_table file = record {
  binding_table = read_binding_table file;
  rib_state_table = [];
  processed_requests = [];
  request_latency_table = [];
}

-- An event of the loop, with what the environment answers while it is handled: the clock, and the
-- default interface.
pub data Event : Type 0 where
  packet : ℕ → Option Text → GdpPacket → Event
  change : FibStateChange → Event

-- `match pkt.action`; the other actions are an error line.
abbrev pub on_packet : ℕ → Option Text → Table → GdpPacket → GdpAction → Outcome Round
on_packet now interface t pkt forward = done (on_forward t pkt)
on_packet now interface t pkt request = on_request now interface t pkt
on_packet now interface t pkt response = on_response now t pkt
on_packet now interface t pkt _ = done (idle t)

unfoldable pub step : Table → Event → Outcome Round
step t (packet now interface pkt) = on_packet now interface t pkt pkt.action
step t (change update) = on_update t update >>= λ t'. done (idle t')

-- A history: the last table, and all that was put into the connections' channels.
unfoldable pub run : Table → List Event → Outcome (Table × List Delivery)
run t [] = done (t, [])
run t (e ∷ es) =
    step t e >>= λ round. run round.table es >>= λ rest. done (rest.0, round.deliveries ++ rest.1)
