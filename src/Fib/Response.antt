-- ===== src/Fib/Response.antt =====
-- The `GdpAction::Response` arm of `service_connection_fib_handler`.
use rt_fogros.Prelude.{
  ℕ, ◌-◌, [], ◌∷◌, if◌then◌else◌, contains, option_eq, Outcome, done, panic, ◌>>=◌, unwrap, ltb,
}
use rt_fogros.Prelude.Assoc.{get}
use rt_fogros.Packet.Name.{name_eq}
use rt_fogros.Packet.Types.{GdpPacket}
use rt_fogros.Fib.Types.{response_receiver}
use rt_fogros.Fib.Table.{Table, Round, response_line, response_dup_line, receivers_of, deliver}

-- `SystemTime::duration_since`, unwrapped.
abbrev pub duration_since : ℕ → ℕ → Outcome ℕ
duration_since now start = if ltb now start then panic else done (now - start)

-- The latency entry of the name is unwrapped, and so is `duration_since`, which fails where the clock
-- has gone back, and then the guid, for the log.
unfoldable pub on_response : ℕ → Table → GdpPacket → Outcome Round
on_response now t pkt = do
  start ← unwrap (get pkt.gdpname t.request_latency_table)
  duration ← duration_since now start
  guid ← unwrap pkt.guid
  if contains pkt.guid t.processed_requests
      then done (record { table = t; deliveries = []; log = response_dup_line ∷ [] })
      else done (record {
        table = record t { processed_requests = pkt.guid ∷ t.processed_requests };
        deliveries =
            deliver response_receiver pkt (receivers_of (get pkt.gdpname t.rib_state_table));
        log = response_line ∷ [];
      })
