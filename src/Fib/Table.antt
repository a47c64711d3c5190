-- ===== src/Fib/Table.antt =====
-- The state of `service_connection_fib_handler`, and what a round of it puts out.
use rt_fogros.Prelude.{ℕ, Text, Bool, Option, none, some, List, [], ◌∷◌, ◌&&◌, if◌then◌else◌}
use rt_fogros.Prelude.Assoc.{Assoc}
use rt_fogros.Packet.Name.{GdpName}
use rt_fogros.Packet.Types.{GdpPacket}
use rt_fogros.Fib.Types.{FibConnection, FibConnectionType, FibState, Channel, is_running, type_beq}

-- The map `sent_requests_by_interface` is left out: the statements that use it stand behind a
-- `continue` of all three branches.
pub record Table : Type 0 where
  pub binding_table : Option (Assoc Text Text)
  pub rib_state_table : Assoc GdpName FibState
  pub processed_requests : List (Option GdpName)
  pub request_latency_table : Assoc GdpName ℕ

-- A packet put into the channel of a connection.
pub record Delivery : Type 0 where
  pub tx : Channel
  pub packet : GdpPacket

-- The kind of a line of the latency log.
pub data LogLine : Type 0 where
  request_line request_dup_line response_line response_dup_line : LogLine

pub record Round : Type 0 where
  pub table : Table
  pub deliveries : List Delivery
  pub log : List LogLine

-- A round that does nothing (`continue`).
abbrev pub idle : Table → Round
idle t = record { table = t; deliveries = []; log = [] }

-- The test of the three loops over the receivers.
abbrev pub is_open : FibConnectionType → FibConnection → Bool
is_open kind dst = is_running dst.state && type_beq dst.connection_type kind

-- The connections of a topic, none for a name that is not in the table.
abbrev pub receivers_of : Option FibState → List FibConnection
receivers_of none = []
receivers_of (some s) = s.receivers

-- What the loop sends: the packet, to each open connection.
unfoldable pub deliver : FibConnectionType → GdpPacket → List FibConnection → List Delivery
deliver kind pkt [] = []
deliver kind pkt (dst ∷ rest) =
    if is_open kind dst
    then record { tx = dst.tx; packet = pkt } ∷ deliver kind pkt rest
    else deliver kind pkt rest
