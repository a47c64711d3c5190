-- ===== src/Udp/Socket.antt =====
-- `parse_header_payload_pairs` and `reader_and_writer` of fogrs-core/src/network/udp.rs. The parser is
-- the text of the one in kcp.rs, and the reader that of its reader without the ping and with no
-- description.
use rt_fogros.Prelude.{
  ℕ, ◌-◌, Bool, Option, none, some, List, [], ◌∷◌, ◌++◌, length, if◌then◌else◌, Outcome, done,
  panic, ◌>>=◌,
}
use rt_fogros.Packet.Name.{GdpName}
use rt_fogros.Packet.Types.{GdpPacket, GdpHeaderInTransit, GdpNameRecord}
use rt_fogros.Packet.Header.{Json, get_header}
use rt_fogros.Framing.Reader.{Reader, new_reader, Step, next, closed, absorb}
use rt_fogros.Framing.Writer.{Sending, sent, all_taken}

-- The reader's variables at the start.
abbrev pub new_socket : Reader
new_socket = new_reader none

-- A round on `stream.recv_from`.
unfoldable pub on_datagram : Json → Reader → List ℕ → Outcome Step
on_datagram j r datagram = absorb j r datagram

-- Rounds on datagrams, one after the other: the last state, and all the packets sent.
unfoldable pub receive_all : Json → Reader → List (List ℕ) → Outcome (Reader × List GdpPacket)
receive_all j r [] = done (r, [])
receive_all j r (datagram ∷ datagrams) = elim (on_datagram j r datagram) [
  | panic ↦ panic
  | done closed ↦ done (r, [])
  | done (next round) ↦ elim (receive_all j round.reader datagrams) [
    | panic ↦ panic
    | done (r', packets) ↦ done (r', round.sent ++ packets)
  ]
]

abbrev pub payload_datagram : Option (List ℕ) → List (List ℕ)
payload_datagram none = []
payload_datagram (some payload) = payload ∷ []

abbrev pub record_datagram : Json → Option GdpNameRecord → List (List ℕ)
record_datagram j none = []
record_datagram j (some r) = j.record_to_string r ∷ []

-- The datagrams that `send` is called on for a packet.
unfoldable pub datagrams : Json → GdpHeaderInTransit → GdpPacket → List (List ℕ)
datagrams j header pkt =
    (j.header_to_string header ++ 0 ∷ [])
    ∷ (payload_datagram pkt.payload ++ record_datagram j pkt.name_record)

-- A round on `rtc_rx.recv()`; `takes i` says whether the socket takes the i-th datagram.
unfoldable pub on_forward : Json → (ℕ → Bool) → GdpName → GdpPacket → Outcome Sending
unfolding datagrams get_header
on_forward j takes random pkt = do
  header ← get_header j random pkt
  let parts = datagrams j header pkt
  if takes 0
      then (if all_taken takes 1 (length parts - 1) then done (sent parts) else panic)
      else done Sending.closed
