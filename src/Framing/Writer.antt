-- ===== src/Framing/Writer.antt =====
-- The sending half of `reader_and_writer` in fogrs-core/src/network/kcp.rs.
use rt_fogros.Prelude.{
  ℕ, zero, suc, ◌+◌, ◌-◌, Bool, true, false, Option, none, some, List, [], ◌∷◌, ◌++◌, length, take,
  drop, ltb, if◌then◌else◌, Outcome, done, panic, ◌>>=◌,
}
use rt_fogros.Packet.Name.{GdpName}
use rt_fogros.Packet.Types.{GdpPacket, GdpHeaderInTransit, GdpNameRecord}
use rt_fogros.Packet.Header.{Json, get_header}

abbrev pub udp_buffer_size : ℕ
udp_buffer_size = 65535

-- `&payload[from..to]`
abbrev pub slice : List ℕ → ℕ → ℕ → List ℕ
slice payload from to = take (to - from) (drop from payload)

-- The `while bytes_written < bytes_to_write` loop: the slices that are written, in order. A round
-- writes a byte at least, so the payload's length is fuel enough (`write_loop-concat`).
unfoldable pub write_loop : ℕ → List ℕ → ℕ → ℕ → List (List ℕ)
write_loop zero payload bytes_written bytes_to_write = []
write_loop (suc fuel) payload bytes_written bytes_to_write =
    let full =
      slice payload bytes_written (bytes_written + udp_buffer_size)
      ∷ write_loop fuel payload (bytes_written + udp_buffer_size) bytes_to_write in
    let last =
      slice payload bytes_written bytes_to_write
      ∷ write_loop fuel payload bytes_to_write bytes_to_write in
    if ltb bytes_written bytes_to_write
    then (if ltb udp_buffer_size (bytes_to_write - bytes_written) then full else last)
    else []

abbrev pub payload_writes : Option (List ℕ) → List (List ℕ)
payload_writes none = []
payload_writes (some payload) = write_loop (length payload) payload 0 (length payload)

abbrev pub record_writes : Json → Option GdpNameRecord → List (List ℕ)
record_writes j none = []
record_writes j (some r) = j.record_to_string r ∷ []

-- The buffers that `write_all` is called on for a packet, its header and the NUL byte first.
unfoldable pub writes : Json → GdpHeaderInTransit → GdpPacket → List (List ℕ)
unfolding write_loop
writes j header pkt =
    (j.header_to_string header ++ 0 ∷ [])
    ∷ (payload_writes pkt.payload ++ record_writes j pkt.name_record)

-- A failed write of the header ends the loop, of a later part panics.
pub data Sending : Type 0 where
  sent : List (List ℕ) → Sending
  closed : Sending

abbrev pub all_taken : (ℕ → Bool) → ℕ → ℕ → Bool
all_taken takes from zero = true
all_taken takes from (suc n) =
    let rest = all_taken takes (suc from) n in if takes from then rest else false

-- A round on `rtc_rx.recv()`; `takes i` says whether the stream takes the i-th write.
unfoldable pub on_forward : Json → (ℕ → Bool) → GdpName → GdpPacket → Outcome Sending
unfolding writes get_header
on_forward j takes random pkt = do
  header ← get_header j random pkt
  let buffers = writes j header pkt
  if takes 0
      then (if all_taken takes 1 (length buffers - 1) then done (sent buffers) else panic)
      else done closed

-- Rounds on the packets that the channel hands over, one after the other: all that is written. The
-- i-th round has the i-th random name, and the stream's answers to its writes; a write of a header
-- that fails ends the loop.
unfoldable pub send_all :
    Json → (ℕ → ℕ → Bool) → (ℕ → GdpName) → List GdpPacket → Outcome (List (List ℕ))
send_all j takes random [] = done []
send_all j takes random (pkt ∷ pkts) = elim (on_forward j (takes 0) (random 0) pkt) [
  | panic ↦ panic
  | done closed ↦ done []
  | done (sent buffers) ↦ elim (send_all j (λ i. takes (suc i)) (λ i. random (suc i)) pkts) [
    | panic ↦ panic
    | done later ↦ done (buffers ++ later)
  ]
]
