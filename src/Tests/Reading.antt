-- ===== src/Tests/Reading.antt =====
-- The framing's theorems on concrete headers, packets and chunks.
use rt_fogros.Prelude.{
  ℕ, ◌≡◌, ◌≢◌, refl, Text, codes, true, false, none, some, List, [], ◌∷◌, ◌++◌, map, inr, done,
  panic, arith,
}
use rt_fogros.Packet.Name.{GdpName, zero_name}
use rt_fogros.Packet.Action.{noop, forward, to_u8}
use rt_fogros.Packet.Types.{GdpHeaderInTransit, GdpPacket, GdpNameRecord, query, default_header}
use rt_fogros.Packet.Header.{get_header, header_guid, payload_bytes, record_bytes}
use rt_fogros.Framing.Parser.{Frame, parsed, out_of_fuel, parse_header_payload_pairs}
use rt_fogros.Framing.Fuel.{parse_total}
use rt_fogros.Framing.Frames.{Pending, nothing, in_header, in_payload, frame_bytes, encode}
use rt_fogros.Framing.Decode.{parse-encode}
use rt_fogros.Framing.Reader.{Reader, new_reader, next, to_packet, absorb, on_read, read_all}
use rt_fogros.Framing.Incremental.{Holds}
use rt_fogros.Framing.Stream.{Feed, stop, more, read_all-Feed}
use rt_fogros.Framing.Losses.{ping_swallowed, sixth_cut_dropped, header_without_nul_panics}
use rt_fogros.Framing.Stands.{IsSoundStep}
use rt_fogros.Framing.Sound.{on_read-IsSound}
use rt_fogros.Framing.RoundTrip.{received}
use rt_fogros.Udp.Socket.{new_socket, receive_all, datagrams}
use rt_fogros.Udp.Datagrams.{datagrams-received}
use rt_fogros.Tests.Toy.{toy, toy_laws}

abbrev topic : GdpName
topic = record { b0 = 1; b1 = 2; b2 = 3; b3 = 4 }

abbrev message_id : GdpName
message_id = record { b0 = 9; b1 = 9; b2 = 9; b3 = 9 }

-- The header of a message of so many bytes.
abbrev header_of : ℕ → GdpHeaderInTransit
header_of n = record {
  action = forward;
  destination = topic;
  source = zero_name;
  guid = message_id;
  length = n;
}

-- The print of `header_of 2` is `head ++ 4 ∷ tail`.
abbrev head : Text
head = 2 ∷ 2 ∷ 3 ∷ []

abbrev tail : Text
tail = 5 ∷ 1 ∷ 1 ∷ 1 ∷ 1 ∷ 10 ∷ 10 ∷ 10 ∷ 10 ∷ 3 ∷ []

abbrev cut : Pending
cut = in_header (header_of 2) head 4 tail

abbrev begun : ℕ → Pending
begun b = in_payload (header_of 2) (b ∷ [])

abbrev whole : Frame
whole = (header_of 2, 7 ∷ 8 ∷ [])

-- A message in three chunks, cut in its header and in its payload, and the next one begun.
abbrev chunks : List (List ℕ)
chunks = head ∷ (4 ∷ (tail ++ 0 ∷ 7 ∷ [])) ∷ (8 ∷ frame_bytes toy (header_of 2) (6 ∷ [])) ∷ []

is_forward : (n : ℕ) → (header_of n).action ≢ noop
is_forward n e = ground arith

feed : Feed toy nothing chunks (whole ∷ []) (begun 6) 1
unfolding to_u8
feed =
    more {p = nothing} {q = cut} head [] (whole ∷ []) (λ e. cc) (λ e. cc) tt (refl, λ e. cc) tt refl
      (more {p = cut} {q = begun 7} (4 ∷ (tail ++ 0 ∷ 7 ∷ [])) [] (whole ∷ []) (λ e. cc) (λ e. cc)
        tt (omega arith) (is_forward 2) refl
        (more {p = begun 7} {q = begun 6} (8 ∷ frame_bytes toy (header_of 2) (6 ∷ [])) (whole ∷ [])
          [] (λ e. cc) (λ e. cc) (refl, tt) (omega arith) (is_forward 2) refl stop))

read_all-Feed_example :
    (r' : Reader) × (read_all toy true (new_reader none) chunks
      ≡ done (r', map (to_packet none) (whole ∷ [])))
    × Holds r' (begun 6)
read_all-Feed_example = read_all-Feed toy toy_laws true (new_reader none) feed refl tt (omega arith)

-- A reader that has the header of a message and nothing of its payload.
abbrev waiting : ℕ → Reader
waiting n = record {
  description = none;
  need_more_data_for_previous_header = true;
  remaining_gdp_header = header_of n;
  remaining_gdp_payload = [];
  reset_counter = 0;
}

-- A reader that has a part of a header, after so many rounds.
abbrev stuck : ℕ → Reader
stuck n = record {
  description = none;
  need_more_data_for_previous_header = true;
  remaining_gdp_header = default_header;
  remaining_gdp_payload = head;
  reset_counter = n;
}

parse-encode_example :
    parse_header_payload_pairs toy (encode toy (whole ∷ whole ∷ []) head)
    ≡ parsed (whole ∷ whole ∷ []) (some (default_header, head))
unfolding to_u8
parse-encode_example =
    parse-encode toy toy_laws (whole ∷ whole ∷ []) cut (refl, (refl, tt)) (refl, λ e. cc)

parse_total_example : parse_header_payload_pairs toy (5 ∷ 0 ∷ 6 ∷ []) ≢ out_of_fuel
parse_total_example = parse_total toy (5 ∷ 0 ∷ 6 ∷ [])

on_read-IsSound_example :
    IsSoundStep toy (waiting 6) (7 ∷ 8 ∷ []) (on_read toy true (waiting 6) (7 ∷ 8 ∷ []))
on_read-IsSound_example =
    on_read-IsSound toy (waiting 6) (7 ∷ 8 ∷ []) true
      (record { short = inr (inr (omega arith)); few = omega arith })

ping_swallowed_example :
    (on_read toy true (waiting 4) (codes "ping")
      ≡ done (next (record { reader = waiting 4; sent = []; written = codes "pong" })))
    × (absorb toy (waiting 4) (codes "ping")
        ≡ done (
            next (record {
              reader = record (waiting 4) {
                need_more_data_for_previous_header = false;
                remaining_gdp_payload = [];
              };
              sent = to_packet none (header_of 4, codes "ping") ∷ [];
              written = [];
            })))
ping_swallowed_example =
    ping_swallowed toy toy_laws (waiting 4) (header_of 4) [] (refl, is_forward 4, refl, refl)
      (omega arith) (omega arith)

sixth_cut_dropped_example :
    (absorb toy (stuck 5) (4 ∷ (tail ++ 0 ∷ 7 ∷ 8 ∷ []))
      ≡ done (
          next (record {
            reader = record (stuck 0) {
              need_more_data_for_previous_header = false;
              remaining_gdp_payload = [];
            };
            sent = [];
            written = [];
          })))
    × (parse_header_payload_pairs toy (head ++ 4 ∷ (tail ++ 0 ∷ 7 ∷ 8 ∷ []))
        ≡ parsed (whole ∷ []) none)
unfolding to_u8
sixth_cut_dropped_example =
    sixth_cut_dropped toy toy_laws (stuck 5) (header_of 2) head 4 tail
      (4 ∷ (tail ++ 0 ∷ 7 ∷ 8 ∷ [])) (whole ∷ []) nothing (refl, refl, refl) refl (refl, tt) tt refl

header_without_nul_panics_example :
    absorb toy (new_reader none) (encode toy (whole ∷ []) (toy.header_to_string (header_of 2)))
    ≡ panic
header_without_nul_panics_example =
    header_without_nul_panics toy toy_laws (new_reader none) (whole ∷ []) (header_of 2) refl
      (refl, tt)

-- A query of the names, as the clients send it.
abbrev lookup : GdpNameRecord
lookup = record {
  record_type = query;
  gdpname = topic;
  source_gdpname = zero_name;
  webrtc_offer = none;
  ip_address = none;
  ros = none;
  indirect = none;
}

abbrev message : GdpPacket
message = record {
  action = forward;
  gdpname = topic;
  payload = some (7 ∷ 8 ∷ []);
  name_record = some lookup;
  guid = some message_id;
  source = zero_name;
  description = none;
}

datagrams-received_example :
    (r' : Reader) × (receive_all toy new_socket (datagrams toy (header_of 8) message)
      ≡ done (r', received toy none message (header_of 8) ∷ []))
    × Holds r' nothing
unfolding get_header header_guid payload_bytes record_bytes
datagrams-received_example =
    datagrams-received toy toy_laws new_socket zero_name message (header_of 8) refl (omega arith)
      (is_forward 8) refl
