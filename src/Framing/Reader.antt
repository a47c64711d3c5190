-- ===== src/Framing/Reader.antt =====
-- The receiving half of `reader_and_writer` in fogrs-core/src/network/kcp.rs.
use rt_fogros.Prelude.{
  ℕ, ◌+◌, ◌-◌, Text, codes, Bool, true, false, Option, none, some, List, [], ◌∷◌, ◌++◌, map, length,
  take, drop, ltb, ◌==◌, ◌&&◌, if◌then◌else◌, Outcome, done, panic, text_beq,
}
use rt_fogros.Packet.Action.{noop, action_beq}
use rt_fogros.Packet.Types.{GdpPacket, GdpHeaderInTransit, default_header}
use rt_fogros.Packet.Construct.{construct_gdp_packet_with_guid}
use rt_fogros.Packet.Header.{Json}
use rt_fogros.Framing.Parser.{
  Frame, Parsed, parsed, panicked, out_of_fuel, parse_header_payload_pairs,
}

-- The variables that the loop keeps between two chunks, and the connection's description, which it
-- only reads.
pub record Reader : Type 0 where
  pub description : Option Text
  pub need_more_data_for_previous_header : Bool
  pub remaining_gdp_header : GdpHeaderInTransit
  pub remaining_gdp_payload : List ℕ
  pub reset_counter : ℕ

abbrev pub new_reader : Option Text → Reader
new_reader description = record {
  description = description;
  need_more_data_for_previous_header = false;
  remaining_gdp_header = default_header;
  remaining_gdp_payload = [];
  reset_counter = 0;
}

-- What the part before the parser does with a chunk: it either ends the round (`wait`, the
-- `continue`), or hands the parser a buffer beside the frame that the chunk completed.
pub data Completion : Type 0 where
  wait : Reader → Completion
  go : Reader → List Frame → List ℕ → Completion

-- The reset after more than five rounds with a header that does not read.
abbrev pub reset_if_stuck : Reader → Completion
reset_if_stuck r =
    if ltb 5 r.reset_counter
    then go (record r { remaining_gdp_payload = []; reset_counter = 0 }) [] []
    else go r [] r.remaining_gdp_payload

-- `if need_more_data_for_previous_header { … }`
unfoldable pub complete_previous : Reader → List ℕ → Completion
complete_previous r chunk =
    if r.need_more_data_for_previous_header
    then (let read_payload_size = length r.remaining_gdp_payload + length chunk in
        let header = r.remaining_gdp_header in
        let joined = r.remaining_gdp_payload ++ chunk in
        let num_remaining = header.length - length r.remaining_gdp_payload in
        let filled = r.remaining_gdp_payload ++ take num_remaining chunk in
        if action_beq header.action noop
        then reset_if_stuck
            (record r { remaining_gdp_payload = joined; reset_counter = r.reset_counter + 1 })
        else if ltb read_payload_size header.length
        then wait (record r { remaining_gdp_payload = joined })
        else if read_payload_size == header.length
        then go (record r { remaining_gdp_payload = joined }) ((header, joined) ∷ []) []
        else go (record r { remaining_gdp_payload = filled }) ((header, filled) ∷ [])
            (drop num_remaining chunk))
    else go r [] chunk

-- The packet that is made of a complete frame.
unfoldable pub to_packet : Option Text → Frame → GdpPacket
unfolding construct_gdp_packet_with_guid
to_packet description (header, payload) =
    construct_gdp_packet_with_guid header.action header.destination header.source payload
      header.guid description

-- `match processed_remaining_header`
abbrev pub keep_remaining : Reader → Option Frame → Reader
keep_remaining r (some (header, payload)) = record r {
  remaining_gdp_header = header;
  remaining_gdp_payload = payload;
  need_more_data_for_previous_header = true;
}
keep_remaining r none = record r {
  need_more_data_for_previous_header = false;
  remaining_gdp_payload = [];
}

-- What a round does: the next state, the packets sent to `ros_tx`, the bytes written back.
pub record Round : Type 0 where
  pub reader : Reader
  pub sent : List GdpPacket
  pub written : List ℕ

-- The loop ends (`break`), or goes on after a round.
pub data Step : Type 0 where
  closed : Step
  next : Round → Step

abbrev pub after_parse : Reader → List Frame → Parsed → Outcome Step
after_parse r frames (parsed more remaining) = done (
    next (record {
      reader = keep_remaining r remaining;
      sent = map (to_packet r.description) (frames ++ more);
      written = [];
    }))
after_parse r frames panicked = panic
after_parse r frames out_of_fuel = panic

module _ (j : Json) where
  abbrev pub after_completion : Completion → Outcome Step
  after_completion (wait r) = done (next (record { reader = r; sent = []; written = [] }))
  after_completion (go r frames buffer) = after_parse r frames (parse_header_payload_pairs j buffer)

  -- A chunk that is neither empty nor a ping.
  unfoldable pub absorb : Reader → List ℕ → Outcome Step
  unfolding complete_previous to_packet
  absorb r chunk = after_completion (complete_previous r chunk)

  -- A round on `stream.read`; `can_write` says whether the stream takes the pong.
  unfoldable pub on_read : Bool → Reader → List ℕ → Outcome Step
  on_read can_write r chunk =
      if length chunk == 0
      then done closed
      else if length chunk == 4 && text_beq chunk (codes "ping")
      then (if can_write
          then done (next (record { reader = r; sent = []; written = codes "pong" }))
          else panic)
      else absorb r chunk

  -- Rounds on the chunks that the stream hands over, one after the other: the last state, and all the
  -- packets sent.
  unfoldable pub read_all : Bool → Reader → List (List ℕ) → Outcome (Reader × List GdpPacket)
  read_all can_write r [] = done (r, [])
  read_all can_write r (chunk ∷ chunks) = elim (on_read can_write r chunk) [
    | panic ↦ panic
    | done closed ↦ done (r, [])
    | done (next round) ↦ elim (read_all can_write round.reader chunks) [
      | panic ↦ panic
      | done (r', sent) ↦ done (r', round.sent ++ sent)
    ]
  ]
