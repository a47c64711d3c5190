-- ===== src/Framing/RoundTrip.antt =====
-- What the writer sends for a packet, and what a reader makes of it.
use rt_fogros.Prelude.{
  ℕ, Text, ◌+◌, ◌-◌, ◌≤◌, ◌≡◌, refl, sym, ap, ◌∙◌, Option, none, some, List, [], ◌∷◌, ◌++◌, length,
  concat, concat-append, length-append, append-nil, append_assoc, arith, true, false, done,
  >>=-eq-done,
}
use rt_fogros.Packet.Name.{GdpName}
use mathlib.Core.Path.{ap₂}
use rt_fogros.Packet.Types.{GdpPacket, GdpHeaderInTransit, GdpNameRecord}
use rt_fogros.Packet.Header.{Json, JsonLaws, get_header, header_guid, payload_bytes, record_bytes}
use rt_fogros.Framing.Parser.{parse_header_payload_pairs}
use rt_fogros.Framing.Frames.{nothing, frame_bytes}
use rt_fogros.Framing.Decode.{parse-encode}
use rt_fogros.Framing.Incremental.{Holds, absorb-parse}
use rt_fogros.Framing.Reader.{Reader, next, after_parse, absorb, to_packet}
use rt_fogros.Framing.Writer.{payload_writes, record_writes, writes, sent, on_forward}
use rt_fogros.Framing.Writes.{payload_writes_lem, all_taken_lem}

module _ (j : Json) where
  payload_writes-concat :
      (payload : Option (List ℕ)) → concat (payload_writes payload) ≡ payload_bytes payload
  unfolding payload_bytes
  payload_writes-concat none = refl
  payload_writes-concat (some payload) = (payload_writes_lem payload).0

  record_writes-concat : (o : Option GdpNameRecord) → concat (record_writes j o) ≡ record_bytes j o
  unfolding record_bytes
  record_writes-concat none = refl
  record_writes-concat (some r) = append-nil (j.record_to_string r)

  -- All that is written for a packet.
  pub writes-concat :
      (header : GdpHeaderInTransit) (pkt : GdpPacket)
      → concat (writes j header pkt)
        ≡ frame_bytes j header (payload_bytes pkt.payload ++ record_bytes j pkt.name_record)
  unfolding writes
  writes-concat header pkt =
      append_assoc (j.header_to_string header) (0 ∷ [])
        (concat (payload_writes pkt.payload ++ record_writes j pkt.name_record))
      ∙ ap (λ b. j.header_to_string header ++ 0 ∷ b)
          (concat-append (payload_writes pkt.payload) (record_writes j pkt.name_record)
            ∙ ap₂ (◌++◌) (payload_writes-concat pkt.payload) (record_writes-concat pkt.name_record))

  -- The packet as the other side sees it: the name record has become the end of the payload.
  abbrev pub received : Option Text → GdpPacket → GdpHeaderInTransit → GdpPacket
  received description pkt header = record pkt {
    payload = some (payload_bytes pkt.payload ++ record_bytes j pkt.name_record);
    name_record = none;
    guid = some header.guid;
    description = description;
  }

  pub to_packet-received :
      (description : Option Text) (pkt : GdpPacket) (header : GdpHeaderInTransit)
      → header.action ≡ pkt.action
      → header.destination ≡ pkt.gdpname
      → header.source ≡ pkt.source
      → to_packet description (header, payload_bytes pkt.payload ++ record_bytes j pkt.name_record)
        ≡ received description pkt header
  unfolding to_packet
  to_packet-received description pkt header a d s = ground arith

  pub get_header_fields :
      (random : GdpName) (pkt : GdpPacket) (header : GdpHeaderInTransit)
      → get_header j random pkt ≡ done header
      → (header.action ≡ pkt.action)
        × (header.destination ≡ pkt.gdpname)
        × (header.source ≡ pkt.source)
        × (header.length
            ≡ length (payload_bytes pkt.payload) + length (record_bytes j pkt.name_record))
  unfolding get_header
  get_header_fields random pkt header e =
      let (guid, found, built) =
        >>=-eq-done (header_guid pkt.payload pkt.guid random)
          (λ guid. done (record {
            action = pkt.action;
            destination = pkt.gdpname;
            source = pkt.source;
            guid = guid;
            length = length (payload_bytes pkt.payload) + length (record_bytes j pkt.name_record);
          }))
          e in
      ground (arith, built)

  -- The bytes written for a packet whose header can be made, read as one chunk between two frames,
  -- make the packet again, but that its name record has become the end of the payload, its guid is the
  -- header's, and its description is the reader's.
  pub send_receive :
      (laws : JsonLaws j) (r : Reader) (random : GdpName) (pkt : GdpPacket)
      (header : GdpHeaderInTransit)
      → Holds r nothing
      → r.reset_counter ≤ 5
      → get_header j random pkt ≡ done header
      → (on_forward j (λ _. true) random pkt ≡ done (sent (writes j header pkt)))
        × (absorb j r (concat (writes j header pkt))
            ≡ done (
                next (record {
                  reader = record r {
                    need_more_data_for_previous_header = false;
                    remaining_gdp_payload = [];
                  };
                  sent = received r.description pkt header ∷ [];
                  written = [];
                })))
  unfolding on_forward
  send_receive laws r random pkt header held few e =
      let payload = payload_bytes pkt.payload ++ record_bytes j pkt.name_record in
      let fields = get_header_fields random pkt header e in
      let whole : length payload ≡ header.length = omega (
        arith,
        fields.3,
        length-append (payload_bytes pkt.payload) (record_bytes j pkt.name_record),
      ) in
      (
        rw (e, all_taken_lem 1 (length (writes j header pkt) - 1)),
        absorb-parse j laws r nothing (concat (writes j header pkt)) held tt (omega arith)
            ∙ ap (λ b. after_parse r [] (parse_header_payload_pairs j b))
                (writes-concat header pkt
                  ∙ ap (λ b. j.header_to_string header ++ 0 ∷ b) (sym (append-nil payload)))
            ∙ ap (after_parse r [])
                (parse-encode j laws ((header, payload) ∷ []) nothing (whole, tt) tt)
            ∙ ap
                (λ p. done (
                  next (record {
                    reader = record r {
                      need_more_data_for_previous_header = false;
                      remaining_gdp_payload = [];
                    };
                    sent = p ∷ [];
                    written = [];
                  })))
                (to_packet-received r.description pkt header fields.0 fields.1 fields.2),
      )
