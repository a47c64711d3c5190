-- ===== src/Udp/Datagrams.antt =====
-- The datagrams of a packet of udp.rs, received one after the other.
use rt_fogros.Prelude.{
  ℕ, ◌+◌, ◌<◌, ◌≤◌, ◌≡◌, ◌≢◌, refl, sym, ap, ◌∙◌, Option, none, some, List, [], ◌∷◌, ◌++◌, length,
  concat, concat-append, length-append, append-nil, append_assoc, arith, inl, inr, true, false,
  Bool-cases, ltb, ltb→lt, done,
}
use mathlib.Core.Path.{ap₂}
use rt_fogros.Packet.Name.{GdpName}
use rt_fogros.Packet.Action.{noop}
use rt_fogros.Packet.Types.{GdpPacket, GdpHeaderInTransit, GdpNameRecord}
use rt_fogros.Packet.Header.{Json, JsonLaws, get_header, payload_bytes, record_bytes}
use rt_fogros.Framing.Parser.{parse_header_payload_pairs}
use rt_fogros.Framing.Frames.{nothing, in_payload, frame_bytes}
use rt_fogros.Framing.Decode.{parse-encode}
use rt_fogros.Framing.Reader.{Reader, Round, next, to_packet, after_parse, absorb}
use rt_fogros.Framing.Incremental.{Holds, absorb-parse}
use rt_fogros.Framing.RoundTrip.{received, to_packet-received, get_header_fields}
use rt_fogros.Udp.Socket.{on_datagram, receive_all, payload_datagram, record_datagram, datagrams}

module _ (j : Json) (laws : JsonLaws j) where
  receive_all_next :
      (r : Reader) (d : List ℕ) (ds : List (List ℕ)) (round : Round) (r' : Reader)
      (ps : List GdpPacket)
      → absorb j r d ≡ done (next round)
      → receive_all j round.reader ds ≡ done (r', ps)
      → receive_all j r (d ∷ ds) ≡ done (r', round.sent ++ ps)
  unfolding receive_all on_datagram
  receive_all_next r d ds round r' ps first later =
      rw (first, receive_all) (rw (later, receive_all))

  -- The reader after a frame, and after a part of a payload.
  abbrev idle : Reader → Reader
  idle r = record r { need_more_data_for_previous_header = false; remaining_gdp_payload = [] }

  abbrev holding : Reader → GdpHeaderInTransit → List ℕ → Reader
  holding r h got = record r {
    need_more_data_for_previous_header = true;
    remaining_gdp_header = h;
    remaining_gdp_payload = got;
  }

  -- Everything that is read of a packet makes it, and leaves the reader between two frames.
  abbrev Makes : Reader → List (List ℕ) → List GdpPacket → Type 0
  Makes r ds ps = (r' : Reader) × (receive_all j r ds ≡ done (r', ps)) × Holds r' nothing

  empty_datagrams :
      (r : Reader) (ds : List (List ℕ))
      → Holds r nothing
      → r.reset_counter ≤ 5
      → length (concat ds) ≡ 0
      → Makes r ds []
  unfolding receive_all parse_header_payload_pairs
  empty_datagrams r [] held few e = (r, refl, held)
  empty_datagrams r ((x ∷ d) ∷ ds) held few e = ground (arith, e)
  empty_datagrams r ([] ∷ ds) held few e =
      let (r', later, held') = empty_datagrams (idle r) ds refl few e in
      (
        r',
        receive_all_next r [] ds _ r' [] (absorb-parse j laws r nothing [] held tt (omega arith))
            later,
        held',
      )

  no_bytes : (b : List ℕ) → length b ≡ 0 → b ≡ []
  no_bytes [] e = refl
  no_bytes (x ∷ b) e = ground (arith, e)

  module _ (h : GdpHeaderInTransit) where
    abbrev packet_of : Reader → List ℕ → List GdpPacket
    packet_of r payload = to_packet r.description (h, payload) ∷ []

    -- The rest of a payload, in whatever datagrams.
    payload_datagrams :
        (r : Reader) (got : List ℕ) (ds : List (List ℕ))
        → Holds r (in_payload h got)
        → r.reset_counter ≤ 5
        → length got < h.length
        → length got + length (concat ds) ≡ h.length
        → Makes r ds (packet_of r (got ++ concat ds))
    payload_datagrams r got [] held few part e = ground (arith, e, part)
    payload_datagrams r got (d ∷ ds) held few part e =
        let joined : frame_bytes j h got ++ d ≡ frame_bytes j h (got ++ d) =
          append_assoc (j.header_to_string h) (0 ∷ got) d in
        let whole = append_assoc got d (concat ds) in
        let n = length-append got d in
        let m = length-append d (concat ds) in
        let round = absorb-parse j laws r (in_payload h got) d held part (omega arith) in
        elim (Bool-cases (ltb (length (got ++ d)) h.length)) [
          | inl short ↦
              let (r', later, held') =
                payload_datagrams (holding r h (got ++ d)) (got ++ d) ds (refl, held.1, refl, refl)
                  few (ltb→lt _ _ short) (omega (arith, e, n, m)) in
              let first =
                round
                ∙ ap (λ b. after_parse r [] (parse_header_payload_pairs j b)) joined
                ∙ ap (after_parse r [])
                    (parse-encode j laws [] (in_payload h (got ++ d)) tt (ltb→lt _ _ short)) in
              (
                r',
                receive_all_next r d ds _ r' (packet_of r ((got ++ d) ++ concat ds)) first later
                    ∙ ap (λ b. done (r', packet_of r b)) whole,
                held',
              )
          | inr full ↦
              let size : length (got ++ d) ≡ h.length = ground (arith, e, n, m, full) in
              let none_left : length (concat ds) ≡ 0 = omega (arith, e, n, m, size) in
              let (r', later, held') = empty_datagrams (idle r) ds refl few none_left in
              let first =
                round
                ∙ ap (λ b. after_parse r [] (parse_header_payload_pairs j b))
                    (joined ∙ ap (λ b. frame_bytes j h b) (sym (append-nil (got ++ d))))
                ∙ ap (after_parse r [])
                    (parse-encode j laws ((h, got ++ d) ∷ []) nothing (size, tt) tt) in
              (
                r',
                receive_all_next r d ds _ r' [] first later
                    ∙ ap (λ b. done (r', packet_of r b))
                        (sym (append-nil (got ++ d))
                          ∙ ap (λ b. (got ++ d) ++ b) (sym (no_bytes (concat ds) none_left))
                          ∙ whole),
                held',
              )
        ]

    -- A header in a datagram of its own, then the payload.
    header_datagram :
        (r : Reader) (ds : List (List ℕ))
        → Holds r nothing
        → h.action ≢ noop
        → r.reset_counter ≤ 5
        → length (concat ds) ≡ h.length
        → Makes r ((j.header_to_string h ++ 0 ∷ []) ∷ ds) (packet_of r (concat ds))
    header_datagram r ds held marked few e =
        let round = absorb-parse j laws r nothing (frame_bytes j h []) held tt (omega arith) in
        elim (Bool-cases (ltb 0 h.length)) [
          | inl some_bytes ↦
              let (r', later, held') =
                payload_datagrams (holding r h []) [] ds (refl, marked, refl, refl) few
                  (ltb→lt _ _ some_bytes) (omega (arith, e)) in
              let first =
                round
                ∙ ap (after_parse r [])
                    (parse-encode j laws [] (in_payload h []) tt (ltb→lt _ _ some_bytes)) in
              (
                r',
                receive_all_next r (frame_bytes j h []) ds _ r' (packet_of r (concat ds)) first
                    later,
                held',
              )
          | inr no_more ↦
              let size : 0 ≡ h.length = ground (arith, no_more) in
              let none_left : length (concat ds) ≡ 0 = omega (arith, e, size) in
              let (r', later, held') = empty_datagrams (idle r) ds refl few none_left in
              let first =
                round
                ∙ ap (after_parse r [])
                    (parse-encode j laws ((h, []) ∷ []) nothing (size, tt) tt) in
              (
                r',
                receive_all_next r (frame_bytes j h []) ds _ r' [] first later
                    ∙ ap (λ b. done (r', packet_of r b)) (sym (no_bytes (concat ds) none_left)),
                held',
              )
        ]

  datagrams-concat :
      (pkt : GdpPacket)
      → concat (payload_datagram pkt.payload ++ record_datagram j pkt.name_record)
        ≡ payload_bytes pkt.payload ++ record_bytes j pkt.name_record
  unfolding payload_bytes record_bytes
  datagrams-concat pkt =
      concat-append (payload_datagram pkt.payload) (record_datagram j pkt.name_record)
      ∙ ap₂ (◌++◌) (payload_concat pkt.payload) (record_concat pkt.name_record)
    where
      payload_concat : (o : Option (List ℕ)) → concat (payload_datagram o) ≡ payload_bytes o
      payload_concat none = refl
      payload_concat (some payload) = append-nil payload

      record_concat : (o : Option GdpNameRecord) → concat (record_datagram j o) ≡ record_bytes j o
      record_concat none = refl
      record_concat (some x) = append-nil (j.record_to_string x)

  -- The datagrams of a packet whose action is not Noop and whose header can be made, received one after
  -- the other by a reader between two frames, make the packet again, once, but that its name record
  -- has become the end of the payload, its guid is the header's, and its description is the reader's;
  -- and the reader is between two frames again.
  pub datagrams-received :
      (r : Reader) (random : GdpName) (pkt : GdpPacket) (header : GdpHeaderInTransit)
      → Holds r nothing
      → r.reset_counter ≤ 5
      → pkt.action ≢ noop
      → get_header j random pkt ≡ done header
      → (r' : Reader) × (receive_all j r (datagrams j header pkt)
          ≡ done (r', received j r.description pkt header ∷ []))
        × Holds r' nothing
  unfolding datagrams
  datagrams-received r random pkt header held few marked e =
      let fields = get_header_fields j random pkt header e in
      let ds = payload_datagram pkt.payload ++ record_datagram j pkt.name_record in
      let all = datagrams-concat pkt in
      let size : length (concat ds) ≡ header.length = omega (
        arith,
        ap length all,
        fields.3,
        length-append (payload_bytes pkt.payload) (record_bytes j pkt.name_record),
      ) in
      let other : header.action ≢ noop = λ a. marked (sym fields.0 ∙ a) in
      let (r', made, held') = header_datagram header r ds held other few size in
      (
        r',
        made
            ∙ ap (λ b. done (r', to_packet r.description (header, b) ∷ [])) all
            ∙ ap (λ p. done (r', p ∷ []))
                (to_packet-received j r.description pkt header fields.0 fields.1 fields.2),
        held',
      )
