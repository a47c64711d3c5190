-- ===== src/Framing/Carried.antt =====
-- A connection from end to end: what one side of `reader_and_writer` in fogrs-core/src/network/kcp.rs
-- writes for a sequence of packets, cut into chunks by the stream, and read by the other side.
use rt_fogros.Prelude.{
  ℕ, suc, ◌+◌, ◌-◌, ◌≤◌, ◌≡◌, refl, sym, ap, ◌∙◌, Bool, true, Text, Option, none, some, List, [],
  ◌∷◌, ◌++◌, map, length, concat, concat-append, append-nil, append_assoc, done,
}
use mathlib.Core.Path.{ap₂}
use rt_fogros.Packet.Name.{GdpName}
use rt_fogros.Packet.Types.{GdpPacket, GdpHeaderInTransit}
use rt_fogros.Packet.Header.{Json, JsonLaws, get_header, header_guid, payload_bytes, record_bytes}
use rt_fogros.Framing.Parser.{Frame}
use rt_fogros.Framing.Frames.{Pending, nothing, frame_bytes, encode, pending_bytes}
use rt_fogros.Framing.Incremental.{Holds}
use rt_fogros.Framing.Reader.{Reader, read_all, to_packet}
use rt_fogros.Framing.Stream.{Feed, stop, more, read_all-Feed}
use rt_fogros.Framing.Writer.{writes, sent, on_forward, send_all}
use rt_fogros.Framing.Writes.{all_taken_lem}
use rt_fogros.Framing.RoundTrip.{received, to_packet-received, writes-concat}

module _ (j : Json) where
  -- The header of a packet with a guid, and its frame.
  abbrev pub header_of : GdpPacket → GdpName → GdpHeaderInTransit
  header_of pkt guid = record {
    action = pkt.action;
    destination = pkt.gdpname;
    source = pkt.source;
    guid = guid;
    length = length (payload_bytes pkt.payload) + length (record_bytes j pkt.name_record);
  }

  abbrev pub frame_of : GdpPacket → GdpName → Frame
  frame_of pkt guid =
      (header_of pkt guid, payload_bytes pkt.payload ++ record_bytes j pkt.name_record)

  header_guid-some :
      (payload : Option (List ℕ)) (guid : GdpName) (o : Option GdpName) (random : GdpName)
      → o ≡ some guid
      → header_guid payload o random ≡ done guid
  unfolding header_guid
  header_guid-some none guid o random e = rw e refl
  header_guid-some (some payload) guid o random e = rw e refl

  get_header-guid :
      (random : GdpName) (pkt : GdpPacket) (guid : GdpName)
      → pkt.guid ≡ some guid
      → get_header j random pkt ≡ done (header_of pkt guid)
  unfolding get_header
  get_header-guid random pkt guid e = rw (header_guid-some pkt.payload guid pkt.guid random e) refl

  -- The bytes in front of other frames.
  encode-append :
      (fs gs : List Frame) (rest : List ℕ)
      → encode j (fs ++ gs) rest ≡ encode j fs (encode j gs rest)
  encode-append [] gs rest = refl
  encode-append ((h, payload) ∷ fs) gs rest =
      ap (λ b. j.header_to_string h ++ 0 ∷ (payload ++ b)) (encode-append fs gs rest)

  frame_bytes-append :
      (h : GdpHeaderInTransit) (payload rest : List ℕ)
      → frame_bytes j h (payload ++ rest) ≡ frame_bytes j h payload ++ rest
  frame_bytes-append h payload rest = sym (append_assoc (j.header_to_string h) (0 ∷ payload) rest)

  encode-rest : (fs : List Frame) (rest : List ℕ) → encode j fs rest ≡ encode j fs [] ++ rest
  encode-rest [] rest = refl
  encode-rest ((h, payload) ∷ fs) rest =
      ap (λ b. j.header_to_string h ++ 0 ∷ (payload ++ b)) (encode-rest fs rest)
      ∙ ap (λ b. j.header_to_string h ++ 0 ∷ b) (sym (append_assoc payload (encode j fs []) rest))
      ∙ frame_bytes-append h (payload ++ encode j fs []) rest

  -- The chunks are the bytes of the frames.
  pub concat-Feed :
      {p q : Pending} {chunks : List (List ℕ)} {fs : List Frame} {n : ℕ}
      → Feed j p chunks fs q n
      → pending_bytes j p ++ concat chunks ≡ encode j fs (pending_bytes j q)
  concat-Feed {p} stop = append-nil (pending_bytes j p)
  concat-Feed {p} (more {q = q} {t = t} {chunks = chunks} chunk fs gs ne no_ping wf wq m e rest) =
      sym (append_assoc (pending_bytes j p) chunk (concat chunks))
      ∙ ap (λ b. b ++ concat chunks) e
      ∙ ap (λ b. b ++ concat chunks) (encode-rest fs (pending_bytes j q))
      ∙ append_assoc (encode j fs []) (pending_bytes j q) (concat chunks)
      ∙ ap (λ b. encode j fs [] ++ b) (concat-Feed rest)
      ∙ sym (encode-rest fs (encode j gs (pending_bytes j t)))
      ∙ sym (encode-append fs gs (pending_bytes j t))

  -- All that is written for a packet with a guid.
  on_forward-guid :
      (random : GdpName) (pkt : GdpPacket) (guid : GdpName)
      → pkt.guid ≡ some guid
      → on_forward j (λ _. true) random pkt ≡ done (sent (writes j (header_of pkt guid) pkt))
  unfolding on_forward
  on_forward-guid random pkt guid e =
      rw
        (
          get_header-guid random pkt guid e,
          all_taken_lem 1 (length (writes j (header_of pkt guid) pkt) - 1),
        )
        refl

  -- Packets with the guids that stand beside them.
  module _ {A : Type 0} (pkt : A → GdpPacket) (guid : A → GdpName) where
    abbrev pub frames : List A → List Frame
    frames = map (λ a. frame_of (pkt a) (guid a))

  module _ {A : Type 0} (pkt : A → GdpPacket) (guid : A → GdpName)
      (carries : (a : A) → (pkt a).guid ≡ some (guid a)) where
    send_all_lem :
        (items : List A) (random : ℕ → GdpName)
        → (buffers : List (List ℕ)) × (send_all j (λ _ _. true) random (map pkt items)
            ≡ done buffers)
          × (concat buffers ≡ encode j (frames pkt guid items) [])
    unfolding send_all
    send_all_lem [] random = ([], refl, refl)
    send_all_lem (a ∷ items) random =
        let (later, ran, bytes) = send_all_lem items (λ i. random (suc i)) in
        let first = writes j (header_of (pkt a) (guid a)) (pkt a) in
        (
          first ++ later,
          rw (on_forward-guid (random 0) (pkt a) (guid a) (carries a), send_all)
              (rw (ran, send_all)),
          concat-append first later
              ∙ ap₂ (◌++◌) (writes-concat j (header_of (pkt a) (guid a)) (pkt a)) bytes
              ∙ sym (
                  frame_bytes-append (header_of (pkt a) (guid a)) (frame_of (pkt a) (guid a)).1
                    (encode j (frames pkt guid items) [])),
        )

    to_packet-frames :
        (description : Option Text) (items : List A)
        → map (to_packet description) (frames pkt guid items)
          ≡ map (λ a. received j description (pkt a) (header_of (pkt a) (guid a))) items
    to_packet-frames description [] = refl
    to_packet-frames description (a ∷ items) =
        ap₂ (◌∷◌)
          (to_packet-received j description (pkt a) (header_of (pkt a) (guid a)) refl refl refl)
          (to_packet-frames description items)

    -- Where the stream's chunks carry the frames of packets with guids, they are what the writer writes
    -- for the packets, and a reader between two frames sends the packets again, once each and in order,
    -- but that a name record has become the end of the payload and the description is the reader's; it
    -- is between two frames again. Conditions: no chunk is empty or the four bytes "ping", none ends
    -- between a header and its NUL byte, no payload that is cut is of a packet with the action
    -- Noop, and at most five of the connection begin inside a header.
    pub carried :
        {chunks : List (List ℕ)} {n : ℕ} (laws : JsonLaws j) (can_write : Bool) (r : Reader)
        (items : List A) (random : ℕ → GdpName)
        → Feed j nothing chunks (frames pkt guid items) nothing n
        → Holds r nothing
        → n + r.reset_counter ≤ 5
        → (buffers : List (List ℕ)) × (r' : Reader) × (send_all j
              (λ _ _. true)
              random
              (map pkt items)
            ≡ done buffers)
          × (concat chunks ≡ concat buffers)
          × (read_all j can_write r chunks
              ≡ done (
                r',
                map (λ a. received j r.description (pkt a) (header_of (pkt a) (guid a))) items,
              ))
          × Holds r' nothing
    carried laws can_write r items random feed held few =
        let (buffers, ran, bytes) = send_all_lem items random in
        let (r', read, held') = read_all-Feed j laws can_write r feed held tt few in
        (
          buffers,
          r',
          ran,
          concat-Feed feed ∙ sym bytes,
          read ∙ ap (λ ps. done (r', ps)) (to_packet-frames r.description items),
          held',
        )
