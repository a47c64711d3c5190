-- ===== src/Framing/Losses.antt =====
-- The reader of kcp.rs at particular chunk boundaries.
use rt_fogros.Prelude.{
  ℕ, ◌+◌, ◌≤◌, ◌≡◌, refl, sym, ap, ◌∙◌, List, [], ◌∷◌, ◌++◌, length, codes, text_beq, append_assoc,
  append-nil, length-append, arith, true, false, done, panic, ltb,
}
use rt_fogros.Packet.Types.{GdpHeaderInTransit}
use rt_fogros.Packet.Header.{Json, JsonLaws}
use rt_fogros.Framing.Parser.{Frame, parsed, parse_header_payload_pairs}
use rt_fogros.Framing.Frames.{
  IsWhole, Pending, nothing, in_header, in_payload, encode, pending_bytes, IsPending, pending_rest,
}
use rt_fogros.Framing.Decode.{parse-encode, parse_header_without_nul}
use rt_fogros.Framing.Incremental.{Holds, absorb-parse, action_beq_noop}
use rt_fogros.Framing.Reader.{Reader, next, after_parse, to_packet, absorb, on_read}

module _ (j : Json) (laws : JsonLaws j) where
  -- A chunk that completes a payload and is the four bytes "ping" is answered by a pong and dropped: the
  -- reader does not move, where handed to the payload the chunk would have completed the packet.
  -- Conditions: the payload is of a frame whose action is not Noop, the reset counter is five at most,
  -- and the stream takes the pong.
  pub ping_swallowed :
      (r : Reader) (h : GdpHeaderInTransit) (got : List ℕ)
      → Holds r (in_payload h got)
      → length got + 4 ≡ h.length
      → r.reset_counter ≤ 5
      → (on_read j true r (codes "ping")
          ≡ done (next (record { reader = r; sent = []; written = codes "pong" })))
        × (absorb j r (codes "ping")
            ≡ done (
                next (record {
                  reader = record r {
                    need_more_data_for_previous_header = false;
                    remaining_gdp_payload = [];
                  };
                  sent = to_packet r.description (h, got ++ codes "ping") ∷ [];
                  written = [];
                })))
  unfolding on_read text_beq
  ping_swallowed r h got held e few = (
    refl,
    absorb-parse j laws r (in_payload h got) (codes "ping") held (omega arith) (omega arith)
        ∙ ap (λ b. after_parse r [] (parse_header_payload_pairs j b)) bytes
        ∙ ap (after_parse r []) (
            parse-encode j laws ((h, got ++ codes "ping") ∷ []) nothing
              (omega (arith, length-append got (codes "ping")), tt) tt),
  )
    where
      bytes :
          pending_bytes j (in_payload h got) ++ codes "ping"
          ≡ encode j ((h, got ++ codes "ping") ∷ []) []
      bytes =
          append_assoc (j.header_to_string h) (0 ∷ got) (codes "ping")
          ∙ ap (λ b. j.header_to_string h ++ 0 ∷ b) (sym (append-nil (got ++ codes "ping")))

  -- The sixth time that a chunk begins inside a header, the reader drops it with what it has kept,
  -- although the bytes parse: the counter is never set back by a header that reads.
  pub sixth_cut_dropped :
      (r : Reader) (h : GdpHeaderInTransit) (xs : List ℕ) (y : ℕ) (ys chunk : List ℕ)
      (fs : List Frame) (q : Pending)
      → Holds r (in_header h xs y ys)
      → r.reset_counter ≡ 5
      → IsWhole fs
      → IsPending j q
      → xs ++ chunk ≡ encode j fs (pending_bytes j q)
      → (absorb j r chunk
          ≡ done (
              next (record {
                reader = record r {
                  need_more_data_for_previous_header = false;
                  remaining_gdp_payload = [];
                  reset_counter = 0;
                };
                sent = [];
                written = [];
              })))
        × (parse_header_payload_pairs j (xs ++ chunk) ≡ parsed fs (pending_rest j q))
  unfolding absorb parse_header_payload_pairs
  sixth_cut_dropped r h xs y ys chunk fs q held full wf wq e =
      let over : ltb 5 (r.reset_counter + 1) ≡ true = ground arith in
      (
        rw (held.0, action_beq_noop r.remaining_gdp_header.action held.1, over),
        ap (parse_header_payload_pairs j) e ∙ parse-encode j laws fs q wf wq,
      )

  -- A chunk that ends with a whole header, the NUL byte still to come, panics the reader.
  pub header_without_nul_panics :
      (r : Reader) (fs : List Frame) (h : GdpHeaderInTransit)
      → Holds r nothing
      → IsWhole fs
      → absorb j r (encode j fs (j.header_to_string h)) ≡ panic
  unfolding absorb
  header_without_nul_panics r fs h held wf =
      rw held (ap (after_parse r []) (parse_header_without_nul j laws fs h wf))
