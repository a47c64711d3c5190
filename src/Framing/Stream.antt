-- ===== src/Framing/Stream.antt =====
-- A stream of chunks against the frames whose bytes it carries.
use rt_fogros.Prelude.{
  ℕ, ◌+◌, ◌≤◌, ◌≡◌, ◌≢◌, refl, sym, ap, ◌∙◌, List, [], ◌∷◌, ◌++◌, map, codes, text_beq_iff, arith,
  Bool, done,
}
use mathlib.Core.List.{map-append}
use rt_fogros.Packet.Action.{noop}
use rt_fogros.Packet.Types.{GdpPacket}
use rt_fogros.Packet.Header.{Json, JsonLaws}
use rt_fogros.Framing.Parser.{Frame, parse_header_payload_pairs}
use rt_fogros.Framing.Frames.{
  IsWhole, Pending, nothing, in_header, in_payload, encode, pending_bytes, IsPending, pending_rest,
}
use rt_fogros.Framing.Decode.{parse-encode}
use rt_fogros.Framing.Incremental.{Holds, counted, header_cuts, absorb-parse}
use rt_fogros.Framing.Reader.{
  Reader, Round, next, keep_remaining, after_parse, to_packet, absorb, on_read, read_all,
}

-- A frame that is cut inside its payload does not have the action `noop`, by which the reader tells
-- it from one that is cut inside its header.
abbrev pub IsMarked : Pending → Type 0
IsMarked (in_payload h got) = h.action ≢ noop
IsMarked _ = Unit

-- `Feed j p chunks fs q n`: behind the bytes of `p`, the chunks carry the frames `fs` and then the
-- bytes of `q`. No chunk is empty or a ping, none ends between a header and its NUL byte, and `n` of
-- them begin inside a header.
pub data Feed (j : Json) : Pending → List (List ℕ) → List Frame → Pending → ℕ → Type 0 where
  stop : {p : Pending} → Feed j p [] [] p 0
  more :
      {p q t : Pending} {chunks : List (List ℕ)} {n : ℕ} (chunk : List ℕ) (fs gs : List Frame)
      → chunk ≢ []
      → chunk ≢ codes "ping"
      → IsWhole fs
      → IsPending j q
      → IsMarked q
      → pending_bytes j p ++ chunk ≡ encode j fs (pending_bytes j q)
      → Feed j q chunks gs t n
      → Feed j p (chunk ∷ chunks) (fs ++ gs) t (header_cuts p + n)

module _ (j : Json) (laws : JsonLaws j) where
  on_read-absorb :
      (can_write : Bool) (r : Reader) (chunk : List ℕ)
      → chunk ≢ []
      → chunk ≢ codes "ping"
      → on_read j can_write r chunk ≡ absorb j r chunk
  unfolding on_read
  on_read-absorb can_write r [] ne no_ping = absurd (ne refl)
  on_read-absorb can_write r (x ∷ xs) ne no_ping =
      ground (arith, text_beq_iff (x ∷ xs) (codes "ping"))

  keep_remaining-Holds :
      (r : Reader) (p : Pending) → IsMarked p → Holds (keep_remaining r (pending_rest j p)) p
  keep_remaining-Holds r nothing m = refl
  keep_remaining-Holds r (in_header h xs y ys) m = (refl, refl, refl)
  keep_remaining-Holds r (in_payload h got) m = (refl, m, refl, refl)

  -- The reader after a round on a chunk.
  abbrev after_chunk : Reader → Pending → Pending → Reader
  after_chunk r p q = keep_remaining (counted p r) (pending_rest j q)

  absorb-Feed :
      (r : Reader) (p q : Pending) (chunk : List ℕ) (fs : List Frame)
      → Holds r p
      → IsPending j p
      → header_cuts p + r.reset_counter ≤ 5
      → IsWhole fs
      → IsPending j q
      → pending_bytes j p ++ chunk ≡ encode j fs (pending_bytes j q)
      → absorb j r chunk
        ≡ done (
            next (record {
              reader = after_chunk r p q;
              sent = map (to_packet r.description) fs;
              written = [];
            }))
  absorb-Feed r p q chunk fs held w few wf wq e =
      absorb-parse j laws r p chunk held w few
      ∙ ap (λ b. after_parse (counted p r) [] (parse_header_payload_pairs j b)) e
      ∙ ap (after_parse (counted p r) []) (parse-encode j laws fs q wf wq)

  description-after_chunk :
      (r : Reader) (p q : Pending) → (after_chunk r p q).description ≡ r.description
  description-after_chunk r p nothing = refl
  description-after_chunk r p (in_header h xs y ys) = refl
  description-after_chunk r p (in_payload h got) = refl

  reset_counter-after_chunk :
      (r : Reader) (p q : Pending)
      → (after_chunk r p q).reset_counter ≡ header_cuts p + r.reset_counter
  reset_counter-after_chunk r nothing nothing = omega arith
  reset_counter-after_chunk r nothing (in_header h xs y ys) = omega arith
  reset_counter-after_chunk r nothing (in_payload h got) = omega arith
  reset_counter-after_chunk r (in_header _ _ _ _) nothing = omega arith
  reset_counter-after_chunk r (in_header _ _ _ _) (in_header h xs y ys) = omega arith
  reset_counter-after_chunk r (in_header _ _ _ _) (in_payload h got) = omega arith
  reset_counter-after_chunk r (in_payload _ _) nothing = omega arith
  reset_counter-after_chunk r (in_payload _ _) (in_header h xs y ys) = omega arith
  reset_counter-after_chunk r (in_payload _ _) (in_payload h got) = omega arith

  read_all_next :
      (can_write : Bool) (r : Reader) (chunk : List ℕ) (chunks : List (List ℕ)) (round : Round)
      (r' : Reader) (ps : List GdpPacket)
      → on_read j can_write r chunk ≡ done (next round)
      → read_all j can_write round.reader chunks ≡ done (r', ps)
      → read_all j can_write r (chunk ∷ chunks) ≡ done (r', round.sent ++ ps)
  unfolding read_all
  read_all_next can_write r chunk chunks round r' ps first later =
      rw (first, read_all) (rw (later, read_all))

  -- Whatever the chunks' sizes, the reader sends exactly the packets of the frames that the chunks
  -- carry, in order, and keeps what is there of the last one, as long as no more than five chunks of
  -- the connection's life begin inside a header.
  pub read_all-Feed :
      {p q : Pending} {chunks : List (List ℕ)} {fs : List Frame} {n : ℕ} (can_write : Bool)
      (r : Reader)
      → Feed j p chunks fs q n
      → Holds r p
      → IsPending j p
      → n + r.reset_counter ≤ 5
      → (r' : Reader) × (read_all j can_write r chunks
          ≡ done (r', map (to_packet r.description) fs))
        × Holds r' q
  unfolding read_all
  read_all-Feed can_write r stop held w few = (r, refl, held)
  read_all-Feed {p} can_write r
        (more {q = q} {chunks = chunks} {n = n} chunk fs gs ne no_ping wf wq m e rest) held w few =
      let r₁ = after_chunk r p q in
      let count = reset_counter-after_chunk r p q in
      let (r', later, held') =
        read_all-Feed can_write r₁ rest (keep_remaining-Holds (counted p r) q m) wq
          (omega (arith, count)) in
      let first =
        on_read-absorb can_write r chunk ne no_ping
        ∙ absorb-Feed r p q chunk fs held w (omega arith) wf wq e in
      (
        r',
        read_all_next can_write r chunk chunks _ r' (map (to_packet r.description) gs) first
              (later ∙ ap (λ d. done (r', map (to_packet d) gs)) (description-after_chunk r p q))
            ∙ ap (λ ps. done (r', ps)) (sym (map-append (to_packet r.description) fs gs)),
        held',
      )
