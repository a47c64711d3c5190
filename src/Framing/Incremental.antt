-- ===== src/Framing/Incremental.antt =====
-- A round of the reader of kcp.rs against the parser.
use rt_fogros.Prelude.{
  ℕ, suc, ◌+◌, ◌-◌, ◌<◌, ◌≤◌, ◌≡◌, ◌≢◌, refl, sym, Text, ap, ◌∙◌, Option, none, some, List, [], ◌∷◌,
  ◌++◌, length, drop, take, length-append, length-drop, take-append_ge, drop-append_ge,
  append_assoc, arith, true, false, ltb, ◌==◌, inl, inr, Bool-cases, ltb→lt, ==_iff,
}
use mathlib.Core.Path.{subst}
use rt_fogros.Packet.Action.{GdpAction, noop, action_beq, to_u8}
use rt_fogros.Packet.Types.{GdpHeaderInTransit}
use rt_fogros.Packet.Header.{Json, JsonLaws}
use rt_fogros.Framing.Parser.{
  Frame, Parsed, parsed, panicked, out_of_fuel, cut_payload, parse_loop, parse_header_payload_pairs,
}
use rt_fogros.Framing.Fuel.{prepend, parse_loop-prepend}
use rt_fogros.Framing.Frames.{
  Pending, nothing, in_header, in_payload, frame_bytes, pending_bytes, IsPending, parse_loop_header,
  length-frame_bytes,
}
use rt_fogros.Framing.Decode.{parse-of_pos}
use rt_fogros.Framing.Reader.{Reader, after_parse, absorb}

-- What the reader's variables mean. A part of a header is kept under the default header, so the
-- action `noop` marks it.
abbrev pub Holds : Reader → Pending → Type 0
Holds r nothing = r.need_more_data_for_previous_header ≡ false
Holds r (in_header h xs y ys) =
    (r.need_more_data_for_previous_header ≡ true)
    × (r.remaining_gdp_header.action ≡ noop)
    × (r.remaining_gdp_payload ≡ xs)
Holds r (in_payload h got) =
    (r.need_more_data_for_previous_header ≡ true)
    × (h.action ≢ noop)
    × (r.remaining_gdp_header ≡ h)
    × (r.remaining_gdp_payload ≡ got)

-- A round with a part of a header is counted.
abbrev pub count : Pending → ℕ → ℕ
count (in_header h xs y ys) n = n + 1
count _ n = n

abbrev pub counted : Pending → Reader → Reader
counted p r = record r { reset_counter = count p r.reset_counter }

abbrev pub header_cuts : Pending → ℕ
header_cuts (in_header h xs y ys) = 1
header_cuts _ = 0

-- The frame that the chunk completed is one that the parser finds first.
after_parse-prepend :
    (r : Reader) (payload : List ℕ) (f : Frame) (p : Parsed)
    → after_parse (record r { remaining_gdp_payload = payload }) (f ∷ []) p
      ≡ after_parse r [] (prepend (f ∷ []) p)
after_parse-prepend r payload f (parsed more none) = refl
after_parse-prepend r payload f (parsed more (some x)) = refl
after_parse-prepend r payload f panicked = refl
after_parse-prepend r payload f out_of_fuel = refl

-- The payload that is kept is written anew in every round.
after_parse_payload :
    (r : Reader) (payload : List ℕ) (fs : List Frame) (p : Parsed)
    → after_parse (record r { remaining_gdp_payload = payload }) fs p ≡ after_parse r fs p
after_parse_payload r payload fs (parsed more none) = refl
after_parse_payload r payload fs (parsed more (some x)) = refl
after_parse_payload r payload fs panicked = refl
after_parse_payload r payload fs out_of_fuel = refl

pub action_beq_noop : (a : GdpAction) → a ≡ noop → action_beq a noop ≡ true
unfolding to_u8
action_beq_noop a e = rw e

action_beq_ne : (a : GdpAction) → a ≢ noop → action_beq a noop ≡ false
unfolding to_u8
action_beq_ne noop ne = absurd (ne refl)
action_beq_ne _ ne = refl

module _ (j : Json) (laws : JsonLaws j) where
  -- The batch parser on a header, what is there of its payload, and the chunk.
  parse_payload :
      (h : GdpHeaderInTransit) (got : List ℕ)
      → parse_header_payload_pairs j (frame_bytes j h got)
        ≡ cut_payload (λ b p. parse_loop j (length (frame_bytes j h got)) b p) [] h got
  parse_payload h got =
      parse-of_pos j laws (frame_bytes j h got) (omega (arith, length-frame_bytes j laws h got))
      ∙ parse_loop_header j laws (length (frame_bytes j h got)) h got []

  -- The chunk runs over the end of the payload.
  parse_overflow :
      (h : GdpHeaderInTransit) (got chunk : List ℕ)
      → length got < h.length
      → h.length < length got + length chunk
      → parse_header_payload_pairs j (frame_bytes j h (got ++ chunk))
        ≡ prepend
            ((h, got ++ take (h.length - length got) chunk) ∷ [])
            (parse_header_payload_pairs j (drop (h.length - length got) chunk))
  parse_overflow h got chunk part over =
      let rest = drop (h.length - length got) chunk in
      let f = length (frame_bytes j h (got ++ chunk)) in
      let n = length-drop (h.length - length got) chunk in
      let m = length-append got chunk in
      let l = length-frame_bytes j laws h (got ++ chunk) in
      parse_payload h (got ++ chunk)
      ∙ ground (
        arith,
        length-append got chunk,
        take-append_ge h.length got chunk,
        drop-append_ge h.length got chunk,
      )
      ∙ parse_loop-prepend j f (suc (length rest))
          ((h, got ++ take (h.length - length got) chunk) ∷ []) [] rest (omega (arith, n, m, l))
          (omega arith)
      ∙ ap (prepend ((h, got ++ take (h.length - length got) chunk) ∷ []))
          (sym (parse-of_pos j laws rest (omega (arith, n))))

  -- The reader with a header and a part of its payload.
  abbrev filled : Option Text → GdpHeaderInTransit → List ℕ → ℕ → Reader
  filled d h got n = record {
    description = d;
    need_more_data_for_previous_header = true;
    remaining_gdp_header = h;
    remaining_gdp_payload = got;
    reset_counter = n;
  }

  parse_short :
      (h : GdpHeaderInTransit) (got chunk : List ℕ)
      → length got + length chunk < h.length
      → parse_header_payload_pairs j (frame_bytes j h (got ++ chunk))
        ≡ parsed [] (some (h, got ++ chunk))
  parse_short h got chunk lt =
      parse_payload h (got ++ chunk) ∙ ground (arith, length-append got chunk)

  parse_exact :
      (h : GdpHeaderInTransit) (got chunk : List ℕ)
      → length got + length chunk ≡ h.length
      → parse_header_payload_pairs j (frame_bytes j h (got ++ chunk))
        ≡ parsed ((h, got ++ chunk) ∷ []) none
  parse_exact h got chunk e =
      parse_payload h (got ++ chunk) ∙ ground (arith, length-append got chunk)

  absorb_payload :
      (d : Option Text) (h : GdpHeaderInTransit) (got chunk : List ℕ) (n : ℕ)
      → h.action ≢ noop
      → length got < h.length
      → absorb j (filled d h got n) chunk
        ≡ after_parse
            (filled d h got n)
            []
            (parse_header_payload_pairs j (frame_bytes j h (got ++ chunk)))
  unfolding absorb parse_header_payload_pairs
  absorb_payload d h got chunk n ne part =
      elim (Bool-cases (ltb (length got + length chunk) h.length)) [
        | inl lt ↦ rw (action_beq_ne h.action ne, lt, parse_short h got chunk (ltb→lt _ _ lt))
        | inr ge ↦ elim (Bool-cases (length got + length chunk == h.length)) [
          | inl eq ↦
              rw (action_beq_ne h.action ne, ge, eq, parse_exact h got chunk ((==_iff _ _).0 eq))
          | inr gt ↦
              rw (action_beq_ne h.action ne, ge, gt, parse_overflow h got chunk part (ground arith))
                (after_parse-prepend (filled d h got n) (got ++ take (h.length - length got) chunk)
                  _ _)
        ]
      ]

  pub absorb-parse :
      (r : Reader) (p : Pending) (chunk : List ℕ)
      → Holds r p
      → IsPending j p
      → header_cuts p + r.reset_counter ≤ 5
      → absorb j r chunk
        ≡ after_parse (counted p r) [] (parse_header_payload_pairs j (pending_bytes j p ++ chunk))
  unfolding absorb
  absorb-parse r nothing chunk held w c = rw held
  absorb-parse r (in_header h xs y ys) chunk held w c =
      let few : ltb 5 (r.reset_counter + 1) ≡ false = ground arith in
      rw (held.0, action_beq_noop r.remaining_gdp_header.action held.1, few)
        (after_parse_payload (counted (in_header h xs y ys) r) (r.remaining_gdp_payload ++ chunk) []
            (parse_header_payload_pairs j (r.remaining_gdp_payload ++ chunk))
          ∙ ap
              (λ b.
                after_parse (counted (in_header h xs y ys) r) []
                  (parse_header_payload_pairs j (b ++ chunk)))
              held.2)
  absorb-parse r (in_payload h got) chunk held w c =
      let e : r ≡ filled r.description h got r.reset_counter = ground arith in
      subst
        (λ x.
          absorb j x chunk
          ≡ after_parse x [] (parse_header_payload_pairs j (frame_bytes j h got ++ chunk)))
        (sym e)
        (absorb_payload r.description h got chunk r.reset_counter held.1 w
          ∙ ap
              (λ b.
                after_parse (filled r.description h got r.reset_counter) []
                  (parse_header_payload_pairs j b))
              (sym (append_assoc (j.header_to_string h) (0 ∷ got) chunk)))
