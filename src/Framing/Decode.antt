-- ===== src/Framing/Decode.antt =====
-- The parser of kcp.rs on the bytes of frames.
use rt_fogros.Prelude.{
  ℕ, zero, suc, ◌<◌, ◌≡◌, ◌≢◌, refl, ap, ◌∙◌, List, [], ◌∷◌, ◌++◌, length, length-append,
  append-nil, arith, ◌⊎◌, inl, inr,
}
use rt_fogros.Packet.Types.{GdpHeaderInTransit}
use rt_fogros.Packet.Header.{Json, JsonLaws}
use rt_fogros.Framing.Parser.{
  Frame, Parsed, parsed, panicked, parse_loop, parse_header_payload_pairs,
}
use rt_fogros.Framing.Fuel.{prepend, parse_loop-prepend}
use rt_fogros.Framing.Frames.{
  IsWhole, Pending, nothing, in_header, in_payload, frame_bytes, encode, pending_bytes, IsPending,
  pending_rest, parse_loop_header, parse_loop_pending, cut_payload_whole, encode_pos,
  length-frame_bytes, split_nul-no_nul,
}

module _ (j : Json) where
  module _ (laws : JsonLaws j) where
    shorter_rest :
        (f : ℕ) (h : GdpHeaderInTransit) (payload rest : List ℕ)
        → length (frame_bytes j h (payload ++ rest)) < suc f
        → length rest < f
    shorter_rest f h payload rest lt =
        omega (arith, length-frame_bytes j laws h (payload ++ rest), length-append payload rest)

    -- A whole frame stands in front of more bytes.
    parse_loop_more :
        (f : ℕ) (h : GdpHeaderInTransit) (payload rest : List ℕ) (r : Parsed)
        → length payload ≡ h.length
        → 0 < length rest
        → length (frame_bytes j h (payload ++ rest)) < suc f
        → parse_loop j f rest [] ≡ r
        → parse_loop j (suc f) (frame_bytes j h (payload ++ rest)) []
          ≡ prepend ((h, payload) ∷ []) r
    parse_loop_more f h payload rest r e pos fuel ih =
        let lt = shorter_rest f h payload rest fuel in
        parse_loop_header j laws f h (payload ++ rest) []
        ∙ cut_payload_whole j laws (λ b p. parse_loop j f b p) h payload rest e pos
        ∙ parse_loop-prepend j f f ((h, payload) ∷ []) [] rest lt lt
        ∙ ap (prepend ((h, payload) ∷ [])) ih

    parse_loop-encode :
        (f : ℕ) (fs : List Frame) (p : Pending)
        → IsWhole fs
        → IsPending j p
        → (fs ≢ []) ⊎ (p ≢ nothing)
        → length (encode j fs (pending_bytes j p)) < f
        → parse_loop j f (encode j fs (pending_bytes j p)) [] ≡ parsed fs (pending_rest j p)
    parse_loop-encode zero fs p wf wp ne fuel = elim fuel [ ]
    parse_loop-encode (suc f) [] p wf wp ne fuel =
        parse_loop_pending j laws f p wp (encode_pos j laws [] p wp ne)
    parse_loop-encode (suc f) ((h, payload) ∷ []) nothing wf wp ne fuel =
        parse_loop_header j laws f h (payload ++ []) []
        ∙ ground (arith, append-nil payload, length-append payload [])
    parse_loop-encode (suc f) ((h, payload) ∷ []) (in_header h' xs y ys) wf wp ne fuel =
        let p = in_header h' xs y ys in
        let other : p ≢ nothing = λ e. cc in
        parse_loop_more f h payload (pending_bytes j p) _ wf.0
          (encode_pos j laws [] p wp (inr other)) fuel
          (parse_loop-encode f [] (in_header h' xs y ys) tt wp (inr other)
            (shorter_rest f h payload xs fuel))
    parse_loop-encode (suc f) ((h, payload) ∷ []) (in_payload h' got) wf wp ne fuel =
        let p = in_payload h' got in
        let other : p ≢ nothing = λ e. cc in
        parse_loop_more f h payload (pending_bytes j p) _ wf.0
          (encode_pos j laws [] p wp (inr other)) fuel
          (parse_loop-encode f [] (in_payload h' got) tt wp (inr other)
            (shorter_rest f h payload (frame_bytes j h' got) fuel))
    parse_loop-encode (suc f) ((h, payload) ∷ g ∷ fs) p wf wp ne fuel =
        let other : ◌≢◌ {A = List Frame} (g ∷ fs) [] = λ e. cc in
        parse_loop_more f h payload (encode j (g ∷ fs) (pending_bytes j p)) _ wf.0
          (encode_pos j laws (g ∷ fs) p wp (inl other)) fuel
          (parse_loop-encode f (g ∷ fs) p wf.1 wp (inl other)
            (shorter_rest f h payload (encode j (g ∷ fs) (pending_bytes j p)) fuel))

    pub parse-of_pos :
        (b : List ℕ)
        → 0 < length b
        → parse_header_payload_pairs j b ≡ parse_loop j (suc (length b)) b []
    unfolding parse_header_payload_pairs
    parse-of_pos [] lt = elim lt [ ]
    parse-of_pos (x ∷ xs) lt = refl

    parse_nonempty :
        (fs : List Frame) (p : Pending)
        → IsWhole fs
        → IsPending j p
        → (fs ≢ []) ⊎ (p ≢ nothing)
        → parse_header_payload_pairs j (encode j fs (pending_bytes j p))
          ≡ parsed fs (pending_rest j p)
    parse_nonempty fs p wf wp ne =
        parse-of_pos _ (encode_pos j laws fs p wp ne)
        ∙ parse_loop-encode (suc (length (encode j fs (pending_bytes j p)))) fs p wf wp ne
            (omega arith)

    -- Frames that stand one after the other, the last of them perhaps cut inside its header or inside
    -- its payload, parse to exactly the whole frames, in order, and to what is there of the last one:
    -- its payload under its header, or the bytes of its header under the default header.
    pub parse-encode :
        (fs : List Frame) (p : Pending)
        → IsWhole fs
        → IsPending j p
        → parse_header_payload_pairs j (encode j fs (pending_bytes j p))
          ≡ parsed fs (pending_rest j p)
    unfolding parse_header_payload_pairs
    parse-encode [] nothing wf wp = refl
    parse-encode (g ∷ fs) p wf wp = parse_nonempty (g ∷ fs) p wf wp (inl (λ e. cc))
    parse-encode [] (in_header h xs y ys) wf wp =
        parse_nonempty [] (in_header h xs y ys) wf wp (inr (λ e. cc))
    parse-encode [] (in_payload h got) wf wp =
        parse_nonempty [] (in_payload h got) wf wp (inr (λ e. cc))

    header_pos : (h : GdpHeaderInTransit) (xs : List ℕ) → j.header_to_string h ≡ xs → 0 < length xs
    header_pos h [] e = absurd (laws.header_is_not_empty h e)
    header_pos h (x ∷ xs) e = omega arith

    encode_header_pos :
        (fs : List Frame) (h : GdpHeaderInTransit) → 0 < length (encode j fs (j.header_to_string h))
    encode_header_pos [] h = header_pos h _ refl
    encode_header_pos ((g, payload) ∷ fs) h =
        omega (arith, length-frame_bytes j laws g (payload ++ encode j fs (j.header_to_string h)))

    parse_loop_without_nul :
        (f : ℕ) (fs : List Frame) (h : GdpHeaderInTransit)
        → IsWhole fs
        → length (encode j fs (j.header_to_string h)) < f
        → parse_loop j f (encode j fs (j.header_to_string h)) [] ≡ panicked
    unfolding parse_loop
    parse_loop_without_nul zero fs h wf fuel = elim fuel [ ]
    parse_loop_without_nul (suc f) [] h wf fuel = rw (
      split_nul-no_nul (j.header_to_string h) (laws.header_has_no_nul h),
      laws.header_is_utf8 h,
      laws.header_reads_back h,
    )
    parse_loop_without_nul (suc f) ((g, payload) ∷ fs) h wf fuel =
        let rest = encode j fs (j.header_to_string h) in
        parse_loop_more f g payload rest _ wf.0 (encode_header_pos fs h) fuel
          (parse_loop_without_nul f fs h wf.1 (shorter_rest f g payload rest fuel))

    -- A buffer that ends with a whole header that lacks the NUL byte behind it panics, with whatever
    -- whole frames stand in front: the index `header_and_remaining[1]` is out of bounds.
    pub parse_header_without_nul :
        (fs : List Frame) (h : GdpHeaderInTransit)
        → IsWhole fs
        → parse_header_payload_pairs j (encode j fs (j.header_to_string h)) ≡ panicked
    parse_header_without_nul fs h wf =
        let pos = encode_header_pos fs h in
        parse-of_pos _ pos
        ∙ parse_loop_without_nul (suc (length (encode j fs (j.header_to_string h)))) fs h wf
            (omega arith)
