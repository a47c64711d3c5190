-- ===== src/Framing/Frames.antt =====
-- The bytes of a sequence of frames, whole ones and perhaps a last one that is not yet complete, and
-- what the parser makes of them.
use rt_fogros.Prelude.{
  ℕ, suc, ◌<◌, ◌≡◌, ◌≢◌, refl, ap, ◌∙◌, Option, none, some, List, [], ◌∷◌, ◌++◌, length, drop, take,
  length-append, take_append, drop_append, arith, All, ◌⊎◌, inl, inr,
}
use rt_fogros.Packet.Types.{GdpHeaderInTransit, default_header}
use rt_fogros.Packet.Header.{Json, JsonLaws}
use rt_fogros.Framing.Parser.{Frame, Parsed, parsed, split_nul, cut_payload, parse_loop}

-- The payload is as long as the header says.
abbrev pub IsWhole : List Frame → Type 0
IsWhole [] = Unit
IsWhole ((h, payload) ∷ fs) = (length payload ≡ h.length) × IsWhole fs

-- What is there of the frame that comes next: nothing, a part of its header, or its header, the NUL
-- byte and a part of its payload.
pub data Pending : Type 0 where
  nothing : Pending
  in_header : GdpHeaderInTransit → List ℕ → ℕ → List ℕ → Pending
  in_payload : GdpHeaderInTransit → List ℕ → Pending

split_nul-append :
    (xs rest : List ℕ) → All (λ b. b ≢ 0) xs → split_nul (xs ++ 0 ∷ rest) ≡ (xs, some rest)
unfolding split_nul
split_nul-append [] rest h = refl
split_nul-append (x ∷ xs) rest h = ground (arith, h.0, split_nul-append xs rest h.1)

pub split_nul-no_nul : (xs : List ℕ) → All (λ b. b ≢ 0) xs → split_nul xs ≡ (xs, none)
unfolding split_nul
split_nul-no_nul [] h = refl
split_nul-no_nul (x ∷ xs) h = ground (arith, h.0, split_nul-no_nul xs h.1)

All-left : (xs ys : List ℕ) → All (λ b. b ≢ 0) (xs ++ ys) → All (λ b. b ≢ 0) xs
All-left [] ys h = tt
All-left (x ∷ xs) ys h = (h.0, All-left xs ys h.1)

module _ (j : Json) where
  abbrev pub frame_bytes : GdpHeaderInTransit → List ℕ → List ℕ
  frame_bytes h payload = j.header_to_string h ++ 0 ∷ payload

  -- The frames one after the other, and `rest` behind them.
  abbrev pub encode : List Frame → List ℕ → List ℕ
  encode [] rest = rest
  encode ((h, payload) ∷ fs) rest = frame_bytes h (payload ++ encode fs rest)

  abbrev pub pending_bytes : Pending → List ℕ
  pending_bytes nothing = []
  pending_bytes (in_header h xs y ys) = xs
  pending_bytes (in_payload h got) = frame_bytes h got

  -- The header is cut before its end, and not before its first byte; the payload is cut short.
  abbrev pub IsPending : Pending → Type 0
  IsPending nothing = Unit
  IsPending (in_header h xs y ys) = (j.header_to_string h ≡ xs ++ y ∷ ys) × (xs ≢ [])
  IsPending (in_payload h got) = length got < h.length

  -- The second component of the parser's result.
  abbrev pub pending_rest : Pending → Option Frame
  pending_rest nothing = none
  pending_rest (in_header h xs y ys) = some (default_header, xs)
  pending_rest (in_payload h got) = some (h, got)

  module _ (laws : JsonLaws j) where
    -- A round of the loop at a whole header.
    pub parse_loop_header :
        (f : ℕ) (h : GdpHeaderInTransit) (rest : List ℕ) (qs : List Frame)
        → parse_loop j (suc f) (frame_bytes h rest) qs
          ≡ cut_payload (λ b p. parse_loop j f b p) qs h rest
    unfolding parse_loop
    parse_loop_header f h rest qs = rw (
      split_nul-append (j.header_to_string h) rest (laws.header_has_no_nul h),
      laws.header_is_utf8 h,
      laws.header_reads_back h,
    )

    pub length-frame_bytes :
        (h : GdpHeaderInTransit) (rest : List ℕ) → length rest < length (frame_bytes h rest)
    length-frame_bytes h rest = omega (arith, length-append (j.header_to_string h) (0 ∷ rest))

    pub parse_loop_pending :
        (f : ℕ) (p : Pending)
        → IsPending p
        → 0 < length (pending_bytes p)
        → parse_loop j (suc f) (pending_bytes p) [] ≡ parsed [] (pending_rest p)
    unfolding parse_loop
    parse_loop_pending f nothing w lt = elim lt [ ]
    parse_loop_pending f (in_header h xs y ys) w lt = rw (
      split_nul-no_nul xs (All-left xs (y ∷ ys) (subst_nul (w.0) (laws.header_has_no_nul h))),
      laws.cut_is_utf8 h xs y ys w.0,
      laws.cut_is_refused h xs y ys w.0,
    )
      where
        subst_nul : {a b : List ℕ} → a ≡ b → All (λ b. b ≢ 0) a → All (λ b. b ≢ 0) b
        subst_nul e k = rw e at k
    parse_loop_pending f (in_payload h got) w lt = parse_loop_header f h got [] ∙ ground arith

    -- A whole frame in front of more bytes.
    pub cut_payload_whole :
        (c : List ℕ → List Frame → Parsed) (h : GdpHeaderInTransit) (payload rest : List ℕ)
        → length payload ≡ h.length
        → 0 < length rest
        → cut_payload c [] h (payload ++ rest) ≡ c rest ((h, payload) ∷ [])
    cut_payload_whole c h payload rest e lt = ground (
      arith,
      length-append payload rest,
      ap (λ n. take n (payload ++ rest)) e,
      ap (λ n. drop n (payload ++ rest)) e,
      take_append payload rest,
      drop_append payload rest,
    )

    pub encode_pos :
        (fs : List Frame) (p : Pending)
        → IsPending p
        → (fs ≢ []) ⊎ (p ≢ nothing)
        → 0 < length (encode fs (pending_bytes p))
    encode_pos ((h, payload) ∷ fs) p w ne =
        omega (arith, length-frame_bytes h (payload ++ encode fs (pending_bytes p)))
    encode_pos [] nothing w (inl ne) = absurd (ne refl)
    encode_pos [] nothing w (inr ne) = absurd (ne refl)
    encode_pos [] (in_header h [] y ys) w ne = absurd (w.1 refl)
    encode_pos [] (in_header h (x ∷ xs) y ys) w ne = omega arith
    encode_pos [] (in_payload h got) w ne = omega (arith, length-frame_bytes h got)
