-- ===== src/Framing/Stands.antt =====
-- Where the frames of a round stand in what the reader of kcp.rs has kept and the chunk.
use rt_fogros.Prelude.{
  ℕ, Text, ◌<◌, ◌≤◌, ◌≡◌, Option, List, [], ◌∷◌, ◌++◌, length, map, if◌then◌else◌, true, false,
  Bool-cases, ◌⊎◌, inl, inr, Outcome, done,
}
use rt_fogros.Packet.Action.{noop, action_beq}
use rt_fogros.Packet.Types.{GdpPacket}
use rt_fogros.Packet.Header.{Json}
use rt_fogros.Framing.Parser.{Frame}
use rt_fogros.Framing.Reader.{Reader, Step, next, to_packet}
use rt_fogros.Framing.Cuts.{Cuts}

module _ (j : Json) where
  -- So the subtraction `remaining_gdp_header.length - remaining_gdp_payload.len()` does not underflow,
  -- and the counter of rounds inside a header stays within the reset.
  pub record IsSound (r : Reader) : Type 0 where
    pub short :
        (r.need_more_data_for_previous_header ≡ false)
        ⊎ (r.remaining_gdp_header.action ≡ noop)
        ⊎ (length r.remaining_gdp_payload < r.remaining_gdp_header.length)
    pub few : r.reset_counter ≤ 5

  -- The first frame is the one whose header the reader has kept, with a payload of the length that the
  -- header says, which what is kept and the chunk begin with; the others stand behind it.
  abbrev pub Continues : Reader → List ℕ → List Frame → Type 0
  Continues r chunk [] = Unit
  Continues r chunk ((h, p) ∷ fs) =
      (rest : List ℕ) × (h ≡ r.remaining_gdp_header)
      × (r.remaining_gdp_payload ++ chunk ≡ p ++ rest)
      × (length p ≡ h.length)
      × Cuts j rest fs

  -- Where the frames stand: in the chunk, or in the part of a header that is kept and the chunk, or
  -- behind a header that is kept.
  abbrev pub StandsIn : Reader → List ℕ → List Frame → Type 0
  StandsIn r chunk fs =
      if r.need_more_data_for_previous_header
      then (if action_beq r.remaining_gdp_header.action noop
          then Cuts j (r.remaining_gdp_payload ++ chunk) fs
          else Continues r chunk fs)
      else Cuts j chunk fs

  -- The packets are those of frames that stand there.
  abbrev pub AreRead : Reader → List ℕ → Option Text → List GdpPacket → Type 0
  AreRead r chunk description sent =
      (fs : List Frame) × (sent ≡ map (to_packet description) fs) × StandsIn r chunk fs

  abbrev pub IsSoundStep : Reader → List ℕ → Outcome Step → Type 0
  IsSoundStep r chunk (done (next round)) =
      IsSound round.reader × AreRead r chunk round.reader.description round.sent
  IsSoundStep r chunk _ = Unit

  pub StandsIn-none : (r : Reader) (chunk : List ℕ) → StandsIn r chunk []
  StandsIn-none r chunk = elim (Bool-cases r.need_more_data_for_previous_header) [
    | inr fresh ↦ rw fresh tt
    | inl pending ↦ elim (Bool-cases (action_beq r.remaining_gdp_header.action noop)) [
      | inl header ↦ rw (pending, header) tt
      | inr payload ↦ rw (pending, payload) tt
    ]
  ]

  pub StandsIn-payload :
      (r : Reader) (chunk : List ℕ) (fs : List Frame)
      → r.need_more_data_for_previous_header ≡ true
      → action_beq r.remaining_gdp_header.action noop ≡ false
      → Continues r chunk fs
      → StandsIn r chunk fs
  StandsIn-payload r chunk fs pending payload c = rw (pending, payload) c

  pub StandsIn-header :
      (r : Reader) (chunk : List ℕ) (fs : List Frame)
      → r.need_more_data_for_previous_header ≡ true
      → action_beq r.remaining_gdp_header.action noop ≡ true
      → Cuts j (r.remaining_gdp_payload ++ chunk) fs
      → StandsIn r chunk fs
  StandsIn-header r chunk fs pending header c = rw (pending, header) c

  -- Nothing holds no frame.
  pub Cuts-nothing : (b : List ℕ) (fs : List Frame) → Cuts j [] fs → Cuts j b fs
  Cuts-nothing b [] c = tt
  Cuts-nothing b ((h, p) ∷ fs) (text, rest, e, reads, size, c) = absurd (empty text e)
    where
      empty : (text : List ℕ) → ¬ ([] ≡ text ++ 0 ∷ (p ++ rest))
      empty [] e = cc
      empty (x ∷ xs) e = cc
