-- ===== src/Framing/Cuts.antt =====
-- The parser of kcp.rs on arbitrary bytes.
use rt_fogros.Prelude.{
  ℕ, zero, suc, ◌<◌, ◌≡◌, refl, sym, ap, ◌∙◌, Option, none, some, List, [], ◌∷◌, ◌++◌, length, drop,
  take, ◌==◌, length-take, take-append-drop, append-nil, append_assoc, arith, Bool-cases, ltb, ◌⊎◌,
  inl, inr,
}
use rt_fogros.Packet.Action.{noop}
use rt_fogros.Packet.Types.{GdpHeaderInTransit, default_header}
use rt_fogros.Packet.Header.{Json}
use rt_fogros.Framing.Parser.{
  Frame, Parsed, parsed, panicked, out_of_fuel, split_nul, cut_payload, read_header, parse_loop,
  parse_header_payload_pairs,
}

-- What stands before and behind the first NUL.
split_nul-some : (b rest : List ℕ) → (split_nul b).1 ≡ some rest → b ≡ (split_nul b).0 ++ 0 ∷ rest
unfolding split_nul
split_nul-some [] rest e = cc
split_nul-some (c ∷ cs) rest e = elim (Bool-cases (c == 0)) [
  | inl nul ↦ rw nul (ground (arith, nul, rw nul at e))
  | inr other ↦ rw other (ap (◌∷◌ c) (split_nul-some cs rest (rw other at e)))
]

-- A frame is left over for its payload, which is short, or for its header, under the default header.
abbrev pub IsLeftOver : Option Frame → Type 0
IsLeftOver none = Unit
IsLeftOver (some (h, got)) = (h.action ≡ noop) ⊎ (length got < h.length)

module _ (j : Json) where
  -- The bytes begin with the frames, one behind the other: the text of a header that reads as the
  -- frame's, a NUL, and a payload of the length that the header says.
  abbrev pub Cuts : List ℕ → List Frame → Type 0
  Cuts b [] = Unit
  Cuts b ((h, p) ∷ fs) =
      (text : List ℕ) × (rest : List ℕ) × (b ≡ text ++ 0 ∷ (p ++ rest))
      × (j.header_from_str text ≡ some h)
      × (length p ≡ h.length)
      × Cuts rest fs

  -- The parser adds frames that the bytes begin with to those that it has.
  abbrev pub IsSoundResult : List ℕ → List Frame → Parsed → Type 0
  IsSoundResult b qs (parsed fs o) =
      (more : List Frame) × (fs ≡ qs ++ more) × Cuts b more × IsLeftOver o
  IsSoundResult b qs _ = Unit

  nothing_more :
      (b : List ℕ) (qs : List Frame) (o : Option Frame)
      → IsLeftOver o
      → IsSoundResult b qs (parsed qs o)
  nothing_more b qs o l = ([], sym (append-nil qs), tt, l)

  -- A frame in front of those that are found behind it.
  one_more :
      (text p rest b : List ℕ) (h : GdpHeaderInTransit) (qs : List Frame) (r : Parsed)
      → b ≡ text ++ 0 ∷ (p ++ rest)
      → j.header_from_str text ≡ some h
      → length p ≡ h.length
      → IsSoundResult rest (qs ++ (h, p) ∷ []) r
      → IsSoundResult b qs r
  one_more text p rest b h qs (parsed fs o) e reads size (more, built, cuts, left) = (
    (h, p) ∷ more,
    built ∙ append_assoc qs ((h, p) ∷ []) more,
    (text, rest, e, reads, size, cuts),
    left,
  )
  one_more text p rest b h qs panicked e reads size s = tt
  one_more text p rest b h qs out_of_fuel e reads size s = tt

  module _ (c : List ℕ → List Frame → Parsed)
      (sound : (b : List ℕ) (qs : List Frame) → IsSoundResult b qs (c b qs)) where
    cut_payload-IsSoundResult :
        (b text rest : List ℕ) (h : GdpHeaderInTransit) (qs : List Frame)
        → b ≡ text ++ 0 ∷ rest
        → j.header_from_str text ≡ some h
        → IsSoundResult b qs (cut_payload c qs h rest)
    cut_payload-IsSoundResult b text rest h qs e reads =
        elim (Bool-cases (ltb (length rest) h.length)) [
          | inl short ↦ rw short (nothing_more b qs (some (h, rest)) (inr (ground (arith, short))))
          | inr long ↦ elim (Bool-cases (h.length == length rest)) [
            | inl same ↦
                rw (long, same)
                  (one_more text rest [] b h qs (parsed (qs ++ (h, rest) ∷ []) none)
                    (e ∙ ap (λ x. text ++ 0 ∷ x) (sym (append-nil rest))) reads
                    (ground (arith, same)) (nothing_more [] (qs ++ (h, rest) ∷ []) none tt))
            | inr more ↦
                rw (long, more)
                  (one_more text (take h.length rest) (drop h.length rest) b h qs _
                    (e ∙ ap (λ x. text ++ 0 ∷ x) (sym (take-append-drop h.length rest))) reads
                    (ground (arith, length-take h.length rest, long))
                    (sound (drop h.length rest) (qs ++ (h, take h.length rest) ∷ [])))
          ]
        ]

    read_header-IsSoundResult :
        (b text : List ℕ) (qs : List Frame) (o : Option GdpHeaderInTransit) (r : Option (List ℕ))
        → j.header_from_str text ≡ o
        → ((rest : List ℕ) → r ≡ some rest → b ≡ text ++ 0 ∷ rest)
        → IsSoundResult b qs (read_header c qs text o r)
    read_header-IsSoundResult b text qs none r reads e =
        nothing_more b qs (some (default_header, text)) (inl refl)
    read_header-IsSoundResult b text qs (some h) none reads e = tt
    read_header-IsSoundResult b text qs (some h) (some rest) reads e =
        cut_payload-IsSoundResult b text rest h qs (e rest refl) reads

  parse_loop-IsSoundResult :
      (f : ℕ) (b : List ℕ) (qs : List Frame) → IsSoundResult b qs (parse_loop j f b qs)
  unfolding parse_loop
  parse_loop-IsSoundResult zero b qs = tt
  parse_loop-IsSoundResult (suc f) b qs =
      let result =
        read_header-IsSoundResult (λ x p. parse_loop j f x p)
          (λ x rs. parse_loop-IsSoundResult f x rs) b (split_nul b).0 qs
          (j.header_from_str (split_nul b).0) (split_nul b).1 refl (split_nul-some b) in
      elim (Bool-cases (j.is_utf8 (split_nul b).0)) [
        | inl is_text ↦ rw is_text result
        | inr is_not_text ↦ rw is_not_text tt
      ]

  -- On any bytes, the frames that the parser returns are those that the bytes begin with, and what it
  -- leaves over is a payload shorter than its header says or a part of a header.
  pub parse-IsSoundResult : (b : List ℕ) → IsSoundResult b [] (parse_header_payload_pairs j b)
  unfolding parse_header_payload_pairs
  parse-IsSoundResult [] = ([], refl, tt, tt)
  parse-IsSoundResult (x ∷ xs) = parse_loop-IsSoundResult (suc (length (x ∷ xs))) (x ∷ xs) []
