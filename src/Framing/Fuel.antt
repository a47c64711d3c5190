-- ===== src/Framing/Fuel.antt =====
-- The fuel of the loop of `parse_header_payload_pairs` of kcp.rs.
use rt_fogros.Prelude.{
  ℕ, zero, suc, ◌<◌, ◌≤◌, ◌≡◌, ◌≢◌, refl, ◌∙◌, Option, none, some, List, [], ◌∷◌, ◌++◌, length,
  drop, take, length-drop, append_assoc, arith, Bool-cases, inl, inr,
}
use rt_fogros.Packet.Types.{GdpHeaderInTransit}
use rt_fogros.Packet.Header.{Json}
use rt_fogros.Framing.Parser.{
  Frame, Parsed, parsed, panicked, out_of_fuel, split_nul, cut_payload, read_header, parse_loop,
  parse_header_payload_pairs,
}

abbrev pub prepend : List Frame → Parsed → Parsed
prepend ps (parsed qs rest) = parsed (ps ++ qs) rest
prepend ps panicked = panicked
prepend ps out_of_fuel = out_of_fuel

prepend-nil : (r : Parsed) → prepend [] r ≡ r
prepend-nil (parsed qs rest) = refl
prepend-nil panicked = refl
prepend-nil out_of_fuel = refl

-- What stands after a NUL byte is shorter than the whole.
abbrev Below : ℕ → Option (List ℕ) → Type 0
Below n none = Unit
Below n (some rest) = length rest < n

Below-split_nul : (b : List ℕ) → Below (length b) (split_nul b).1
unfolding split_nul
Below-split_nul [] = tt
Below-split_nul (x ∷ xs) = ground (arith, Below-split_nul xs)

Below-mono : (m n : ℕ) (o : Option (List ℕ)) → m ≤ n → Below m o → Below n o
Below-mono m n none h b = tt
Below-mono m n (some r) h b = omega arith

module _ (c d : List ℕ → List Frame → Parsed) (ps : List Frame) (n : ℕ)
    (same : (b : List ℕ) (qs : List Frame)
      → length b < n
      → d b (ps ++ qs) ≡ prepend ps (c b qs)) where
  cut_payload-prepend :
      (qs : List Frame) (h : GdpHeaderInTransit) (rest : List ℕ)
      → length rest < n
      → cut_payload d (ps ++ qs) h rest ≡ prepend ps (cut_payload c qs h rest)
  cut_payload-prepend qs h rest lt = ground (
    arith,
    same (drop h.length rest) (qs ++ (h, take h.length rest) ∷ []),
    length-drop h.length rest,
    append_assoc ps qs ((h, take h.length rest) ∷ []),
    append_assoc ps qs ((h, rest) ∷ []),
  )

  read_header-prepend :
      (qs : List Frame) (header_buf : List ℕ) (o : Option GdpHeaderInTransit) (r : Option (List ℕ))
      → Below n r
      → read_header d (ps ++ qs) header_buf o r ≡ prepend ps (read_header c qs header_buf o r)
  read_header-prepend qs header_buf none r b = refl
  read_header-prepend qs header_buf (some h) none b = refl
  read_header-prepend qs header_buf (some h) (some rest) b = cut_payload-prepend qs h rest b

module _ (j : Json) where
  -- With enough fuel on both sides, the loop from `ps ++ qs` finds what it finds from `qs`.
  pub parse_loop-prepend :
      (f g : ℕ) (ps qs : List Frame) (b : List ℕ)
      → length b < f
      → length b < g
      → parse_loop j f b (ps ++ qs) ≡ prepend ps (parse_loop j g b qs)
  unfolding parse_loop
  parse_loop-prepend zero g ps qs b lt gt = elim lt [ ]
  parse_loop-prepend (suc f) zero ps qs b lt gt = elim gt [ ]
  parse_loop-prepend (suc f) (suc g) ps qs b lt gt =
      let below : Below (length b) (split_nul b).1 = Below-split_nul b in
      let same =
        read_header-prepend (λ x p. parse_loop j g x p) (λ x p. parse_loop j f x p) ps (length b)
          (λ x rs l. parse_loop-prepend f g ps rs x (omega arith) (omega arith)) qs (split_nul b).0
          (j.header_from_str (split_nul b).0) (split_nul b).1 below in
      elim (Bool-cases (j.is_utf8 (split_nul b).0)) [
        | inl yes_utf8 ↦ rw yes_utf8 same
        | inr no_utf8 ↦ rw no_utf8
      ]

  pub parse_loop-fuel :
      (f g : ℕ) (b : List ℕ) (qs : List Frame)
      → length b < f
      → length b < g
      → parse_loop j f b qs ≡ parse_loop j g b qs
  parse_loop-fuel f g b qs lt gt =
      parse_loop-prepend f g [] qs b lt gt ∙ prepend-nil (parse_loop j g b qs)

  abbrev Ends : Parsed → Type 0
  Ends out_of_fuel = ⊥
  Ends _ = Unit

  cut_payload-Ends :
      (c : List ℕ → List Frame → Parsed) (n : ℕ)
      → ((b : List ℕ) (qs : List Frame) → length b < n → Ends (c b qs))
      → (qs : List Frame) (h : GdpHeaderInTransit) (rest : List ℕ) → length rest < n
      → Ends (cut_payload c qs h rest)
  cut_payload-Ends c n ends qs h rest lt = ground (
    arith,
    ends (drop h.length rest) (qs ++ (h, take h.length rest) ∷ []),
    length-drop h.length rest,
  )

  read_header-Ends :
      (c : List ℕ → List Frame → Parsed) (n : ℕ)
      → ((b : List ℕ) (qs : List Frame) → length b < n → Ends (c b qs))
      → (qs : List Frame) (hb : List ℕ) (o : Option GdpHeaderInTransit) (r : Option (List ℕ))
      → Below n r
      → Ends (read_header c qs hb o r)
  read_header-Ends c n ends qs hb none r b = tt
  read_header-Ends c n ends qs hb (some h) none b = tt
  read_header-Ends c n ends qs hb (some h) (some rest) b = cut_payload-Ends c n ends qs h rest b

  parse_loop-Ends :
      (f : ℕ) (b : List ℕ) (qs : List Frame) → length b < f → Ends (parse_loop j f b qs)
  unfolding parse_loop
  parse_loop-Ends zero b qs lt = elim lt [ ]
  parse_loop-Ends (suc f) b qs lt =
      let ended =
        read_header-Ends (λ x p. parse_loop j f x p) (length b)
          (λ x rs l. parse_loop-Ends f x rs (omega arith)) qs (split_nul b).0
          (j.header_from_str (split_nul b).0) (split_nul b).1 (Below-split_nul b) in
      elim (Bool-cases (j.is_utf8 (split_nul b).0)) [
        | inl is_text ↦ rw is_text ended
        | inr is_not_text ↦ rw is_not_text tt
      ]

  Ends-ne : (r : Parsed) → Ends r → r ≢ out_of_fuel
  Ends-ne (parsed ps o) h = λ e. cc
  Ends-ne panicked h = λ e. cc
  Ends-ne out_of_fuel h = absurd h

  -- The parser ends on every buffer, whatever bytes it holds: a unit of fuel for
  -- each byte and one more is enough.
  pub parse_total : (buffer : List ℕ) → parse_header_payload_pairs j buffer ≢ out_of_fuel
  unfolding parse_header_payload_pairs
  parse_total [] = λ e. cc
  parse_total (b ∷ bs) =
      Ends-ne (parse_loop j (suc (length (b ∷ bs))) (b ∷ bs) [])
        (parse_loop-Ends (suc (length (b ∷ bs))) (b ∷ bs) [] (omega arith))
