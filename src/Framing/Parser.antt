-- ===== src/Framing/Parser.antt =====
-- `parse_header_payload_pairs` of fogrs-core/src/network/kcp.rs.
use rt_fogros.Prelude.{
  ℕ, zero, suc, Option, none, some, List, [], ◌∷◌, ◌++◌, length, take, drop, ltb, ◌==◌,
  if◌then◌else◌,
}
use rt_fogros.Packet.Types.{GdpHeaderInTransit, default_header}
use rt_fogros.Packet.Header.{Json}

abbrev pub Frame : Type 0
Frame = GdpHeaderInTransit × List ℕ

-- `panicked` is a failed `unwrap` or index; `out_of_fuel` is met by no run (`parse_total`).
pub data Parsed : Type 0 where
  parsed : List Frame → Option Frame → Parsed
  panicked out_of_fuel : Parsed

-- `buffer.splitn(2, |c| c == &0)`: what stands before the first NUL, and what after it, if there is
-- one.
unfoldable pub split_nul : List ℕ → List ℕ × Option (List ℕ)
split_nul [] = ([], none)
split_nul (b ∷ bs) =
    let (before, after) = split_nul bs in if b == 0 then ([], some bs) else (b ∷ before, after)

-- The three ways to go on once the header is read.
abbrev pub cut_payload :
    (List ℕ → List Frame → Parsed) → List Frame → GdpHeaderInTransit → List ℕ → Parsed
cut_payload continue pairs header remaining =
    if ltb (length remaining) header.length
    then parsed pairs (some (header, remaining))
    else if header.length == length remaining
    then parsed (pairs ++ (header, remaining) ∷ []) none
    else continue (drop header.length remaining)
        (pairs ++ (header, take header.length remaining) ∷ [])

-- `header_and_remaining[1]` is out of bounds where no NUL byte stands.
abbrev pub after_header :
    (List ℕ → List Frame → Parsed) → List Frame → GdpHeaderInTransit → Option (List ℕ) → Parsed
after_header continue pairs header none = panicked
after_header continue pairs header (some remaining) = cut_payload continue pairs header remaining

abbrev pub read_header :
    (List ℕ → List Frame → Parsed)
    → List Frame
    → List ℕ
    → Option GdpHeaderInTransit
    → Option (List ℕ)
    → Parsed
read_header continue pairs header_buf none rest = parsed pairs (some (default_header, header_buf))
read_header continue pairs header_buf (some header) rest = after_header continue pairs header rest

module _ (j : Json) where
  -- The loop, with one unit of fuel for a round.
  unfoldable pub parse_loop : ℕ → List ℕ → List Frame → Parsed
  parse_loop zero buffer pairs = out_of_fuel
  parse_loop (suc fuel) buffer pairs =
      let (header_buf, rest) = split_nul buffer in
      if j.is_utf8 header_buf
      then read_header (λ b p. parse_loop fuel b p) pairs header_buf (j.header_from_str header_buf)
          rest
      else panicked

  -- A round takes a byte at least, the NUL, so the buffer's length bounds the rounds.
  unfoldable pub parse_header_payload_pairs : List ℕ → Parsed
  unfolding parse_loop
  parse_header_payload_pairs [] = parsed [] none
  parse_header_payload_pairs (b ∷ bs) = parse_loop (suc (length (b ∷ bs))) (b ∷ bs) []
