-- ===== src/Packet/Printing.antt =====
-- The other forms that fogrs-common/src/packet_structs.rs gives to its values: `u16be`, `Display` of a
-- packet, `gdp_name_to_string`.
use rt_fogros.Prelude.{
  ℕ, suc, ◌+◌, ◌*◌, ◌/◌, ◌%◌, ◌<◌, ◌≡◌, refl, Text, codes, Bool, true, false, Option, none, some,
  List, [], ◌∷◌, ◌++◌, ltb, if◌then◌else◌, Outcome, done, panic, ◌>>=◌, arith,
}
use rt_fogros.Prelude.Trim.{nuls, trim_nul, trim_start-nuls, trim_nul-padded}
use rt_fogros.Packet.Name.{GdpName}
use rt_fogros.Packet.Types.{GdpPacket}
use rt_fogros.Packet.Hex.{debug_name, to_digit, from_two, set_byte, fill_bytes, string_to_gdp_name}

-- `u16::from_be_bytes`
abbrev from_be_bytes : ℕ → ℕ → ℕ
from_be_bytes high low = high * 256 + low

abbrev magic_numbers : ℕ
magic_numbers = from_be_bytes 38 42

-- `u16::to_be` and `u16::from_be`: a target that is little-endian swaps the two bytes.
abbrev swap_unless : Bool → ℕ → ℕ
swap_unless big_endian n = if big_endian then n else (n % 256) * 256 + n / 256

record U16be : Type 0 where
  raw : ℕ

unfoldable u16be_from : Bool → ℕ → U16be
u16be_from big_endian item = record { raw = swap_unless big_endian item }

unfoldable u16_from : Bool → U16be → ℕ
u16_from big_endian item = swap_unless big_endian item.raw

-- On either kind of target a number of 16 bits is there again.
u16_from-u16be_from : (b : Bool) (n : ℕ) → n < 65536 → u16_from b (u16be_from b n) ≡ n
unfolding u16_from u16be_from
u16_from-u16be_from true n lt = refl
u16_from-u16be_from false n lt = omega arith

-- `Display` of a packet, `debug_text` being `{:?}` of a text.
unfoldable display_packet : (List ℕ → Bool) → (Text → Text) → GdpPacket → Text
display_packet is_utf8 debug_text p = on_payload p.payload
  where
    on_payload : Option (List ℕ) → Text
    on_payload none = debug_name p.gdpname ++ codes ": packet do not exist"
    on_payload (some payload) =
        debug_name p.gdpname
        ++ (codes ": "
            ++ debug_text (if is_utf8 payload then trim_nul payload else codes "unable to render"))

-- NUL bytes at either end of a payload do not show. Condition: the payload is UTF-8 with them and
-- without.
display_packet-padded :
    (is_utf8 : List ℕ → Bool) (debug_text : Text → Text) (p : GdpPacket) (s : Text) (m n : ℕ)
    → is_utf8 s ≡ true
    → is_utf8 (nuls m ++ (s ++ nuls n)) ≡ true
    → display_packet is_utf8 debug_text (record p { payload = some (nuls m ++ (s ++ nuls n)) })
      ≡ display_packet is_utf8 debug_text (record p { payload = some s })
unfolding display_packet
display_packet-padded is_utf8 debug_text p s m n plain padded =
    rw (plain, padded, trim_start-nuls m (s ++ nuls n), trim_nul-padded s n) refl

-- The decimal digits of a byte.
unfoldable pub decimal : ℕ → Text
decimal n =
    if ltb n 10
    then (48 + n) ∷ []
    else if ltb n 100
    then (48 + n / 10) ∷ (48 + n % 10) ∷ []
    else (48 + n / 100) ∷ (48 + n / 10 % 10) ∷ (48 + n % 10) ∷ []

unfoldable gdp_name_to_string : GdpName → Text
gdp_name_to_string name =
    decimal name.b0
    ++ b',' ∷ (decimal name.b1 ++ b',' ∷ (decimal name.b2 ++ b',' ∷ decimal name.b3))

from_two_comma : (c : ℕ) → from_two c b',' ≡ panic
unfolding to_digit
from_two_comma c = ground arith

-- A comma anywhere panics the reader.
fill_bytes_comma :
    (xs ys : Text) (name : GdpName) (i : ℕ) → fill_bytes name i (xs ++ b',' ∷ ys) ≡ panic
unfolding fill_bytes to_digit
fill_bytes_comma [] [] name i = refl
fill_bytes_comma [] (y ∷ ys) name i = refl
fill_bytes_comma (c ∷ []) ys name i = rw (from_two_comma c) refl
fill_bytes_comma (c ∷ d ∷ xs) ys name i = on_chunk (fill_bytes_comma xs ys) (from_two c d)
  where
    on_byte :
        ((name : GdpName) (i : ℕ) → fill_bytes name i (xs ++ b',' ∷ ys) ≡ panic)
        → (o : Outcome GdpName)
        → (o >>= λ name'. fill_bytes name' (suc i) (xs ++ b',' ∷ ys)) ≡ panic
    on_byte later panic = refl
    on_byte later (done name') = later name' (suc i)

    on_chunk :
        ((name : GdpName) (i : ℕ) → fill_bytes name i (xs ++ b',' ∷ ys) ≡ panic)
        → (o : Outcome ℕ)
        → (o >>= λ v. set_byte name i v >>= λ name'. fill_bytes name' (suc i) (xs ++ b',' ∷ ys))
          ≡ panic
    on_chunk later panic = refl
    on_chunk later (done v) = on_byte later (set_byte name i v)

-- What `gdp_name_to_string` makes of any name panics `string_to_gdp_name`.
string_to_gdp_name-gdp_name_to_string :
    (n : GdpName) → string_to_gdp_name (gdp_name_to_string n) ≡ panic
unfolding string_to_gdp_name gdp_name_to_string
string_to_gdp_name-gdp_name_to_string n = fill_bytes_comma (decimal n.b0) _ _ 0
