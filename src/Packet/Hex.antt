-- ===== src/Packet/Hex.antt =====
-- The textual forms of a name in fogrs-common/src/packet_structs.rs, as bytes.
use rt_fogros.Prelude.{
  ℕ, zero, suc, ◌+◌, ◌-◌, ◌*◌, ◌/◌, ◌%◌, Text, codes, Option, none, some, [], ◌∷◌, ◌++◌, Outcome,
  done, panic, ◌>>=◌, unwrap, ltb, ◌==◌, ◌&&◌, if◌then◌else◌, not,
}
use rt_fogros.Packet.Name.{GdpName, zero_name}

-- One digit of `{:x}`.
unfoldable pub hex_digit : ℕ → ℕ
hex_digit n = if ltb n 10 then 48 + n else 87 + n

-- `{:02x}` of a byte.
abbrev pub hex_byte : ℕ → Text
hex_byte n = hex_digit (n / 16) ∷ hex_digit (n % 16) ∷ []

abbrev pub hex_name : GdpName → Text
hex_name name = hex_byte name.b0 ++ (hex_byte name.b1 ++ (hex_byte name.b2 ++ hex_byte name.b3))

-- `Display` and `Debug` of a name.
unfoldable pub display_name : GdpName → Text
display_name name = codes "GNAME0x" ++ hex_name name

unfoldable pub debug_name : GdpName → Text
debug_name name = codes "0x" ++ hex_name name

-- `char::to_digit(16)`
unfoldable pub to_digit : ℕ → Option ℕ
to_digit c =
    if not (ltb c 48) && ltb c 58
    then some (c - 48)
    else if not (ltb c 97) && ltb c 103
    then some (c - 87)
    else if not (ltb c 65) && ltb c 71
    then some (c - 55)
    else none

-- `u8::from_str_radix(chunk, 16)` of a chunk of one or two bytes: a leading `+` is skipped.
abbrev pub from_one : ℕ → Outcome ℕ
from_one c = unwrap (to_digit c)

abbrev pub from_two : ℕ → ℕ → Outcome ℕ
from_two c d =
    if c == b'+'
    then from_one d
    else (do high ← from_one c; low ← from_one d; done (high * 16 + low))

-- `bytes[i] = byte`, which panics past the fourth.
abbrev pub set_byte : GdpName → ℕ → ℕ → Outcome GdpName
set_byte name zero v = done (record name { b0 = v })
set_byte name (suc zero) v = done (record name { b1 = v })
set_byte name (suc (suc zero)) v = done (record name { b2 = v })
set_byte name (suc (suc (suc zero))) v = done (record name { b3 = v })
set_byte name (suc (suc (suc (suc i)))) v = panic

-- The loop over `name.as_bytes().chunks(2).enumerate()`.
unfoldable pub fill_bytes : GdpName → ℕ → Text → Outcome GdpName
fill_bytes name i [] = done name
fill_bytes name i (c ∷ []) = do v ← from_one c; set_byte name i v
fill_bytes name i (c ∷ d ∷ rest) = do
  v ← from_two c d
  name' ← set_byte name i v
  fill_bytes name' (suc i) rest

unfoldable pub string_to_gdp_name : Text → Outcome GdpName
unfolding fill_bytes
string_to_gdp_name name = fill_bytes zero_name 0 name
