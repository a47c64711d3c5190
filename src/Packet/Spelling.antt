-- ===== src/Packet/Spelling.antt =====
-- `string_to_gdp_name` of fogrs-common/src/packet_structs.rs on the printed forms of a name.
use rt_fogros.Prelude.{ℕ, ◌/◌, ◌%◌, ◌<◌, ◌≡◌, refl, ap, some, done, panic, ◌==◌, false, arith}
use rt_fogros.Packet.Name.{GdpName}
use rt_fogros.Packet.Hex.{
  hex_digit, hex_name, display_name, debug_name, to_digit, from_two, fill_bytes, string_to_gdp_name,
}

-- The four parts are bytes.
abbrev pub IsBytes : GdpName → Type 0
IsBytes n = (n.b0 < 256) × (n.b1 < 256) × (n.b2 < 256) × (n.b3 < 256)

to_digit-hex_digit : (d : ℕ) → d < 16 → to_digit (hex_digit d) ≡ some d
unfolding to_digit hex_digit
to_digit-hex_digit d lt = ground arith

hex_digit_no_plus : (d : ℕ) → (hex_digit d == b'+') ≡ false
unfolding hex_digit
hex_digit_no_plus d = ground arith

from_two-hex : (n : ℕ) → n < 256 → from_two (hex_digit (n / 16)) (hex_digit (n % 16)) ≡ done n
from_two-hex n lt =
    rw
      (
        hex_digit_no_plus (n / 16),
        to_digit-hex_digit (n / 16) (omega arith),
        to_digit-hex_digit (n % 16) (omega arith),
      )
      (ap done (omega arith))

-- The eight digits of a name of four bytes read back as the name; with what `Display` or `Debug` put
-- before them, they panic the reader.
pub string_to_gdp_name-hex_name :
    (n : GdpName)
    → IsBytes n
    → (string_to_gdp_name (hex_name n) ≡ done n)
      × (string_to_gdp_name (display_name n) ≡ panic)
      × (string_to_gdp_name (debug_name n) ≡ panic)
unfolding string_to_gdp_name display_name debug_name fill_bytes to_digit
string_to_gdp_name-hex_name n w = (
  rw (from_two-hex n.b0 w.0, from_two-hex n.b1 w.1, from_two-hex n.b2 w.2, from_two-hex n.b3 w.3),
  refl,
  refl,
)
