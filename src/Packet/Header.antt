-- ===== src/Packet/Header.antt =====
-- `Packet for GDPPacket` of fogrs-common/src/packet_structs.rs, over what it uses of serde_json.
use rt_fogros.Prelude.{
  ℕ, ◌+◌, ◌≡◌, ◌≢◌, Text, Option, none, some, List, [], ◌∷◌, ◌++◌, length, All, Outcome, done,
  panic, ◌>>=◌, Bool, true,
}
use rt_fogros.Packet.Name.{GdpName}
use rt_fogros.Packet.Types.{GdpPacket, GdpNameRecord, GdpHeaderInTransit}

-- What the program calls of serde_json and of `std::str::from_utf8`.
pub record Json : Type 0 where
  pub header_to_string : GdpHeaderInTransit → Text
  pub header_from_str : Text → Option GdpHeaderInTransit
  pub record_to_string : GdpNameRecord → Text
  pub record_from_str : Text → Option GdpNameRecord
  pub is_utf8 : List ℕ → Bool

-- What the framing relies on, all of it documented behaviour: a printed header reads back, is valid
-- UTF-8 with no NUL byte (JSON escapes control characters), and the print of an object cut short is
-- valid UTF-8 (the header is ASCII) but no JSON document.
pub record JsonLaws (j : Json) : Type 0 where
  pub header_reads_back :
      (h : GdpHeaderInTransit) → j.header_from_str (j.header_to_string h) ≡ some h
  pub header_is_not_empty : (h : GdpHeaderInTransit) → j.header_to_string h ≢ []
  pub header_is_utf8 : (h : GdpHeaderInTransit) → j.is_utf8 (j.header_to_string h) ≡ true
  pub header_has_no_nul : (h : GdpHeaderInTransit) → All (λ b. b ≢ 0) (j.header_to_string h)
  pub cut_is_utf8 :
      (h : GdpHeaderInTransit) (xs : Text) (y : ℕ) (ys : Text)
      → j.header_to_string h ≡ xs ++ y ∷ ys
      → j.is_utf8 xs ≡ true
  pub cut_is_refused :
      (h : GdpHeaderInTransit) (xs : Text) (y : ℕ) (ys : Text)
      → j.header_to_string h ≡ xs ++ y ∷ ys
      → j.header_from_str xs ≡ none

-- `get_byte_payload`
unfoldable pub get_byte_payload : GdpPacket → Option (List ℕ)
get_byte_payload pkt = pkt.payload

-- `guid` of the header, `random` being `generate_random_gdp_name()`: with no payload the packet's
-- own guid is unwrapped.
unfoldable pub header_guid : Option (List ℕ) → Option GdpName → GdpName → Outcome GdpName
header_guid payload (some guid) random = done guid
header_guid (some bytes) none random = done random
header_guid none none random = panic

-- The payload's bytes, or none.
unfoldable pub payload_bytes : Option (List ℕ) → List ℕ
payload_bytes none = []
payload_bytes (some bytes) = bytes

-- The bytes of the name record as they are sent, or none.
unfoldable pub record_bytes : Json → Option GdpNameRecord → List ℕ
record_bytes j none = []
record_bytes j (some r) = j.record_to_string r

unfoldable pub get_header : Json → GdpName → GdpPacket → Outcome GdpHeaderInTransit
get_header j random pkt = do
  guid ← header_guid pkt.payload pkt.guid random
  done (record {
    action = pkt.action;
    destination = pkt.gdpname;
    source = pkt.source;
    guid = guid;
    length = length (payload_bytes pkt.payload) + length (record_bytes j pkt.name_record);
  })
