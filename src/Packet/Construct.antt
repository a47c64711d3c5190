-- ===== src/Packet/Construct.antt =====
-- The `construct_gdp_…` functions of fogrs-common/src/packet_structs.rs, and the names of topics.
use rt_fogros.Prelude.{
  ℕ, Text, Option, none, some, List, [], ◌∷◌, ◌++◌, Outcome, done, panic, ◌>>=◌, unwrap,
  if◌then◌else◌,
}
use rt_fogros.Packet.Name.{GdpName}
use rt_fogros.Packet.Action.{GdpAction, forward, request, response, advertise, rib_get}
use rt_fogros.Packet.Types.{GdpPacket, GdpNameRecord}
use rt_fogros.Packet.Header.{Json}

unfoldable pub construct_gdp_packet_with_guid :
    GdpAction → GdpName → GdpName → List ℕ → GdpName → Option Text → GdpPacket
construct_gdp_packet_with_guid action destination source buffer guid description = record {
  action = action;
  gdpname = destination;
  payload = some buffer;
  name_record = none;
  guid = some guid;
  source = source;
  description = description;
}

unfoldable pub construct_gdp_forward_from_bytes_with_guid :
    GdpName → GdpName → List ℕ → GdpName → GdpPacket
construct_gdp_forward_from_bytes_with_guid destination source buffer guid = record {
  action = forward;
  gdpname = destination;
  payload = some buffer;
  name_record = none;
  guid = some guid;
  source = source;
  description = none;
}

unfoldable pub construct_gdp_request_with_guid : GdpName → GdpName → List ℕ → GdpName → GdpPacket
construct_gdp_request_with_guid destination source buffer guid = record {
  action = request;
  gdpname = destination;
  payload = some buffer;
  name_record = none;
  guid = some guid;
  source = source;
  description = none;
}

unfoldable pub construct_gdp_response_with_guid : GdpName → GdpName → List ℕ → GdpName → GdpPacket
construct_gdp_response_with_guid destination source buffer guid = record {
  action = response;
  gdpname = destination;
  payload = some buffer;
  name_record = none;
  guid = some guid;
  source = source;
  description = none;
}

unfoldable pub construct_gdp_advertisement_from_structs :
    GdpName → GdpName → GdpNameRecord → GdpPacket
construct_gdp_advertisement_from_structs destination source name_record = record {
  action = advertise;
  gdpname = destination;
  payload = none;
  name_record = some name_record;
  guid = none;
  source = source;
  description = none;
}

unfoldable pub construct_rib_query_from_bytes : GdpName → GdpName → GdpNameRecord → GdpPacket
construct_rib_query_from_bytes destination source name_record = record {
  action = rib_get;
  gdpname = destination;
  payload = none;
  name_record = some name_record;
  guid = none;
  source = source;
  description = none;
}

-- Bytes that are no UTF-8 or no record panic; no bytes make an advertisement with no record.
unfoldable pub construct_gdp_advertisement_from_bytes :
    Json → GdpName → GdpName → List ℕ → Outcome GdpPacket
unfolding construct_gdp_advertisement_from_structs
construct_gdp_advertisement_from_bytes j destination source [] = done (record {
  action = advertise;
  gdpname = destination;
  payload = none;
  name_record = none;
  guid = none;
  source = source;
  description = none;
})
construct_gdp_advertisement_from_bytes j destination source (x ∷ xs) =
    if j.is_utf8 (x ∷ xs)
    then (do
      name_record ← unwrap (j.record_from_str (x ∷ xs))
      done (construct_gdp_advertisement_from_structs destination source name_record))
    else panic

-- Byte `i` of the SHA-256 digest of a text is `sha256 text i`.
abbrev pub Sha256 : Type 0
Sha256 = List ℕ → ℕ → ℕ

abbrev first_four : (ℕ → ℕ) → GdpName
first_four digest = record { b0 = digest 0; b1 = digest 1; b2 = digest 2; b3 = digest 3 }

-- The three updates of the hasher hash the concatenation.
unfoldable pub get_gdp_name_from_topic : Sha256 → Text → Text → List ℕ → GdpName
get_gdp_name_from_topic sha256 topic_name topic_type cert =
    first_four (sha256 (topic_name ++ (topic_type ++ cert)))

unfoldable pub generate_gdp_name_from_string : Sha256 → Text → GdpName
generate_gdp_name_from_string sha256 input_str = first_four (sha256 input_str)
