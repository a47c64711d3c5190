-- ===== src/Packet/Types.antt =====
-- The packet and record types of fogrs-common/src/packet_structs.rs.
use rt_fogros.Prelude.{ℕ, Text, Option, List}
use rt_fogros.Packet.Name.{GdpName, zero_name}
use rt_fogros.Packet.Action.{GdpAction, noop}

pub data GdpNameRecordType : Type 0 where
  empty info query update merge delete : GdpNameRecordType

pub record GdpNameRecord : Type 0 where
  pub record_type : GdpNameRecordType
  pub gdpname : GdpName
  pub source_gdpname : GdpName
  pub webrtc_offer : Option Text
  pub ip_address : Option Text
  pub ros : Option (Text × Text)
  pub indirect : Option GdpName

pub record GdpPacket : Type 0 where
  pub action : GdpAction
  pub gdpname : GdpName
  pub payload : Option (List ℕ)
  pub name_record : Option GdpNameRecord
  pub guid : Option GdpName
  pub source : GdpName
  pub description : Option Text

pub record GdpHeaderInTransit : Type 0 where
  pub action : GdpAction
  pub destination : GdpName
  pub source : GdpName
  pub guid : GdpName
  pub length : ℕ

-- The header that both readers start from.
abbrev pub default_header : GdpHeaderInTransit
default_header = record {
  action = noop;
  destination = zero_name;
  source = zero_name;
  guid = zero_name;
  length = 0;
}
