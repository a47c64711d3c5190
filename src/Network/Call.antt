-- ===== src/Network/Call.antt =====
-- A call of a ROS service from machine to machine over KCP connections: the tasks of
-- fogrs-ros/src/lib.rs, the forwarding tables of fogrs-core/src/service_request_manager.rs and both
-- halves of `reader_and_writer` in fogrs-core/src/network/kcp.rs.
use rt_fogros.Prelude.{ℕ, Text, Option, List, option_eq}
use rt_fogros.Packet.Name.{GdpName, name_eq}
use rt_fogros.Packet.Action.{request, response}
use rt_fogros.Packet.Types.{GdpPacket}
use rt_fogros.Packet.Header.{Json, JsonLaws}
use rt_fogros.Packet.Construct.{Sha256, generate_gdp_name_from_string}
use rt_fogros.Framing.Reader.{Reader}
use rt_fogros.Fib.Table.{Table}
use rt_fogros.Network.Hop.{packet_with}

module _ (service : List ℕ → List ℕ) (here : GdpName) (there : GdpName) (name : GdpName)
    (guid : GdpName) (message : List ℕ) where
  -- The request and the response, with the description of the reader that they come from, if any.
  abbrev pub question : Option Text → GdpPacket
  question = packet_with request name here message guid

  abbrev pub answer_packet : Option Text → GdpPacket
  answer_packet = packet_with response name there (service message) guid

module _ (j : Json) (laws : JsonLaws j) (sha256 : Sha256) (service : List ℕ → List ℕ)
    (here : GdpName) (there : GdpName) (name : GdpName) (id : Text) (message : List ℕ) where
  abbrev drawn : GdpName
  drawn = generate_gdp_name_from_string sha256 id
