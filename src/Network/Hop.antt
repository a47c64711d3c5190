-- ===== src/Network/Hop.antt =====
-- One packet over a connection of fogrs-core/src/network/kcp.rs, from the channel of the writer to the
-- packet that the reader at the other end sends.
use rt_fogros.Prelude.{
  ℕ, ◌+◌, ◌≤◌, ◌≡◌, refl, ap, ◌∙◌, append-nil, Text, Bool, true, Option, none, some, List, [], ◌∷◌,
  concat, done,
}
use rt_fogros.Packet.Name.{GdpName}
use rt_fogros.Packet.Action.{GdpAction}
use rt_fogros.Packet.Types.{GdpPacket}
use rt_fogros.Packet.Header.{Json, JsonLaws, payload_bytes, record_bytes}
use rt_fogros.Packet.Construct.{construct_gdp_packet_with_guid}
use rt_fogros.Framing.Frames.{nothing}
use rt_fogros.Framing.Incremental.{Holds}
use rt_fogros.Framing.Stream.{Feed}
use rt_fogros.Framing.Reader.{Reader, read_all}
use rt_fogros.Framing.Writer.{send_all}
use rt_fogros.Framing.RoundTrip.{received}
use rt_fogros.Framing.Carried.{header_of, frame_of, carried}

module _ (action : GdpAction) (name : GdpName) (node : GdpName) (bytes : List ℕ)
    (guid : GdpName) where
  -- The packet with a description.
  abbrev pub packet_with : Option Text → GdpPacket
  packet_with d = construct_gdp_packet_with_guid action name node bytes guid d

  packet_with-guid : (packet_with none).guid ≡ some guid
  unfolding construct_gdp_packet_with_guid
  packet_with-guid = refl

  module _ (j : Json) where
    -- What the reader makes of the packet that another machine has constructed.
    pub received-packet_with :
        (d : Option Text)
        → received j d (packet_with none) (header_of j (packet_with none) guid) ≡ packet_with d
    unfolding construct_gdp_packet_with_guid payload_bytes record_bytes
    received-packet_with d =
        ap (λ b. construct_gdp_packet_with_guid action name node b guid d) (append-nil bytes)

    pub hop :
        {chunks : List (List ℕ)} {n : ℕ} (laws : JsonLaws j) (can_write : Bool) (r : Reader)
        (random : ℕ → GdpName)
        → Feed j nothing chunks (frame_of j (packet_with none) guid ∷ []) nothing n
        → Holds r nothing
        → n + r.reset_counter ≤ 5
        → (buffers : List (List ℕ)) × (r' : Reader) × (send_all j
              (λ _ _. true)
              random
              (packet_with none ∷ [])
            ≡ done buffers)
          × (concat chunks ≡ concat buffers)
          × (read_all j can_write r chunks ≡ done (r', packet_with r.description ∷ []))
    hop laws can_write r random feed held few =
        let (buffers, r', wrote, same, read, _) =
          carried j (λ (u : Unit {0}). packet_with none) (λ u. guid) (λ u. packet_with-guid) laws
            can_write r (tt ∷ []) random feed held few in
        (
          buffers,
          r',
          wrote,
          same,
          read ∙ ap (λ p. done (r', p ∷ [])) (received-packet_with r.description),
        )
