-- ===== src/Network/Outgoing.antt =====
-- What the forwarding table of fogrs-core/src/service_request_manager.rs puts into the channel of one
-- connection, whose writer in fogrs-core/src/network/kcp.rs reads it.
use rt_fogros.Prelude.{
  ℕ, zero, suc, ◌≡◌, refl, Bool-cases, inl, inr, ap, ◌∙◌, ◌==◌, ◌&&◌, arith, Text, Option, List, [],
  ◌∷◌, ◌++◌, map, All, if◌then◌else◌,
}
use rt_fogros.Packet.Name.{GdpName}
use rt_fogros.Packet.Types.{GdpPacket}
use rt_fogros.Fib.Types.{
  FibConnection, FibConnectionType, Channel, receiver, request_receiver, type_beq,
}
use rt_fogros.Fib.Table.{deliver}
use rt_fogros.Fib.Complete.{copies, Runs, deliver-copies}
use rt_fogros.Fib.Requests.{goes_by, request_copies}
use rt_fogros.Ros.Channels.{inbox, inbox-append}
use rt_fogros.Ros.Topics.{RosMessage}
use rt_fogros.Ros.Transport.{described, sent}

-- How many of the connections of a kind are on a channel.
abbrev pub times : FibConnectionType → Channel → List FibConnection → ℕ
times kind c [] = 0
times kind c (r ∷ rs) =
    let rest = times kind c rs in
    if type_beq r.connection_type kind && r.tx == c then suc rest else rest

-- How many of them are sent a request.
abbrev pub request_times : Text → Channel → List FibConnection → ℕ
request_times i c [] = 0
request_times i c (r ∷ rs) =
    let rest = request_times i c rs in
    if type_beq r.connection_type request_receiver && (goes_by i r.interface && r.tx == c)
    then suc rest
    else rest

abbrev repeat : ℕ → GdpPacket → List GdpPacket
repeat zero pkt = []
repeat (suc n) pkt = pkt ∷ repeat n pkt

module _ (c : Channel) (pkt : GdpPacket) where
  inbox-copies :
      (kind : FibConnectionType) (rs : List FibConnection)
      → inbox c (copies kind pkt rs) ≡ repeat (times kind c rs) pkt
  inbox-copies kind [] = refl
  inbox-copies kind (r ∷ rs) = ground (arith, inbox-copies kind rs)

  pub inbox-copies_once :
      (kind : FibConnectionType) (rs : List FibConnection)
      → times kind c rs ≡ 1
      → inbox c (copies kind pkt rs) ≡ pkt ∷ []
  inbox-copies_once kind rs one = inbox-copies kind rs ∙ ap (λ n. repeat n pkt) one

  inbox-request_copies :
      (i : Text) (rs : List FibConnection)
      → inbox c (request_copies i pkt rs) ≡ repeat (request_times i c rs) pkt
  inbox-request_copies i [] = refl
  inbox-request_copies i (r ∷ rs) = elim (Bool-cases (goes_by i r.interface)) [
    | inl on ↦ rw on (ground (arith, inbox-request_copies i rs))
    | inr off ↦ rw off (ground (arith, inbox-request_copies i rs))
  ]

  pub inbox-request_copies_once :
      (i : Text) (rs : List FibConnection)
      → request_times i c rs ≡ 1
      → inbox c (request_copies i pkt rs) ≡ pkt ∷ []
  inbox-request_copies_once i rs one = inbox-request_copies i rs ∙ ap (λ n. repeat n pkt) one

module _ (node : GdpName) (name : GdpName) (c : Channel) (rs : List FibConnection) where
  -- The channel of a connection that receives once gets each of the messages once.
  pub inbox-sent :
      (d : Option Text) (ms : List RosMessage)
      → All Runs rs
      → times receiver c rs ≡ 1
      → inbox c (sent node name d rs ms) ≡ map (described node name d) ms
  inbox-sent d [] run one = refl
  inbox-sent d (m ∷ ms) run one =
      let pkt = described node name d m in
      inbox-append c (deliver receiver pkt rs) (sent node name d rs ms)
      ∙ ap (λ ps. ps ++ inbox c (sent node name d rs ms))
          (ap (inbox c) (deliver-copies receiver pkt rs run)
            ∙ inbox-copies_once c pkt receiver rs one)
      ∙ ap (◌∷◌ pkt) (inbox-sent d ms run one)
