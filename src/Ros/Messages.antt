-- ===== src/Ros/Messages.antt =====
-- The messages of a ROS topic, and the guids that the forwarding table has processed.
use rt_fogros.Prelude.{
  ◌≡◌, Bool, true, false, Bool-cases, inl, inr, Option, some, List, [], ◌∷◌, All, if◌then◌else◌,
  contains, option_eq, option_beq,
}
use rt_fogros.Packet.Name.{GdpName, name_beq, name_eq}
use rt_fogros.Packet.Types.{GdpPacket}
use rt_fogros.Fib.Types.{FibConnection, receiver}
use rt_fogros.Fib.Table.{is_open}
use rt_fogros.Fib.Forward.{mark_processed}
use rt_fogros.Ros.Topics.{RosMessage, Incoming}

-- No name is drawn twice.
abbrev pub IsDistinct : List RosMessage → Type 0
IsDistinct [] = Unit
IsDistinct (m ∷ ms) = All (λ l. name_beq m.guid l.guid ≡ false) ms × IsDistinct ms

-- The table takes every packet.
abbrev pub IsTaken : RosMessage → Type 0
IsTaken m = m.taken ≡ true

-- A packet that the ROS publisher takes.
abbrev pub incoming : GdpPacket → Incoming
incoming p = record { packet = p; taken = true }

abbrev pub Unseen : List (Option GdpName) → RosMessage → Type 0
Unseen processed m = contains (some m.guid) processed ≡ false

-- A guid that is not the packet's is as new after the packet as before.
pub mark_processed-other :
    (g : GdpName) (pkt : GdpPacket) (k : GdpName) (rs : List FibConnection)
    (processed : List (Option GdpName))
    → pkt.guid ≡ some k
    → name_beq k g ≡ false
    → contains (some g) processed ≡ false
    → contains (some g) (mark_processed pkt rs processed) ≡ false
unfolding mark_processed contains option_beq
mark_processed-other g pkt k [] processed e ne h = h
mark_processed-other g pkt k (dst ∷ rest) processed e ne h =
    mark_processed-other g pkt k rest _ e ne (marked (is_open receiver dst))
  where
    marked :
        (b : Bool)
        → contains (some g) (
            if b
            then (if contains pkt.guid processed then processed else pkt.guid ∷ processed)
            else processed)
          ≡ false
    marked false = h
    marked true = elim (Bool-cases (contains pkt.guid processed)) [
      | inl old ↦ rw old h
      | inr new ↦ rw (new, e, ne) h
    ]

pub Unseen-next :
    (pkt : GdpPacket) (k : GdpName) (rs : List FibConnection) (processed : List (Option GdpName))
    (ms : List RosMessage)
    → pkt.guid ≡ some k
    → All (λ l. name_beq k l.guid ≡ false) ms
    → All (Unseen processed) ms
    → All (Unseen (mark_processed pkt rs processed)) ms
Unseen-next pkt k rs processed [] e d h = tt
Unseen-next pkt k rs processed (m ∷ ms) e d h = (
  mark_processed-other m.guid pkt k rs processed e d.0 h.0,
  Unseen-next pkt k rs processed ms e d.1 h.1,
)
