-- ===== src/Fib/Processed.antt =====
-- The set of the guids that have been processed, and how the arms extend it.
use rt_fogros.Prelude.{
  ◌≡◌, ◌≢◌, refl, true, Bool-cases, inl, inr, Option, List, [], ◌∷◌, if◌then◌else◌, contains,
  option_eq, beq_refl, arith,
}
use rt_fogros.Packet.Name.{GdpName, name_eq}
use rt_fogros.Packet.Types.{GdpPacket}
use rt_fogros.Fib.Types.{FibConnection, receiver}
use rt_fogros.Fib.Table.{is_open, deliver}
use rt_fogros.Fib.Forward.{mark_processed}

pub contains-mark_processed :
    (g : Option GdpName) (pkt : GdpPacket) (rs : List FibConnection)
    (processed : List (Option GdpName))
    → contains g processed ≡ true
    → contains g (mark_processed pkt rs processed) ≡ true
unfolding mark_processed contains
contains-mark_processed g pkt [] processed h = h
contains-mark_processed g pkt (dst ∷ rest) processed h =
    contains-mark_processed g pkt rest _ (ground (arith, h))

pub contains-cons :
    (g k : Option GdpName) (processed : List (Option GdpName))
    → contains g processed ≡ true
    → contains g (k ∷ processed) ≡ true
unfolding contains
contains-cons g k processed h = ground (arith, h)

pub insert_contains :
    (g : Option GdpName) (processed : List (Option GdpName))
    → contains g (if contains g processed then processed else g ∷ processed) ≡ true
unfolding contains
insert_contains g processed = elim (Bool-cases (contains g processed)) [
  | inl old ↦ rw old old
  | inr new ↦ rw (new, beq_refl g)
]

pub deliver-marked :
    (pkt : GdpPacket) (rs : List FibConnection) (processed : List (Option GdpName))
    → deliver receiver pkt rs ≢ []
    → contains pkt.guid (mark_processed pkt rs processed) ≡ true
unfolding deliver mark_processed
deliver-marked pkt [] processed ne = absurd (ne refl)
deliver-marked pkt (dst ∷ rest) processed ne = elim (Bool-cases (is_open receiver dst)) [
  | inr shut_dst ↦ rw shut_dst (deliver-marked pkt rest processed (rw shut_dst at ne))
  | inl open_dst ↦
      rw open_dst (contains-mark_processed pkt.guid pkt rest _ (insert_contains pkt.guid processed))
]
