-- ===== src/Packet/Name.antt =====
-- `GDPName` of fogrs-common/src/packet_structs.rs: four bytes.
use rt_fogros.Prelude.{ℕ, ◌≡◌, ◌↔◌, Bool, true, ◌&&◌, arith, ◌==◌, Eq}

pub record GdpName : Type 0 where
  pub b0 : ℕ
  pub b1 : ℕ
  pub b2 : ℕ
  pub b3 : ℕ

-- `GDPName([0u8, 0, 0, 0])`
abbrev pub zero_name : GdpName
zero_name = record { b0 = 0; b1 = 0; b2 = 0; b3 = 0 }

-- The derived `PartialEq`.
unfoldable pub name_beq : GdpName → GdpName → Bool
name_beq a b = a.b0 == b.b0 && (a.b1 == b.b1 && (a.b2 == b.b2 && a.b3 == b.b3))

pub name_beq_iff : (a b : GdpName) → (name_beq a b ≡ true) ↔ (a ≡ b)
unfolding name_beq
name_beq_iff a b = ground arith

instance abbrev pub name_eq : Eq GdpName
name_eq = record { beq = name_beq; beq_iff = name_beq_iff }
