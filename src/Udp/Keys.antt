-- ===== src/Udp/Keys.antt =====
-- The keys of the database of fogrs-core/src/network/udp.rs: a name and a direction, printed.
use rt_fogros.Prelude.{
  ◌≡◌, refl, sym, ap, ◌∙◌, Text, text_beq, text_beq_iff, Bool-cases, ◌&&◌, inl, inr, take, drop,
  Outcome, done,
}
use mathlib.Core.Path.{ap₂}
use rt_fogros.Packet.Name.{GdpName, name_beq, name_beq_iff}
use rt_fogros.Packet.Hex.{debug_name, string_to_gdp_name}
use rt_fogros.Packet.Spelling.{IsBytes, string_to_gdp_name-hex_name}
use rt_fogros.Udp.Registration.{key_of}

pub done_injective : {a b : GdpName} → ◌≡◌ {A = Outcome GdpName} (done a) (done b) → a ≡ b
done_injective e = cc

-- The key tells the name and the direction.
pub key_of_injective :
    (n m : GdpName) (d e : Text)
    → IsBytes n
    → IsBytes m
    → key_of n d ≡ key_of m e
    → (n ≡ m) × (d ≡ e)
unfolding key_of debug_name
key_of_injective n m d e hn hm same = (
  done_injective (
      sym (string_to_gdp_name-hex_name n hn).0
      ∙ ap (λ k. string_to_gdp_name (take 8 (drop 2 k))) same
      ∙ (string_to_gdp_name-hex_name m hm).0),
  ap (drop 11) same,
)

pub key_of-beq :
    (n m : GdpName) (d e : Text)
    → IsBytes n
    → IsBytes m
    → text_beq (key_of n d) (key_of m e) ≡ (name_beq n m && text_beq d e)
key_of-beq n m d e hn hm = elim (Bool-cases (text_beq (key_of n d) (key_of m e))) [
  | inl same ↦
      let (names, directions) = key_of_injective n m d e hn hm ((text_beq_iff _ _).0 same) in
      rw (same, (name_beq_iff n m).1 names, (text_beq_iff d e).1 directions) refl
  | inr other ↦ elim (Bool-cases (name_beq n m)) [
    | inr no_name ↦ rw (other, no_name) refl
    | inl names ↦ elim (Bool-cases (text_beq d e)) [
      | inr no_direction ↦ rw (other, names, no_direction) refl
      | inl directions ↦
          rw (names, directions)
            ((text_beq_iff (key_of n d) (key_of m e)).1
              (ap₂ key_of ((name_beq_iff n m).0 names) ((text_beq_iff d e).0 directions)))
    ]
  ]
]
