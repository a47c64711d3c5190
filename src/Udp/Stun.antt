-- ===== src/Udp/Stun.antt =====
-- The STUN exchange of fogrs-core/src/network/udp.rs: `parse_response`, `udp_ice_get` and
-- `get_socket_stun`. What librice reads out of a datagram is a parameter.
use rt_fogros.Prelude.{
  ℕ, ◌≡◌, refl, ap, ◌∙◌, Text, Bool, true, false, Bool-cases, inl, inr, Option, none, some, List,
  if◌then◌else◌, Outcome, done, ◌>>=◌, unwrap,
}

pub data MessageClass : Type 0 where
  success error other : MessageClass

-- Whether the check of the attributes finds fault with the message, its class, and the address of its
-- attribute XOR-MAPPED-ADDRESS.
pub record StunMessage : Type 0 where
  pub lacks_attributes : Bool
  pub class : MessageClass
  pub mapped_address : Option Text

-- `none` is an error.
abbrev pub on_class : StunMessage → MessageClass → Outcome (Option Text)
on_class response success = unwrap response.mapped_address >>= λ addr. done (some addr)
on_class response error = done none
on_class response other = done none

unfoldable pub parse_response : StunMessage → Outcome (Option Text)
parse_response response =
    if response.lacks_attributes then done none else on_class response response.class

abbrev pub on_message : Option StunMessage → Outcome (Option Text)
unfolding parse_response
on_message none = done none
on_message (some msg) = parse_response msg

-- Whether the socket takes the request, and the first datagram that it receives within a second.
unfoldable pub udp_ice_get :
    (List ℕ → Option StunMessage) → Bool → Option (List ℕ) → Outcome (Option Text)
unfolding parse_response
udp_ice_get from_bytes sent none = done none
udp_ice_get from_bytes sent (some datagram) =
    if sent then on_message (from_bytes datagram) else done none

-- The request has no other attribute than its fingerprint, and the server is a constant.
abbrev pub get_socket_stun :
    (List ℕ → Option StunMessage) → Bool → Option (List ℕ) → Outcome (Option Text)
unfolding udp_ice_get
get_socket_stun = udp_ice_get

-- A message with which the check finds no fault has the attribute.
pub record IsChecked (from_bytes : List ℕ → Option StunMessage) : Type 0 where
  pub has_address :
      (datagram : List ℕ) (msg : StunMessage)
      → from_bytes datagram ≡ some msg
      → msg.lacks_attributes ≡ false
      → (addr : Text) × (msg.mapped_address ≡ some addr)

on_class_total :
    (msg : StunMessage) (c : MessageClass) (addr : Text)
    → msg.mapped_address ≡ some addr
    → (o : Option Text) × (on_class msg c ≡ done o)
on_class_total msg success addr e = (some addr, ap (λ a. unwrap a >>= λ x. done (some x)) e)
on_class_total msg error addr e = (none, refl)
on_class_total msg other addr e = (none, refl)

on_message_total :
    (msg : StunMessage)
    → (msg.lacks_attributes ≡ false → (addr : Text) × (msg.mapped_address ≡ some addr))
    → (o : Option Text) × (parse_response msg ≡ done o)
unfolding parse_response
on_message_total msg h = elim (Bool-cases msg.lacks_attributes) [
  | inl lacks ↦ rw lacks (none, refl)
  | inr has ↦
      let (addr, e) = h has in
      let (o, d) = on_class_total msg msg.class addr e in
      (o, ap (λ b. if b then done none else on_class msg msg.class) has ∙ d)
]

-- The exchange never panics: it ends in an address or in an error, where librice checks attributes.
pub udp_ice_get_total :
    (from_bytes : List ℕ → Option StunMessage) (sent : Bool) (received : Option (List ℕ))
    → IsChecked from_bytes
    → (o : Option Text) × (udp_ice_get from_bytes sent received ≡ done o)
unfolding udp_ice_get
udp_ice_get_total from_bytes sent none h = (none, refl)
udp_ice_get_total from_bytes false (some datagram) h = (none, refl)
udp_ice_get_total from_bytes true (some datagram) h = over (from_bytes datagram) refl
  where
    over :
        (m : Option StunMessage)
        → from_bytes datagram ≡ m
        → (o : Option Text) × (on_message m ≡ done o)
    over none e = (none, refl)
    over (some msg) e = on_message_total msg (h.has_address datagram msg e)
