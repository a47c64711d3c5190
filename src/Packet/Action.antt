-- ===== src/Packet/Action.antt =====
-- `GdpAction` of fogrs-common/src/packet_structs.rs and its byte codes.
use rt_fogros.Prelude.{
  ℕ, ◌≡◌, ◌⊎◌, inl, inr, refl, Option, none, some, arith, ◌==◌, if◌then◌else◌, Bool,
}

pub data GdpAction : Type 0 where
  noop forward advertise advertise_response rib_get rib_reply : GdpAction
  nack control request response ping pong : GdpAction

-- `action as u8`
unfoldable pub to_u8 : GdpAction → ℕ
to_u8 noop = 0
to_u8 forward = 1
to_u8 advertise = 2
to_u8 advertise_response = 3
to_u8 rib_get = 4
to_u8 rib_reply = 5
to_u8 nack = 6
to_u8 control = 7
to_u8 request = 8
to_u8 response = 9
to_u8 ping = 10
to_u8 pong = 11

-- `GdpAction::try_from(v)`; `none` is the error "Unknown action byte".
unfoldable try_from : ℕ → Option GdpAction
unfolding to_u8
try_from v =
    if v == to_u8 noop
    then some noop
    else if v == to_u8 rib_get
    then some rib_get
    else if v == to_u8 rib_reply
    then some rib_reply
    else if v == to_u8 forward
    then some forward
    else if v == to_u8 nack
    then some nack
    else if v == to_u8 control
    then some control
    else if v == to_u8 advertise_response
    then some advertise_response
    else none

-- The actions that `try_from` has no arm for.
abbrev IsUnreadable : GdpAction → Type 0
IsUnreadable a = (a ≡ advertise) ⊎ (a ≡ request) ⊎ (a ≡ response) ⊎ (a ≡ ping) ⊎ (a ≡ pong)

-- Reading back the byte of an action gives the action, but for the five that the match leaves out,
-- which are refused.
try_from-to_u8 :
    (a : GdpAction)
    → ((try_from (to_u8 a) ≡ some a) × ¬ IsUnreadable a)
      ⊎ ((try_from (to_u8 a) ≡ none) × IsUnreadable a)
unfolding try_from
try_from-to_u8 noop = inl (refl, λ h. ground arith)
try_from-to_u8 advertise = inr (refl, ground arith)
try_from-to_u8 request = inr (refl, ground arith)
try_from-to_u8 response = inr (refl, ground arith)
try_from-to_u8 ping = inr (refl, ground arith)
try_from-to_u8 pong = inr (refl, ground arith)
try_from-to_u8 _ = inl (refl, λ h. ground arith)

-- A byte that is accepted is the byte of the action that it stands for.
to_u8-try_from : (v : ℕ) (a : GdpAction) → try_from v ≡ some a → to_u8 a ≡ v
unfolding try_from to_u8
to_u8-try_from v a h = ground arith

-- The derived `PartialEq`.
abbrev pub action_beq : GdpAction → GdpAction → Bool
unfolding to_u8
action_beq a b = to_u8 a == to_u8 b
